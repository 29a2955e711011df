-- ===== src/Turns.antt =====
-- Several writers on one disk, each with its own journal and its own local provider, whose calls of
-- `write_frame` come in any order (include/yijinjing/journal/JournalWriter.cpp).
pub mod Keeps
pub mod Merged
use yijinjing_lite.Prelude.{ℕ, Bool, true, List, [], ◌∷◌, Option, none, some, get_elem?, set}
use yijinjing_lite.Provider.{local_provider}
use yijinjing_lite.Journal.{Journal}
use yijinjing_lite.Writer.Sequence.{Entry}
use yijinjing_lite.Writer.{write_frame}
use yijinjing_lite.World.Effect.{Fault, Run, pure, raise, ◌>>=◌}
use yijinjing_lite.World.{Os, World}

pub record Shared : Type 0 where
  pub world : World
  pub writers : List Journal

-- Which writer makes the call, and with which arguments.
pub record Call : Type 0 where
  pub writer : ℕ
  pub entry : Entry

module _ (os : Os) (auto_hash : Bool) (fuel : ℕ) where
  -- A call for a writer that there is not is the call of a null pointer.
  unfoldable pub turn_of : Option Journal → Call → Run Shared ℕ
  turn_of none c s = raise Fault.null_pointer s
  turn_of (some j) c s =
      let e = c.entry in
      let (r, t) =
        write_frame os (local_provider true) auto_hash fuel e.bytes e.msg_type e.last_flag
          (record { world = s.world; journal = j }) in
      (r, record { world = t.world; writers = set s.writers c.writer t.journal })

  unfoldable pub turn : Call → Run Shared ℕ
  turn c s = turn_of (get_elem? s.writers c.writer) c s

  -- The calls one after the other, and the times that they give.
  unfoldable pub take_turns : List Call → Run Shared (List ℕ)
  take_turns [] = pure []
  take_turns (c ∷ cs) = do t ← turn c; ts ← take_turns cs; pure (t ∷ ts)
