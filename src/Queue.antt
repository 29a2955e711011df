-- ===== src/Queue.antt =====
-- A writer and a reader of one journal that run side by side, each over its own local provider
-- (include/yijinjing/journal/JournalWriter.cpp, JournalReader.h), and the queue that they make.
pub mod Stand
pub mod Fifo
use yijinjing_lite.Prelude.{ℕ, Bool, true, false, List, [], ◌∷◌, ◌++◌, Option, none, some}
use yijinjing_lite.Page.Log.{Message}
use yijinjing_lite.Provider.{local_provider}
use yijinjing_lite.Journal.{Journal, Session}
use yijinjing_lite.Writer.Sequence.{Entry, stamped_one}
use yijinjing_lite.Writer.{write_frame}
use yijinjing_lite.Reader.Object.{Reading, FrameAt}
use yijinjing_lite.Reader.Drain.{message_at}
use yijinjing_lite.Reader.{get_next_frame}
use yijinjing_lite.World.Effect.{Run, pure, ◌>>=◌}
use yijinjing_lite.World.{Os}

pub record Pair : Type 0 where
  pub writer : Journal
  pub reading : Reading

pub data Op : Type 0 where
  writes : Entry → Op
  reads : Op

pub data Answer : Type 0 where
  wrote : ℕ → Answer
  got : Option Message → Answer

module _ {A : Type 0} where
  abbrev pub on_writer : Run Session A → Run Pair A
  on_writer m s =
      let (r, t) = m (record { world = s.reading.world; journal = s.writer }) in
      (r, record { writer = t.journal; reading = record s.reading { world = t.world } })

  abbrev pub on_reader : Run Reading A → Run Pair A
  on_reader m s = let (r, t) = m s.reading in (r, record s { reading = t })

-- What a client reads of the frame that it was given.
abbrev pub answer_of : Option FrameAt → Run Pair Answer
answer_of none = pure (got none)
answer_of (some f) =
    λ s. pure (got (some (message_at (s.reading.world.contents f.buffer) f.address))) s

module _ (os : Os) (auto_hash : Bool) (fuel : ℕ) where
  unfoldable pub apply : Op → Run Pair Answer
  apply (writes e) = do
    t ←
        on_writer
          (write_frame os (local_provider true) auto_hash fuel e.bytes e.msg_type e.last_flag)
    pure (wrote t)
  apply reads = do
    found ← on_reader (get_next_frame os (local_provider false) fuel)
    answer_of found

  -- The calls one after the other, in the order in which the two make them.
  unfoldable pub apply_all : List Op → Run Pair (List Answer)
  apply_all [] = pure []
  apply_all (op ∷ ops) = do a ← apply op; answers ← apply_all ops; pure (a ∷ answers)

-- What a queue with the messages `ms` answers, and what it has left in the end.
pub data Queue : List Message → List Op → List Answer → List Message → Type 0 where
  ended : {ms : List Message} → Queue ms [] [] ms
  enqueued :
      {ms left : List Message} {ops : List Op} {answers : List Answer} (e : Entry) (t : ℕ)
      → Queue (ms ++ stamped_one t e ∷ []) ops answers left
      → Queue ms (writes e ∷ ops) (wrote t ∷ answers) left
  empty :
      {left : List Message} {ops : List Op} {answers : List Answer}
      → Queue [] ops answers left
      → Queue [] (reads ∷ ops) (got none ∷ answers) left
  dequeued :
      {ms left : List Message} {ops : List Op} {answers : List Answer} (r : Message)
      → Queue ms ops answers left
      → Queue (r ∷ ms) (reads ∷ ops) (got (some r) ∷ answers) left
