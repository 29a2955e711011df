-- ===== src/Writer/Sequence.antt =====
-- Any number of calls of `write_frame`, over as many page files as they fill.
use yijinjing_lite.Prelude.{
  ℕ, suc, ◌+◌, ◌<◌, ◌≤◌, ◌^◌, ◌≡◌, refl, sym, ap, ◌∙◌, Bool, true, List, [], ◌∷◌, ◌++◌, length, All,
  arith,
}
use mathlib.Core.List.{append-nil, append_assoc}
use yijinjing_lite.Constants.{page_min_headroom}
use yijinjing_lite.Page.Log.{Message, Fits}
use yijinjing_lite.Provider.{local_provider}
use yijinjing_lite.Journal.{Session}
use yijinjing_lite.Writer.Frames.{Place, at_page}
use yijinjing_lite.Writer.Log.{Log, messages, Represents}
use yijinjing_lite.Writer.Append.{write_frame-Represents}
use yijinjing_lite.Writer.{write_frame}
use yijinjing_lite.World.Effect.{Run, ok, pure, ◌>>=◌, bind_returns}
use yijinjing_lite.World.{Os, World}
use yijinjing_lite.World.New.{Healthy}

-- The arguments of a call.
pub record Entry : Type 0 where
  pub bytes : List ℕ
  pub msg_type : ℕ
  pub last_flag : ℕ

abbrev pub stamped_one : ℕ → Entry → Message
stamped_one t e = record {
  nano = t;
  msg_type = e.msg_type;
  last_flag = e.last_flag;
  content = e.bytes;
}

-- The entries with the times that the calls gave.
abbrev pub stamped : List ℕ → List Entry → List Message
stamped [] es = []
stamped (t ∷ ts) [] = []
stamped (t ∷ ts) (e ∷ es) = stamped_one t e ∷ stamped ts es

-- The fields fit their types, and the frame the headroom.
pub record IsSmall (e : Entry) : Type 0 where
  pub type_fits : e.msg_type < 256 ^ 2
  pub flag_fits : e.last_flag < 256 ^ 1
  pub size_fits : 20 + length e.bytes ≤ page_min_headroom

module _ (os : Os) (auto_hash : Bool) (fuel : ℕ) where
  -- One call after the other; the times that they give.
  unfoldable pub write_frames : List Entry → Run Session (List ℕ)
  write_frames [] = pure []
  write_frames (e ∷ es) = do
    t ← write_frame os (local_provider true) auto_hash fuel e.bytes e.msg_type e.last_flag
    ts ← write_frames es
    pure (t ∷ ts)

-- The calls have all returned, and the journal has all the entries behind what it had.
pub record Filled (l : Place) (g : Log) (es : List Entry) (ts : List ℕ) (g' : Log) (v : World)
    : Type 0 where
  pub represents : Represents v l g'
  pub content : messages g' ≡ messages g ++ stamped ts es
  pub times : length ts ≡ length es
  pub first_page : g'.first ≡ g.first
  pub pages : g'.page.page_num ≤ g.page.page_num + length es

module _ (os : Os) (healthy : Healthy os) (auto_hash : Bool) (rounds : ℕ) (l : Place)
    (short_name : length l.short_name < 30) (clock_fits : (n : ℕ) → os.clock n < 2 ^ 64) where
  abbrev run_all : List Entry → Run Session (List ℕ)
  run_all = write_frames os auto_hash (suc (suc rounds))

  write_frames-cons :
      (e : Entry) (es : List Entry) (s s1 s2 : Session) (t : ℕ) (ts : List ℕ)
      → write_frame os
          (local_provider true)
          auto_hash
          (suc (suc rounds))
          e.bytes
          e.msg_type
          e.last_flag
          s
        ≡ (ok t, s1)
      → run_all es s1 ≡ (ok ts, s2)
      → run_all (e ∷ es) s ≡ (ok (t ∷ ts), s2)
  unfolding write_frames
  write_frames-cons e es s s1 s2 t ts first rest =
      let after : ℕ → Run Session (List ℕ) = λ t. run_all es >>= λ ts. pure (t ∷ ts) in
      bind_returns
        (write_frame os (local_provider true) auto_hash (suc (suc rounds)) e.bytes e.msg_type
          e.last_flag)
        after s s1 t first
      ∙ bind_returns (run_all es) (λ ts. pure (t ∷ ts)) s1 s2 ts rest

  -- If the disk holds the journal `g` and its writer stands behind it, the calls of
  -- `write_frame` for the entries `es` all return, and the disk then holds a journal of the
  -- same messages with the entries behind them, each with the time of its call, and the writer
  -- stands behind that. The entries are each no larger than the headroom, page numbers stay
  -- below 2^15, the name has under 30 bytes, the clock fits 64 bits and the system calls
  -- succeed.
  pub write_frames-Represents :
      (es : List Entry) (w : World) (g : Log)
      → Represents w l g
      → All IsSmall es
      → g.page.page_num + length es < 2 ^ 15
      → (ts : List ℕ) × (g' : Log) × (v : World) × (run_all es (at_page w l g.page)
          ≡ (ok ts, at_page v l g'.page))
        × Filled l g es ts g' v
  unfolding write_frames
  write_frames-Represents [] w g rep small more = (
    [],
    g,
    w,
    refl,
    record {
      represents = rep;
      content = sym (append-nil (messages g));
      times = refl;
      first_page = refl;
      pages = omega arith;
    },
  )
  write_frames-Represents (e ∷ es) w g rep small more =
      let time = clock_fits w.readings in
      let fits : Fits (stamped_one (os.clock w.readings) e) = record {
        nano_fits = omega (arith, time);
        type_fits = small.0.type_fits;
        flag_fits = small.0.flag_fits;
        size_fits = omega (arith, small.0.size_fits);
      } in
      let (g1, u, writes, first) =
        write_frame-Represents os healthy auto_hash rounds w l g e.bytes e.msg_type e.last_flag rep
          short_name (clock_fits (w.readings + 1)) (omega arith) fits small.0.size_fits in
      let (ts, g2, v, runs, rest) =
        write_frames-Represents es u g1 first.represents small.1 (omega (arith, first.pages)) in
      (
        os.clock w.readings ∷ ts,
        g2,
        v,
        write_frames-cons e es _ _ _ (os.clock w.readings) ts writes runs,
        record {
          represents = rest.represents;
          content =
              rest.content
              ∙ ap (λ (ms : List Message). ms ++ stamped ts es) first.content
              ∙ append_assoc (messages g) _ (stamped ts es);
          times = ap suc rest.times;
          first_page = rest.first_page ∙ first.first_page;
          pages = omega (arith, first.pages, rest.pages);
        },
      )
