-- ===== src/Turns/Merged.antt =====
-- What several writers have written, in any order of their calls, a reader of all their journals
-- gets in the order of time.
use mathlib.Core.List.{Perm, perm_middle}
use mathlib.Core.List.Perm
use yijinjing_lite.Prelude.{
  ℕ, suc, ◌+◌, ◌<◌, ◌≡◌, refl, sym, ap, subst, ◌∙◌, Bool, List, [], ◌∷◌, ◌++◌, length, map, none,
  All, some, get_elem?, set, arith, get_elem?-some, get_elem?-map-some, set-map, set-get_elem?,
  length-set,
}
use yijinjing_lite.Page.Log.{Message}
use yijinjing_lite.Writer.Frames.{Place}
use yijinjing_lite.Writer.Log.{messages}
use yijinjing_lite.Writer.Sequence.{Entry, IsSmall, stamped, stamped_one}
use yijinjing_lite.Reader.Object.{Reading}
use yijinjing_lite.Reader.One.{Fixed}
use yijinjing_lite.Reader.Streams.{reading_all}
use yijinjing_lite.Reader.Drain.{take_frames}
use yijinjing_lite.Reader.Merging.{InOrder, concat, concat-appended, length-concat_appended}
use yijinjing_lite.Reader.Merge.{Source, IsSource, logs, unread, take_frames-Merges}
use yijinjing_lite.Turns.Keeps.{shared, Open, Separate, Steady, Turned, turn-Turned}
use yijinjing_lite.Turns.{Shared, Call, turn, take_turns}
use yijinjing_lite.World.Effect.{Run, ok, pure, ◌>>=◌, bind_returns}
use yijinjing_lite.World.{Os, World}
use yijinjing_lite.World.New.{Healthy}

-- The writer is there, and the frame no larger than the headroom.
pub record Possible (xs : List Source) (c : Call) : Type 0 where
  pub writer : c.writer < length xs
  pub small : IsSmall c.entry

abbrev pub entries : List Call → List Entry
entries = map (λ c. c.entry)

abbrev pub places : List Source → List Place
places = map (λ x. x.place)

places-set :
    (xs : List Source) (i : ℕ) (x x' : Source)
    → get_elem? xs i ≡ some x
    → x'.place ≡ x.place
    → places (set xs i x') ≡ places xs
places-set xs i x x' at same =
    set-map (λ x. x.place) xs i x'
    ∙ set-get_elem? (places xs) i x'.place
        (get_elem?-map-some (λ x. x.place) xs i x at ∙ ap some (sym same))

Possible-set :
    (xs : List Source) (i : ℕ) (x : Source) (cs : List Call)
    → All (Possible xs) cs
    → All (Possible (set xs i x)) cs
Possible-set xs i x [] h = tt
Possible-set xs i x (c ∷ cs) h = (
  record { writer = omega (arith, h.0.writer, length-set xs i x); small = h.0.small },
  Possible-set xs i x cs h.1,
)

module _ (os : Os) (healthy : Healthy os) (steady : Steady os) (auto_hash : Bool) (rounds : ℕ) where
  abbrev run_all : List Call → Run Shared (List ℕ)
  run_all = take_turns os auto_hash (suc (suc rounds))

  take_turns-cons :
      (c : Call) (cs : List Call) (s s1 s2 : Shared) (t : ℕ) (ts : List ℕ)
      → turn os auto_hash (suc (suc rounds)) c s ≡ (ok t, s1)
      → run_all cs s1 ≡ (ok ts, s2)
      → run_all (c ∷ cs) s ≡ (ok (t ∷ ts), s2)
  unfolding take_turns
  take_turns-cons c cs s s1 s2 t ts first rest =
      bind_returns (turn os auto_hash (suc (suc rounds)) c)
        (λ t. run_all cs >>= λ ts. pure (t ∷ ts)) s s1 t first
      ∙ bind_returns (run_all cs) (λ ts. pure (t ∷ ts)) s1 s2 ts rest

  -- What the calls leave.
  record Filled (w : World) (xs : List Source) (cs : List Call) (ts : List ℕ) (ys : List Source)
      (v : World) : Type 0 where
    runs : run_all cs (shared w xs) ≡ (ok ts, shared v ys)
    times : length ts ≡ length cs
    opened : All (Open os v 0) ys
    content : Perm (stamped ts (entries cs) ++ concat (logs xs)) (concat (logs ys))
    count : length (concat (logs ys)) ≡ length cs + length (concat (logs xs))
    same_places : places ys ≡ places xs

  logs-Turned :
      (w v : World) (n : ℕ) (xs : List Source) (i : ℕ) (x x' : Source) (r : Message)
      → get_elem? xs i ≡ some x
      → Turned os w n xs i x r x' v
      → Perm (r ∷ concat (logs xs)) (concat (logs (set xs i x')))
        × (length (concat (logs (set xs i x'))) ≡ suc (length (concat (logs xs))))
  logs-Turned w v n xs i x x' r at turned =
      let journal : Source → List Message = λ x. messages x.log in
      let at_log = get_elem?-map-some journal xs i x at in
      rw (set-map journal xs i x', turned.content)
        (
          concat-appended (logs xs) i (messages x.log) r at_log,
          length-concat_appended (logs xs) i (messages x.log) r at_log,
        )

  take_turns-Filled :
      (cs : List Call) (w : World) (xs : List Source)
      → All (Possible xs) cs
      → All (Open os w (length cs)) xs
      → Separate xs
      → (ts : List ℕ) × (ys : List Source) × (v : World) × Filled w xs cs ts ys v
  unfolding take_turns
  take_turns-Filled [] w xs possible opened separate = (
    [],
    xs,
    w,
    record {
      runs = refl;
      times = refl;
      opened = opened;
      content = Perm.refl _;
      count = omega arith;
      same_places = refl;
    },
  )
  take_turns-Filled (c ∷ cs) w xs possible opened separate =
      let (x, at) = get_elem?-some xs c.writer possible.0.writer in
      let (x', u, first, turned) =
        turn-Turned os healthy steady auto_hash rounds (length cs) w xs opened separate c.writer x
          at c.entry possible.0.small in
      let (ts, ys, v, rest) =
        take_turns-Filled cs u (set xs c.writer x') (Possible-set xs c.writer x' cs possible.1)
          turned.opened turned.separate in
      let r = stamped_one (os.clock w.readings) c.entry in
      let old = concat (logs xs) in
      let (one, longer) = logs-Turned w u (length cs) xs c.writer x x' r at turned in
      (
        os.clock w.readings ∷ ts,
        ys,
        v,
        record {
          runs = take_turns-cons c cs _ _ _ (os.clock w.readings) ts first rest.runs;
          times = ap suc rest.times;
          opened = rest.opened;
          content =
              Perm.trans (Perm.symm (perm_middle (stamped ts (entries cs)) old))
                (Perm.trans (Perm.append_left (stamped ts (entries cs)) one) rest.content);
          count = omega (arith, rest.count, longer);
          same_places = rest.same_places ∙ places-set xs c.writer x x' at turned.same_place;
        },
      )

  all_sources : (v : World) (ys : List Source) → All (Open os v 0) ys → All (IsSource v) ys
  all_sources v [] h = tt
  all_sources v (y ∷ ys) h = (
    record {
      represents = h.0.represents;
      pages = omega (arith, h.0.pages);
      from_first = h.0.from_first;
      timed = h.0.timed;
      in_order = h.0.in_order;
    },
    all_sources v ys h.1,
  )

  -- If the disk holds the journals `xs`, which have no file and no page in common, each from
  -- page 1 on and in the order of its times, and their writers stand behind them, then the
  -- calls `cs` of `write_frame`, in whatever order the writers make them, all return. After
  -- that a new reader of all the journals that asks for one frame more than there are messages
  -- gets the messages that were there and the entries that were written, with the times of
  -- their calls, each once and in the order of time, and then none. The entries are no larger
  -- than the headroom, there is a page number below 2^15 left for every call, the names have
  -- under 30 bytes, the system calls succeed, no time of a journal is the time that stands for
  -- none or later than the clock, and the clock does not run back, fits 64 bits and never
  -- gives that time.
  pub take_frames-take_turns :
      (fuel : ℕ) (w : World) (xs : List Source) (cs : List Call) (o : Fixed)
      → All (Open os w (length cs)) xs
      → Separate xs
      → All (Possible xs) cs
      → (ts : List ℕ) × (ys : List Source) × (v : World) × (out : List Message) × (s : Reading)
        × (take_turns os auto_hash (suc (suc rounds)) cs (shared w xs) ≡ (ok ts, shared v ys))
        × (length ts ≡ length cs)
        × (places ys ≡ places xs)
        × (take_frames os fuel
              (suc (length cs + length (concat (logs xs))))
              (reading_all v (map unread ys) none o)
            ≡ (ok out, s))
        × Perm (stamped ts (entries cs) ++ concat (logs xs)) out
        × InOrder out
  take_frames-take_turns fuel w xs cs o opened separate possible =
      let (ts, ys, v, filled) = take_turns-Filled cs w xs possible opened separate in
      let (out, s, takes, merges, perm, order, same) =
        take_frames-Merges os healthy fuel v o ys (all_sources v ys filled.opened) in
      (
        ts,
        ys,
        v,
        out,
        s,
        filled.runs,
        filled.times,
        filled.same_places,
        subst
            (λ (n : ℕ).
              take_frames os fuel (suc n) (reading_all v (map unread ys) none o) ≡ (ok out, s))
            filled.count takes,
        Perm.trans filled.content perm,
        order,
      )
