-- ===== src/Turns/Keeps.antt =====
-- One turn: the journal of its writer has one message more, and the others are as they were.
use yijinjing_lite.Prelude.{
  All-get_elem?, All_of_places, get_elem?-set, get_elem?-map-some, set-map,
}
use yijinjing_lite.Prelude.{
  ℕ, suc, ◌+◌, ◌<◌, ◌≤◌, ◌^◌, ◌≡◌, ◌≢◌, refl, sym, ap, subst, ◌∙◌, Bool, true, false, List, [], ◌∷◌,
  ◌++◌, length, map, All, some, get_elem?, set, arith, inl, inr,
}
use yijinjing_lite.Constants.{time_to_last}
use yijinjing_lite.Memory.{int64_lt}
use yijinjing_lite.Page.Log.{Message, Fits}
use yijinjing_lite.Provider.{local_provider}
use yijinjing_lite.Writer.{write_frame}
use yijinjing_lite.Writer.Frames.{writing, at_page}
use yijinjing_lite.Writer.Log.{Log, Represents, messages, All-append}
use yijinjing_lite.Writer.Confined.{Apart, Represents-Confined, Apart-first, Apart-second}
use yijinjing_lite.Writer.Appended.{Appended}
use yijinjing_lite.Writer.Append.{write_frame-Represents}
use yijinjing_lite.Writer.Sequence.{Entry, IsSmall, stamped_one}
use yijinjing_lite.Reader.Merging.{InOrder, InOrder-append, not_earlier_trans}
use yijinjing_lite.Reader.Taken.{IsTimed}
use yijinjing_lite.Reader.Merge.{Source}
use yijinjing_lite.Turns.{Shared, turn_of, turn}
use yijinjing_lite.World.Effect.{ok}
use yijinjing_lite.World.{Os, World}
use yijinjing_lite.World.New.{Healthy}

-- The writers stand behind their journals.
abbrev pub shared : World → List Source → Shared
shared w xs = record { world = w; writers = map (λ x. writing x.place x.log.page) xs }

-- No time of the journal is behind the clock.
abbrev pub Passed : ℕ → List Message → Type 0
Passed now = All (λ q. int64_lt now q.nano ≡ false)

-- A journal that has room for `n` more page files.
pub record Open (os : Os) (w : World) (n : ℕ) (x : Source) : Type 0 where
  pub represents : Represents w x.place x.log
  pub from_first : x.log.first ≡ 1
  pub short_name : length x.place.short_name < 30
  pub pages : x.log.page.page_num + n < 2 ^ 15
  pub timed : IsTimed (messages x.log)
  pub in_order : InOrder (messages x.log)
  pub passed : Passed (os.clock w.readings) (messages x.log)

-- Any two journals are apart.
abbrev pub Separate : List Source → Type 0
Separate xs =
    (i k : ℕ) (x y : Source)
    → i ≢ k
    → get_elem? xs i ≡ some x
    → get_elem? xs k ≡ some y
    → Apart x.place y.place x.log y.log

-- The clock never runs back, its times fit 64 bits, and none is the time that stands for none.
pub record Steady (os : Os) : Type 0 where
  pub forward : (m n : ℕ) → m ≤ n → int64_lt (os.clock n) (os.clock m) ≡ false
  pub fits : (n : ℕ) → os.clock n < 2 ^ 64
  pub timed : (n : ℕ) → os.clock n ≢ time_to_last

Passed-later :
    (now later : ℕ) (ms : List Message)
    → int64_lt later now ≡ false
    → Passed now ms
    → Passed later ms
Passed-later now later [] le h = tt
Passed-later now later (q ∷ ms) le h =
    (not_earlier_trans q.nano now later h.0 le, Passed-later now later ms le h.1)

module _ (os : Os) (steady : Steady os) (n : ℕ) (w : World) (xs : List Source)
    (opened : All (Open os w (suc n)) xs) (separate : Separate xs) (i : ℕ) (x : Source)
    (at : get_elem? xs i ≡ some x) (e : Entry) (g : Log) (v : World)
    (appended : Appended w x.place x.log g v (stamped_one (os.clock w.readings) e)) where
  abbrev x' : Source
  x' = record { place = x.place; log = g }

  abbrev mine : Open os w (suc n) x
  mine = All-get_elem? (Open os w (suc n)) xs i x opened at

  later : int64_lt (os.clock v.readings) (os.clock w.readings) ≡ false
  later = steady.forward w.readings v.readings (omega (arith, appended.confined.readings))

  still_passed :
      (ms : List Message) → Passed (os.clock w.readings) ms → Passed (os.clock v.readings) ms
  still_passed ms h = Passed-later (os.clock w.readings) (os.clock v.readings) ms later h

  mine-Open : Open os v n x'
  mine-Open =
      let r = stamped_one (os.clock w.readings) e in
      record {
        represents = appended.represents;
        from_first = appended.first_page ∙ mine.from_first;
        short_name = mine.short_name;
        pages = omega (arith, appended.pages, mine.pages);
        timed =
            rw appended.content
              (All-append _ (messages x.log) r mine.timed (steady.timed w.readings));
        in_order =
            rw appended.content (InOrder-append (messages x.log) r mine.in_order mine.passed);
        passed =
            rw appended.content
              (All-append _ (messages x.log) r (still_passed _ mine.passed) later);
      }

  other-Open : (k : ℕ) (y : Source) → i ≢ k → get_elem? xs k ≡ some y → Open os v n y
  other-Open k y ne there =
      let h = All-get_elem? (Open os w (suc n)) xs k y opened there in
      record {
        represents =
            Represents-Confined w v x.place y.place x.log g y.log appended.confined h.represents
              (omega (arith, h.pages)) (separate i k x y ne at there);
        from_first = h.from_first;
        short_name = h.short_name;
        pages = omega (arith, h.pages);
        timed = h.timed;
        in_order = h.in_order;
        passed = still_passed _ h.passed;
      }

  pub turn-Open : All (Open os v n) (set xs i x')
  turn-Open = All_of_places (Open os v n) (set xs i x') (λ k y there.
      elim (get_elem?-set xs i k x' y there) [
        | inl h ↦ subst (Open os v n) (sym h.1) mine-Open
        | inr h ↦ other-Open k y (λ same. h.0 (sym same)) h.1
      ])

  mine_first :
      (k : ℕ) (y : Source) → i ≢ k → get_elem? xs k ≡ some y → Apart x.place y.place g y.log
  mine_first k y ne there =
      let h = All-get_elem? (Open os w (suc n)) xs k y opened there in
      Apart-first w v x.place y.place x.log g y.log appended.confined h.represents
        (omega (arith, h.pages)) (separate i k x y ne at there)

  mine_second :
      (k : ℕ) (y : Source) → i ≢ k → get_elem? xs k ≡ some y → Apart y.place x.place y.log g
  mine_second k y ne there =
      let h = All-get_elem? (Open os w (suc n)) xs k y opened there in
      Apart-second w v x.place y.place x.log g y.log appended.confined h.represents
        (omega (arith, h.pages)) (separate i k x y ne at there)
        (separate k i y x (λ same. ne (sym same)) there at)

  pub turn-Separate : Separate (set xs i x')
  turn-Separate j k y z ne here there = elim (get_elem?-set xs i j x' y here) [
    | inl a ↦ elim (get_elem?-set xs i k x' z there) [
      | inl b ↦ absurd (ne (a.0 ∙ sym b.0))
      | inr b ↦
          subst (λ (y : Source). Apart y.place z.place y.log z.log) (sym a.1)
            (mine_first k z (λ same. b.0 (sym same)) b.1)
    ]
    | inr a ↦ elim (get_elem?-set xs i k x' z there) [
      | inl b ↦
          subst (λ (z : Source). Apart y.place z.place y.log z.log) (sym b.1)
            (mine_second j y (λ same. a.0 (sym same)) a.1)
      | inr b ↦ separate j k y z ne a.1 b.1
    ]
  ]

-- What a turn of writer `i` leaves.
pub record Turned (os : Os) (w : World) (n : ℕ) (xs : List Source) (i : ℕ) (x : Source)
    (r : Message) (x' : Source) (v : World) : Type 0 where
  pub opened : All (Open os v n) (set xs i x')
  pub separate : Separate (set xs i x')
  pub content : messages x'.log ≡ messages x.log ++ r ∷ []
  pub same_place : x'.place ≡ x.place

module _ (os : Os) (healthy : Healthy os) (steady : Steady os) (auto_hash : Bool) (rounds n : ℕ)
    (w : World) (xs : List Source) (opened : All (Open os w (suc n)) xs) (separate : Separate xs)
    (i : ℕ) (x : Source) (at : get_elem? xs i ≡ some x) (e : Entry) (small : IsSmall e) where
  turn-returns :
      (g : Log) (v : World)
      → write_frame os
          (local_provider true)
          auto_hash
          (suc (suc rounds))
          e.bytes
          e.msg_type
          e.last_flag
          (at_page w x.place x.log.page)
        ≡ (ok (os.clock w.readings), at_page v x.place g.page)
      → turn os auto_hash (suc (suc rounds)) (record { writer = i; entry = e }) (shared w xs)
        ≡ (ok (os.clock w.readings), shared v (set xs i (record { place = x.place; log = g })))
  unfolding turn turn_of
  turn-returns g v writes =
      rw (get_elem?-map-some (λ x. writing x.place x.log.page) xs i x at, writes)
        (ap (λ js. (ok (os.clock w.readings), record { world = v; writers = js }))
          (sym (
            set-map (λ (x : Source). writing x.place x.log.page) xs i
              (record { place = x.place; log = g }))))

  pub turn-Turned :
      (x' : Source) × (v : World) × (turn os auto_hash
          (suc (suc rounds))
          (record { writer = i; entry = e })
          (shared w xs)
        ≡ (ok (os.clock w.readings), shared v (set xs i x')))
      × Turned os w n xs i x (stamped_one (os.clock w.readings) e) x' v
  turn-Turned =
      let h = All-get_elem? (Open os w (suc n)) xs i x opened at in
      let fits : Fits (stamped_one (os.clock w.readings) e) = record {
        nano_fits = steady.fits w.readings;
        type_fits = small.type_fits;
        flag_fits = small.flag_fits;
        size_fits = omega (arith, small.size_fits);
      } in
      let (g, v, writes, appended) =
        write_frame-Represents os healthy auto_hash rounds w x.place x.log e.bytes e.msg_type
          e.last_flag h.represents h.short_name (steady.fits (w.readings + 1))
          (omega (arith, h.pages)) fits small.size_fits in
      (
        record { place = x.place; log = g },
        v,
        turn-returns g v writes,
        record {
          opened = turn-Open os steady n w xs opened separate i x at e g v appended;
          separate = turn-Separate os steady n w xs opened separate i x at e g v appended;
          content = appended.content;
          same_place = refl;
        },
      )
