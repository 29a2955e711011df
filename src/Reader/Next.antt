-- ===== src/Reader/Next.antt =====
-- Which frame `getNextFrame` hands out.
use yijinjing_lite.Prelude.{
  ℕ, zero, suc, ◌+◌, ◌≤◌, ◌≡◌, ◌≢◌, refl, subst, ◌⊎◌, inl, inr, Bool-cases, Option-cases, List,
  Option, none, some, length, get_elem?, set, get_elem?-some, arith,
}
use yijinjing_lite.Constants.{time_to_last}
use yijinjing_lite.Page.{pass_frame}
use yijinjing_lite.Provider.{Provider}
use yijinjing_lite.Journal.{Journal, pass_current_frame}
use yijinjing_lite.Reader.Object.{Reading, FrameAt, on_journal}
use yijinjing_lite.Reader.{
  Best, consider, scan_journals, pass_in_journal, take_best, get_next_frame, takes_over,
}
use yijinjing_lite.World.Effect.{ok, ◌>>=◌}
use yijinjing_lite.World.{Os, World}
use yijinjing_lite.Reader.Heads.{InPage, head_of, on_journal-head}
use yijinjing_lite.Reader.Winner.{
  with_cur, Before, Winner, Scanned, Scanned-none, Scanned-over, Scanned-kept,
}

abbrev pub AllInPage : World → List Journal → Type 0
AllInPage w js = (k : ℕ) (j : Journal) → get_elem? js k ≡ some j → InPage w j

-- No frame under a cursor has the time that stands for none.
abbrev pub AllTimed : World → List Journal → Type 0
AllTimed w js =
    (k : ℕ) (j : Journal) (f : FrameAt) (nano : ℕ)
    → get_elem? js k ≡ some j
    → head_of w j ≡ some (f, nano)
    → nano ≢ time_to_last

module _ (os : Os) (provider : Provider) (fuel : ℕ) where
  abbrev ScansTo : ℕ → ℕ → Best → Reading → Type 0
  ScansTo n i best s =
      (best' : Best) × (cur : Option ℕ) × (scan_journals os provider fuel n i best s
        ≡ (ok best', with_cur s cur))
      × Scanned s.world s.reader.journals (i + n) best' cur

  scan_step :
      (n i : ℕ) (best best' : Best) (s : Reading) (cur : Option ℕ) (j : Journal)
      → get_elem? s.reader.journals i ≡ some j
      → InPage s.world j
      → consider i best (head_of s.world j) s ≡ (ok best', with_cur s cur)
      → ScansTo n (i + 1) best' (with_cur s cur)
      → ScansTo (suc n) i best s
  unfolding scan_journals
  scan_step n i best best' s cur j at p c (b, d, e, v) = (
    b,
    d,
    rw (on_journal-head os provider fuel i s j at p, c) e,
    subst (λ (k : ℕ). Scanned s.world s.reader.journals k b d) (omega arith) v,
  )

  consider-Scanned :
      (i : ℕ) (best : Best) (s : Reading) (j : Journal)
      → get_elem? s.reader.journals i ≡ some j
      → AllTimed s.world s.reader.journals
      → Scanned s.world s.reader.journals i best s.reader.cur_journal
      → (best' : Best) × (cur : Option ℕ) × (consider i best (head_of s.world j) s
          ≡ (ok best', with_cur s cur))
        × Scanned s.world s.reader.journals (i + 1) best' cur
  unfolding consider
  consider-Scanned i best s j at t v = elim (Option-cases (head_of s.world j)) [
    | inl e ↦ (
      best,
      s.reader.cur_journal,
      rw (e, consider) refl,
      Scanned-none s.world s.reader.journals i j at best s.reader.cur_journal e v,
    )
    | inr ((f, nano), e) ↦ elim (Bool-cases (takes_over nano best.min_nano)) [
      | inl b ↦ (
        record { min_nano = nano; res_address = some f },
        some i,
        rw (e, consider, b) refl,
        Scanned-over s.world s.reader.journals i j at best s.reader.cur_journal f nano e
            (t i j f nano at e) b v,
      )
      | inr b ↦ (
        best,
        s.reader.cur_journal,
        rw (e, consider, b) refl,
        Scanned-kept s.world s.reader.journals i j at best s.reader.cur_journal f nano e
            (t i j f nano at e) b v,
      )
    ]
  ]

  scan_journals-Scanned :
      (n i : ℕ) (best : Best) (s : Reading)
      → i + n ≤ length s.reader.journals
      → AllInPage s.world s.reader.journals
      → AllTimed s.world s.reader.journals
      → Scanned s.world s.reader.journals i best s.reader.cur_journal
      → ScansTo n i best s
  unfolding scan_journals
  scan_journals-Scanned zero i best s h p t v = (
    best,
    s.reader.cur_journal,
    refl,
    subst (λ (k : ℕ). Scanned s.world s.reader.journals k best s.reader.cur_journal) (omega arith)
        v,
  )
  scan_journals-Scanned (suc n) i best s h p t v =
      let (j, at) = get_elem?-some s.reader.journals i (omega arith) in
      let (best', cur, c, v') = consider-Scanned i best s j at t v in
      scan_step n i best best' s cur j at (p i j at) c
        (scan_journals-Scanned n (i + 1) best' (with_cur s cur) (omega arith) p t v')

  -- The journal with its cursor behind the frame.
  abbrev pub past : World → Journal → Journal
  past w j = record j {
    cur_page = elim j.cur_page [ none ↦ none | some p ↦ some (pass_frame (w.contents p.buffer) p) ];
  }

  -- The reader after the frame of its current journal is passed.
  abbrev pub passed : Reading → ℕ → Journal → Reading
  passed s i j = record s {
    reader = record s.reader {
      cur_journal = some i;
      journals = set s.reader.journals i (past s.world j);
    };
  }

  abbrev pub Finds : Reading → Type 0
  Finds s =
      (f : FrameAt) × (nano : ℕ) × (v : Winner s.world s.reader.journals (length s.reader.journals)
        f nano)
      × (get_next_frame os provider fuel s ≡ (ok (some f), passed s v.winner v.journal))

  abbrev pub FindsNone : Reading → Type 0
  FindsNone s =
      (cur : Option ℕ) × Before s.reader.journals (length s.reader.journals)
        (λ j. head_of s.world j ≡ none)
      × (get_next_frame os provider fuel s ≡ (ok none, with_cur s cur))

  pass-past :
      (s : Reading) (k : ℕ) (j : Journal)
      → get_elem? s.reader.journals k ≡ some j
      → InPage s.world j
      → pass_in_journal os provider fuel (some k) (with_cur s (some k)) ≡ (ok tt, passed s k j)
  unfolding pass_in_journal pass_current_frame on_journal
  pass-past s k j at p = ground (arith, at, p.at_page)

  take_best-ends :
      (s : Reading) (best : Best) (cur : Option ℕ)
      → AllInPage s.world s.reader.journals
      → scan_journals os provider fuel
          (length s.reader.journals)
          0
          (record { min_nano = time_to_last; res_address = none })
          s
        ≡ (ok best, with_cur s cur)
      → Scanned s.world s.reader.journals (length s.reader.journals) best cur
      → FindsNone s ⊎ Finds s
  unfolding get_next_frame take_best
  take_best-ends s best cur p e (inl (a, b, c)) = inl (cur, c, rw (e, a) refl)
  take_best-ends s best cur p e (inr (f, b, (v, c))) = inr (
    f,
    best.min_nano,
    v,
    rw (e, b, c, ◌>>=◌, pass-past s v.winner v.journal v.stands (p v.winner v.journal v.stands))
        refl,
  )

  -- If all journals of a reader are reading, live, and in a page that has not ended at the
  -- cursor, and no frame under a cursor has the time that stands for none, `getNextFrame`
  -- finds nothing where no frame under a cursor is written, and else a frame that no other one
  -- precedes, and only the journal of that frame passes it.
  pub get_next_frame-least :
      (s : Reading)
      → AllInPage s.world s.reader.journals
      → AllTimed s.world s.reader.journals
      → FindsNone s ⊎ Finds s
  get_next_frame-least s p t =
      let (best, cur, e, v) =
        scan_journals-Scanned (length s.reader.journals) 0
          (record { min_nano = time_to_last; res_address = none }) s (omega arith) p t
          (inl (refl, refl, λ k j lt h. absurd (omega arith))) in
      take_best-ends s best cur p e
        (subst (λ (k : ℕ). Scanned s.world s.reader.journals k best cur) (omega arith) v)
