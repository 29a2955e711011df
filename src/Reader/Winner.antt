-- ===== src/Reader/Winner.antt =====
-- What the loop of `getNextFrame` has found after some of the journals.
use yijinjing_lite.Prelude.{
  ℕ, ◌+◌, ◌<◌, ◌≡◌, ◌≢◌, refl, subst, ltb, ◌⊎◌, inl, inr, true, false, Bool-cases, List, Option,
  none, some, get_elem?, arith,
}
use yijinjing_lite.Constants.{time_to_last}
use yijinjing_lite.Memory.{int64_lt}
use yijinjing_lite.Journal.{Journal}
use yijinjing_lite.Reader.Object.{Reading, FrameAt}
use yijinjing_lite.Reader.{Best, takes_over}
use yijinjing_lite.World.{World}
use yijinjing_lite.Reader.Heads.{head_of}

abbrev pub with_cur : Reading → Option ℕ → Reading
with_cur s c = record s { reader = record s.reader { cur_journal = c } }

-- What is true of the first `n` journals.
abbrev pub Before : List Journal → ℕ → (Journal → Type 0) → Type 0
Before js n P = (k : ℕ) (j : Journal) → k < n → get_elem? js k ≡ some j → P j

abbrev pub NotBefore : World → ℕ → Journal → Type 0
NotBefore w nano j = (g : FrameAt) (m : ℕ) → head_of w j ≡ some (g, m) → int64_lt m nano ≡ false

abbrev pub NoEarlier : World → List Journal → ℕ → ℕ → Type 0
NoEarlier w js n nano = Before js n (NotBefore w nano)

-- Journal `winner` has the frame `f` of the time `nano`, and none of the first `n` journals has an earlier one.
pub record Winner (w : World) (js : List Journal) (n : ℕ) (f : FrameAt) (nano : ℕ) : Type 0 where
  pub winner : ℕ
  pub journal : Journal
  pub stands : get_elem? js winner ≡ some journal
  pub has_frame : head_of w journal ≡ some (f, nano)
  pub timed : nano ≢ time_to_last
  pub least : NoEarlier w js n nano

abbrev pub Scanned : World → List Journal → ℕ → Best → Option ℕ → Type 0
Scanned w js n best cur =
    ((best.res_address ≡ none)
      × (best.min_nano ≡ time_to_last)
      × Before js n (λ j. head_of w j ≡ none))
    ⊎ ((f : FrameAt) × (best.res_address ≡ some f)
        × ((v : Winner w js n f best.min_nano) × (cur ≡ some v.winner)))

module _ (w : World) (js : List Journal) (n : ℕ) (j : Journal) (at : get_elem? js n ≡ some j) where
  pub extend : (P : Journal → Type 0) → Before js n P → P j → Before js (n + 1) P
  extend P before last k i lt h = elim (Bool-cases (ltb k n)) [
    | inl b ↦ before k i (ground (arith, b)) h
    | inr b ↦
        let same : k ≡ n = ground (arith, b) in subst P (ground (arith, at, rw same at h)) last
  ]

  pub still :
      (f : FrameAt) (nano : ℕ)
      → Winner w js n f nano
      → NotBefore w nano j
      → Winner w js (n + 1) f nano
  still f nano v h = record {
    winner = v.winner;
    journal = v.journal;
    stands = v.stands;
    has_frame = v.has_frame;
    timed = v.timed;
    least = extend (NotBefore w nano) v.least h;
  }

  pub Scanned-none :
      (best : Best) (cur : Option ℕ)
      → head_of w j ≡ none
      → Scanned w js n best cur
      → Scanned w js (n + 1) best cur
  unfolding still
  Scanned-none best cur e (inl (a, b, c)) = inl (a, b, extend (λ i. head_of w i ≡ none) c e)
  Scanned-none best cur e (inr (f, b, (v, c))) =
      inr (f, b, (still f best.min_nano v (λ g m h. ground (arith, e, h)), c))

  module _ (best : Best) (cur : Option ℕ) (f : FrameAt) (nano : ℕ)
      (e : head_of w j ≡ some (f, nano)) (timed : nano ≢ time_to_last) where
    not_self : NotBefore w nano j
    unfolding int64_lt
    not_self g m h = ground (arith, e, h)

    taken :
        Before js n (NotBefore w nano)
        → Scanned w js (n + 1) (record { min_nano = nano; res_address = some f }) (some n)
    taken h = inr (
      f,
      refl,
      (
        record {
          winner = n;
          journal = j;
          stands = at;
          has_frame = e;
          timed = timed;
          least = extend (NotBefore w nano) h not_self;
        },
        refl,
      ),
    )

    -- The frame of journal `n` takes over, or it is not earlier.
    pub Scanned-over :
        takes_over nano best.min_nano ≡ true
        → Scanned w js n best cur
        → Scanned w js (n + 1) (record { min_nano = nano; res_address = some f }) (some n)
    unfolding takes_over int64_lt
    Scanned-over t (inl (a, b, c)) = taken (λ k i lt h g m d. ground (arith, c k i lt h, d))
    Scanned-over t (inr (g, b, (v, c))) =
        taken (λ k i lt h g m d. let d' = v.least k i lt h g m d in ground (arith, d', t, v.timed))

    pub Scanned-kept :
        takes_over nano best.min_nano ≡ false
        → Scanned w js n best cur
        → Scanned w js (n + 1) best cur
    unfolding takes_over still
    Scanned-kept t (inl (a, b, c)) = absurd (ground (arith, t, b))
    Scanned-kept t (inr (g, b, (v, c))) =
        inr (g, b, (still g best.min_nano v (λ h m d. ground (arith, e, d, t)), c))
