-- ===== src/Reader/Merging.antt =====
-- One stream out of several: what calls of `getNextFrame` give, said of lists.
use mathlib.Core.List.{Perm, perm_middle, append_assoc}
use mathlib.Core.List.Perm
use yijinjing_lite.Prelude.{
  ℕ, zero, suc, ◌≡◌, refl, sym, subst, false, List, [], ◌∷◌, ◌++◌, some, get_elem?, set, All,
  length, length-append, arith,
}
use yijinjing_lite.Memory.{int64_lt}
use yijinjing_lite.Page.Log.{Message}
use yijinjing_lite.Writer.Log.{All-append}

-- The first message of the list, if there is one, is not earlier than `nano`.
abbrev pub NotEarlier : ℕ → List Message → Type 0
NotEarlier nano [] = Unit {0}
NotEarlier nano (r ∷ rs) = int64_lt r.nano nano ≡ false

-- `out` takes the first messages of the lists, and each time one that none of the others' precedes,
-- until all lists are at their end.
pub data Merges : List (List Message) → List Message → Type 0 where
  all_read : {ss : List (List Message)} → All (λ s. s ≡ []) ss → Merges ss []
  least_next :
      {ss : List (List Message)} {rest out : List Message} (k : ℕ) (r : Message)
      → get_elem? ss k ≡ some (r ∷ rest)
      → All (NotEarlier r.nano) ss
      → Merges (set ss k rest) out
      → Merges ss (r ∷ out)

abbrev pub concat : List (List Message) → List Message
concat [] = []
concat (s ∷ ss) = s ++ concat ss

-- No message is behind a later one.
abbrev pub InOrder : List Message → Type 0
InOrder [] = Unit {0}
InOrder (r ∷ rs) = All (λ q. int64_lt q.nano r.nano ≡ false) rs × InOrder rs

-- Taking the first message of list `k`.
concat-taken :
    (ss : List (List Message)) (k : ℕ) (r : Message) (rest : List Message)
    → get_elem? ss k ≡ some (r ∷ rest)
    → Perm (concat ss) (r ∷ concat (set ss k rest))
concat-taken [] k r rest h = absurd (ground (arith, h))
concat-taken (s ∷ ss) zero r rest h =
    let first : s ≡ r ∷ rest = ground (arith, h) in rw first (Perm.refl _)
concat-taken (s ∷ ss) (suc k) r rest h =
    Perm.trans (Perm.append_left s (concat-taken ss k r rest h))
      (perm_middle s (concat (set ss k rest)))

concat-empty : (ss : List (List Message)) → All (λ s. s ≡ []) ss → concat ss ≡ []
concat-empty [] h = refl
concat-empty (s ∷ ss) h = rw h.0 (concat-empty ss h.1)

pub Merges-perm :
    {ss : List (List Message)} {out : List Message} → Merges ss out → Perm (concat ss) out
Merges-perm {ss} (Merges.all_read h) =
    subst (λ xs. Perm xs []) (sym (concat-empty ss h)) (Perm.refl [])
Merges-perm {ss} (Merges.least_next {rest} k r at least more) =
    Perm.trans (concat-taken ss k r rest at) (Perm.cons r (Merges-perm more))

-- Times are in order: `a` is not after `b`, nor `b` after `c`.
pub not_earlier_trans :
    (a b c : ℕ) → int64_lt b a ≡ false → int64_lt c b ≡ false → int64_lt c a ≡ false
unfolding int64_lt
not_earlier_trans a b c p q = ground arith

-- From the head of an ordered list on, all messages are as late.
abbrev Later : ℕ → Message → Type 0
Later nano q = int64_lt q.nano nano ≡ false

All-Later :
    (nano n : ℕ) (rs : List Message)
    → int64_lt n nano ≡ false
    → All (Later n) rs
    → All (Later nano) rs
All-Later nano n [] h all = tt
All-Later nano n (q ∷ rs) h all =
    (not_earlier_trans nano n q.nano h all.0, All-Later nano n rs h all.1)

list-Later : (nano : ℕ) (s : List Message) → NotEarlier nano s → InOrder s → All (Later nano) s
list-Later nano [] h order = tt
list-Later nano (r ∷ rs) h order = (h, All-Later nano r.nano rs h order.0)

lists-Later :
    (nano : ℕ) (ss : List (List Message))
    → All (NotEarlier nano) ss
    → All InOrder ss
    → All (All (Later nano)) ss
lists-Later nano [] h order = tt
lists-Later nano (s ∷ ss) h order = (list-Later nano s h.0 order.0, lists-Later nano ss h.1 order.1)

-- Taking the first message of list `k` keeps what is true of all lists' messages, and their order.
All-taken :
    (P : Message → Type 0) (ss : List (List Message)) (k : ℕ) (r : Message) (rest : List Message)
    → get_elem? ss k ≡ some (r ∷ rest)
    → All (All P) ss
    → P r × All (All P) (set ss k rest)
All-taken P [] k r rest h all = absurd (ground (arith, h))
All-taken P (s ∷ ss) zero r rest h all =
    let first : s ≡ r ∷ rest = ground (arith, h) in
    let both = subst (All P) first all.0 in (both.0, (both.1, all.1))
All-taken P (s ∷ ss) (suc k) r rest h all =
    let more = All-taken P ss k r rest h all.1 in (more.0, (all.0, more.1))

InOrder-taken :
    (ss : List (List Message)) (k : ℕ) (r : Message) (rest : List Message)
    → get_elem? ss k ≡ some (r ∷ rest)
    → All InOrder ss
    → All InOrder (set ss k rest)
InOrder-taken [] k r rest h all = tt
InOrder-taken (s ∷ ss) zero r rest h all =
    let first : s ≡ r ∷ rest = ground (arith, h) in ((subst InOrder first all.0).1, all.1)
InOrder-taken (s ∷ ss) (suc k) r rest h all = (all.0, InOrder-taken ss k r rest h all.1)

Merges-All :
    (P : Message → Type 0) {ss : List (List Message)} {out : List Message}
    → Merges ss out
    → All (All P) ss
    → All P out
Merges-All P (Merges.all_read h) all = tt
Merges-All P {ss} (Merges.least_next {rest} k r at least more) all =
    let taken = All-taken P ss k r rest at all in (taken.0, Merges-All P more taken.1)

-- Lists that are in order are merged in order.
pub Merges-InOrder :
    {ss : List (List Message)} {out : List Message} → Merges ss out → All InOrder ss → InOrder out
Merges-InOrder (Merges.all_read h) order = tt
Merges-InOrder {ss} (Merges.least_next {rest} k r at least more) order =
    let later = All-taken (Later r.nano) ss k r rest at (lists-Later r.nano ss least order) in
    (
      Merges-All (Later r.nano) more later.1,
      Merges-InOrder more (InOrder-taken ss k r rest at order),
    )

-- A message that is not earlier than any goes behind them.
pub InOrder-append :
    (rs : List Message) (r : Message)
    → InOrder rs
    → All (λ q. int64_lt r.nano q.nano ≡ false) rs
    → InOrder (rs ++ r ∷ [])
InOrder-append [] r order all = (tt, tt)
InOrder-append (q ∷ rs) r order all =
    (All-append _ rs r order.0 all.0, InOrder-append rs r order.1 all.1)

-- One message more at the end of list `k`.
pub concat-appended :
    (ss : List (List Message)) (k : ℕ) (s : List Message) (r : Message)
    → get_elem? ss k ≡ some s
    → Perm (r ∷ concat ss) (concat (set ss k (s ++ r ∷ [])))
concat-appended [] k s r h = absurd (ground (arith, h))
concat-appended (t ∷ ss) zero s r h =
    let first : t ≡ s = ground (arith, h) in
    rw (first, append_assoc s (r ∷ []) (concat ss)) (Perm.symm (perm_middle s (concat ss)))
concat-appended (t ∷ ss) (suc k) s r h =
    Perm.trans (Perm.symm (perm_middle t (concat ss)))
      (Perm.append_left t (concat-appended ss k s r h))

pub length-concat_appended :
    (ss : List (List Message)) (k : ℕ) (s : List Message) (r : Message)
    → get_elem? ss k ≡ some s
    → length (concat (set ss k (s ++ r ∷ []))) ≡ suc (length (concat ss))
length-concat_appended [] k s r h = absurd (ground (arith, h))
length-concat_appended (t ∷ ss) zero s r h =
    let first : t ≡ s = ground (arith, h) in
    rw first (
      omega (
        arith,
        length-append (s ++ r ∷ []) (concat ss),
        length-append s (r ∷ []),
        length-append s (concat ss),
      ))
length-concat_appended (t ∷ ss) (suc k) s r h = omega (
  arith,
  length-concat_appended ss k s r h,
  length-append t (concat (set ss k (s ++ r ∷ []))),
  length-append t (concat ss),
)
