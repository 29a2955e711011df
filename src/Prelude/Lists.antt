-- ===== src/Prelude/Lists.antt =====
-- Lists measured and indexed by native numbers, under the library's names.
use Prim.Native.Nat.{ℕ, zero, suc, ◌+◌, ◌≤◌, ◌<◌}
use Prim.Native.Char.{code}
use Prim.Native.String.{String}
use mathlib.Core.Path.{◌≡◌, refl, ap, subst}
use mathlib.Core.Logic.{◌≢◌, ◌⊎◌, inl, inr}
use mathlib.Core.List.{List, [], ◌∷◌, ◌++◌, map}
use mathlib.Core.Option.{Option, none, some}
use native.Mathlib.Omega.{arith}

-- The bytes of a text in ASCII.
abbrev pub codes : String → List ℕ
codes String.[] = []
codes (String.◌∷◌ c s) = code c ∷ codes s

-- A predicate on every element.
abbrev pub All {ℓ κ} : {A : Type ℓ} → (A → Type κ) → List A → Type κ
All P [] = Unit
All P (x ∷ xs) = P x × All P xs

module _ {ℓ} {A : Type ℓ} where
  abbrev pub length : List A → ℕ
  length [] = 0
  length (x ∷ xs) = suc (length xs)

  abbrev pub get_elem? : List A → ℕ → Option A
  get_elem? [] i = none
  get_elem? (x ∷ xs) zero = some x
  get_elem? (x ∷ xs) (suc i) = get_elem? xs i

  abbrev pub get_or : List A → ℕ → A → A
  get_or [] i d = d
  get_or (x ∷ xs) zero d = x
  get_or (x ∷ xs) (suc i) d = get_or xs i d

  -- A write out of bounds changes nothing.
  abbrev pub set : List A → ℕ → A → List A
  set [] i v = []
  set (x ∷ xs) zero v = v ∷ xs
  set (x ∷ xs) (suc i) v = x ∷ set xs i v

  pub length-append : (xs ys : List A) → length (xs ++ ys) ≡ length xs + length ys
  length-append [] ys = omega arith
  length-append (x ∷ xs) ys = omega (arith, length-append xs ys)

module _ {ℓ} {A : Type ℓ} where
  pub length-set : (xs : List A) (i : ℕ) (v : A) → length (set xs i v) ≡ length xs
  length-set [] i v = refl
  length-set (x ∷ xs) zero v = refl
  length-set (x ∷ xs) (suc i) v = ap suc (length-set xs i v)

  pub get_or-set_self :
      (xs : List A) (i : ℕ) (v d : A) → i < length xs → get_or (set xs i v) i d ≡ v
  get_or-set_self [] i v d h = absurd (omega arith)
  get_or-set_self (x ∷ xs) zero v d h = refl
  get_or-set_self (x ∷ xs) (suc i) v d h = get_or-set_self xs i v d (omega arith)

  pub get_or-set_ne :
      (xs : List A) (i j : ℕ) (v d : A) → i ≢ j → get_or (set xs i v) j d ≡ get_or xs j d
  get_or-set_ne [] i j v d h = refl
  get_or-set_ne (x ∷ xs) zero zero v d h = absurd (h refl)
  get_or-set_ne (x ∷ xs) zero (suc j) v d h = refl
  get_or-set_ne (x ∷ xs) (suc i) zero v d h = refl
  get_or-set_ne (x ∷ xs) (suc i) (suc j) v d h = get_or-set_ne xs i j v d (λ e. h (ap suc e))

module _ {ℓ} {A : Type ℓ} where
  abbrev pub take : ℕ → List A → List A
  take zero xs = []
  take (suc n) [] = []
  take (suc n) (x ∷ xs) = x ∷ take n xs

  abbrev pub drop : ℕ → List A → List A
  drop zero xs = xs
  drop (suc n) [] = []
  drop (suc n) (x ∷ xs) = drop n xs

  pub drop-append : (xs ys : List A) → drop (length xs) (xs ++ ys) ≡ ys
  drop-append [] ys = refl
  drop-append (x ∷ xs) ys = drop-append xs ys

  pub take_all : (n : ℕ) (xs : List A) → length xs ≤ n → take n xs ≡ xs
  take_all zero [] h = refl
  take_all zero (x ∷ xs) h = absurd (omega arith)
  take_all (suc n) [] h = refl
  take_all (suc n) (x ∷ xs) h = ap (◌∷◌ x) (take_all n xs (omega arith))

module _ {ℓ} {A : Type ℓ} where
  pub get_elem?-some : (xs : List A) (i : ℕ) → i < length xs → (x : A) × (get_elem? xs i ≡ some x)
  get_elem?-some [] i h = absurd (omega arith)
  get_elem?-some (x ∷ xs) zero h = (x, refl)
  get_elem?-some (x ∷ xs) (suc i) h = get_elem?-some xs i (omega arith)

  -- A write of what stands there changes nothing.
  pub set-get_elem? : (xs : List A) (i : ℕ) (x : A) → get_elem? xs i ≡ some x → set xs i x ≡ xs
  set-get_elem? [] i x e = refl
  set-get_elem? (y ∷ xs) zero x e = ap (λ z. z ∷ xs) (ground (arith, e))
  set-get_elem? (y ∷ xs) (suc i) x e = ap (◌∷◌ y) (set-get_elem? xs i x e)

-- The place behind a list.
module _ {ℓ κ} {A : Type ℓ} {B : Type κ} (f : A → B) where
  pub get_elem?-middle :
      (front back : List A) (x : A)
      → get_elem? (map f (front ++ x ∷ back)) (length front) ≡ some (f x)
  get_elem?-middle [] back x = refl
  get_elem?-middle (y ∷ front) back x = get_elem?-middle front back x

  pub set-middle :
      (front back : List A) (x y : A)
      → set (map f (front ++ x ∷ back)) (length front) (f y) ≡ map f (front ++ y ∷ back)
  set-middle [] back x y = refl
  set-middle (z ∷ front) back x y = ap (◌∷◌ (f z)) (set-middle front back x y)

  pub length-map : (xs : List A) → length (map f xs) ≡ length xs
  length-map [] = refl
  length-map (x ∷ xs) = ap suc (length-map xs)

  pub get_elem?-map :
      (xs : List A) (k : ℕ) (y : B)
      → get_elem? (map f xs) k ≡ some y
      → (x : A) × (get_elem? xs k ≡ some x) × (f x ≡ y)
  get_elem?-map [] k y h = absurd (ground (arith, h))
  get_elem?-map (x ∷ xs) zero y h = (x, refl, ground (arith, h))
  get_elem?-map (x ∷ xs) (suc k) y h = get_elem?-map xs k y h

  pub set-map : (xs : List A) (k : ℕ) (x : A) → map f (set xs k x) ≡ set (map f xs) k (f x)
  set-map [] k x = refl
  set-map (y ∷ xs) zero x = refl
  set-map (y ∷ xs) (suc k) x = ap (◌∷◌ (f y)) (set-map xs k x)

module _ {ℓ κ} {A : Type ℓ} (P : A → Type κ) where
  pub All-get_elem? : (xs : List A) (k : ℕ) (x : A) → All P xs → get_elem? xs k ≡ some x → P x
  All-get_elem? [] k x all h = absurd (ground (arith, h))
  All-get_elem? (y ∷ xs) zero x all h = subst P (ground (arith, h)) all.0
  All-get_elem? (y ∷ xs) (suc k) x all h = All-get_elem? xs k x all.1 h

  pub All-set : (xs : List A) (k : ℕ) (x : A) → All P xs → P x → All P (set xs k x)
  All-set [] k x all p = tt
  All-set (y ∷ xs) zero x all p = (p, all.1)
  All-set (y ∷ xs) (suc k) x all p = (all.0, All-set xs k x all.1 p)

  -- What holds at every place holds of all.
  pub All_of_places : (xs : List A) → ((k : ℕ) (x : A) → get_elem? xs k ≡ some x → P x) → All P xs
  All_of_places [] h = tt
  All_of_places (x ∷ xs) h = (h 0 x refl, All_of_places xs (λ k y e. h (suc k) y e))

module _ {ℓ κ μ} {A : Type ℓ} {B : Type κ} (P : B → Type μ) (f : A → B) where
  pub All-map_list : (xs : List A) → All (λ x. P (f x)) xs → All P (map f xs)
  All-map_list [] h = tt
  All-map_list (x ∷ xs) h = (h.0, All-map_list xs h.1)

  pub All_of_map : (xs : List A) → All P (map f xs) → All (λ x. P (f x)) xs
  All_of_map [] h = tt
  All_of_map (x ∷ xs) h = (h.0, All_of_map xs h.1)

module _ {ℓ κ} {A : Type ℓ} {B : Type κ} (f : A → B) where
  pub get_elem?-map-some :
      (xs : List A) (k : ℕ) (x : A) → get_elem? xs k ≡ some x → get_elem? (map f xs) k ≡ some (f x)
  get_elem?-map-some [] k x h = absurd (ground (arith, h))
  get_elem?-map-some (y ∷ xs) zero x h = ap some (ap f (ground (arith, h)))
  get_elem?-map-some (y ∷ xs) (suc k) x h = get_elem?-map-some xs k x h

module _ {ℓ} {A : Type ℓ} where
  pub get_elem?-lt : (xs : List A) (k : ℕ) (x : A) → get_elem? xs k ≡ some x → k < length xs
  get_elem?-lt [] k x h = absurd (ground (arith, h))
  get_elem?-lt (y ∷ xs) zero x h = omega arith
  get_elem?-lt (y ∷ xs) (suc k) x h = omega (arith, get_elem?-lt xs k x h)

module _ {ℓ} {A : Type ℓ} where
  -- After a store at place `i`: the new element there, and the old ones elsewhere.
  pub get_elem?-set :
      (xs : List A) (i k : ℕ) (v y : A)
      → get_elem? (set xs i v) k ≡ some y
      → (k ≡ i) × (y ≡ v) ⊎ (k ≢ i) × (get_elem? xs k ≡ some y)
  get_elem?-set [] i k v y h = absurd (ground (arith, h))
  get_elem?-set (x ∷ xs) zero zero v y h = inl (refl, ground (arith, h))
  get_elem?-set (x ∷ xs) zero (suc k) v y h = inr (omega arith, h)
  get_elem?-set (x ∷ xs) (suc i) zero v y h = inr (omega arith, h)
  get_elem?-set (x ∷ xs) (suc i) (suc k) v y h = elim (get_elem?-set xs i k v y h) [
    | inl e ↦ inl (ap suc e.0, e.1)
    | inr e ↦ inr (λ same. e.0 (omega (arith, same)), e.1)
  ]
