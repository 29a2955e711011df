-- ===== src/Map.antt =====
-- `std::map` as the program uses it: an association list that `insert` keeps in the order of the
-- keys, so that iteration goes as in the source.
pub mod Laws
use yijinjing_lite.Prelude.{
  ℕ, ◌≡◌, ◌↔◌, Bool, true, false, List, [], ◌∷◌, Option, none, some, bytes_eq, bytes_eq_iff, ltb,
  ◌==◌, ==_iff, if◌then◌else◌,
}

-- The comparisons that a map makes of its keys.
pub record Key (K : Type 0) : Type 0 where
  pub beq : K → K → Bool
  pub beq_iff : (a b : K) → (beq a b ≡ true) ↔ (a ≡ b)
  pub before : K → K → Bool

-- `strcmp` and `std::string` order the bytes lexicographically.
unfoldable pub bytes_lt : List ℕ → List ℕ → Bool
bytes_lt xs [] = false
bytes_lt [] (y ∷ ys) = true
bytes_lt (x ∷ xs) (y ∷ ys) = if x == y then bytes_lt xs ys else ltb x y

instance abbrev pub bytes_key : Key (List ℕ)
bytes_key = record { beq = bytes_eq; beq_iff = bytes_eq_iff; before = bytes_lt }

unfoldable pub nat_beq : ℕ → ℕ → Bool
nat_beq a b = a == b

pub nat_beq_iff : (a b : ℕ) → (nat_beq a b ≡ true) ↔ (a ≡ b)
unfolding nat_beq
nat_beq_iff = ==_iff

instance abbrev pub nat_key : Key ℕ
nat_key = record { beq = nat_beq; beq_iff = nat_beq_iff; before = ltb }

abbrev pub Map : Type 0 → Type 0 → Type 0
Map K V = List (K × V)

module _ {K V : Type 0} ⦃key : Key K⦄ where
  -- m.find(k)
  unfoldable pub find : Map K V → K → Option V
  find [] k = none
  find ((j, v) ∷ m) k = if key.beq j k then some v else find m k

  -- m[k] = v
  unfoldable pub insert : Map K V → K → V → Map K V
  insert [] k v = (k, v) ∷ []
  insert ((j, w) ∷ m) k v =
      if key.beq j k
      then (k, v) ∷ m
      else if key.before k j
      then (k, v) ∷ (j, w) ∷ m
      else (j, w) ∷ insert m k v

  -- m.erase(k)
  unfoldable pub erase : Map K V → K → Map K V
  erase [] k = []
  erase ((j, w) ∷ m) k = let rest = erase m k in if key.beq j k then rest else (j, w) ∷ rest
