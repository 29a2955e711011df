-- ===== src/Map/Laws.antt =====
-- `find` after `insert` and `erase`.
use yijinjing_lite.Prelude.{◌≡◌, refl, [], ◌∷◌, none, some, arith, if◌then◌else◌}
use yijinjing_lite.Map.{Key, Map, find, insert, erase}

module _ {K V : Type 0} ⦃key : Key K⦄ where
  pub find-insert :
      (m : Map K V) (k j : K) (v : V)
      → find (insert m k v) j ≡ (if key.beq k j then some v else find m j)
  unfolding find insert
  find-insert [] k j v = refl
  find-insert ((i, w) ∷ m) k j v =
      ground (arith, find-insert m k j v, key.beq_iff i k, key.beq_iff i j, key.beq_iff k j)

  pub find-erase :
      (m : Map K V) (k j : K) → find (erase m k) j ≡ (if key.beq k j then none else find m j)
  unfolding find erase
  find-erase [] k j = ground arith
  find-erase ((i, w) ∷ m) k j =
      ground (arith, find-erase m k j, key.beq_iff i k, key.beq_iff i j, key.beq_iff k j)
