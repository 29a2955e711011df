-- ===== src/Comm/Order.antt =====
-- `operator <` on messages is a strict order of the keys that `operator ==` tells apart, as
-- `std::map` asks of it.
use yijinjing_lite.Prelude.{
  ℕ, ◌^◌, ◌<◌, ◌≡◌, ◌↔◌, refl, true, false, List, [], ◌∷◌, arith, bytes_eq_iff,
}
use yijinjing_lite.Memory.{short_lt}
use yijinjing_lite.Map.{bytes_lt}
use yijinjing_lite.Comm.{FileKey, comm_msg_eq, comm_msg_lt}

bytes_lt_irrefl : (xs : List ℕ) → bytes_lt xs xs ≡ false
unfolding bytes_lt
bytes_lt_irrefl [] = refl
bytes_lt_irrefl (x ∷ xs) = ground (arith, bytes_lt_irrefl xs)

bytes_lt_trans :
    (xs ys zs : List ℕ) → bytes_lt xs ys ≡ true → bytes_lt ys zs ≡ true → bytes_lt xs zs ≡ true
unfolding bytes_lt
bytes_lt_trans xs [] zs h k = cc
bytes_lt_trans xs (y ∷ ys) [] h k = cc
bytes_lt_trans [] (y ∷ ys) (z ∷ zs) h k = refl
bytes_lt_trans (x ∷ xs) (y ∷ ys) (z ∷ zs) h k = ground (arith, bytes_lt_trans xs ys zs)

bytes_lt_total : (xs ys : List ℕ) → bytes_lt xs ys ≡ false → bytes_lt ys xs ≡ false → xs ≡ ys
unfolding bytes_lt
bytes_lt_total [] [] h k = refl
bytes_lt_total [] (y ∷ ys) h k = cc
bytes_lt_total (x ∷ xs) [] h k = cc
bytes_lt_total (x ∷ xs) (y ∷ ys) h k = ground (arith, bytes_lt_total xs ys)

-- Equality of messages is equality of their keys.
pub comm_msg_eq_iff : (a b : FileKey) → (comm_msg_eq a b ≡ true) ↔ (a ≡ b)
unfolding comm_msg_eq
comm_msg_eq_iff a b = ground (arith, bytes_eq_iff a.folder b.folder, bytes_eq_iff a.name b.name)

-- No message is before itself.
pub comm_msg_lt_irrefl : (a : FileKey) → comm_msg_lt a a ≡ false
unfolding comm_msg_lt short_lt
comm_msg_lt_irrefl a = ground (
  arith,
  bytes_lt_irrefl a.folder,
  bytes_lt_irrefl a.name,
  bytes_eq_iff a.folder a.folder,
  bytes_eq_iff a.name a.name,
)

-- `operator <` of messages is transitive.
pub comm_msg_lt_trans :
    (a b c : FileKey) → comm_msg_lt a b ≡ true → comm_msg_lt b c ≡ true → comm_msg_lt a c ≡ true
unfolding comm_msg_lt short_lt
comm_msg_lt_trans a b c h k = ground (
  arith,
  bytes_eq_iff a.folder b.folder,
  bytes_eq_iff b.folder c.folder,
  bytes_eq_iff a.folder c.folder,
  bytes_eq_iff a.name b.name,
  bytes_eq_iff b.name c.name,
  bytes_eq_iff a.name c.name,
  bytes_lt_trans a.folder b.folder c.folder,
  bytes_lt_irrefl a.folder,
  bytes_lt_trans a.name b.name c.name,
  bytes_lt_irrefl a.name,
)

-- Two messages with 16-bit page numbers, neither of them before the other, are equal for
-- `operator ==`.
pub comm_msg_lt_total :
    (a b : FileKey)
    → a.page_num < 2 ^ 16
    → b.page_num < 2 ^ 16
    → comm_msg_lt a b ≡ false
    → comm_msg_lt b a ≡ false
    → comm_msg_eq a b ≡ true
unfolding comm_msg_lt comm_msg_eq short_lt
comm_msg_lt_total a b ha hb h k = ground (
  arith,
  bytes_eq_iff a.folder b.folder,
  bytes_eq_iff b.folder a.folder,
  bytes_eq_iff a.name b.name,
  bytes_eq_iff b.name a.name,
  bytes_lt_total a.folder b.folder,
  bytes_lt_total a.name b.name,
)
