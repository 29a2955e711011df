-- ===== src/Hash/Bounds.antt =====
-- `^` on words: the law for the lowest digit, and the width that it stays within.
use Prim.Native.Nat.{bit_xor, digits, bit_xor-bitwise, differ}
use native.Mathlib.Nat.{pow-suc}
use yijinjing_lite.Prelude.{
  ℕ, zero, suc, ◌+◌, ◌*◌, ◌/◌, ◌%◌, ◌^◌, ◌≤◌, ◌<◌, ◌≡◌, refl, List, length, arith,
}
use yijinjing_lite.Hash.{times_m, absorb, murmur_hash2}

abbrev xor_digits : ℕ → ℕ → ℕ → ℕ
xor_digits n a b = digits (λ d. d) differ n a b

xor_digits_fuel : (n m a b : ℕ) → a ≤ n → a ≤ m → xor_digits n a b ≡ xor_digits m a b
xor_digits_fuel zero zero a b p q = refl
xor_digits_fuel zero (suc m) zero b p q = refl
xor_digits_fuel zero (suc m) (suc a) b p q = absurd (omega arith)
xor_digits_fuel (suc n) zero zero b p q = refl
xor_digits_fuel (suc n) zero (suc a) b p q = absurd (omega arith)
xor_digits_fuel (suc n) (suc m) zero b p q = refl
xor_digits_fuel (suc n) (suc m) (suc a) b p q =
    omega (arith, xor_digits_fuel n m (suc a / 2) (b / 2) (omega arith) (omega arith))

zero-bit_xor : (b : ℕ) → bit_xor 0 b ≡ b
zero-bit_xor b = bit_xor-bitwise 0 b

digit_differ-lt : (x y : ℕ) → x < 2 → y < 2 → differ x y < 2
digit_differ-lt zero y hx hy = hy
digit_differ-lt (suc x) zero hx hy = hx
digit_differ-lt (suc x) (suc y) hx hy = digit_differ-lt x y (omega arith) (omega arith)

differ-lt : (a b : ℕ) → differ (a % 2) (b % 2) < 2
differ-lt a b = digit_differ-lt (a % 2) (b % 2) (omega arith) (omega arith)

bit_xor_step : (a b : ℕ) → bit_xor a b ≡ bit_xor (a / 2) (b / 2) * 2 + differ (a % 2) (b % 2)
bit_xor_step zero b = omega (arith, zero-bit_xor b, zero-bit_xor (b / 2))
bit_xor_step (suc a) b = omega (
  arith,
  bit_xor-bitwise (suc a) b,
  bit_xor-bitwise (suc a / 2) (b / 2),
  xor_digits_fuel a (suc a / 2) (suc a / 2) (b / 2) (omega arith) (omega arith),
)

pub bit_xor-lt : (k a b : ℕ) → a < 2 ^ k → b < 2 ^ k → bit_xor a b < 2 ^ k
bit_xor-lt zero zero b ha hb = omega (arith, zero-bit_xor b)
bit_xor-lt zero (suc a) b ha hb = absurd (omega arith)
bit_xor-lt (suc k) a b ha hb = omega (
  arith,
  bit_xor_step a b,
  differ-lt a b,
  pow-suc 2 k,
  bit_xor-lt k (a / 2) (b / 2) (let e = pow-suc 2 k in omega arith)
      (let e = pow-suc 2 k in omega arith),
)

times_m-lt : (a : ℕ) → times_m a < 2 ^ 32
unfolding times_m
times_m-lt a = omega arith

-- The hash of any key under any seed is an `unsigned int`.
pub murmur_hash2-lt : (key : List ℕ) (seed : ℕ) → murmur_hash2 key seed < 2 ^ 32
unfolding murmur_hash2
murmur_hash2-lt key seed = bit_xor-lt 32 _ _ (times_m-lt _) (
    let e = times_m-lt (
      bit_xor (absorb (bit_xor seed (length key)) key)
        (absorb (bit_xor seed (length key)) key / 2 ^ 13)) in
    omega arith)
