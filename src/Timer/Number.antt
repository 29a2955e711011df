-- ===== src/Timer/Number.antt =====
-- `conv_num` of include/yijinjing/journal/Timer.cpp: a number in decimal digits at the front of a
-- text. A text is a list of bytes; its end stands for the NUL. The limits of all calls are below
-- 10,000, so the `int` that is read never overflows.
use yijinjing_lite.Prelude.{
  ℕ, ◌+◌, ◌-◌, ◌*◌, ◌/◌, ◌%◌, ◌≤◌, ◌<◌, ◌^◌, ◌≡◌, refl, Bool, not, ◌&&◌, List, [], ◌∷◌, ◌++◌,
  Option, none, some, arith, leb, ◌==◌, if◌then◌else◌, All, true, false,
}

unfoldable pub is_digit : ℕ → Bool
is_digit c = leb b'0' c && leb c b'9'

-- The rounds of the loop behind the first one: `more` is the test of `while`.
unfoldable pub conv_digits : ℕ → ℕ → ℕ → List ℕ → ℕ × List ℕ
unfolding is_digit
conv_digits ulim rulim result [] = (result, [])
conv_digits ulim rulim result (c ∷ s) =
    let more = leb (result * 10) ulim && not (rulim == 0) && is_digit c in
    let rest = conv_digits ulim (rulim / 10) (result * 10 + (c - b'0')) s in
    if more then rest else (result, c ∷ s)

within : ℕ → ℕ → ℕ × List ℕ → Option (ℕ × List ℕ)
within llim ulim (n, s) = if leb llim n && leb n ulim then some (n, s) else none

-- `none` for 0; otherwise the number, and the text behind it.
unfoldable pub conv_num : ℕ → ℕ → List ℕ → Option (ℕ × List ℕ)
unfolding is_digit within
conv_num llim ulim [] = none
conv_num llim ulim (c ∷ s) =
    if is_digit c then within llim ulim (conv_digits ulim (ulim / 10) (c - b'0') s) else none

-- The number `n` in two and in four digits.
abbrev pub two_digits : ℕ → List ℕ
two_digits n = (b'0' + n / 10) ∷ (b'0' + n % 10) ∷ []

abbrev pub four_digits : ℕ → List ℕ
four_digits n =
    (b'0' + n / 1000) ∷ (b'0' + n / 100 % 10) ∷ (b'0' + n / 10 % 10) ∷ (b'0' + n % 10) ∷ []

-- Where the limit has no digits left, the number ends.
conv_digits_full : (ulim result : ℕ) (s : List ℕ) → conv_digits ulim 0 result s ≡ (result, s)
unfolding conv_digits
conv_digits_full ulim result [] = refl
conv_digits_full ulim result (c ∷ s) = ground arith

pub conv_num-two_digits :
    (llim ulim n : ℕ) (s : List ℕ)
    → llim ≤ n
    → n ≤ ulim
    → 10 ≤ ulim
    → ulim < 100
    → conv_num llim ulim (two_digits n ++ s) ≡ some (n, s)
unfolding conv_num conv_digits
conv_num-two_digits llim ulim n s lo hi small large = ground (arith, conv_digits_full ulim n s)

pub conv_num-four_digits :
    (n : ℕ) (s : List ℕ) → n < 10000 → conv_num 0 9999 (four_digits n ++ s) ≡ some (n, s)
unfolding conv_num conv_digits
conv_num-four_digits n s h = ground (arith, conv_digits_full 9999 n s)

-- The number that digits spell behind `n`.
abbrev pub spelled : ℕ → List ℕ → ℕ
spelled n [] = n
spelled n (c ∷ s) = spelled (n * 10 + (c - b'0')) s

-- In front of each digit the limit had room for it.
abbrev pub Room : ℕ → ℕ → ℕ → List ℕ → Type 0
Room ulim limit n [] = Unit {0}
Room ulim limit n (c ∷ s) =
    (leb (n * 10) ulim && not (limit == 0) ≡ true) × Room ulim (limit / 10) (n * 10 + (c - b'0')) s

-- What is left of the limit behind digits; there are no more where that is 0.
abbrev pub limit_left : ℕ → List ℕ → ℕ
limit_left limit [] = limit
limit_left limit (c ∷ s) = limit_left (limit / 10) s

abbrev pub starts_with_digit : List ℕ → Bool
starts_with_digit [] = false
starts_with_digit (c ∷ s) = is_digit c

-- What is read behind a first digit, of the value `start`, is a run of digits at the front: each
-- of them as long as the limit has room, and it ends where there is no digit or no room.
pub record Reads (ulim limit start : ℕ) (s : List ℕ) (n : ℕ) (rest : List ℕ) : Type 0 where
  pub digits : List ℕ
  pub all_digits : All (λ c. is_digit c ≡ true) digits
  pub split : s ≡ digits ++ rest
  pub value : spelled start digits ≡ n
  pub room : Room ulim limit start digits
  pub ends :
      leb (n * 10) ulim && not (limit_left limit digits == 0) && starts_with_digit rest ≡ false

-- The text, split behind its first digit.
abbrev pub Number : ℕ → ℕ → List ℕ → Type 0
Number llim ulim s =
    (c : ℕ) × (s' : List ℕ) × (n : ℕ) × (rest : List ℕ) × (s ≡ c ∷ s')
    × (is_digit c ≡ true)
    × Reads ulim (ulim / 10) (c - b'0') s' n rest
    × (n * 10 < 2 ^ 31)
    × (conv_num llim ulim s ≡ (if leb llim n && leb n ulim then some (n, rest) else none))
