-- ===== src/FileName/Decimal.antt =====
-- `std::to_string` of a `short` and `atoi`.
use native.Mathlib.Nat.{pow-suc}
use yijinjing_lite.Prelude.{
  Bool-cases, inl, inr, lt→ltb, ap, ℕ, zero, suc, ◌+◌, ◌-◌, ◌*◌, ◌/◌, ◌%◌, ◌^◌, ◌<◌, ◌≡◌, refl,
  Bool, true, ◌&&◌, ◌||◌, List, [], ◌∷◌, ◌++◌, arith, ltb, leb, ◌==◌, if◌then◌else◌,
}

-- The digits of `n` in front of `out`; five digits are enough for a `short`.
emit : ℕ → ℕ → List ℕ → List ℕ
emit zero n out = out
emit (suc k) n out =
    let rest = emit k (n / 10) ((b'0' + n % 10) ∷ out) in
    if ltb n 10 then (b'0' + n) ∷ out else rest

-- A signed integer of the width whose sign bit is `half`, by its pattern, in at most `k` digits.
unfoldable pub print_signed : ℕ → ℕ → ℕ → List ℕ
unfolding emit
print_signed half k w = if ltb w half then emit k w [] else b'-' ∷ emit k (half + half - w) []

-- std::to_string of a `short`
unfoldable pub to_string : ℕ → List ℕ
unfolding print_signed
to_string w = print_signed (2 ^ 15) 5 w

is_digit : ℕ → Bool
is_digit c = leb b'0' c && leb c b'9'

-- The number that the leading digits spell behind `n`.
scan : List ℕ → ℕ → ℕ
unfolding is_digit
scan [] n = n
scan (c ∷ s) n = if is_digit c then scan s (n * 10 + (c - b'0')) else n

-- isspace in the C locale
unfoldable pub is_space : ℕ → Bool
is_space c = c == 32 || (leb 9 c && leb c 13)

-- An `int` as its 32-bit pattern; a number that does not fit is undefined behaviour.
unsigned_or_signed : List ℕ → ℕ
unfolding scan
unsigned_or_signed [] = 0
unsigned_or_signed (c ∷ s) =
    if c == b'-'
    then (2 ^ 32 - scan s 0) % 2 ^ 32
    else if c == b'+'
    then scan s 0
    else scan (c ∷ s) 0

unfoldable pub atoi : List ℕ → ℕ
unfolding is_space unsigned_or_signed
atoi [] = 0
atoi (c ∷ s) = let rest = atoi s in if is_space c then rest else unsigned_or_signed (c ∷ s)

-- Reading the digits of `n` gives `n`, whatever stands behind them.
scan-emit : (k n : ℕ) (out : List ℕ) → n < 10 ^ k → scan (emit k n out) 0 ≡ scan out n
unfolding scan emit
scan-emit zero n out h = ap (scan out) (omega arith)
scan-emit (suc k) n out h =
    let e = pow-suc 10 k in
    let ih = scan-emit k (n / 10) ((b'0' + n % 10) ∷ out) (omega arith) in ground (arith, ih)

emit-append : (k n : ℕ) (out rest : List ℕ) → emit k n out ++ rest ≡ emit k n (out ++ rest)
unfolding emit
emit-append zero n out rest = refl
emit-append (suc k) n out rest = ground (arith, emit-append k (n / 10) ((b'0' + n % 10) ∷ out) rest)

abbrev DigitFirst : List ℕ → Type 0
DigitFirst [] = ⊥
DigitFirst (c ∷ s) = is_digit c ≡ true

emit-DigitFirst : (k n : ℕ) (out : List ℕ) → DigitFirst out → DigitFirst (emit k n out)
unfolding emit is_digit
emit-DigitFirst zero n out d = d
emit-DigitFirst (suc k) n out d =
    let ih = emit-DigitFirst k (n / 10) ((b'0' + n % 10) ∷ out) (ground arith) in
    elim (Bool-cases (ltb n 10)) [ inl small ↦ rw small (ground arith) | inr large ↦ rw large ih ]

emit_some-DigitFirst : (k n : ℕ) (out : List ℕ) → DigitFirst (emit (suc k) n out)
unfolding emit is_digit
emit_some-DigitFirst k n out =
    let ih = emit-DigitFirst k (n / 10) ((b'0' + n % 10) ∷ out) (unfold is_digit in ground arith) in
    elim (Bool-cases (ltb n 10)) [ inl small ↦ rw small (ground arith) | inr large ↦ rw large ih ]

atoi-scan : (s : List ℕ) → DigitFirst s → atoi s ≡ scan s 0
unfolding atoi is_digit
atoi-scan [] d = absurd d
atoi-scan (c ∷ s) d = ground arith

-- `atoi` reads back the number that `to_string` prints, up to the first byte that is no digit.
pub atoi-to_string : (n : ℕ) (rest : List ℕ) → n < 2 ^ 15 → atoi (to_string n ++ (b'.' ∷ rest)) ≡ n
unfolding to_string
atoi-to_string n rest h =
    let tail : List ℕ = b'.' ∷ rest in
    rw
      (
        lt→ltb n (2 ^ 15) h,
        emit-append 5 n [] tail,
        atoi-scan (emit 5 n tail) (emit_some-DigitFirst 4 n tail),
        scan-emit 5 n tail (omega arith),
      )
      (unfold scan in refl)
