-- ===== src/Timer/Fields.antt =====
-- `struct tm` as strptime of include/yijinjing/journal/Timer.cpp fills it, the names of days and
-- months of Timer.h, and the outcome of a parse.
use yijinjing_lite.Prelude.{
  ℕ, ◌+◌, ◌-◌, ◌/◌, ◌%◌, ◌^◌, Bool, true, List, [], ◌∷◌, Option, none, some, codes, ltb, ◌==◌,
  if◌then◌else◌,
}

-- Fields are `int` patterns.
pub record Tm : Type 0 where
  pub tm_sec : ℕ
  pub tm_min : ℕ
  pub tm_hour : ℕ
  pub tm_mday : ℕ
  pub tm_mon : ℕ
  pub tm_year : ℕ
  pub tm_wday : ℕ
  pub tm_yday : ℕ

abbrev pub tm_year_base : ℕ
tm_year_base = 1900

-- `%` and `/` of an `int` pattern by a positive constant: C rounds towards zero.
unfoldable pub int_rem : ℕ → ℕ → ℕ
int_rem w k = if ltb w (2 ^ 31) then w % k else (2 ^ 32 - (2 ^ 32 - w) % k) % 2 ^ 32

unfoldable pub int_quot : ℕ → ℕ → ℕ
int_quot w k = if ltb w (2 ^ 31) then w / k else (2 ^ 32 - (2 ^ 32 - w) / k) % 2 ^ 32

-- A name of a day or month, full and abbreviated.
abbrev pub Name : Type 0
Name = List ℕ × List ℕ

abbrev pub days : List Name
days =
    (codes "Sunday", codes "Sun")
    ∷ (codes "Monday", codes "Mon")
    ∷ (codes "Tuesday", codes "Tue")
    ∷ (codes "Wednesday", codes "Wed")
    ∷ (codes "Thursday", codes "Thu")
    ∷ (codes "Friday", codes "Fri")
    ∷ (codes "Saturday", codes "Sat")
    ∷ []

abbrev pub months : List Name
months =
    (codes "January", codes "Jan")
    ∷ (codes "February", codes "Feb")
    ∷ (codes "March", codes "Mar")
    ∷ (codes "April", codes "Apr")
    ∷ (codes "May", codes "May")
    ∷ (codes "June", codes "Jun")
    ∷ (codes "July", codes "Jul")
    ∷ (codes "August", codes "Aug")
    ∷ (codes "September", codes "Sep")
    ∷ (codes "October", codes "Oct")
    ∷ (codes "November", codes "Nov")
    ∷ (codes "December", codes "Dec")
    ∷ []

-- strncmp(name, s, strlen(name)) == 0, with what stands behind the name.
unfoldable pub strip_name : List ℕ → List ℕ → Option (List ℕ)
strip_name [] s = some s
strip_name (c ∷ name) [] = none
strip_name (c ∷ name) (d ∷ s) = let rest = strip_name name s in if c == d then rest else none

-- The loop over the names from number `i` on: the first that fits in full or abbreviated.
unfoldable pub find_name : List Name → ℕ → List ℕ → Option (ℕ × List ℕ)
unfolding strip_name
find_name [] i s = none
find_name ((full, short) ∷ names) i s =
    let later = find_name names (i + 1) s in
    elim (strip_name full s) [
      | some rest ↦ some (i, rest)
      | none ↦ elim (strip_name short s) [ some rest ↦ some (i, rest) | none ↦ later ]
    ]

-- The locals of strptime: the text from `bp` on, `*tm` and `split_year`.
pub record State : Type 0 where
  pub text : List ℕ
  pub tm : Tm
  pub split_year : Bool

-- `refused` is the null pointer, with what was stored in `*tm` before; `too_deep` is the model's
-- bound on nested calls.
pub data Parse (A : Type 0) : Type 0 where
  parsed : A → Parse A
  refused : Tm → Parse A
  too_deep : Parse A

-- `E` or `O` behind the `%`. Since LEGAL_ALT(0) guards both, there is at most one.
pub data Alternative : Type 0 where
  plain alt_e alt_o : Alternative

-- LEGAL_ALT does not return: `e` and `o` say which bits its argument has.
unfoldable pub legal_alt : Bool → Bool → Alternative → Bool
legal_alt e o plain = true
legal_alt e o alt_e = e
legal_alt e o alt_o = o

-- Where in the format the loop is: before a byte of text, or behind a `%`.
pub data Mode : Type 0 where
  in_text : Mode
  in_conversion : Alternative → Mode
