-- ===== src/FileName/RoundTrip.antt =====
-- `ExtractPageNum` against `GenPageFileName`.
use yijinjing_lite.Prelude.{
  ℕ, zero, suc, ◌+◌, ◌-◌, ◌%◌, ◌^◌, ◌≤◌, ◌<◌, ◌≡◌, refl, ap, ◌∙◌, List, [], ◌∷◌, ◌++◌, length, take,
  drop, length-append, arith,
}
use yijinjing_lite.FileName.Decimal.{to_string, atoi, atoi-to_string}
use yijinjing_lite.FileName.{journal_prefix, journal_suffix, gen_page_file_name, extract_page_num}

take-append :
    (n : ℕ) (xs ys : List ℕ) → length xs ≤ n → take n (xs ++ ys) ≡ xs ++ take (n - length xs) ys
take-append n [] ys h = ap (λ (k : ℕ). take k ys) (omega arith)
take-append zero (x ∷ xs) ys h = absurd (omega arith)
take-append (suc n) (x ∷ xs) ys h =
    ap (◌∷◌ x) (take-append n xs ys (omega arith) ∙ ap (λ (k : ℕ). xs ++ take k ys) (omega arith))

take-cons : (n x : ℕ) (xs : List ℕ) → 0 < n → take n (x ∷ xs) ≡ x ∷ take (n - 1) xs
take-cons zero x xs h = absurd (omega arith)
take-cons (suc n) x xs h = ap (λ (k : ℕ). x ∷ take k xs) (omega arith)

drop_past : (xs ys : List ℕ) (c : ℕ) → drop (length xs + 1) (xs ++ (c ∷ ys)) ≡ ys
drop_past [] ys c = refl
drop_past (x ∷ xs) ys c =
    ap (λ (k : ℕ). drop k (x ∷ (xs ++ (c ∷ ys)))) {y = suc (length xs + 1)} (omega arith)
    ∙ drop_past xs ys c

length-gen_page_file_name :
    (jname : List ℕ) (n : ℕ)
    → length (gen_page_file_name jname n) ≡ length jname + length (to_string n) + 13
unfolding gen_page_file_name
length-gen_page_file_name jname n = omega (
  arith,
  length-append jname (b'.' ∷ (to_string n ++ (b'.' ∷ journal_suffix))),
  length-append (to_string n) (b'.' ∷ journal_suffix),
)

-- The part of the name behind the journal's name and the dot.
number_part :
    (jname : List ℕ) (n : ℕ)
    → drop (length journal_prefix + length jname + 2) (gen_page_file_name jname n)
      ≡ to_string n ++ (b'.' ∷ journal_suffix)
unfolding gen_page_file_name
number_part jname n =
    ap (λ (k : ℕ). drop k (gen_page_file_name jname n))
      {y = suc (suc (suc (suc (length jname + 1))))} (omega arith)
    ∙ drop_past jname (to_string n ++ (b'.' ∷ journal_suffix)) b'.'

-- A page number up to the largest `short` is read back from the file name that it is printed in,
-- whatever the journal's name.
pub extract_page_num-gen_page_file_name :
    (jname : List ℕ) (n : ℕ) → n < 2 ^ 15 → extract_page_num (gen_page_file_name jname n) jname ≡ n
unfolding extract_page_num
extract_page_num-gen_page_file_name jname n h =
    let size = length-gen_page_file_name jname n in
    let kept = length jname + length (to_string n) + 6 in
    rw (number_part jname n, size)
      (ap (λ (k : ℕ). k % 2 ^ 16)
          (ap (λ (k : ℕ). atoi (take k (to_string n ++ (b'.' ∷ journal_suffix)))) (omega arith)
            ∙ ap atoi (
                take-append kept (to_string n) (b'.' ∷ journal_suffix) (omega arith)
                ∙ ap (◌++◌ (to_string n))
                    (take-cons (kept - length (to_string n)) b'.' journal_suffix (omega arith)))
            ∙ atoi-to_string n _ h)
        ∙ omega arith)
