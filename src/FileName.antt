-- ===== src/FileName.antt =====
-- The file names of include/yijinjing/journal/PageUtil.cpp: how a page number is printed into a
-- name, and read back. Texts are lists of bytes; a `short` is its 16-bit pattern.
pub mod Decimal
pub mod RoundTrip
pub mod Paths
use Decimal.{to_string, atoi}
use yijinjing_lite.Prelude.{
  ℕ, zero, suc, ◌+◌, ◌-◌, ◌%◌, ◌^◌, List, [], ◌∷◌, ◌++◌, length, take, drop, codes,
}

-- JOURNAL_PREFIX and JOURNAL_SUFFIX
abbrev pub journal_prefix : List ℕ
journal_prefix = codes "yjj"

abbrev pub journal_suffix : List ℕ
journal_suffix = codes "journal"

unfoldable pub gen_page_file_name : List ℕ → ℕ → List ℕ
gen_page_file_name jname page_num =
    journal_prefix ++ (b'.' ∷ (jname ++ (b'.' ∷ (to_string page_num ++ (b'.' ∷ journal_suffix)))))

unfoldable pub gen_page_full_path : List ℕ → List ℕ → ℕ → List ℕ
gen_page_full_path dir jname page_num = dir ++ (b'/' ∷ gen_page_file_name jname page_num)

unfoldable pub get_page_file_name_pattern : List ℕ → List ℕ
get_page_file_name_pattern jname =
    journal_prefix ++ (codes "\\." ++ (jname ++ (codes "\\.[0-9]+\\." ++ journal_suffix)))

-- `substr(pos, n)`: at most `n` characters from `pos` on.
unfoldable pub extract_page_num : List ℕ → List ℕ → ℕ
extract_page_num filename jname =
    let num_str =
      take (length filename - length journal_suffix)
        (drop (length journal_prefix + length jname + 2) filename) in
    atoi num_str % 2 ^ 16
