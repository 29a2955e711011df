-- ===== src/Directory.antt =====
-- The queries of include/yijinjing/journal/PageUtil.cpp over the page files of a journal. A page
-- number is the 16-bit pattern of a `short`.
pub mod Search
pub mod Sorted
use yijinjing_lite.Prelude.{ℕ, Bool, List, [], ◌∷◌, ◌++◌, none, some, map, reverse, if◌then◌else◌}
use yijinjing_lite.Memory.{Memory, read_le, short_lt, int64_lt}
use yijinjing_lite.Page.Header.{start_nano_offset}
use yijinjing_lite.FileName.{gen_page_full_path, get_page_file_name_pattern, extract_page_num}
use yijinjing_lite.World.Effect.{Run, ok, fault, pure, ◌>>=◌, null_pointer}
use yijinjing_lite.World.{Os, World, put_path}

-- std::sort on `short`
insert_short : ℕ → List ℕ → List ℕ
insert_short n [] = n ∷ []
insert_short n (k ∷ ks) = if short_lt k n then k ∷ insert_short n ks else n ∷ k ∷ ks

unfoldable pub sort_shorts : List ℕ → List ℕ
unfolding insert_short
sort_shorts [] = []
sort_shorts (n ∷ ns) = insert_short n (sort_shorts ns)

keep_matching : (List ℕ → Bool) → List (List ℕ) → List (List ℕ)
keep_matching matches [] = []
keep_matching matches (f ∷ fs) =
    let rest = keep_matching matches fs in if matches f then f ∷ rest else rest

module _ (os : Os) where
  -- The names in the folder that the journal's pattern matches.
  page_file_names : List ℕ → List ℕ → World → List (List ℕ)
  unfolding keep_matching
  page_file_names dir jname w =
      keep_matching (λ f. os.regex_match f (get_page_file_name_pattern jname))
        (os.list_folder w.files dir)

  unfoldable pub get_page_nums : List ℕ → List ℕ → World → List ℕ
  unfolding page_file_names
  get_page_nums dir jname w =
      sort_shorts (map (λ f. extract_page_num f jname) (page_file_names dir jname w))

  -- The first bytes of the file; a missing file is only reported, and then read all the same.
  unfoldable pub get_page_header : List ℕ → List ℕ → ℕ → Run World Memory
  get_page_header dir jname page_num w = elim (w.files (gen_page_full_path dir jname page_num)) [
    | none ↦ (fault null_pointer, w)
    | some i ↦ (ok (w.contents i), w)
  ]

  -- The loop of GetPageNumWithTime over the numbers from the last one down.
  unfoldable pub last_before : List ℕ → List ℕ → ℕ → List ℕ → Run World ℕ
  last_before dir jname time [] = pure 1
  last_before dir jname time (n ∷ ns) = do
    header ← get_page_header dir jname n
    let rest = last_before dir jname time ns
    if int64_lt (read_le 8 header start_nano_offset) time then pure n else rest

  unfoldable pub get_page_num_with_time : List ℕ → List ℕ → ℕ → Run World ℕ
  get_page_num_with_time dir jname time w =
      last_before dir jname time (reverse (get_page_nums dir jname w)) w

  remove_files : List ℕ → List (List ℕ) → Run World Unit
  remove_files dir [] w = (ok tt, w)
  remove_files dir (f ∷ fs) w =
      remove_files dir fs (record w { files = put_path w.files (dir ++ (b'/' ∷ f)) none })

  -- PageUtil::RemoveJournal
  unfoldable pub remove_journal : List ℕ → List ℕ → Run World Unit
  unfolding page_file_names remove_files
  remove_journal dir jname w = remove_files dir (page_file_names dir jname w) w
