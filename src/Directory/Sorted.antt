-- ===== src/Directory/Sorted.antt =====
-- What `GetPageNums` lists.
use mathlib.Core.List.{Perm}
use mathlib.Core.List.Perm
use yijinjing_lite.Prelude.{
  ℕ, ◌<◌, ◌^◌, ◌≡◌, refl, sym, ap, subst, ◌∙◌, Bool, true, false, List, [], ◌∷◌, map, All,
  Bool-cases, ◌⊎◌, inl, inr, arith,
}
use yijinjing_lite.Memory.{short_lt}
use yijinjing_lite.FileName.{gen_page_file_name, get_page_file_name_pattern, extract_page_num}
use yijinjing_lite.FileName.RoundTrip.{extract_page_num-gen_page_file_name}
use yijinjing_lite.Directory.{
  insert_short, sort_shorts, keep_matching, page_file_names, get_page_nums,
}
use yijinjing_lite.World.{Os, World}

-- No number is in front of a smaller one.
abbrev pub IsSorted : List ℕ → Type 0
IsSorted [] = Unit {0}
IsSorted (n ∷ ns) = All (λ k. short_lt k n ≡ false) ns × IsSorted ns

insert_short-All :
    (P : ℕ → Type 0) (n : ℕ) (ks : List ℕ) → P n → All P ks → All P (insert_short n ks)
unfolding insert_short
insert_short-All P n [] p h = (p, tt)
insert_short-All P n (k ∷ ks) p h = elim (Bool-cases (short_lt k n)) [
  | inl e ↦ rw e (h.0, insert_short-All P n ks p h.1)
  | inr e ↦ rw e (p, h)
]

short_lt_trans : (a b c : ℕ) → short_lt b a ≡ false → short_lt c b ≡ false → short_lt c a ≡ false
unfolding short_lt
short_lt_trans a b c p q = ground arith

short_lt_asym : (a b : ℕ) → short_lt a b ≡ true → short_lt b a ≡ false
unfolding short_lt
short_lt_asym a b p = ground arith

weaken :
    (a b : ℕ) (ks : List ℕ)
    → short_lt b a ≡ false
    → All (λ k. short_lt k b ≡ false) ks
    → All (λ k. short_lt k a ≡ false) ks
weaken a b [] h all = tt
weaken a b (k ∷ ks) h all = (short_lt_trans a b k h all.0, weaken a b ks h all.1)

insert_short-IsSorted : (n : ℕ) (ks : List ℕ) → IsSorted ks → IsSorted (insert_short n ks)
unfolding insert_short
insert_short-IsSorted n [] h = (tt, tt)
insert_short-IsSorted n (k ∷ ks) h = elim (Bool-cases (short_lt k n)) [
  | inl e ↦ rw e (
    insert_short-All (λ x. short_lt x k ≡ false) n ks (short_lt_asym k n e) h.0,
    insert_short-IsSorted n ks h.1,
  )
  | inr e ↦ rw e ((e, weaken n k ks e h.0), h)
]

insert_short-perm : (n : ℕ) (ks : List ℕ) → Perm (n ∷ ks) (insert_short n ks)
unfolding insert_short
insert_short-perm n [] = Perm.refl (n ∷ [])
insert_short-perm n (k ∷ ks) = elim (Bool-cases (short_lt k n)) [
  | inl e ↦ rw e (Perm.trans (Perm.swap k n ks) (Perm.cons k (insert_short-perm n ks)))
  | inr e ↦ rw e (Perm.refl (n ∷ (k ∷ ks)))
]

sort_shorts-IsSorted : (ns : List ℕ) → IsSorted (sort_shorts ns)
unfolding sort_shorts
sort_shorts-IsSorted [] = tt
sort_shorts-IsSorted (n ∷ ns) = insert_short-IsSorted n (sort_shorts ns) (sort_shorts-IsSorted ns)

sort_shorts-perm : (ns : List ℕ) → Perm ns (sort_shorts ns)
unfolding sort_shorts
sort_shorts-perm [] = Perm.refl []
sort_shorts-perm (n ∷ ns) =
    Perm.trans (Perm.cons n (sort_shorts-perm ns)) (insert_short-perm n (sort_shorts ns))

extract_all :
    (jname : List ℕ) (ns : List ℕ)
    → All (λ n. n < 2 ^ 15) ns
    → map (λ f. extract_page_num f jname) (map (gen_page_file_name jname) ns) ≡ ns
extract_all jname [] h = refl
extract_all jname (n ∷ ns) h =
    ap (λ (k : ℕ). k ∷ map (λ f. extract_page_num f jname) (map (gen_page_file_name jname) ns))
      (extract_page_num-gen_page_file_name jname n h.0)
    ∙ ap (◌∷◌ n) (extract_all jname ns h.1)

-- What a folder lists, in any order: the file of a page, by its number, or another name.
abbrev pub Entry : Type 0
Entry = ℕ ⊎ List ℕ

abbrev pub entry_name : List ℕ → Entry → List ℕ
entry_name jname (inl n) = gen_page_file_name jname n
entry_name jname (inr f) = f

abbrev pub numbers : List Entry → List ℕ
numbers [] = []
numbers (inl n ∷ es) = n ∷ numbers es
numbers (inr f ∷ es) = numbers es

-- The files of pages match, with numbers of `short` from 0 on, and the others do not match.
abbrev pub IsEntry : (List ℕ → Bool) → List ℕ → Entry → Type 0
IsEntry matches jname (inl n) = (matches (gen_page_file_name jname n) ≡ true) × (n < 2 ^ 15)
IsEntry matches jname (inr f) = matches f ≡ false

module _ (matches : List ℕ → Bool) (jname : List ℕ) where
  keep_matching-numbers :
      (es : List Entry)
      → All (IsEntry matches jname) es
      → keep_matching matches (map (entry_name jname) es)
        ≡ map (gen_page_file_name jname) (numbers es)
  unfolding keep_matching
  keep_matching-numbers [] h = refl
  keep_matching-numbers (inl n ∷ es) h = ground (arith, h.0.0, keep_matching-numbers es h.1)
  keep_matching-numbers (inr f ∷ es) h = ground (arith, h.0, keep_matching-numbers es h.1)

  numbers-fit :
      (es : List Entry) → All (IsEntry matches jname) es → All (λ n. n < 2 ^ 15) (numbers es)
  numbers-fit [] h = tt
  numbers-fit (inl n ∷ es) h = (h.0.1, numbers-fit es h.1)
  numbers-fit (inr f ∷ es) h = numbers-fit es h.1

module _ (os : Os) (dir jname : List ℕ) (w : World) (es : List Entry) where
  abbrev pattern_matches : List ℕ → Bool
  pattern_matches f = os.regex_match f (get_page_file_name_pattern jname)

  -- If a folder lists, in any order, files of pages of the journal, which match the pattern of
  -- its name, and others, which do not, `GetPageNums` gives the numbers of the former, each as
  -- often as it is there, and in order. The numbers are those of `short` from 0 on.
  pub get_page_nums-perm :
      os.list_folder w.files dir ≡ map (entry_name jname) es
      → All (IsEntry pattern_matches jname) es
      → Perm (numbers es) (get_page_nums os dir jname w) × IsSorted (get_page_nums os dir jname w)
  unfolding get_page_nums page_file_names
  get_page_nums-perm listed entries =
      let kept =
        ap (keep_matching pattern_matches) listed
        ∙ keep_matching-numbers pattern_matches jname es entries in
      let nums =
        ap (map (λ f. extract_page_num f jname)) kept
        ∙ extract_all jname (numbers es) (numbers-fit pattern_matches jname es entries) in
      (
        subst (λ (xs : List ℕ). Perm (numbers es) (sort_shorts xs)) (sym nums)
            (sort_shorts-perm (numbers es)),
        sort_shorts-IsSorted _,
      )
