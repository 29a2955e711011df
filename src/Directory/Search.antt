-- ===== src/Directory/Search.antt =====
-- What `GetPageNumWithTime` finds.
use yijinjing_lite.Prelude.{
  ℕ, ◌≡◌, refl, ap, ◌⊎◌, inl, inr, Bool, true, false, List, [], ◌∷◌, ◌++◌, reverse, some, All,
  arith,
}
use yijinjing_lite.Memory.{read_le, int64_lt}
use yijinjing_lite.Page.Header.{start_nano_offset}
use yijinjing_lite.FileName.{gen_page_full_path}
use yijinjing_lite.Directory.{get_page_nums, get_page_header, last_before, get_page_num_with_time}
use yijinjing_lite.World.Effect.{ok}
use yijinjing_lite.World.{Os, World}

module _ (os : Os) (dir jname : List ℕ) (time : ℕ) (w : World) where
  -- The file of page `n` is there, and its page was started before the time or not.
  pub record Starts (early : Bool) (n : ℕ) : Type 0 where
    pub file : ℕ
    pub exists : w.files (gen_page_full_path dir jname n) ≡ some file
    pub compared : int64_lt (read_le 8 (w.contents file) start_nano_offset) time ≡ early

  -- From the last page down, `n` is the first one that was started before the time.
  pub record Found (ns : List ℕ) (n : ℕ) : Type 0 where
    pub newer : List ℕ
    pub older : List ℕ
    pub split : ns ≡ newer ++ n ∷ older
    pub early : Starts true n
    pub late : All (Starts false) newer

  abbrev Ends : List ℕ → Type 0
  Ends ns =
      ((n : ℕ) × Found ns n × (last_before os dir jname time ns w ≡ (ok n, w)))
      ⊎ (All (Starts false) ns × (last_before os dir jname time ns w ≡ (ok 1, w)))

  abbrev Exists : ℕ → Type 0
  Exists n = Starts true n ⊎ Starts false n

  step : (n : ℕ) (ns : List ℕ) → Exists n → Ends ns → Ends (n ∷ ns)
  unfolding last_before get_page_header
  step n ns (inl e) rest = inl (
    n,
    record { newer = []; older = ns; split = refl; early = e; late = tt },
    ground (arith, e.exists, e.compared),
  )
  step n ns (inr e) (inl (k, f, r)) = inl (
    k,
    record {
      newer = n ∷ f.newer;
      older = f.older;
      split = ap (◌∷◌ n) f.split;
      early = f.early;
      late = (e, f.late);
    },
    ground (arith, e.exists, e.compared, r),
  )
  step n ns (inr e) (inr (l, r)) = inr ((e, l), ground (arith, e.exists, e.compared, r))

  last_before-Ends : (ns : List ℕ) → All Exists ns → Ends ns
  unfolding last_before
  last_before-Ends [] h = inr (tt, refl)
  last_before-Ends (n ∷ ns) h = step n ns h.0 (last_before-Ends ns h.1)

  -- If the files of all listed pages exist, `GetPageNumWithTime` gives, from the last page
  -- down, the first one that was started before the time, all newer ones having been started
  -- later, or 1 if no page was started before it.
  pub get_page_num_with_time-Found :
      All Exists (reverse (get_page_nums os dir jname w))
      → ((n : ℕ) × Found (reverse (get_page_nums os dir jname w)) n
          × (get_page_num_with_time os dir jname time w ≡ (ok n, w)))
        ⊎ (All (Starts false) (reverse (get_page_nums os dir jname w))
            × (get_page_num_with_time os dir jname time w ≡ (ok 1, w)))
  unfolding get_page_num_with_time
  get_page_num_with_time-Found h = last_before-Ends (reverse (get_page_nums os dir jname w)) h
