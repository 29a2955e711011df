-- ===== src/FileName/Paths.antt =====
-- Different page numbers have different page files.
use yijinjing_lite.Prelude.{
  ℕ, ◌<◌, ◌^◌, ◌≡◌, ◌≢◌, sym, ap, ◌∙◌, List, ◌∷◌, length, drop, drop-append, bytes_eq, bytes_eq_iff,
  Bool-cases, inl, inr, false,
}
use yijinjing_lite.FileName.{gen_page_file_name, gen_page_full_path, extract_page_num}
use yijinjing_lite.FileName.RoundTrip.{extract_page_num-gen_page_file_name}

module _ (dir jname : List ℕ) (n k : ℕ) (n_fits : n < 2 ^ 15) (k_fits : k < 2 ^ 15) where
  gen_page_full_path-injective :
      gen_page_full_path dir jname n ≡ gen_page_full_path dir jname k → n ≡ k
  unfolding gen_page_full_path
  gen_page_full_path-injective e =
      let rest : (i : ℕ) → List ℕ = λ i. b'/' ∷ gen_page_file_name jname i in
      let tails : rest n ≡ rest k =
        sym (drop-append dir (rest n)) ∙ ap (drop (length dir)) e ∙ drop-append dir (rest k) in
      sym (extract_page_num-gen_page_file_name jname n n_fits)
      ∙ ap (λ (t : List ℕ). extract_page_num (drop 1 t) jname) tails
      ∙ extract_page_num-gen_page_file_name jname k k_fits

  pub bytes_eq-gen_page_full_path :
      n ≢ k → bytes_eq (gen_page_full_path dir jname n) (gen_page_full_path dir jname k) ≡ false
  bytes_eq-gen_page_full_path ne =
      elim (Bool-cases
        (bytes_eq (gen_page_full_path dir jname n) (gen_page_full_path dir jname k))) [
          | inl e ↦ absurd (ne (gen_page_full_path-injective ((bytes_eq_iff _ _).0 e)))
          | inr e ↦ e
        ]
