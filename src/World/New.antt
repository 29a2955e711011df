-- ===== src/World/New.antt =====
-- What `LoadPageBuffer` makes of a missing file where every call of the system succeeds.
use yijinjing_lite.Prelude.{
  ℕ, ◌+◌, ◌-◌, ◌≡◌, refl, ◌∙◌, Bool, true, false, none, some, Bool-cases, inl, inr, if◌then◌else◌,
  ◌∷◌,
}
use yijinjing_lite.Memory.{poke}
use yijinjing_lite.World.Effect.{ok, pure, bind_returns}
use yijinjing_lite.World.{
  Os, World, FilePath, put_path, put_at, make_folder, open_file, stretch, map_file, lock_memory,
  load_page_buffer,
}

pub record Healthy (os : Os) : Type 0 where
  pub opens : (p : FilePath) → os.open_succeeds p ≡ true
  pub seeks : (p : FilePath) → os.lseek_succeeds p ≡ true
  pub writes : (p : FilePath) → os.write_succeeds p ≡ true
  pub maps : (p : FilePath) → os.mmap_succeeds p ≡ true
  pub advises : (i : ℕ) → os.madvise_succeeds i ≡ true
  pub unlocks : (i : ℕ) → os.munlock_succeeds i ≡ true
  pub unmaps : (i : ℕ) → os.munmap_succeeds i ≡ true

-- The folders after the first step.
abbrev made : Os → FilePath → World → FilePath → Bool
made os p w =
    if w.folders (os.parent_path p) then w.folders else put_path w.folders (os.parent_path p) true

-- The world with the new file, and then with its last byte stored and its mapping.
abbrev created : Os → FilePath → World → World
created os p w = record w {
  folders = made os p w;
  files = put_path w.files p (some w.inodes);
  contents = put_at w.contents w.inodes (λ _. 0);
  inodes = w.inodes + 1;
}

abbrev pub grown : Os → FilePath → ℕ → World → World
grown os p size w = record w {
  folders = made os p w;
  files = put_path w.files p (some w.inodes);
  contents =
      put_at (put_at w.contents w.inodes (λ _. 0)) w.inodes
        (poke (put_at w.contents w.inodes (λ _. 0) w.inodes) (size - 1) 0);
  inodes = w.inodes + 1;
  mapped = w.inodes ∷ w.mapped;
}

module _ (os : Os) (healthy : Healthy os) (p : FilePath) where
  make_folder-made : (w : World) → make_folder os p w ≡ (ok tt, record w { folders = made os p w })
  unfolding make_folder
  make_folder-made w = elim (Bool-cases (w.folders (os.parent_path p))) [
    | inl e ↦ rw e refl
    | inr e ↦ rw e refl
  ]

  open_file-created :
      (w : World)
      → w.files p ≡ none
      → open_file os p true (record w { folders = made os p w })
        ≡ (ok (some w.inodes), created os p w)
  unfolding open_file
  open_file-created w missing = rw (healthy.opens p, missing) refl

  stretch-stores :
      (i size : ℕ) (w : World)
      → stretch os p i size w
        ≡ (ok tt, record w { contents = put_at w.contents i (poke (w.contents i) (size - 1) 0) })
  unfolding stretch
  stretch-stores i size w = rw (healthy.seeks p, healthy.writes p) refl

  map_file-maps :
      (i : ℕ) (w : World) → map_file os p i w ≡ (ok tt, record w { mapped = i ∷ w.mapped })
  unfolding map_file
  map_file-maps i w = rw (healthy.maps p) refl

  lock_memory-keeps : (i : ℕ) (w : World) → lock_memory os i w ≡ (ok tt, w)
  unfolding lock_memory
  lock_memory-keeps i w = rw (healthy.advises i) refl

  pub load_page_buffer-grown :
      (size : ℕ) (w : World)
      → w.files p ≡ none
      → load_page_buffer os p size true false w ≡ (ok (some w.inodes), grown os p size w)
  unfolding load_page_buffer
  load_page_buffer-grown size w missing =
      let new = created os p w in
      let long : World = record new {
        contents = put_at new.contents w.inodes (poke (new.contents w.inodes) (size - 1) 0);
      } in
      bind_returns (make_folder os p) _ w _ tt (make_folder-made w)
      ∙ bind_returns (open_file os p true) _ _ new (some w.inodes) (open_file-created w missing)
      ∙ bind_returns (stretch os p w.inodes size) _ new long tt (stretch-stores w.inodes size new)
      ∙ bind_returns (map_file os p w.inodes) _ long (grown os p size w) tt
          (map_file-maps w.inodes long)
      ∙ bind_returns (lock_memory os w.inodes) (λ _. pure (some w.inodes)) (grown os p size w)
          (grown os p size w) tt (lock_memory-keeps w.inodes (grown os p size w))

  -- The mapping of a file that is there, for reading.
  abbrev pub opened : ℕ → World → World
  opened i w = record w { folders = made os p w; mapped = i ∷ w.mapped }

  open_file-found :
      (w : World) (i : ℕ)
      → w.files p ≡ some i
      → open_file os p false (record w { folders = made os p w })
        ≡ (ok (some i), record w { folders = made os p w })
  unfolding open_file
  open_file-found w i there = rw (healthy.opens p, there) refl

  pub load_page_buffer-opened :
      (size : ℕ) (w : World) (i : ℕ)
      → w.files p ≡ some i
      → load_page_buffer os p size false false w ≡ (ok (some i), opened i w)
  unfolding load_page_buffer
  load_page_buffer-opened size w i there =
      let folder : World = record w { folders = made os p w } in
      bind_returns (make_folder os p) _ w _ tt (make_folder-made w)
      ∙ bind_returns (open_file os p false) _ _ folder (some i) (open_file-found w i there)
      ∙ bind_returns (map_file os p i) _ folder (opened i w) tt (map_file-maps i folder)
      ∙ bind_returns (lock_memory os i) (λ _. pure (some i)) (opened i w) (opened i w) tt
          (lock_memory-keeps i (opened i w))
