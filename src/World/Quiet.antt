-- ===== src/World/Quiet.antt =====
-- Calls of the system that return, and leave the blocks as they are.
use yijinjing_lite.Prelude.{
  ℕ, ◌≡◌, refl, ap, ◌∙◌, Bool, true, false, Option, none, some, Option-cases, inl, inr, not,
  if◌then◌else◌, Bool-cases,
}
use yijinjing_lite.World.Effect.{
  Run, Result, ok, pure, raise, exit_failure, ◌>>=◌, ◌>>◌, bind_returns,
}
use yijinjing_lite.World.{
  Os, World, FilePath, make_folder, open_file, stretch, map_file, lock_memory, load_page_buffer,
  release_page_buffer,
}
use yijinjing_lite.World.New.{Healthy}

-- A call from `w` that has returned a value with `P`; no block has changed, and no block has come
-- into the range of the rounds.
pub record Quiet {A : Type 0} (P : A → Type 0) (w : World) (r : Result A × World) : Type 0 where
  pub value : A
  pub returned : r.0 ≡ ok value
  pub holds : P value
  pub comm : r.1.comm ≡ w.comm
  pub max_idx : r.1.engine.max_idx ≡ w.engine.max_idx

abbrev pub Any : {A : Type 0} → A → Type 0
Any a = Unit {0}

module _ {A B : Type 0} (P : A → Type 0) (Q : B → Type 0) where
  pub Quiet-bind :
      (m : Run World A) (f : A → Run World B) (w : World)
      → Quiet P w (m w)
      → ((a : A) (v : World) → P a → Quiet Q v (f a v))
      → Quiet Q w ((m >>= f) w)
  Quiet-bind m f w q k =
      let runs =
        bind_returns m f w (m w).1 q.value (ap (λ (r : Result A). (r, (m w).1)) q.returned) in
      let after = k q.value (m w).1 q.holds in
      record {
        value = after.value;
        returned = ap (λ (r : Result B × World). r.0) runs ∙ after.returned;
        holds = after.holds;
        comm = ap (λ (r : Result B × World). r.1.comm) runs ∙ after.comm ∙ q.comm;
        max_idx =
            ap (λ (r : Result B × World). r.1.engine.max_idx) runs ∙ after.max_idx ∙ q.max_idx;
      }

module _ {A : Type 0} (P : A → Type 0) where
  pub Quiet-if :
      (b : Bool) (x y : Result A × World) (w : World)
      → Quiet P w x
      → Quiet P w y
      → Quiet P w (if b then x else y)
  Quiet-if true x y w p q = p
  Quiet-if false x y w p q = q

module _ (os : Os) (healthy : Healthy os) where
  pub release_page_buffer-Quiet :
      (i : ℕ) (w : World) → Quiet Any w (release_page_buffer os i true w)
  unfolding release_page_buffer
  release_page_buffer-Quiet i w =
      rw (healthy.unmaps i)
        (record { value = tt; returned = refl; holds = tt; comm = refl; max_idx = refl })

  make_folder-Quiet : (p : FilePath) (w : World) → Quiet Any w (make_folder os p w)
  unfolding make_folder
  make_folder-Quiet p w = elim (Bool-cases (w.folders (os.parent_path p))) [
    | inl e ↦ rw e (record { value = tt; returned = refl; holds = tt; comm = refl; max_idx = refl })
    | inr e ↦ rw e (record { value = tt; returned = refl; holds = tt; comm = refl; max_idx = refl })
  ]

  Found : Option ℕ → Type 0
  Found fd = (i : ℕ) × (fd ≡ some i)

  open_file-Found : (p : FilePath) (w : World) → Quiet Found w (open_file os p true w)
  unfolding open_file Found
  open_file-Found p w = elim (Option-cases (w.files p)) [
    | inl e ↦
        rw (healthy.opens p, e)
          (record {
            value = some w.inodes;
            returned = refl;
            holds = (w.inodes, refl);
            comm = refl;
            max_idx = refl;
          })
    | inr (i, e) ↦
        rw (healthy.opens p, e)
          (record {
            value = some i;
            returned = refl;
            holds = (i, refl);
            comm = refl;
            max_idx = refl;
          })
  ]

  open_file-Quiet : (p : FilePath) (w : World) → Quiet Any w (open_file os p false w)
  unfolding open_file
  open_file-Quiet p w = elim (Option-cases (w.files p)) [
    | inl e ↦
        rw (healthy.opens p, e)
          (record { value = none; returned = refl; holds = tt; comm = refl; max_idx = refl })
    | inr (i, e) ↦
        rw (healthy.opens p, e)
          (record { value = some i; returned = refl; holds = tt; comm = refl; max_idx = refl })
  ]

  stretch-Quiet : (p : FilePath) (i size : ℕ) (w : World) → Quiet Any w (stretch os p i size w)
  unfolding stretch
  stretch-Quiet p i size w =
      rw (healthy.seeks p, healthy.writes p)
        (record { value = tt; returned = refl; holds = tt; comm = refl; max_idx = refl })

  map_file-Quiet : (p : FilePath) (i : ℕ) (w : World) → Quiet Any w (map_file os p i w)
  unfolding map_file
  map_file-Quiet p i w =
      rw (healthy.maps p)
        (record { value = tt; returned = refl; holds = tt; comm = refl; max_idx = refl })

  Quiet-pure : {A : Type 0} (a : A) (w : World) → Quiet Any w (pure a w)
  Quiet-pure a w = record { value = a; returned = refl; holds = tt; comm = refl; max_idx = refl }

  map_quick : FilePath → ℕ → Run World (Option ℕ)
  map_quick p i = do map_file os p i; pure tt; pure (some i)

  map_quick-Quiet : (p : FilePath) (i : ℕ) (w : World) → Quiet Any w (map_quick p i w)
  unfolding map_quick
  map_quick-Quiet p i w =
      Quiet-bind Any Any (map_file os p i) _ w (map_file-Quiet p i w)
        (λ a v h. Quiet-pure (some i) v)

  -- In quick mode, for reading or writing.
  pub load_page_buffer-Quiet :
      (p : FilePath) (size : ℕ) (wr : Bool) (w : World)
      → Quiet Any w (load_page_buffer os p size wr true w)
  unfolding load_page_buffer Found map_quick
  load_page_buffer-Quiet p size true w =
      Quiet-bind Any Any (make_folder os p) _ w (make_folder-Quiet p w) (λ a v h.
        Quiet-bind Found Any (open_file os p true) _ v (open_file-Found p v) (λ fd u found.
          rw found.1 (
            Quiet-bind Any Any (stretch os p found.0 size) _ u (stretch-Quiet p found.0 size u)
              (λ b x k. map_quick-Quiet p found.0 x))))
  load_page_buffer-Quiet p size false w =
      Quiet-bind Any Any (make_folder os p) _ w (make_folder-Quiet p w) (λ a v h.
        Quiet-bind Any Any (open_file os p false) _ v (open_file-Quiet p v)
          (λ fd u found. opened p fd u))
    where
      opened :
          (p : FilePath) (fd : Option ℕ) (u : World)
          → Quiet Any u (
              (elim fd as (λ _. Run World (Option ℕ)) [
                | none ↦ if not false then pure none else raise exit_failure
                | some i ↦ do
                  (if false then stretch os p i size else pure tt)
                  map_file os p i
                  (if true then pure tt else lock_memory os i)
                  pure (some i)
              ])
                u)
      opened p none u = Quiet-pure none u
      opened p (some i) u = map_quick-Quiet p i u
