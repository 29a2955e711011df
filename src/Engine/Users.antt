-- ===== src/Engine/Users.antt =====
-- PageEngine::initiate_page and release_page keep the counts of the users sound.
use yijinjing_lite.Prelude.{
  ℕ, ◌<◌, ◌≤◌, ◌^◌, ◌≡◌, subst, refl, zero, suc, Bool, true, false, Option, none, some, arith,
  Bool-cases, Option-cases, inl, inr,
}
use yijinjing_lite.Map.{Map, bytes_key, find, insert, erase}
use yijinjing_lite.Map.Laws.{find-insert, find-erase}
use yijinjing_lite.Comm.{FileKey}
use yijinjing_lite.Engine.State.{EngineState, file_key}
use yijinjing_lite.World.Effect.{bind_reaches, Run, pure}
use yijinjing_lite.Engine.Pages.{
  decrement, increment, counts, set_counts, set_engine, path_of, settle, release_page, map_page,
  count_user, initiate_page, drop_buffer,
}
use yijinjing_lite.World.{Os, World, FilePath}
use yijinjing_lite.Engine.Counts.{
  IsSound, IsSound-more, SameCounts-IsSound, SameCounts-drop_buffer, SameCounts-map_page,
}

-- Every count of the map is as `P` says.
abbrev Each : (ℕ → Type 0) → Map FileKey ℕ → Type 0
Each P m = (k : FileKey) (n : ℕ) → find m k ≡ some n → P n

Each-insert :
    (P : ℕ → Type 0) (m : Map FileKey ℕ) (k : FileKey) (v : ℕ)
    → Each P m
    → P v
    → Each P (insert m k v)
Each-insert P m k v h p j n e = elim (Bool-cases (file_key.beq k j)) [
  | inl b ↦ subst P (ground (arith, find-insert m k j v, b, e)) p
  | inr b ↦ h j n (ground (arith, find-insert m k j v, b, e))
]

Each-erase : (P : ℕ → Type 0) (m : Map FileKey ℕ) (k : FileKey) → Each P m → Each P (erase m k)
Each-erase P m k h j n e = h j n (ground (arith, find-erase m k j, e))

module _ (os : Os) where
  increment_bound : (b n : ℕ) → suc b < 2 ^ 32 → n ≤ b → (0 < increment n) × (increment n ≤ suc b)
  increment_bound b n h k = (omega (arith, h, k), omega (arith, h, k))

  -- A user more keeps the counts sound, with a bound that is one more.
  IsSound-count_user :
      {b : ℕ} (k : FileKey) (is_writer : Bool) (w : World)
      → suc b < 2 ^ 32
      → IsSound b w.engine
      → IsSound (suc b) (count_user k is_writer w).1.engine
  unfolding count_user
  IsSound-count_user {b} k true w room s =
      let t : IsSound (suc b) w.engine = IsSound-more (omega arith) s in
      elim (Option-cases (find w.engine.file_writer_counts k)) [
        | inl e ↦
            rw (e, count_user)
              (record {
                one_writer =
                    Each-insert (λ n. n ≡ 1) w.engine.file_writer_counts k 1 t.one_writer refl;
                some_reader = t.some_reader;
              })
        | inr (n, e) ↦ rw (e, count_user) t
      ]
  IsSound-count_user {b} k false w room s =
      let t : IsSound (suc b) w.engine = IsSound-more (omega arith) s in
      elim (Option-cases (find w.engine.file_reader_counts k)) [
        | inl e ↦
            rw (e, count_user)
              (record {
                one_writer = t.one_writer;
                some_reader =
                    Each-insert (λ n. (0 < n) × (n ≤ suc b)) w.engine.file_reader_counts k 1
                      t.some_reader (omega arith, omega arith);
              })
        | inr (n, e) ↦
            rw (e, count_user)
              (record {
                one_writer = t.one_writer;
                some_reader =
                    Each-insert (λ n. (0 < n) × (n ≤ suc b)) w.engine.file_reader_counts k
                      (increment n) t.some_reader
                      (increment_bound b n room (s.some_reader k n e).1);
              })
      ]

  IsSound-erased :
      {c : ℕ} (k : FileKey) (b : Bool) (e : EngineState)
      → IsSound c e
      → IsSound c (set_counts b e (erase (counts b e) k))
  IsSound-erased {c} k true e s = record {
    one_writer = Each-erase (λ n. n ≡ 1) e.file_writer_counts k s.one_writer;
    some_reader = s.some_reader;
  }
  IsSound-erased {c} k false e s = record {
    one_writer = s.one_writer;
    some_reader = Each-erase (λ n. (0 < n) × (n ≤ c)) e.file_reader_counts k s.some_reader;
  }

  IsSound-inserted :
      {c : ℕ} (k : FileKey) (n : ℕ) (e : EngineState)
      → n < c
      → IsSound c e
      → IsSound c (set_counts false e (insert e.file_reader_counts k (suc n)))
  IsSound-inserted {c} k n e h s = record {
    one_writer = s.one_writer;
    some_reader =
        Each-insert (λ i. (0 < i) × (i ≤ c)) e.file_reader_counts k (suc n) s.some_reader
          (omega arith, omega (arith, h));
  }

  IsSound-drop_buffer :
      {c : ℕ} (p : FilePath) (o : Option (Option ℕ)) (w : World)
      → IsSound c w.engine
      → IsSound c (drop_buffer os p o w).1.engine
  IsSound-drop_buffer p o w = SameCounts-IsSound (SameCounts-drop_buffer os p o w)

  IsSound-settle :
      {c : ℕ} (k : FileKey) (b : Bool) (n : ℕ) (w : World)
      → (b ≡ true → n ≡ 0)
      → n ≤ c
      → IsSound c w.engine
      → IsSound c (settle os k b n w).1.engine
  unfolding settle
  IsSound-settle k b zero w h bound s =
      let e' = set_counts b w.engine (erase (counts b w.engine) k) in
      ground (
        arith,
        IsSound-erased k b w.engine s,
        IsSound-drop_buffer (path_of k) (find e'.file_addrs (path_of k)) (set_engine w e')
            (IsSound-erased k b w.engine s),
      )
  IsSound-settle k true (suc n) w h bound s = omega (arith, h refl)
  IsSound-settle k false (suc n) w h bound s =
      ground (arith, IsSound-inserted k n w.engine (omega (arith, bound)) s)

  one_left :
      {c : ℕ} (k : FileKey) (b : Bool) (n : ℕ) (e : EngineState)
      → IsSound c e
      → find (counts b e) k ≡ some n
      → b ≡ true
      → decrement n ≡ 0
  one_left k true n e s h t = ground (arith, s.one_writer k n h)
  one_left k false n e s h t = ground arith

  decrement_bound :
      {c : ℕ} (k : FileKey) (b : Bool) (n : ℕ) (e : EngineState)
      → IsSound c e
      → find (counts b e) k ≡ some n
      → decrement n ≤ c
  decrement_bound k true n e s h = ground (arith, s.one_writer k n h)
  decrement_bound k false n e s h = ground (arith, s.some_reader k n h)

  pub IsSound-release_page :
      {c : ℕ} (k : FileKey) (b : Bool) (w : World)
      → IsSound c w.engine
      → IsSound c (release_page os k b w).1.engine
  unfolding release_page
  IsSound-release_page k b w s = elim (Option-cases (find (counts b w.engine) k)) [
    | inl e ↦ rw (e, release_page) s
    | inr (n, e) ↦
        rw (e, release_page)
          (IsSound-settle k b (decrement n) w (one_left k b n w.engine s e)
            (decrement_bound k b n w.engine s e) s)
  ]

  abbrev pub answer : FileKey → Bool → Option ℕ → Run World ℕ
  answer k b o = elim o [ some status ↦ pure status | none ↦ count_user k b ]

  IsSound-answer :
      {c : ℕ} (k : FileKey) (b : Bool) (o : Option ℕ) (w : World)
      → suc c < 2 ^ 32
      → IsSound c w.engine
      → IsSound (suc c) (answer k b o w).1.engine
  IsSound-answer k b none w room s = IsSound-count_user k b w room s
  IsSound-answer k b (some t) w room s = IsSound-more (omega arith) s

  pub IsSound-initiate_page :
      {c : ℕ} (k : FileKey) (b : Bool) (w : World)
      → suc c < 2 ^ 32
      → IsSound c w.engine
      → IsSound (suc c) (initiate_page os k b w).1.engine
  unfolding initiate_page
  IsSound-initiate_page {c} k b w room s =
      bind_reaches (λ v. IsSound c v.engine) (λ v. IsSound (suc c) v.engine)
        (λ v. IsSound-more (omega arith)) (map_page os k b) _ w
        (SameCounts-IsSound (SameCounts-map_page os k b w) s)
        (λ o e t. IsSound-answer k b o (map_page os k b w).1 room t)
