-- ===== src/Engine/Restore.antt =====
-- `release_page` undoes the count of `initiate_page`.
use yijinjing_lite.Prelude.{
  ℕ, ◌-◌, ◌^◌, ◌<◌, ◌≡◌, refl, Bool, true, false, Option-cases, inl, inr, Option, none, some, ◌==◌,
  if◌then◌else◌, arith,
}
use yijinjing_lite.Comm.{FileKey, comm_allocated}
use yijinjing_lite.Map.{Map, find, erase, bytes_key}
use yijinjing_lite.Map.Laws.{find-insert, find-erase}
use yijinjing_lite.Engine.State.{EngineState, file_key}
use yijinjing_lite.Engine.Counts.{IsSound, SameCounts, SameCounts-drop_buffer, SameCounts-map_page}
use yijinjing_lite.Engine.Exclusive.{map_page-status}
use yijinjing_lite.Engine.Pages.{
  decrement, increment, counts, set_counts, set_engine, path_of, count_user, settle, release_page,
  map_page, initiate_page,
}
use yijinjing_lite.World.Effect.{Run, Result, ok, fault, continue, pure}
use yijinjing_lite.World.{Os, World}

-- A count, with 0 for none.
abbrev users : Option ℕ → ℕ
users none = 0
users (some n) = n

-- What a count of `n` is kept as.
abbrev kept : ℕ → Option ℕ
kept n = if n == 0 then none else some n

counts-set_counts :
    (b : Bool) (e : EngineState) (m : Map FileKey ℕ) → counts b (set_counts b e m) ≡ m
counts-set_counts true e m = refl
counts-set_counts false e m = refl

counts-SameCounts : (b : Bool) (e e' : EngineState) → SameCounts e e' → counts b e' ≡ counts b e
counts-SameCounts true e e' s = s.writers
counts-SameCounts false e e' s = s.readers

module _ (os : Os) (k j : FileKey) where
  find-settle :
      (b : Bool) (n : ℕ) (w : World)
      → find (counts b (settle os k b n w).1.engine) j
        ≡ (if file_key.beq k j then kept n else find (counts b w.engine) j)
  unfolding settle
  find-settle true n w =
      let m = w.engine.file_writer_counts in
      let w' = set_engine w (record w.engine { file_writer_counts = erase m k }) in
      let dropped =
        SameCounts-drop_buffer os (path_of k) (find w.engine.file_addrs (path_of k)) w' in
      ground (arith, find-erase m k j, find-insert m k j n, dropped.writers)
  find-settle false n w =
      let m = w.engine.file_reader_counts in
      let w' = set_engine w (record w.engine { file_reader_counts = erase m k }) in
      let dropped =
        SameCounts-drop_buffer os (path_of k) (find w.engine.file_addrs (path_of k)) w' in
      ground (arith, find-erase m k j, find-insert m k j n, dropped.readers)

  find-count_user :
      (b : Bool) (w : World)
      → (count_user k b w).0 ≡ ok comm_allocated
      → find (counts b (count_user k b w).1.engine) j ≡ (
          if file_key.beq k j
          then some (increment (users (find (counts b w.engine) k)))
          else find (counts b w.engine) j)
  unfolding count_user
  find-count_user true w h = elim (Option-cases (find w.engine.file_writer_counts k)) [
    | inl e ↦ ground (arith, e, h, find-insert w.engine.file_writer_counts k j 1)
    | inr (n, e) ↦ ground (arith, e, h)
  ]
  find-count_user false w h = elim (Option-cases (find w.engine.file_reader_counts k)) [
    | inl e ↦ ground (arith, e, h, find-insert w.engine.file_reader_counts k j 1)
    | inr (n, e) ↦ ground (arith, e, h, find-insert w.engine.file_reader_counts k j (increment n))
  ]

  find-release_page :
      (b : Bool) (n : ℕ) (w : World)
      → find (counts b w.engine) k ≡ some n
      → find (counts b (release_page os k b w).1.engine) j
        ≡ (if file_key.beq k j then kept (decrement n) else find (counts b w.engine) j)
  unfolding release_page
  find-release_page b n w e = rw (e, release_page) (find-settle b (decrement n) w)

  abbrev answer : Bool → Option ℕ → Run World ℕ
  answer b o = elim o [ some status ↦ pure status | none ↦ count_user k b ]

  find-continue :
      (b : Bool) (r : Result (Option ℕ)) (v : World)
      → ((t : ℕ) → r ≡ ok (some t) → 10 < t)
      → (continue r (answer b) v).0 ≡ ok comm_allocated
      → find (counts b (continue r (answer b) v).1.engine) j ≡ (
          if file_key.beq k j
          then some (increment (users (find (counts b v.engine) k)))
          else find (counts b v.engine) j)
  find-continue b (ok none) v f h = find-count_user b v h
  find-continue b (ok (some t)) v f h = ground (arith, f t refl)
  find-continue b (fault e) v f h = ground arith

  find-initiate_page :
      (b : Bool) (w : World)
      → (initiate_page os k b w).0 ≡ ok comm_allocated
      → find (counts b (initiate_page os k b w).1.engine) j ≡ (
          if file_key.beq k j
          then some (increment (users (find (counts b w.engine) k)))
          else find (counts b w.engine) j)
  unfolding initiate_page
  find-initiate_page b w h =
      let same =
        counts-SameCounts b w.engine (map_page os k b w).1.engine (SameCounts-map_page os k b w) in
      rw same at
        (find-continue b (map_page os k b w).0 (map_page os k b w).1 (map_page-status os k b w) h)

-- `++` and then `--`, also where the first of them wraps around.
decrement-increment : (n : ℕ) → n < 2 ^ 32 → decrement (increment n) ≡ n
decrement-increment n h = ground arith

kept-pos : (n : ℕ) → 0 < n → kept n ≡ some n
kept-pos n h = ground arith

-- A sound count is kept as it is.
kept-users :
    (b : Bool) (e : EngineState) (k : FileKey)
    → IsSound (2 ^ 32 - 1) e
    → kept (decrement (increment (users (find (counts b e) k)))) ≡ find (counts b e) k
kept-users true e k s = elim (Option-cases (find e.file_writer_counts k)) [
  | inl h ↦ rw h refl
  | inr (n, h) ↦ rw (h, s.one_writer k n h) refl
]
kept-users false e k s = elim (Option-cases (find e.file_reader_counts k)) [
  | inl h ↦ rw h refl
  | inr (n, h) ↦
      let (some_, most) = s.some_reader k n h in
      rw (h, decrement-increment n (omega (arith, most))) (kept-pos n some_)
]

-- If the counts were sound and fit 32 bits, and `initiate_page` has allocated a page to a user,
-- releasing it for that user gives every page file `j` the count that it had on that side.
pub release_page-initiate_page :
    (os : Os) (k j : FileKey) (b : Bool) (w : World)
    → IsSound (2 ^ 32 - 1) w.engine
    → (initiate_page os k b w).0 ≡ ok comm_allocated
    → find (counts b (release_page os k b (initiate_page os k b w).1).1.engine) j
      ≡ find (counts b w.engine) j
release_page-initiate_page os k j b w s h =
    let after = (initiate_page os k b w).1 in
    let here = find-initiate_page os k k b w h in
    let there = find-initiate_page os k j b w h in
    let n = users (find (counts b w.engine) k) in
    let held : find (counts b after.engine) k ≡ some (increment n) =
      ground (arith, here, file_key.beq_iff k k) in
    let freed = find-release_page os k j b (increment n) after held in
    ground (arith, freed, there, kept-users b w.engine k s, file_key.beq_iff k j)
