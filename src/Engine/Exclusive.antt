-- ===== src/Engine/Exclusive.antt =====
-- PageEngine::initiate_page for a writer: a page file has at most one.
use yijinjing_lite.Prelude.{ℕ, ◌<◌, ◌≡◌, refl, Bool, true, Option, none, some, arith}
use yijinjing_lite.Map.{bytes_key, find}
use yijinjing_lite.Map.Laws.{find-insert}
use yijinjing_lite.Comm.{FileKey, comm_allocated, comm_more_than_one_write}
use yijinjing_lite.Engine.State.{file_key}
use yijinjing_lite.World.Effect.{ok, fault, Result, continue}
use yijinjing_lite.Engine.Pages.{path_of, map_page, count_user, initiate_page}
use yijinjing_lite.World.{Os, World}
use yijinjing_lite.Engine.Counts.{SameCounts-map_page}
use yijinjing_lite.Engine.Users.{answer}

module _ (os : Os) where
  -- A page that a writer has: its status says so, if the page is mapped, and nothing changes.
  pub initiate_page-refuses :
      (k : FileKey) (n : ℕ) (a : Option ℕ) (w : World)
      → find w.engine.file_writer_counts k ≡ some n
      → find w.engine.file_addrs (path_of k) ≡ some a
      → initiate_page os k true w ≡ (ok comm_more_than_one_write, w)
  unfolding initiate_page map_page count_user
  initiate_page-refuses k n a w e f = ground (arith, e, f)

  count_user-allocated :
      (k : FileKey) (w : World)
      → (count_user k true w).0 ≡ ok comm_allocated
      → (find w.engine.file_writer_counts k ≡ none)
        × (find (count_user k true w).1.engine.file_writer_counts k ≡ some 1)
  unfolding count_user
  count_user-allocated k w h =
      ground (arith, find-insert w.engine.file_writer_counts k k 1, file_key.beq_iff k k)

  pub map_page-status :
      (k : FileKey) (b : Bool) (w : World) (t : ℕ) → (map_page os k b w).0 ≡ ok (some t) → 10 < t
  unfolding map_page
  map_page-status k b w t h = ground arith

  continue_writer :
      (k : FileKey) (r : Result (Option ℕ)) (v : World)
      → ((t : ℕ) → r ≡ ok (some t) → 10 < t)
      → (continue r (answer os k true) v).0 ≡ ok comm_allocated
      → (find v.engine.file_writer_counts k ≡ none)
        × (find (continue r (answer os k true) v).1.engine.file_writer_counts k ≡ some 1)
  continue_writer k (ok none) v f h = count_user-allocated k v h
  continue_writer k (ok (some t)) v f h = ground (arith, f t refl)
  continue_writer k (fault e) v f h = ground arith

  -- If `initiate_page` answers a writer that the page is allocated, the page had no writer and
  -- has one after the call.
  pub initiate_page-allocated :
      (k : FileKey) (w : World)
      → (initiate_page os k true w).0 ≡ ok comm_allocated
      → (find w.engine.file_writer_counts k ≡ none)
        × (find (initiate_page os k true w).1.engine.file_writer_counts k ≡ some 1)
  unfolding initiate_page
  initiate_page-allocated k w h =
      let (p, q) =
        continue_writer k (map_page os k true w).0 (map_page os k true w).1
          (map_page-status k true w) h in
      (rw (SameCounts-map_page os k true w).writers at p, q)
