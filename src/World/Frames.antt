-- ===== src/World/Frames.antt =====
-- What the calls of the operating system leave alone.
use yijinjing_lite.Prelude.{ℕ, ◌≡◌, Bool, arith}
use yijinjing_lite.World.{Os, World, FilePath, load_page_buffer, release_page_buffer}

module _ (os : Os) where
  pub engine-release_page_buffer :
      (i : ℕ) (q : Bool) (w : World) → (release_page_buffer os i q w).1.engine ≡ w.engine
  unfolding release_page_buffer
  engine-release_page_buffer i q w = ground arith

  pub contents-release_page_buffer :
      (i : ℕ) (q : Bool) (w : World) (j : ℕ)
      → (release_page_buffer os i q w).1.contents j ≡ w.contents j
  unfolding release_page_buffer
  contents-release_page_buffer i q w j = ground arith

  pub engine-load_page_buffer :
      (p : FilePath) (size : ℕ) (wr q : Bool) (w : World)
      → (load_page_buffer os p size wr q w).1.engine ≡ w.engine
  unfolding load_page_buffer
  engine-load_page_buffer p size wr q w = ground arith

  pub comm-load_page_buffer :
      (p : FilePath) (size : ℕ) (wr q : Bool) (w : World)
      → (load_page_buffer os p size wr q w).1.comm ≡ w.comm
  unfolding load_page_buffer
  comm-load_page_buffer p size wr q w = ground arith
