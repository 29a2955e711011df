-- ===== src/Engine/Counts.antt =====
-- The counts of the users of each page file, and the calls that leave them as they are.
use yijinjing_lite.Prelude.{
  ℕ, ◌<◌, ◌≤◌, ◌≡◌, refl, ◌∙◌, Bool, true, false, Option, none, some, arith,
}
use yijinjing_lite.Constants.{journal_page_size}
use yijinjing_lite.Map.{bytes_key, find}
use yijinjing_lite.Comm.{FileKey}
use yijinjing_lite.Engine.State.{EngineState, file_key}
use yijinjing_lite.World.Effect.{bind_keeps}
use yijinjing_lite.Engine.Pages.{
  path_of, map_page, load_if_null, new_file, use_temp_page, drop_buffer,
}
use yijinjing_lite.World.{Os, World, FilePath}
use yijinjing_lite.World.Frames.{engine-release_page_buffer, engine-load_page_buffer}

-- A page file that counts writers has one, and one that counts readers has some, `b` at most.
pub record IsSound (b : ℕ) (e : EngineState) : Type 0 where
  pub one_writer : (k : FileKey) (n : ℕ) → find e.file_writer_counts k ≡ some n → n ≡ 1
  pub some_reader : (k : FileKey) (n : ℕ) → find e.file_reader_counts k ≡ some n → (0 < n) × (n ≤ b)

pub IsSound-more : {b c : ℕ} {e : EngineState} → b ≤ c → IsSound b e → IsSound c e
IsSound-more {b} {c} h s = record {
  one_writer = s.one_writer;
  some_reader = λ k n e. ((s.some_reader k n e).0, omega (arith, (s.some_reader k n e).1, h));
}

-- The counts are the same in both.
pub record SameCounts (e e' : EngineState) : Type 0 where
  pub writers : e'.file_writer_counts ≡ e.file_writer_counts
  pub readers : e'.file_reader_counts ≡ e.file_reader_counts

pub SameCounts-IsSound : {b : ℕ} {e e' : EngineState} → SameCounts e e' → IsSound b e → IsSound b e'
SameCounts-IsSound c s = record {
  one_writer = λ k n h. s.one_writer k n (rw c.writers at h);
  some_reader = λ k n h. s.some_reader k n (rw c.readers at h);
}

pub SameCounts-trans : (e f g : EngineState) → SameCounts e f → SameCounts f g → SameCounts e g
SameCounts-trans e f g c d = record {
  writers = d.writers ∙ c.writers;
  readers = d.readers ∙ c.readers;
}

abbrev pub Same : World → World → Type 0
Same w v = SameCounts w.engine v.engine

pub Same-trans : (u v w : World) → Same u v → Same v w → Same u w
Same-trans u v w c d = SameCounts-trans u.engine v.engine w.engine c d

pub Same-refl : (e : EngineState) → SameCounts e e
Same-refl e = record { writers = refl; readers = refl }

module _ (os : Os) where
  pub SameCounts-drop_buffer :
      (p : FilePath) (o : Option (Option ℕ)) (w : World)
      → SameCounts w.engine (drop_buffer os p o w).1.engine
  unfolding drop_buffer
  SameCounts-drop_buffer p none w = Same-refl w.engine
  SameCounts-drop_buffer p (some none) w = record { writers = refl; readers = refl }
  SameCounts-drop_buffer p (some (some i)) w =
      ground (arith, engine-release_page_buffer os i true w)

  pub SameCounts-load_if_null :
      (p : FilePath) (o : Option (Option ℕ)) (w : World)
      → SameCounts w.engine (load_if_null os p o w).1.engine
  unfolding load_if_null
  SameCounts-load_if_null p none w = Same-refl w.engine
  SameCounts-load_if_null p (some (some i)) w = Same-refl w.engine
  SameCounts-load_if_null p (some none) w =
      ground (arith, engine-load_page_buffer os p journal_page_size true true w)

  pub SameCounts-new_file :
      (p t : FilePath) (o : Option (Option ℕ)) (w : World)
      → SameCounts w.engine (new_file os p t o w).1.engine
  unfolding new_file
  SameCounts-new_file p t none w = SameCounts-load_if_null p (some none) w
  SameCounts-new_file p t (some a) w =
      bind_keeps Same Same-trans (use_temp_page os p t a) (load_if_null os p) w
        (unfold use_temp_page in ground arith) (λ r e. SameCounts-load_if_null p r _)

  pub SameCounts-map_page :
      (k : FileKey) (b : Bool) (w : World) → SameCounts w.engine (map_page os k b w).1.engine
  unfolding map_page
  SameCounts-map_page k b w = ground (
    arith,
    SameCounts-new_file (path_of k) w.engine.temp_page_path
        (find w.engine.file_addrs w.engine.temp_page_path) w,
    engine-load_page_buffer os (path_of k) journal_page_size false true w,
  )
