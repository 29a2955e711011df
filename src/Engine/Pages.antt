-- ===== src/Engine/Pages.antt =====
-- include/yijinjing/paged/PageEngine.cpp: the pages that users hold. `initiate_page` counts a user
-- of a page file and keeps the file mapped; `release_page` takes the user off.
use yijinjing_lite.Prelude.{
  ℕ, ◌+◌, ◌-◌, ◌^◌, ◌%◌, Bool, true, false, not, List, Option, none, some, ◌==◌, if◌then◌else◌,
}
use yijinjing_lite.Constants.{journal_page_size}
use yijinjing_lite.Map.{Map, find, insert, erase, bytes_key}
use yijinjing_lite.Comm.{
  FileKey, comm_non_exist, comm_cannot_rename_from_temp, comm_more_than_one_write, comm_allocated,
}
use yijinjing_lite.Engine.State.{EngineState, file_key}
use yijinjing_lite.FileName.{gen_page_full_path}
use yijinjing_lite.World.Effect.{Run, ok, pure, ◌>>=◌, ◌>>◌}
use yijinjing_lite.World.{
  Os, World, FilePath, put_path, load_page_buffer, release_page_buffer, file_exists,
}

abbrev pub path_of : FileKey → List ℕ
path_of k = gen_page_full_path k.folder k.name k.page_num

abbrev pub set_engine : World → EngineState → World
set_engine w e = record w { engine = e }

-- The counts of the side that the user is on, and of the other side.
abbrev pub counts : Bool → EngineState → Map FileKey ℕ
counts true e = e.file_writer_counts
counts false e = e.file_reader_counts

abbrev pub set_counts : Bool → EngineState → Map FileKey ℕ → EngineState
set_counts true e m = record e { file_writer_counts = m }
set_counts false e m = record e { file_reader_counts = m }

-- `--` and `++` on an `int`, as its bit pattern.
abbrev pub decrement : ℕ → ℕ
decrement n = if n == 0 then 2 ^ 32 - 1 else n - 1

abbrev pub increment : ℕ → ℕ
increment n = (n + 1) % 2 ^ 32

unfoldable pub is_none : {A : Type 0} → Option A → Bool
is_none none = true
is_none (some a) = false

-- One more user of the page.
unfoldable pub count_user : FileKey → Bool → Run World ℕ
count_user k true w = elim (find w.engine.file_writer_counts k) [
  | none ↦ (
    ok comm_allocated,
    set_engine w (record w.engine { file_writer_counts = insert w.engine.file_writer_counts k 1 }),
  )
  | some n ↦ (ok comm_more_than_one_write, w)
]
count_user k false w = elim (find w.engine.file_reader_counts k) [
  | none ↦ (
    ok comm_allocated,
    set_engine w (record w.engine { file_reader_counts = insert w.engine.file_reader_counts k 1 }),
  )
  | some n ↦ (
    ok comm_allocated,
    set_engine w (record w.engine {
      file_reader_counts = insert w.engine.file_reader_counts k (increment n);
    }),
  )
]

module _ (os : Os) where
  -- ReleasePageBuffer(addr, JOURNAL_PAGE_SIZE, true); nothing is mapped at a null address.
  unfoldable pub unmap : Option ℕ → Run World Unit
  unmap none = pure tt
  unmap (some i) = release_page_buffer os i true

  unfoldable pub drop_buffer : FilePath → Option (Option ℕ) → Run World Unit
  unfolding unmap
  drop_buffer path none w = (ok tt, w)
  drop_buffer path (some addr) w =
      (do
        unmap addr
        λ v.
            (ok tt, set_engine v (record v.engine { file_addrs = erase v.engine.file_addrs path })))
        w

  -- The count has come down to `n`.
  unfoldable pub settle : FileKey → Bool → ℕ → Run World Unit
  unfolding is_none
  settle k is_writer n w =
      let e = w.engine in
      if n == 0
      then (let e' = set_counts is_writer e (erase (counts is_writer e) k) in
          let w' = set_engine w e' in
          if is_none (find (counts (not is_writer) e') k)
          then drop_buffer (path_of k) (find e'.file_addrs (path_of k)) w'
          else (ok tt, w'))
      else (ok tt, set_engine w (set_counts is_writer e (insert (counts is_writer e) k n)))

  -- PageEngine::release_page
  unfoldable pub release_page : FileKey → Bool → Run World Unit
  release_page k is_writer w = elim (find (counts is_writer w.engine) k) [
    | none ↦ (ok tt, w)
    | some n ↦ settle k is_writer (decrement n) w
  ]

  -- rename of the page that the task has prepared
  unfoldable pub use_temp_page : FilePath → FilePath → Option ℕ → Run World (Option (Option ℕ))
  use_temp_page path temp addr w =
      if os.rename_succeeds temp path
      then (
        ok (some addr),
        record w {
          files = put_path (put_path w.files path (w.files temp)) temp none;
          engine = record w.engine { file_addrs = erase w.engine.file_addrs temp };
        },
      )
      else (ok none, w)

  unfoldable pub load_if_null : FilePath → Option (Option ℕ) → Run World (Option (Option ℕ))
  load_if_null path none w = (ok none, w)
  load_if_null path (some (some i)) w = (ok (some (some i)), w)
  load_if_null path (some none) w =
      (do buffer ← load_page_buffer os path journal_page_size true true; pure (some buffer)) w

  -- The buffer for a new file, or `none` if the temporary page cannot be renamed.
  unfoldable pub new_file : FilePath → FilePath → Option (Option ℕ) → Run World (Option (Option ℕ))
  new_file path temp none w = load_if_null path (some none) w
  new_file path temp (some addr) w =
      (do renamed ← use_temp_page path temp addr; load_if_null path renamed) w

  unfoldable pub add_buffer : FilePath → Option ℕ → World → World
  add_buffer path buffer w =
      set_engine w (record w.engine { file_addrs = insert w.engine.file_addrs path buffer })

  -- The file is mapped if it is not yet: `none`, or the status to answer with.
  unfoldable pub map_page : FileKey → Bool → Run World (Option ℕ)
  unfolding add_buffer is_none
  map_page k is_writer w =
      let path = path_of k in
      let temp = w.engine.temp_page_path in
      if not (is_none (find w.engine.file_addrs path))
      then (ok none, w)
      else if file_exists os path w
      then (do
        buffer ← load_page_buffer os path journal_page_size false true
        λ v. (ok none, add_buffer path buffer v))
          w
      else if not is_writer
      then (ok (some comm_non_exist), w)
      else (do
        made ← new_file path temp (find w.engine.file_addrs temp)
        elim made [
          | none ↦ pure (some comm_cannot_rename_from_temp)
          | some buffer ↦ λ v. (ok none, add_buffer path buffer v)
        ])
          w

  -- PageEngine::initiate_page
  unfoldable pub initiate_page : FileKey → Bool → Run World ℕ
  initiate_page k is_writer = do
    refused ← map_page k is_writer
    elim refused [ some status ↦ pure status | none ↦ count_user k is_writer ]
