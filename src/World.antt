-- ===== src/World.antt =====
-- The operating system as the program sees it: the part of include/yijinjing/journal/PageUtil.cpp
-- that maps files, over a state of files, folders and mappings. A file is an inode, which keeps
-- its bytes when the path is renamed; a mapping is MAP_SHARED, so all mappings of a file are its
-- bytes, and the address of a mapping is modelled by the inode. What the system calls answer is
-- the parameter `Os`.
pub mod Effect
pub mod Frames
pub mod New
pub mod Quiet
use Effect.{Run, ok, fault, pure, raise, exit_failure, ◌>>=◌, ◌>>◌}
use yijinjing_lite.Prelude.{
  ◌≡◌, ◌≢◌, arith, ℕ, zero, suc, ◌+◌, ◌-◌, Bool, true, false, not, ◌&&◌, List, [], ◌∷◌, Option,
  none, some, ◌==◌, bytes_eq, if◌then◌else◌,
}
use yijinjing_lite.Memory.{Memory, poke}
use yijinjing_lite.Comm.{PageCommMsg}
use yijinjing_lite.Engine.State.{EngineState}

abbrev pub FilePath : Type 0
FilePath = List ℕ

-- Answers of the system that the program tests. `clock n` is the n-th reading of `getNanoTime`.
pub record Os : Type 0 where
  pub parent_path : FilePath → FilePath
  pub open_succeeds : FilePath → Bool
  pub lseek_succeeds : FilePath → Bool
  pub write_succeeds : FilePath → Bool
  pub mmap_succeeds : FilePath → Bool
  pub madvise_succeeds : ℕ → Bool
  pub mlock_succeeds : ℕ → Bool
  pub munlock_succeeds : ℕ → Bool
  pub munmap_succeeds : ℕ → Bool
  pub rename_succeeds : FilePath → FilePath → Bool
  -- boost::filesystem::directory_iterator: the names in a folder
  pub list_folder : (FilePath → Option ℕ) → FilePath → List (List ℕ)
  -- boost::regex_match, the name before the pattern
  pub regex_match : List ℕ → List ℕ → Bool
  -- the process has ended
  pub process_gone : ℕ → Bool
  pub clock : ℕ → ℕ

pub record World : Type 0 where
  pub files : FilePath → Option ℕ
  pub contents : ℕ → Memory
  pub inodes : ℕ
  pub folders : FilePath → Bool
  -- live mappings, and locks on them
  pub mapped : List ℕ
  pub locked : List ℕ
  -- how often the clock was read
  pub readings : ℕ
  -- the blocks of the communication file
  pub comm : ℕ → PageCommMsg
  pub engine : EngineState

module _ {A : Type 0} where
  abbrev pub put_path : (FilePath → A) → FilePath → A → FilePath → A
  put_path t p a q = if bytes_eq p q then a else t q

  abbrev pub put_at : (ℕ → A) → ℕ → A → ℕ → A
  put_at t i a j = if i == j then a else t j

module _ {A : Type 0} where
  pub put_at_self : (t : ℕ → A) (i : ℕ) (a : A) → put_at t i a i ≡ a
  put_at_self t i a = ground arith

  pub put_at_ne : (t : ℕ → A) (i j : ℕ) (a : A) → i ≢ j → put_at t i a j ≡ t j
  put_at_ne t i j a h = ground arith

-- One occurrence less.
unfoldable pub drop_one : ℕ → List ℕ → List ℕ
drop_one i [] = []
drop_one i (j ∷ js) = if i == j then js else j ∷ drop_one i js

-- The bytes of a mapping changed by `f`.
abbrev pub update : ℕ → (Memory → Memory) → Run World Unit
update i f w = (ok tt, record w { contents = put_at w.contents i (f (w.contents i)) })

-- The bytes of a mapping.
abbrev pub peek : ℕ → Run World Memory
peek i w = (ok (w.contents i), w)

module _ (os : Os) where
  unfoldable pub get_nano_time : Run World ℕ
  get_nano_time w = (ok (os.clock w.readings), record w { readings = w.readings + 1 })

  -- boost::filesystem::create_directories, where the folder is missing
  make_folder : FilePath → Run World Unit
  make_folder p w =
      if w.folders (os.parent_path p)
      then (ok tt, w)
      else (ok tt, record w { folders = put_path w.folders (os.parent_path p) true })

  -- open(path, O_RDWR | O_CREAT) or open(path, O_RDONLY): the inode, `none` for -1
  open_file : FilePath → Bool → Run World (Option ℕ)
  open_file p is_writing w = if not (os.open_succeeds p) then (ok none, w) else elim (w.files p) [
    | some i ↦ (ok (some i), w)
    | none ↦
        if is_writing
        then (
          ok (some w.inodes),
          record w {
            files = put_path w.files p (some w.inodes);
            contents = put_at w.contents w.inodes (λ _. 0);
            inodes = w.inodes + 1;
          },
        )
        else (ok none, w)
  ]

  -- lseek to the last byte, and write a zero there
  stretch : FilePath → ℕ → ℕ → Run World Unit
  stretch p i size =
      if not (os.lseek_succeeds p)
      then raise exit_failure
      else if not (os.write_succeeds p)
      then raise exit_failure
      else update i (λ m. poke m (size - 1) 0)

  map_file : FilePath → ℕ → Run World Unit
  map_file p i w =
      if os.mmap_succeeds p
      then (ok tt, record w { mapped = i ∷ w.mapped })
      else (fault exit_failure, w)

  -- `madvise(...) != 0 && mlock(...) != 0`: the lock is tried only where the advice fails.
  lock_memory : ℕ → Run World Unit
  lock_memory i w =
      if os.madvise_succeeds i
      then (ok tt, w)
      else if os.mlock_succeeds i
      then (ok tt, record w { locked = i ∷ w.locked })
      else (fault exit_failure, record w { mapped = drop_one i w.mapped })

  -- PageUtil::LoadPageBuffer
  unfoldable pub load_page_buffer : FilePath → ℕ → Bool → Bool → Run World (Option ℕ)
  unfolding make_folder open_file stretch map_file lock_memory drop_one
  load_page_buffer p size is_writing quick_mode = do
    make_folder p
    fd ← open_file p is_writing
    elim fd [
      | none ↦ if not is_writing then pure none else raise exit_failure
      | some i ↦ do
        (if is_writing then stretch p i size else pure tt)
        map_file p i
        (if quick_mode then pure tt else lock_memory i)
        pure (some i)
    ]

  -- PageUtil::ReleasePageBuffer
  unfoldable pub release_page_buffer : ℕ → Bool → Run World Unit
  unfolding drop_one
  release_page_buffer i quick_mode w =
      if not quick_mode && not (os.munlock_succeeds i)
      then (fault exit_failure, w)
      else let w1 = if quick_mode then w else record w { locked = drop_one i w.locked } in
        if os.munmap_succeeds i
        then (ok tt, record w1 { mapped = drop_one i w1.mapped })
        else (fault exit_failure, w1)

  -- PageUtil::FileExists
  unfoldable pub file_exists : FilePath → World → Bool
  file_exists p w = os.open_succeeds p && elim (w.files p) [ none ↦ false | some i ↦ true ]
