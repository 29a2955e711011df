-- ===== src/Provider/NewPage.antt =====
-- The page that `Page::load` makes of a new file.
use yijinjing_lite.Prelude.{
  ℕ, ◌+◌, ◌-◌, ◌<◌, ◌≤◌, ◌^◌, ◌≡◌, refl, sym, subst, ◌∙◌, true, List, [], ◌∷◌, ◌++◌, length,
  length-append, ◌⊎◌, inl, inr, bytes_eq_iff, Option, none, some, arith,
}
use yijinjing_lite.Constants.{
  journal_page_size, page_status_inited, frame_header_version, frame_status_raw,
}
use yijinjing_lite.Memory.{
  address_add, Memory, poke, read_le, write_le, bytes_at, read_le-write_le, read_le-write_le-Apart,
  bytes_at-copy, bytes_at-write_le-Apart, write_le-Outside, copy-Outside,
}
use yijinjing_lite.Frame.{get_status}
use yijinjing_lite.FileName.{gen_page_full_path}
use yijinjing_lite.Page.{Page, new_page}
use yijinjing_lite.Page.Header.{
  journal_name_offset, page_num_offset, start_nano_offset, close_nano_offset, frame_version_offset,
  page_init_position,
}
use yijinjing_lite.Page.Log.{Holds}
use yijinjing_lite.Page.Cursor.{IsAt}
use yijinjing_lite.Provider.{init_header, load, load_mapped, load_raw, numbered_page}
use yijinjing_lite.World.Effect.{ok, ◌>>=◌, Result}
use yijinjing_lite.World.{put_at, put_at_self, get_nano_time, Os, World, FilePath, load_page_buffer}

-- A page header as it is for a new page.
pub record IsHeader (m : Memory) (jname : List ℕ) (page_num nano : ℕ) : Type 0 where
  pub status : read_le 1 m 0 ≡ page_status_inited
  pub name : bytes_at (length (jname ++ (0 ∷ []))) m journal_name_offset ≡ jname ++ (0 ∷ [])
  pub number : read_le 2 m page_num_offset ≡ page_num
  pub start : read_le 8 m start_nano_offset ≡ nano
  pub close : read_le 8 m close_nano_offset ≡ 2 ^ 64 - 1
  pub version : read_le 2 m frame_version_offset ≡ frame_header_version

module _ (jname : List ℕ) (page_num nano : ℕ) (m : Memory) (short_name : length jname < 30)
    (number_fits : page_num < 2 ^ 16) (nano_fits : nano < 2 ^ 64) where
  name_apart :
      (k a : ℕ) (m : Memory) (v : ℕ)
      → (31 ≤ a) ⊎ (a + k ≤ 1)
      → bytes_at (length (jname ++ (0 ∷ []))) (write_le k m a v) 1
        ≡ bytes_at (length (jname ++ (0 ∷ []))) m 1
  name_apart k a m v h =
      bytes_at-write_le-Apart (length (jname ++ (0 ∷ []))) k m 1 a v
        (omega (arith, length-append jname (0 ∷ [])))

  init_header-IsHeader : IsHeader (init_header jname page_num nano m) jname page_num nano
  unfolding init_header
  init_header-IsHeader = record {
    status =
        read_le-write_le-Apart 1 2 _ 0 57 _ (omega arith) ∙ read_le-write_le 1 _ 0 1 (omega arith);
    name =
        name_apart 2 57 _ _ (inl (omega arith))
        ∙ name_apart 1 0 _ _ (inr (omega arith))
        ∙ name_apart 2 31 _ _ (inl (omega arith))
        ∙ name_apart 8 41 _ _ (inl (omega arith))
        ∙ name_apart 8 33 _ _ (inl (omega arith))
        ∙ bytes_at-copy m 1 (jname ++ (0 ∷ []));
    number =
        read_le-write_le-Apart 2 2 _ 31 57 _ (omega arith)
        ∙ read_le-write_le-Apart 2 1 _ 31 0 _ (omega arith)
        ∙ read_le-write_le 2 _ 31 page_num (omega arith);
    start =
        read_le-write_le-Apart 8 2 _ 33 57 _ (omega arith)
        ∙ read_le-write_le-Apart 8 1 _ 33 0 _ (omega arith)
        ∙ read_le-write_le-Apart 8 2 _ 33 31 _ (omega arith)
        ∙ read_le-write_le-Apart 8 8 _ 33 41 _ (omega arith)
        ∙ read_le-write_le 8 _ 33 nano (omega arith);
    close =
        read_le-write_le-Apart 8 2 _ 41 57 _ (omega arith)
        ∙ read_le-write_le-Apart 8 1 _ 41 0 _ (omega arith)
        ∙ read_le-write_le-Apart 8 2 _ 41 31 _ (omega arith)
        ∙ read_le-write_le 8 _ 41 _ (omega arith);
    version = read_le-write_le 2 _ 57 _ (omega arith);
  }

  init_header-outside : (c : ℕ) → 59 ≤ c → init_header jname page_num nano m c ≡ m c
  unfolding init_header
  init_header-outside c h =
      write_le-Outside 2 _ 57 _ c (omega arith)
      ∙ write_le-Outside 1 _ 0 _ c (omega arith)
      ∙ write_le-Outside 2 _ 31 _ c (omega arith)
      ∙ write_le-Outside 8 _ 41 _ c (omega arith)
      ∙ write_le-Outside 8 _ 33 _ c (omega arith)
      ∙ copy-Outside m 1 (jname ++ (0 ∷ [])) c (omega (arith, length-append jname (0 ∷ [])))

-- The system calls on the file succeed.
pub record Works (os : Os) (path : FilePath) : Type 0 where
  pub opens : os.open_succeeds path ≡ true
  pub seeks : os.lseek_succeeds path ≡ true
  pub writes : os.write_succeeds path ≡ true
  pub maps : os.mmap_succeeds path ≡ true

-- A new file is mapped at the next inode, and reads as zeros.
pub record IsFresh (w : World) (path : FilePath) (r : Result (Option ℕ)) (v : World) : Type 0 where
  pub mapped : r ≡ ok (some w.inodes)
  pub zeros : (c : ℕ) → v.contents w.inodes c ≡ 0
  pub file : v.files path ≡ some w.inodes
  pub clock : v.readings ≡ w.readings

module _ (os : Os) (path : FilePath) (size : ℕ) (works : Works os path) where
  load_page_buffer-IsFresh :
      (w : World)
      → w.files path ≡ none
      → IsFresh w path
          (load_page_buffer os path size true true w).0
          (load_page_buffer os path size true true w).1
  unfolding load_page_buffer poke
  load_page_buffer-IsFresh w e = record {
    mapped = ground (arith, works.opens, works.seeks, works.writes, works.maps, e);
    zeros = λ c. ground (arith, works.opens, works.seeks, works.writes, works.maps, e);
    file =
        ground
          (arith, works.opens, works.seeks, works.writes, works.maps, e, bytes_eq_iff path path);
    clock = ground (arith, works.opens, works.seeks, works.writes, works.maps, e);
  }

-- A page object in front of an empty log, in a file with the header of a new page.
pub record IsNewPage (p : Page) (v : World) (jname : List ℕ) (page_num nano : ℕ) : Type 0 where
  pub number : p.page_num ≡ page_num
  pub cursor : IsAt p page_init_position
  pub header : IsHeader (v.contents p.buffer) jname page_num nano
  pub empty : Holds (v.contents p.buffer) [] page_init_position frame_status_raw

module _ (jname : List ℕ) (page_num nano : ℕ) (m : Memory) (short_name : length jname < 30)
    (number_fits : page_num < 2 ^ 16) (nano_fits : nano < 2 ^ 64) (zeros : (c : ℕ) → m c ≡ 0) where
  init_header-Holds :
      Holds (init_header jname page_num nano m) [] page_init_position frame_status_raw
  unfolding get_status read_le
  init_header-Holds = record {
    log = refl;
    tail_status = omega (
      arith,
      init_header-outside jname page_num nano m short_name number_fits nano_fits 137,
      zeros 137,
    );
  }

abbrev pub started : World → ℕ → Memory → World
started v i m = record v { readings = v.readings + 1; contents = put_at v.contents i m }

module _ (os : Os) (dir jname : List ℕ) (page_num : ℕ) where
  -- The world after the header is stored.
  abbrev pub begun : ℕ → World → World
  begun i v = started v i (init_header jname page_num (os.clock v.readings) (v.contents i))

  pub load_mapped-begun :
      (i : ℕ) (v : World)
      → ((c : ℕ) → v.contents i c ≡ 0)
      → load_mapped os jname page_num true i v ≡ (ok (some (numbered_page i page_num)), begun i v)
  unfolding load_mapped load_raw read_le get_nano_time
  load_mapped-begun i v z = ground (arith, z 0)

  pub begun-IsNewPage :
      (i : ℕ) (v : World)
      → length jname < 30
      → page_num < 2 ^ 16
      → os.clock v.readings < 2 ^ 64
      → ((c : ℕ) → v.contents i c ≡ 0)
      → IsNewPage (numbered_page i page_num) (begun i v) jname page_num (os.clock v.readings)
  unfolding numbered_page new_page address_add
  begun-IsNewPage i v h1 h2 h3 z =
      let m = init_header jname page_num (os.clock v.readings) (v.contents i) in
      record {
        number = refl;
        cursor = record { at_frame = refl; at_position = refl; count_fits = omega arith };
        header =
            rw (put_at_self v.contents i m)
              (init_header-IsHeader jname page_num (os.clock v.readings) (v.contents i) h1 h2 h3);
        empty =
            rw (put_at_self v.contents i m)
              (init_header-Holds jname page_num (os.clock v.readings) (v.contents i) h1 h2 h3 z);
      }

  -- If the system calls succeed, a writer's load, in quick mode, of a page whose file does not
  -- exist makes the file, with the header of a new page and an empty log, and stands in front
  -- of the log. The name has under 30 bytes, the number 16 bits and the time 64.
  pub load-IsNewPage :
      (w : World)
      → Works os (gen_page_full_path dir jname page_num)
      → w.files (gen_page_full_path dir jname page_num) ≡ none
      → length jname < 30
      → page_num < 2 ^ 16
      → os.clock w.readings < 2 ^ 64
      → (p : Page) × (v : World) × (load os dir jname page_num true true w ≡ (ok (some p), v))
        × IsNewPage p v jname page_num (os.clock w.readings)
        × (v.files (gen_page_full_path dir jname page_num) ≡ some p.buffer)
  unfolding load new_page
  load-IsNewPage w works e h1 h2 h3 =
      let path = gen_page_full_path dir jname page_num in
      let mapped = load_page_buffer os path journal_page_size true true w in
      let fresh = load_page_buffer-IsFresh os path journal_page_size works w e in
      (
        numbered_page w.inodes page_num,
        begun w.inodes mapped.1,
        rw (fresh.mapped, ◌>>=◌, load_mapped-begun w.inodes mapped.1 fresh.zeros) refl,
        subst
            (λ (r : ℕ).
              IsNewPage (numbered_page w.inodes page_num) (begun w.inodes mapped.1) jname page_num
                (os.clock r))
            fresh.clock
            (begun-IsNewPage w.inodes mapped.1 h1 h2
              (subst (λ (r : ℕ). os.clock r < 2 ^ 64) (sym fresh.clock) h3) fresh.zeros),
        fresh.file,
      )
