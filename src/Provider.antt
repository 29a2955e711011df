-- ===== src/Provider.antt =====
-- include/yijinjing/journal/PageProvider.h with its two implementations, and `Page::load` of
-- Page.cpp. What the two share is the code here; how a page is asked for is the field `request`:
-- nothing in LocalPageProvider.cpp, the exchange with the page engine in ClientPageProvider.cpp.
pub mod Client
pub mod Exclusive
pub mod NewPage
pub mod Local
use yijinjing_lite.Prelude.{
  ℕ, ◌-◌, ◌^◌, Bool, true, false, not, ◌&&◌, List, [], ◌∷◌, ◌++◌, Option, none, some, ◌==◌,
  if◌then◌else◌,
}
use yijinjing_lite.Constants.{
  journal_page_size, page_status_raw, page_status_inited, frame_header_version,
}
use yijinjing_lite.Memory.{Memory, read_le, write_le, copy, short_lt}
use yijinjing_lite.Page.Header.{
  journal_name_offset, page_num_offset, start_nano_offset, close_nano_offset, frame_version_offset,
}
use yijinjing_lite.Page.{Page, new_page}
use yijinjing_lite.FileName.{gen_page_full_path}
use yijinjing_lite.Comm.{comm_allocated, comm_more_than_one_write}
use yijinjing_lite.World.Effect.{
  Run, ok, fault, pure, raise, ◌>>=◌, ◌>>◌, version_mismatch, more_than_one_writer,
}
use yijinjing_lite.World.{Os, World, update, get_nano_time, load_page_buffer, release_page_buffer}

-- The header of a new page; the last statement but one marks the page as initialised.
unfoldable pub init_header : List ℕ → ℕ → ℕ → Memory → Memory
init_header jname page_num nano m =
    let m1 = copy m journal_name_offset (jname ++ (0 ∷ [])) in
    let m2 = write_le 8 m1 start_nano_offset nano in
    let m3 = write_le 8 m2 close_nano_offset (2 ^ 64 - 1) in
    let m4 = write_le 2 m3 page_num_offset page_num in
    let m5 = write_le 1 m4 0 page_status_inited in
    write_le 2 m5 frame_version_offset frame_header_version

-- frame_version > 0 && frame_version != __FRAME_HEADER_VERSION__
is_mismatch : ℕ → Bool
is_mismatch version = short_lt 0 version && not (version == frame_header_version)

-- `new Page(buffer)` with its number set.
unfoldable pub numbered_page : ℕ → ℕ → Page
numbered_page i page_num = record (new_page i) { page_num = page_num }

module _ (os : Os) where
  -- header->status == JOURNAL_PAGE_STATUS_RAW
  load_raw : List ℕ → ℕ → Bool → ℕ → Run World (Option Page)
  load_raw jname page_num false i = pure none
  load_raw jname page_num true i = do
    nano ← get_nano_time os
    update i (init_header jname page_num nano)
    pure (some (numbered_page i page_num))

  pub load_mapped : List ℕ → ℕ → Bool → ℕ → Run World (Option Page)
  unfolding load_raw numbered_page is_mismatch
  load_mapped jname page_num is_writing i w =
      if read_le 1 (w.contents i) 0 == page_status_raw
      then load_raw jname page_num is_writing i w
      else if is_mismatch (read_le 2 (w.contents i) frame_version_offset)
      then (fault version_mismatch, w)
      else (ok (some (numbered_page i page_num)), w)

  -- Page::load
  unfoldable pub load : List ℕ → List ℕ → ℕ → Bool → Bool → Run World (Option Page)
  unfolding load_mapped
  load dir jname page_num is_writing quick_mode = do
    let path = gen_page_full_path dir jname page_num
    buffer ← load_page_buffer os path journal_page_size is_writing quick_mode
    elim buffer [ none ↦ pure none | some i ↦ load_mapped jname page_num is_writing i ]

pub record Provider : Type 0 where
  pub is_writer : Bool
  pub quick_mode : Bool
  -- how the wait for page `page_num` of the user `service_idx` ends: the status of its block
  pub request : ℕ → ℕ → Run World ℕ
  -- register_journal: the block of the new user
  pub register_journal : List ℕ → List ℕ → Run World ℕ
  pub exit_client : Run World Unit

module _ (os : Os) (provider : Provider) where
  -- PageProvider::getPage
  unfoldable pub get_page : List ℕ → List ℕ → ℕ → ℕ → Run World (Option Page)
  get_page dir jname service_idx page_num = do
    status ← provider.request service_idx page_num
    if status == comm_allocated
        then load os dir jname page_num provider.is_writer provider.quick_mode
        else if status == comm_more_than_one_write
        then raise more_than_one_writer
        else pure none

  -- PageProvider::releasePage
  unfoldable pub release_page : ℕ → Run World Unit
  release_page buffer = release_page_buffer os buffer provider.quick_mode

-- LocalPageProvider.cpp: no page is asked for.
abbrev pub local_provider : Bool → Provider
local_provider is_writer = record {
  is_writer = is_writer;
  quick_mode = false;
  request = λ service_idx page_num w. (ok comm_allocated, w);
  register_journal = λ dir jname w. (ok (2 ^ 32 - 1), w);
  exit_client = λ w. (ok tt, w);
}
