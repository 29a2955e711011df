-- ===== src/Writer.antt =====
-- include/yijinjing/journal/JournalWriter.cpp, with `addJournal` of JournalHandler.cpp. A writer
-- has one journal; its methods act on the world and that journal. `auto_hash` is the build option
-- FRAME_AUTO_SET_HASHCODE.
pub mod Bounds
pub mod Frames
pub mod Readback
pub mod Store
pub mod Publish
pub mod Log
pub mod Refine
pub mod Turned
pub mod Confined
pub mod Growth
pub mod Appended
pub mod Append
pub mod Sequence
pub mod Start
use Store.{store_frame, start_frame, end_frame}
use yijinjing_lite.Prelude.{
  ℕ, Bool, List, [], ◌∷◌, ◌++◌, Option, none, some, reverse, ◌==◌, if◌then◌else◌,
}
use yijinjing_lite.Constants.{time_to_last}
use yijinjing_lite.Memory.{Memory}
use yijinjing_lite.Page.{Page}
use yijinjing_lite.Page.Log.{Message}
use yijinjing_lite.Provider.{Provider}
use yijinjing_lite.Journal.{
  Journal, Session, on_world, gets, modify, create, seek_time, locate_frame, pass_current_frame,
}
use yijinjing_lite.World.Effect.{Run, ok, pure, raise, ◌>>=◌, ◌>>◌, null_pointer}
use yijinjing_lite.World.{Os, World, update, get_nano_time}

-- The folder without a '/' at its end.
drop_slash : List ℕ → List ℕ → List ℕ
drop_slash dir [] = dir
drop_slash dir (c ∷ cs) = if c == b'/' then reverse cs else dir

unfoldable pub strip_slash : List ℕ → List ℕ
unfolding drop_slash
strip_slash dir = drop_slash dir (reverse dir)

-- JournalHandler::addJournal, up to the `push_back`.
unfoldable pub add_journal : Provider → List ℕ → List ℕ → Run World Journal
add_journal provider dir jname = do
  let dir' = strip_slash dir
  service_idx ← provider.register_journal dir' jname
  pure (create dir' jname service_idx provider)

-- JournalHandler::~JournalHandler
unfoldable pub destroy : Provider → Run World Unit
destroy provider = provider.exit_client

-- Journal::getCurPageNum
cur_page_num : Option Page → Run Session ℕ
cur_page_num none = raise null_pointer
cur_page_num (some p) = pure p.page_num

-- JournalWriter::getPageNum
unfoldable pub get_page_num : Run Session ℕ
unfolding cur_page_num
get_page_num = do p ← gets (λ j. j.cur_page); cur_page_num p

-- A store in the page that the located frame belongs to.
unfoldable pub store_in : Option Page → (Memory → Memory) → Run Session Unit
store_in none f = raise null_pointer
store_in (some p) f = on_world (update p.buffer f)

module _ (os : Os) (provider : Provider) (auto_hash : Bool) (fuel : ℕ) where
  write_located : Message → Option ℕ → Run Session Unit
  unfolding store_in
  write_located r none = raise null_pointer
  write_located r (some f) = do
    p ← gets (λ j. j.cur_page)
    store_in p (λ m. store_frame auto_hash m f r)
    pass_current_frame os provider fuel

  -- JournalWriter::write_frame
  unfoldable pub write_frame : List ℕ → ℕ → ℕ → Run Session ℕ
  unfolding write_located
  write_frame bytes msg_type last_flag = do
    nano ← on_world (get_nano_time os)
    found ← locate_frame os provider fuel
    write_located
        (record { nano = nano; msg_type = msg_type; last_flag = last_flag; content = bytes }) found
    pure nano

  -- JournalWriter::write_str: the text and its NUL.
  unfoldable pub write_str : List ℕ → ℕ → Run Session ℕ
  write_str str msg_type = write_frame (str ++ (0 ∷ [])) msg_type 1

  start_located : ℕ → Option ℕ → Run Session ℕ
  unfolding store_in
  start_located nano none = raise null_pointer
  start_located nano (some f) = do
    p ← gets (λ j. j.cur_page)
    store_in p (λ m. start_frame m f nano)
    pure f

  -- JournalWriter::locateFrame
  unfoldable pub locate_writer_frame : Run Session ℕ
  unfolding start_located
  locate_writer_frame = do
    nano ← on_world (get_nano_time os)
    found ← locate_frame os provider fuel
    start_located nano found

  -- JournalWriter::passFrame, for the frame `f` that `locateFrame` gave.
  unfoldable pub pass_writer_frame : ℕ → ℕ → ℕ → ℕ → Run Session Unit
  unfolding store_in
  pass_writer_frame f len msg_type last_flag = do
    p ← gets (λ j. j.cur_page)
    store_in p (λ m. end_frame auto_hash m f len msg_type last_flag)
    pass_current_frame os provider fuel

  -- JournalWriter::seekEnd
  unfoldable pub seek_end : Run Session Unit
  seek_end = do seek_time os provider fuel time_to_last; locate_frame os provider fuel; pure tt

  -- JournalWriter::init, on a new writer.
  unfoldable pub init : List ℕ → List ℕ → Run Session Unit
  init dir jname = do j ← on_world (add_journal provider dir jname); modify (λ _. j); seek_end
