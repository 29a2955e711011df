-- ===== src/Page.antt =====
-- include/yijinjing/journal/Page.h, Page.cpp and PageHeader.h: a page file under a cursor. The
-- bytes of the file are an argument, since other processes map the same file; `buffer` names the
-- file, and frame addresses are offsets in it. Loops over frames take fuel, and are `none` when
-- it runs out. `Page::load` is in Provider.antt, with the file system.
pub mod Header
pub mod Close
pub mod Cursor
pub mod Log
use yijinjing_lite.Prelude.{
  ℕ, zero, suc, ◌+◌, ◌*◌, ◌%◌, ◌^◌, ◌-◌, List, Option, none, some, Bool, ◌&&◌, ◌==◌, if◌then◌else◌,
}
use yijinjing_lite.Constants.{
  frame_status_raw, frame_status_written, frame_status_page_end, page_min_headroom,
  journal_page_size,
}
use yijinjing_lite.Memory.{Memory, write_le, address_add, int_lt, int64_lt}
use Header.{page_init_position, close_nano_offset, frame_num_offset, last_pos_offset}
use yijinjing_lite.Frame.{get_status, get_nano, set_status_page_closed, next}

pub record Page : Type 0 where
  pub frame : ℕ
  pub buffer : ℕ
  pub position : ℕ
  pub frame_num : ℕ
  pub page_num : ℕ

-- The constructor; -1 is the page number until `load` sets it.
unfoldable pub new_page : ℕ → Page
new_page buffer = record {
  frame = address_add 0 page_init_position;
  buffer = buffer;
  position = page_init_position;
  frame_num = 0;
  page_num = 2 ^ 16 - 1;
}

unfoldable pub get_cur_status : Memory → Page → ℕ
get_cur_status m p = get_status m p.frame

unfoldable pub is_at_page_end : Memory → Page → Bool
unfolding get_cur_status
is_at_page_end m p = get_cur_status m p == frame_status_page_end

-- `int` sums.
unfoldable pub pass_frame : Memory → Page → Page
pass_frame m p =
    let (len, entry) = next m p.frame in
    record p {
      frame = entry;
      position = (p.position + len) % 2 ^ 32;
      frame_num = (p.frame_num + 1) % 2 ^ 32;
    }

unfoldable pub pass_written_frame : ℕ → Memory → Page → Option Page
unfolding get_cur_status
pass_written_frame zero m p = none
pass_written_frame (suc fuel) m p =
    let rest = pass_written_frame fuel m (pass_frame m p) in
    if get_cur_status m p == frame_status_written then rest else some p

unfoldable pub pass_to_time : ℕ → Memory → Page → ℕ → Option Page
unfolding get_cur_status
pass_to_time zero m p time = none
pass_to_time (suc fuel) m p time =
    let rest = pass_to_time fuel m (pass_frame m p) time in
    if get_cur_status m p == frame_status_written && int64_lt (get_nano m p.frame) time
    then rest
    else some p

-- The page where the loop stopped, and the address of a clean frame with headroom, if any.
unfoldable pub locate_writable_frame : ℕ → Memory → Page → Option (Page × Option ℕ)
unfolding get_cur_status
locate_writable_frame fuel m p = elim (pass_written_frame fuel m p) [
  | none ↦ none
  | some q ↦ some (
    q,
    if get_cur_status m q == frame_status_raw
          && int_lt ((q.position + page_min_headroom) % 2 ^ 32) journal_page_size
        then some q.frame
        else none,
  )
]

unfoldable pub locate_readable_frame : Memory → Page → Option ℕ
unfolding get_cur_status
locate_readable_frame m p =
    if get_cur_status m p == frame_status_written then some p.frame else none

-- `nano` is the reading of the clock.
unfoldable pub finish_page : Memory → Page → ℕ → Memory
finish_page m p nano =
    let m1 = write_le 8 m close_nano_offset nano in
    let m2 = write_le 4 m1 frame_num_offset p.frame_num in
    let m3 = write_le 4 m2 last_pos_offset p.position in set_status_page_closed m3 p.frame
