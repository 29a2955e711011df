-- ===== src/Page/Header.antt =====
-- include/yijinjing/journal/PageHeader.h: where the fields of the page header are.
use yijinjing_lite.Prelude.{ℕ, ◌+◌, ◌*◌}

-- Offsets in `struct PageHeader`, which is packed:
--   status 1 byte | journal_name 30 | page_num 2 | start_nano 8 | close_nano 8 | frame_num 4 |
--   last_pos 4 | frame_version 2 | reserve_short 3 * 2 | reserve_long 9 * 8
abbrev pub journal_name_offset : ℕ
journal_name_offset = 1

abbrev pub page_num_offset : ℕ
page_num_offset = 31

abbrev pub start_nano_offset : ℕ
start_nano_offset = 33

abbrev pub close_nano_offset : ℕ
close_nano_offset = 41

abbrev pub frame_num_offset : ℕ
frame_num_offset = 49

abbrev pub last_pos_offset : ℕ
last_pos_offset = 53

abbrev pub frame_version_offset : ℕ
frame_version_offset = 57

-- sizeof(PageHeader)
abbrev pub page_init_position : ℕ
page_init_position = 59 + 3 * 2 + 9 * 8
