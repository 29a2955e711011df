-- ===== src/Constants.antt =====
-- include/yijinjing/utils/constants.h and the constants of journal/FrameHeader.h,
-- journal/PageHeader.h: sizes, status bytes and times.
use yijinjing_lite.Prelude.{ℕ, ◌-◌, ◌*◌, ◌^◌}

abbrev pub hash_seed : ℕ
hash_seed = 97

abbrev pub journal_short_name_max_length : ℕ
journal_short_name_max_length = 30

abbrev pub journal_folder_max_length : ℕ
journal_folder_max_length = 100

abbrev pub time_from_first : ℕ
time_from_first = 0

-- -1 as an `int64_t`.
abbrev pub time_to_last : ℕ
time_to_last = 2 ^ 64 - 1

abbrev pub kb : ℕ
kb = 1024

abbrev pub mb : ℕ
mb = kb * kb

abbrev pub journal_page_size : ℕ
journal_page_size = 128 * mb

abbrev pub page_min_headroom : ℕ
page_min_headroom = 2 * mb

abbrev pub frame_header_version : ℕ
frame_header_version = 2

abbrev pub frame_status_raw : ℕ
frame_status_raw = 0

abbrev pub frame_status_written : ℕ
frame_status_written = 1

abbrev pub frame_status_page_end : ℕ
frame_status_page_end = 2

abbrev pub page_status_raw : ℕ
page_status_raw = 0

abbrev pub page_status_inited : ℕ
page_status_inited = 1
