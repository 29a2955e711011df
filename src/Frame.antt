-- ===== src/Frame.antt =====
-- include/yijinjing/journal/Frame.hpp and FrameHeader.h: the setters and getters of a frame as
-- stores and loads in the memory of its page. The packed header is
--   status 1 byte | nano 8 | length 4 | hash 4 | msg_type 2 | last_flag 1
-- A `Frame` holds one address, so it is that address. `auto_hash` is the build option
-- FRAME_AUTO_SET_HASHCODE.
pub mod Fields
use yijinjing_lite.Prelude.{ℕ, ◌+◌, ◌-◌, ◌%◌, ◌^◌, List, Bool, length, if◌then◌else◌}
use yijinjing_lite.Constants.{
  hash_seed, frame_status_raw, frame_status_written, frame_status_page_end,
}
use yijinjing_lite.Memory.{Memory, write_le, read_le, copy, bytes_at, address_add, extend_int}
use yijinjing_lite.Hash.{murmur_hash2}

-- sizeof(FrameHeader)
abbrev pub basic_frame_header_length : ℕ
basic_frame_header_length = 20

abbrev pub status_offset : ℕ
status_offset = 0

abbrev pub nano_offset : ℕ
nano_offset = 1

abbrev pub length_offset : ℕ
length_offset = 9

abbrev pub hash_offset : ℕ
hash_offset = 13

abbrev pub msg_type_offset : ℕ
msg_type_offset = 17

abbrev pub last_flag_offset : ℕ
last_flag_offset = 19

unfoldable pub get_status : Memory → ℕ → ℕ
get_status m f = read_le 1 m (f + status_offset)

unfoldable pub get_nano : Memory → ℕ → ℕ
get_nano m f = read_le 8 m (f + nano_offset)

unfoldable pub get_frame_length : Memory → ℕ → ℕ
get_frame_length m f = read_le 4 m (f + length_offset)

unfoldable pub get_hash_code : Memory → ℕ → ℕ
get_hash_code m f = read_le 4 m (f + hash_offset)

unfoldable pub get_msg_type : Memory → ℕ → ℕ
get_msg_type m f = read_le 2 m (f + msg_type_offset)

unfoldable pub get_last_flag : Memory → ℕ → ℕ
get_last_flag m f = read_le 1 m (f + last_flag_offset)

-- An `int` difference.
unfoldable pub get_data_length : Memory → ℕ → ℕ
get_data_length m f = (get_frame_length m f + 2 ^ 32 - basic_frame_header_length) % 2 ^ 32

unfoldable pub get_data : ℕ → ℕ
get_data f = address_add f basic_frame_header_length

-- `string(getData(), getDataLength())`: the bytes of the data field.
unfoldable pub get_str : Memory → ℕ → List ℕ
get_str m f = bytes_at (get_data_length m f) m (get_data f)

unfoldable pub set_status : Memory → ℕ → ℕ → Memory
set_status m f status = write_le 1 m (f + status_offset) status

unfoldable pub set_nano : Memory → ℕ → ℕ → Memory
set_nano m f nano = write_le 8 m (f + nano_offset) nano

unfoldable pub set_frame_length : Memory → ℕ → ℕ → Memory
set_frame_length m f len = write_le 4 m (f + length_offset) len

unfoldable pub set_hash_code : Memory → ℕ → ℕ → Memory
set_hash_code m f hash = write_le 4 m (f + hash_offset) hash

unfoldable pub set_msg_type : Memory → ℕ → ℕ → Memory
set_msg_type m f msg_type = write_le 2 m (f + msg_type_offset) msg_type

unfoldable pub set_last_flag : Memory → ℕ → ℕ → Memory
set_last_flag m f last_flag = write_le 1 m (f + last_flag_offset) last_flag

unfoldable pub set_data : Bool → Memory → ℕ → List ℕ → Memory
set_data auto_hash m f bytes =
    let m1 = copy m (address_add f basic_frame_header_length) bytes in
    let m2 = set_frame_length m1 f (basic_frame_header_length + length bytes) in
    if auto_hash then set_hash_code m2 f (murmur_hash2 bytes hash_seed) else m2

-- The data is in place already.
unfoldable pub set_data_length : Bool → Memory → ℕ → ℕ → Memory
set_data_length auto_hash m f data_length =
    let m1 = set_frame_length m f (basic_frame_header_length + data_length) in
    if auto_hash
    then set_hash_code m1 f (murmur_hash2 (bytes_at data_length m1 (get_data f)) hash_seed)
    else m1

unfoldable pub get_next_entry : Memory → ℕ → ℕ
get_next_entry m f = address_add f (extend_int (get_frame_length m f))

unfoldable pub set_status_written : Memory → ℕ → Memory
set_status_written m f =
    set_status (set_status m (get_next_entry m f) frame_status_raw) f frame_status_written

unfoldable pub set_status_page_closed : Memory → ℕ → Memory
set_status_page_closed m f = set_status m f frame_status_page_end

-- The length of the frame passed, and the address of the next one.
unfoldable pub next : Memory → ℕ → ℕ × ℕ
next m f = (get_frame_length m f, get_next_entry m f)
