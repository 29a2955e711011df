-- ===== src/Comm.antt =====
-- include/yijinjing/journal/PageCommStruct.h and the constants of PageSocketStruct.h: the message
-- blocks that the page engine and its clients share, and the key that the engine's maps take of
-- one. `folder` and `name` are the bytes up to the NUL.
pub mod Order
use yijinjing_lite.Prelude.{
  ℕ, ◌+◌, ◌*◌, ◌%◌, ◌^◌, Bool, true, false, not, ◌&&◌, List, ◌==◌, bytes_eq, if◌then◌else◌,
}
use yijinjing_lite.Memory.{short_lt}
use yijinjing_lite.Map.{Key, bytes_lt}

abbrev pub comm_raw : ℕ
comm_raw = 0

abbrev pub comm_occupied : ℕ
comm_occupied = 1

abbrev pub comm_holding : ℕ
comm_holding = 2

abbrev pub comm_requesting : ℕ
comm_requesting = 3

abbrev pub comm_allocated : ℕ
comm_allocated = 4

abbrev pub comm_non_exist : ℕ
comm_non_exist = 11

abbrev pub comm_mem_overflow : ℕ
comm_mem_overflow = 12

abbrev pub comm_more_than_one_write : ℕ
comm_more_than_one_write = 13

abbrev pub comm_cannot_rename_from_temp : ℕ
comm_cannot_rename_from_temp = 14

abbrev pub max_comm_user_number : ℕ
max_comm_user_number = 1000

-- COMM_SIZE; sizeof(PageCommMsg) is 136.
abbrev pub comm_size : ℕ
comm_size = max_comm_user_number * 136 + 1024

-- What `operator ==` and `operator <` look at.
pub record FileKey : Type 0 where
  pub folder : List ℕ
  pub name : List ℕ
  pub page_num : ℕ

pub record PageCommMsg : Type 0 where
  pub status : ℕ
  pub key : FileKey
  pub open key use *
  pub is_writer : Bool
  pub last_page_num : ℕ

-- PageCommMsg::operator ==
unfoldable pub comm_msg_eq : FileKey → FileKey → Bool
comm_msg_eq a b = a.page_num == b.page_num && bytes_eq a.folder b.folder && bytes_eq a.name b.name

-- PageCommMsg::operator <
unfoldable pub comm_msg_lt : FileKey → FileKey → Bool
comm_msg_lt a b =
    if not (bytes_eq a.folder b.folder)
    then bytes_lt a.folder b.folder
    else if not (bytes_eq a.name b.name)
    then bytes_lt a.name b.name
    else short_lt a.page_num b.page_num
