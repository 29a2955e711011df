-- ===== src/Socket.antt =====
-- include/yijinjing/paged/PageSocketHandler.cpp (process_msg), journal/PageSocketStruct.h, and the
-- requests of ClientPageProvider.cpp: the bytes that go over the socket. The transport is not
-- modelled: what a client sends is in the buffer when `process_msg` starts.
pub mod Protocol
pub mod Clients
pub mod Visit
use yijinjing_lite.Prelude.{
  ℕ, zero, suc, ◌+◌, ◌*◌, ◌^◌, Bool, true, false, List, [], ◌∷◌, ◌++◌, Option, none, some, codes,
  ltb, ◌==◌, ◌||◌, if◌then◌else◌,
}
use yijinjing_lite.Memory.{Memory, read_le, write_le, copy}
use yijinjing_lite.Comm.{comm_size}
use yijinjing_lite.Engine.Clients.{reg_journal, reg_client, exit_client}
use yijinjing_lite.World.Effect.{Run, ok, pure, ◌>>=◌, ◌>>◌}
use yijinjing_lite.World.{Os, World, get_nano_time}

-- PagedSocketTypeConstants
abbrev pub connection_test : ℕ
connection_test = 0

abbrev pub journal_register : ℕ
journal_register = 11

abbrev pub reader_register : ℕ
reader_register = 12

abbrev pub writer_register : ℕ
writer_register = 13

abbrev pub client_exit : ℕ
client_exit = 19

abbrev pub timer_sec_diff_request : ℕ
timer_sec_diff_request = 99

-- `n` zero bytes: a struct that is initialised by `{}`.
abbrev pub blank : ℕ → List ℕ
blank zero = []
blank (suc n) = 0 ∷ blank n

-- The bytes from `a` on up to a NUL; `n` bounds the buffer.
unfoldable pub c_string : ℕ → Memory → ℕ → List ℕ
c_string zero m a = []
c_string (suc n) m a = let rest = c_string n m (a + 1) in if m a == 0 then [] else m a ∷ rest

bool_byte : Bool → ℕ
bool_byte true = 1
bool_byte false = 0

-- struct PagedSocketRequest, packed:
--   type 1 byte | name 30 | pid 4 | hash_code 4 | source 2
-- A request in a buffer that had the bytes `m` before.
unfoldable pub put_request : Memory → ℕ → List ℕ → ℕ → ℕ → Memory
put_request m req_type name pid hash_code =
    let m1 = copy m 0 (blank 41) in
    let m2 = write_le 1 m1 0 req_type in
    let m3 = write_le 4 m2 31 pid in
    let m4 = write_le 4 m3 35 hash_code in copy m4 1 (name ++ (0 ∷ []))

-- struct PagedSocketResponse, packed: type 1 byte | success 1 | error_msg 100
unfoldable pub put_response : ℕ → Memory → ℕ → Bool → Memory
unfolding bool_byte
put_response size m rsp_type success =
    write_le 1 (write_le 1 (copy m 0 (blank size)) 0 rsp_type) 1 (bool_byte success)

-- PagedSocketRspJournal: comm_idx at 104
unfoldable pub put_journal_response : Memory → ℕ → ℕ → Memory
unfolding put_response
put_journal_response m rsp_type idx =
    write_le 4 (put_response 108 m rsp_type (ltb idx (2 ^ 31))) 104 idx

-- PagedSocketRspClient: comm_file at 102, file_size at 204, hash_code at 208
unfoldable pub put_client_response : Memory → ℕ → Bool → List ℕ → ℕ → ℕ → Memory
unfolding put_response
put_client_response m rsp_type success comm_file file_size hash_code =
    let m1 = put_response 212 m rsp_type success in
    let m2 = write_le 4 m1 204 file_size in
    let m3 = write_le 4 m2 208 hash_code in copy m3 102 (comm_file ++ (0 ∷ []))

-- `timer_text` is what the json library prints for `getSecDiff` and a reading of the clock;
-- `junk` is in the locals that `reg_client` does not set when it fails.
module _ (os : Os) (timer_text : ℕ → List ℕ) (junk : ℕ × ℕ) where
  answer_client : Memory → ℕ → Option ℕ → Run World Memory
  unfolding put_client_response
  answer_client m req_type none w = (ok (put_client_response m req_type false [] junk.0 junk.1), w)
  answer_client m req_type (some h) w =
      (ok (put_client_response m req_type true w.engine.comm_file comm_size h), w)

  -- PageSocketHandler::process_msg, from the buffer as it was read to what is written back.
  unfoldable pub process_msg : Memory → Run World Memory
  unfolding answer_client put_response
  process_msg m =
      let req_type = read_le 1 m 0 in
      let name = c_string 499 m 1 in
      if req_type == timer_sec_diff_request
      then (do nano ← get_nano_time os; pure (copy m 0 (timer_text nano ++ (0 ∷ []))))
      else if req_type == connection_test
      then pure (copy m 0 (codes "Hello, world!" ++ (0 ∷ [])))
      else if req_type == journal_register
      then (do idx ← reg_journal name; pure (put_journal_response m req_type idx))
      else if (req_type == reader_register) || (req_type == writer_register)
      then (do
        client ← reg_client os name (read_le 4 m 31) (req_type == writer_register)
        answer_client m req_type client)
      else if req_type == client_exit
      then (do exit_client os name (read_le 4 m 35) true; pure (put_response 102 m req_type true))
      else pure m

-- What ClientPageProvider.cpp takes from the response to a journal's registration, if it is one.
unfoldable pub journal_response : Memory → Option ℕ
journal_response m =
    if read_le 1 m 0 == journal_register
    then (if read_le 1 m 1 == 0 then none else some (read_le 4 m 104))
    else none

-- The type of a client's registration.
unfoldable pub register_type : Bool → ℕ
register_type true = writer_register
register_type false = reader_register

-- What PageProvider::register_client of ClientPageProvider.cpp takes from the response, if it is a
-- success: the hash code, and the name and the size of the file with the blocks.
unfoldable pub client_response : ℕ → Memory → Option (ℕ × List ℕ × ℕ)
client_response req_type m =
    if read_le 1 m 0 == req_type
    then (if read_le 1 m 1 == 0
        then none
        else some (read_le 4 m 208, c_string 398 m 102, read_le 4 m 204))
    else none
