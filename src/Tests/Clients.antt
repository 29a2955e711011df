-- ===== src/Tests/Clients.antt =====
-- Clients of the page engine.
use yijinjing_lite.Prelude.{
  ℕ, ◌≡◌, ◌≤◌, refl, true, false, [], ◌∷◌, none, some, codes, arith, bytes_eq,
}
use yijinjing_lite.Comm.{
  FileKey, PageCommMsg, comm_occupied, comm_holding, comm_requesting, max_comm_user_number,
  comm_msg_eq,
}
use yijinjing_lite.FileName.{gen_page_full_path, gen_page_file_name, extract_page_num}
use yijinjing_lite.FileName.Decimal.{to_string}
use yijinjing_lite.FileName.RoundTrip.{extract_page_num-gen_page_file_name}
use yijinjing_lite.Map.{find, bytes_key}
use yijinjing_lite.Engine.State.{EngineState, PageClientInfo, file_key}
use yijinjing_lite.Engine.Counts.{IsSound}
use yijinjing_lite.Engine.Exclusive.{initiate_page-allocated}
use yijinjing_lite.Engine.Pages.{
  map_page, count_user, new_file, load_if_null, add_buffer, is_none, path_of, initiate_page,
}
use yijinjing_lite.Engine.Clients.{
  leave, free_blocks, free_block, forget, reg_journal, reg_client, exit_client, first_raw,
}
use yijinjing_lite.Engine.Service.{comm_round}
use yijinjing_lite.Engine.Blocks.{IsFirstRaw, Forgotten, reg_journal-takes, exit_client-frees}
use yijinjing_lite.Engine.Steps.{done, next, served, put, register, Steps-IsSound}
use yijinjing_lite.Provider.{get_page}
use yijinjing_lite.Provider.Client.{client_provider}
use yijinjing_lite.Provider.Exclusive.{get_page-refused}
use yijinjing_lite.World.Effect.{ok, fault, more_than_one_writer}
use yijinjing_lite.World.{World, load_page_buffer, file_exists}
use yijinjing_lite.Tests.Fixtures.{os, zeros, raw_block, new_engine, disk, empty_disk}

abbrev pub page_key : FileKey
page_key = record { folder = codes "d"; name = codes "j"; page_num = 1 }

-- A writer has the page of the key, and a client holds block 0.
abbrev info : PageClientInfo
info = record {
  user_index_vec = 0 ∷ [];
  reg_nano = 1;
  pid = 77;
  hash_code = 5;
  is_writing = true;
  is_strategy = false;
  rid_start = 0;
  rid_end = 0;
  trade_engine_vec = [];
}

abbrev busy_engine : EngineState
busy_engine = record new_engine {
  client_journals = (codes "c", info) ∷ [];
  pid_client = (77, codes "c" ∷ []) ∷ [];
  file_writer_counts = (page_key, 1) ∷ [];
  file_addrs = (path_of page_key, some 0) ∷ [];
}

abbrev held : PageCommMsg
held = record { status = comm_holding; key = page_key; is_writer = true; last_page_num = 0 }

abbrev busy : World
busy = record (disk (λ i. zeros) busy_engine) { comm = λ i. held }

-- The same with free blocks.
abbrev pub free : World
free = disk (λ i. zeros) busy_engine

abbrev requested : PageCommMsg
requested = record { status = comm_requesting; key = page_key; is_writer = true; last_page_num = 0 }

pub new_engine-IsSound : {b : ℕ} → IsSound b new_engine
unfolding find
new_engine-IsSound = record {
  one_writer = λ k n e. ground (arith, e);
  some_reader = λ k n e. ground (arith, e);
}

-- The engine serves a request of a client that has registered.
abbrev registered : World
registered = (reg_client os (codes "c") 77 true empty_disk).1

abbrev posted : World
posted = record registered { comm = λ i. requested }

Steps-IsSound_example : IsSound 3 (comm_round os 0 posted).1.engine
Steps-IsSound_example =
    Steps-IsSound os {b = 0}
      (next (next (next done (register (codes "c") 77 true)) (put (λ i. requested))) (served 0))
      new_engine-IsSound (omega arith)

initiate_page-allocated_example :
    (find empty_disk.engine.file_writer_counts page_key ≡ none)
    × (find (initiate_page os page_key true empty_disk).1.engine.file_writer_counts page_key
        ≡ some 1)
unfolding initiate_page find load_page_buffer file_exists map_page count_user new_file load_if_null
    add_buffer is_none
initiate_page-allocated_example = initiate_page-allocated os page_key empty_disk refl

get_page-refused_example :
    ((get_page os (client_provider os (codes "c") true 5) (codes "d") (codes "j") 0 1 busy).0
      ≡ fault more_than_one_writer)
    × ((get_page os
          (client_provider os (codes "c") true 5)
          (codes "d")
          (codes "j")
          0
          1
          busy).1.engine
        ≡ busy_engine)
unfolding find comm_msg_eq bytes_eq gen_page_full_path gen_page_file_name to_string
get_page-refused_example =
    get_page-refused os (codes "c") 5 (codes "d") (codes "j") 0 1 busy 1 (some 0) refl refl refl
      refl

exit_client-frees_example :
    Forgotten os (codes "c") (0 ∷ []) (exit_client os (codes "c") 5 true busy).1
unfolding exit_client find bytes_eq leave free_blocks free_block forget
exit_client-frees_example = exit_client-frees os (codes "c") info busy refl refl

reg_journal-takes_example :
    ((reg_journal (codes "c") free).0 ≡ ok 0)
    × IsFirstRaw free.comm max_comm_user_number 0 0
    × (((reg_journal (codes "c") free).1.comm 0).status ≡ comm_occupied)
    × ((reg_journal (codes "c") free).1.comm 3 ≡ raw_block)
    × (0 ≤ (reg_journal (codes "c") free).1.engine.max_idx)
unfolding first_raw find bytes_eq
reg_journal-takes_example =
    reg_journal-takes (codes "c") 0 3 info free refl refl (λ e. omega (arith, e))

extract_page_num-gen_page_file_name_example :
    extract_page_num (gen_page_file_name (codes "j.2") 107) (codes "j.2") ≡ 107
extract_page_num-gen_page_file_name_example =
    extract_page_num-gen_page_file_name (codes "j.2") 107 (omega arith)

abbrev key_of : ℕ → FileKey
key_of n = record { folder = codes "d"; name = codes "j"; page_num = n }
