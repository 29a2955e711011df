-- ===== src/Tests/Fixtures.antt =====
-- A system on which every call succeeds, an empty disk, and a page with one frame.
use yijinjing_lite.Prelude.{ℕ, ◌+◌, ◌≡◌, refl, true, false, [], ◌∷◌, none, codes, arith}
use yijinjing_lite.Constants.{frame_status_raw}
use yijinjing_lite.Memory.{Memory, read_le}
use yijinjing_lite.Frame.{get_status}
use yijinjing_lite.Page.{Page}
use yijinjing_lite.Page.Header.{page_init_position}
use yijinjing_lite.Page.Log.{Message, Fits, Holds}
use yijinjing_lite.Page.Cursor.{IsAt}
use yijinjing_lite.Writer.Store.{store_frame}
use yijinjing_lite.Writer.Publish.{publish_appends}
use yijinjing_lite.Comm.{PageCommMsg, FileKey, comm_raw}
use yijinjing_lite.Engine.State.{EngineState}
use yijinjing_lite.Provider.{Provider, local_provider}
use yijinjing_lite.World.{Os, World}
use yijinjing_lite.World.New.{Healthy}

abbrev pub os : Os
os = record {
  parent_path = λ p. p;
  open_succeeds = λ p. true;
  lseek_succeeds = λ p. true;
  write_succeeds = λ p. true;
  mmap_succeeds = λ p. true;
  madvise_succeeds = λ i. true;
  mlock_succeeds = λ i. true;
  munlock_succeeds = λ i. true;
  munmap_succeeds = λ i. true;
  rename_succeeds = λ p q. true;
  list_folder = λ files p. [];
  regex_match = λ name pattern. false;
  process_gone = λ pid. false;
  clock = λ n. 1000 + n;
}

pub os-Healthy : Healthy os
os-Healthy = record {
  opens = λ p. refl;
  seeks = λ p. refl;
  writes = λ p. refl;
  maps = λ p. refl;
  advises = λ i. refl;
  unlocks = λ i. refl;
  unmaps = λ i. refl;
}

abbrev pub zeros : Memory
zeros = λ c. 0

abbrev pub free_key : FileKey
free_key = record { folder = []; name = []; page_num = 0 }

abbrev pub raw_block : PageCommMsg
raw_block = record { status = comm_raw; key = free_key; is_writer = false; last_page_num = 0 }

abbrev pub new_engine : EngineState
new_engine = record {
  client_journals = [];
  pid_client = [];
  file_writer_counts = [];
  file_reader_counts = [];
  file_addrs = [];
  tasks = [];
  comm_file = codes "comm";
  temp_page_path = codes "temp";
  max_idx = 0;
}

abbrev pub disk : (ℕ → Memory) → EngineState → World
disk contents engine = record {
  files = λ p. none;
  contents = contents;
  inodes = 5;
  folders = λ p. true;
  mapped = [];
  locked = [];
  readings = 0;
  comm = λ i. raw_block;
  engine = engine;
}

abbrev pub empty_disk : World
empty_disk = disk (λ i. zeros) new_engine

abbrev pub local_writer : Provider
local_writer = local_provider true

abbrev pub hello : Message
hello = record { nano = 900; msg_type = 7; last_flag = 1; content = codes "hello" }

pub hello-Fits : Fits hello
hello-Fits = record {
  nano_fits = omega arith;
  type_fits = omega arith;
  flag_fits = omega arith;
  size_fits = omega arith;
}

-- The cursor of a page in file 0 that stands at address `a`.
abbrev pub page_at : ℕ → Page
page_at a = record { frame = a; buffer = 0; position = a; frame_num = 0; page_num = 1 }

pub page_at-IsAt : (a : ℕ) → IsAt (page_at a) a
page_at-IsAt a = record { at_frame = refl; at_position = refl; count_fits = omega arith }

pub zeros-status : (a : ℕ) → get_status zeros a ≡ frame_status_raw
unfolding get_status read_le
zeros-status a = refl

pub zeros-Holds : Holds zeros [] page_init_position frame_status_raw
zeros-Holds = record { log = refl; tail_status = zeros-status page_init_position }

-- A page with that frame.
abbrev pub logged : Memory
logged = store_frame true zeros page_init_position hello

pub logged-Holds : Holds logged (hello ∷ []) 162 frame_status_raw
logged-Holds =
    publish_appends true zeros page_init_position hello hello-Fits (omega arith) [] zeros-Holds
