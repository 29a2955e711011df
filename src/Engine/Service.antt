-- ===== src/Engine/Service.antt =====
-- include/yijinjing/paged/PageEngine.cpp and PageServiceTask.cpp: a round of the thread that serves
-- the blocks, and the tasks.
use yijinjing_lite.Prelude.{
  ℕ, ◌+◌, ◌%◌, Bool, true, false, not, ◌&&◌, List, [], ◌∷◌, ◌++◌, Option, none, some, codes, ◌==◌,
  if◌then◌else◌,
}
use yijinjing_lite.Constants.{journal_page_size}
use yijinjing_lite.Memory.{short_lt}
use yijinjing_lite.Map.{Map, find, insert, bytes_key}
use yijinjing_lite.Comm.{PageCommMsg, comm_raw, comm_size, comm_requesting}
use yijinjing_lite.Engine.State.{EngineState, Task, base, pid_check, temp_page}
use yijinjing_lite.Engine.Pages.{set_engine, release_page, initiate_page}
use yijinjing_lite.Engine.Clients.{exit_client}
use yijinjing_lite.World.Effect.{Run, ok, fault, ◌>>=◌, ◌>>◌, undefined_behaviour}
use yijinjing_lite.World.{Os, World, put_at, load_page_buffer}

module _ (os : Os) where
  -- The page that the user held is given back first, if it asks for another one.
  unfoldable pub release_last : PageCommMsg → Run World Unit
  release_last msg w =
      if short_lt 0 msg.last_page_num && not (msg.last_page_num == msg.page_num)
      then release_page os (record (msg.key) { page_num = msg.last_page_num }) msg.is_writer w
      else (ok tt, w)

  unfoldable pub answer : ℕ → PageCommMsg → ℕ → Run World Unit
  answer idx msg status w = (
    ok tt,
    record w {
      comm = put_at w.comm idx (record msg { status = status; last_page_num = msg.page_num });
    },
  )

  unfoldable pub serve : ℕ → PageCommMsg → Run World Unit
  unfolding release_last answer
  serve idx msg = do
    release_last msg
    status ← initiate_page os msg.key msg.is_writer
    answer idx msg status

  -- The body of the loop of PageEngine::start_comm.
  unfoldable pub comm_round : ℕ → Run World Unit
  comm_round idx w =
      if (w.comm idx).status == comm_requesting then serve idx (w.comm idx) w else (ok tt, w)

  -- `idx = (idx + 1) % (maxIdx + 1)`
  unfoldable pub next_idx : World → ℕ → ℕ
  next_idx w idx = (idx + 1) % (w.engine.max_idx + 1)

  -- The clients of the processes that have ended.
  unfoldable pub gone_clients : Map ℕ (List (List ℕ)) → List (List ℕ)
  gone_clients [] = []
  gone_clients ((pid, names) ∷ rest) =
      if os.process_gone pid then names ++ gone_clients rest else gone_clients rest

  unfoldable pub exit_all : List (List ℕ) → Run World Unit
  exit_all [] w = (ok tt, w)
  exit_all (name ∷ names) w = (do exit_client os name 0 false; exit_all names) w

  -- PstPidCheck::go
  unfoldable pub check_pids : Run World Unit
  check_pids w = exit_all (gone_clients w.engine.pid_client) w

  keep_buffer : Option ℕ → Run World Unit
  keep_buffer none w = (ok tt, w)
  keep_buffer (some i) w = (
    ok tt,
    set_engine w (record w.engine {
      file_addrs = insert w.engine.file_addrs w.engine.temp_page_path (some i);
    }),
  )

  -- PstTempPage::go
  unfoldable pub prepare_temp_page : Run World Unit
  unfolding keep_buffer
  prepare_temp_page w = elim (find w.engine.file_addrs w.engine.temp_page_path) [
    | some addr ↦ (ok tt, w)
    | none ↦
        (do
          buffer ← load_page_buffer os w.engine.temp_page_path journal_page_size true true
          keep_buffer buffer)
          w
  ]

  -- PstBase::go and what overrides it
  unfoldable pub go : Task → Run World Unit
  go base w = (ok tt, w)
  go pid_check w = check_pids w
  go temp_page w = prepare_temp_page w

  unfoldable pub go_all : Map (List ℕ) Task → Run World Unit
  go_all [] w = (ok tt, w)
  go_all ((name, task) ∷ rest) w = (do go task; go_all rest) w

  -- A round of PageEngine::start_task.
  unfoldable pub task_round : Run World Unit
  task_round w = go_all w.engine.tasks w

-- getName
unfoldable pub task_name : Task → List ℕ
task_name base = codes "Base"
task_name pid_check = codes "PidCheck"
task_name temp_page = codes "TempPage"

is_some : Option Task → Bool
is_some none = false
is_some (some t) = true

-- PageEngine::add_task
unfoldable pub add_task : Task → Run World Bool
unfolding is_some
add_task task w =
    let e = w.engine in
    (
      ok (not (is_some (find e.tasks (task_name task)))),
      set_engine w (record e { tasks = insert e.tasks (task_name task) task }),
    )

-- PageEngine::remove_task_by_name, test and all: it is the missing task that is erased.
unfoldable pub remove_task_by_name : List ℕ → Run World Bool
remove_task_by_name name w = elim (find w.engine.tasks name) [
  | none ↦ (fault undefined_behaviour, w)
  | some task ↦ (ok false, w)
]

-- PageEngine::remove_task
unfoldable pub remove_task : Task → Run World Bool
unfolding remove_task_by_name
remove_task task = remove_task_by_name (task_name task)

-- PageEngine::PageEngine: an engine with its two tasks.
unfoldable pub create_engine : List ℕ → List ℕ → EngineState
create_engine comm_file temp_page_path = record {
  client_journals = [];
  pid_client = [];
  file_writer_counts = [];
  file_reader_counts = [];
  file_addrs = [];
  tasks = insert (insert [] (task_name pid_check) pid_check) (task_name temp_page) temp_page;
  comm_file = comm_file;
  temp_page_path = temp_page_path;
  max_idx = 0;
}

-- A block of zero bytes.
abbrev pub zero_msg : PageCommMsg
zero_msg = record {
  status = comm_raw;
  key = record { folder = []; name = []; page_num = 0 };
  is_writer = false;
  last_page_num = 0;
}

-- The part of PageEngine::start before the threads: the communication file is mapped and zeroed.
unfoldable pub start_comm_file : Os → Run World Unit
start_comm_file os w =
    (do
      load_page_buffer os w.engine.comm_file comm_size true true
      λ v. (ok tt, record v { comm = λ i. zero_msg }))
      w
