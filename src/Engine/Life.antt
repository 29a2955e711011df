-- ===== src/Engine/Life.antt =====
-- The three threads of include/yijinjing/paged/PageEngine.cpp, from `start` to the end of
-- `stop_all`, with the thread of PageSocketHandler::run, the flags that they share and the mutex.
-- A thread is where it stands in its code, and an event is one thread going on, or a call from
-- outside; what a round does to the pages and clients is Engine.Service and Socket.
pub mod Hang
pub mod Progress
pub mod Sound
pub mod Stop
use yijinjing_lite.Prelude.{
  ℕ, Bool, true, false, ◌≡◌, ◌&&◌, ◌||◌, List, [], ◌∷◌, Option, none, some, if◌then◌else◌,
}
use yijinjing_lite.Memory.{int_lt}

-- PageEngine::start, start_task and stop_all. `failed` is behind the exception of `start`.
pub data MainAt : Type 0 where
  not_started comm_started waiting : MainAt
  testing locking in_tasks : MainAt
  stopping joining_comm stopping_socket joining_socket finished failed : MainAt

-- PageEngine::start_comm
pub data CommAt : Type 0 where
  comm_off comm_entering comm_testing comm_reading comm_locking comm_serving comm_ended : CommAt

-- PageSocketHandler::run and handle_accept
pub data SocketAt : Type 0 where
  socket_off socket_entering socket_polling socket_reading socket_locking socket_handling
        socket_ended :
      SocketAt

pub data Thread : Type 0 where
  by_main by_comm by_socket : Thread

pub record Life : Type 0 where
  pub main : MainAt
  pub comm : CommAt
  pub socket : SocketAt
  pub is_task_running : Bool
  pub comm_running : Bool
  pub io_running : Bool
  -- the io_service has been told to stop
  pub io_stopped : Bool
  pub paged_mtx : Option Thread
  -- an `int` pattern
  pub task_freq : ℕ
  pub comm_freq : ℕ
  -- exit(signum)
  pub exited : Bool

-- PageEngine::acquire_mutex: the thread `t` waits while another one has the mutex.
acquire_mutex : Thread → Life → Option Life
acquire_mutex t s = elim s.paged_mtx [
  | none ↦ some (record s { paged_mtx = some t })
  | some u ↦ none
]

-- PageEngine::release_mutex
release_mutex : Life → Life
release_mutex s = record s { paged_mtx = none }

at_main : MainAt → Option Life → Option Life
at_main m none = none
at_main m (some s) = some (record s { main = m })

at_comm : CommAt → Option Life → Option Life
at_comm c none = none
at_comm c (some s) = some (record s { comm = c })

at_socket : SocketAt → Option Life → Option Life
at_socket k none = none
at_socket k (some s) = some (record s { socket = k })

-- `join` returns when the thread has ended.
join_comm : CommAt → Life → Option Life
join_comm comm_ended s = some (record s { main = stopping_socket })
join_comm c s = none

join_socket : SocketAt → Life → Option Life
join_socket socket_ended s = some (record s { main = finished })
join_socket k s = none

-- The main thread goes on; `none` where it is blocked or at its end.
unfoldable pub main_runs : MainAt → Life → Option Life
unfolding acquire_mutex release_mutex at_main join_comm join_socket
main_runs not_started s =
    some (record s { main = comm_started; comm = comm_entering; comm_running = false })
main_runs comm_started s = some (record s { main = waiting; socket = socket_entering })
main_runs waiting s =
    if s.io_running && s.comm_running
    then some (record s { main = if int_lt 0 s.task_freq then testing else failed })
    else some s
main_runs testing s = some (record s { main = if s.is_task_running then locking else stopping })
main_runs locking s = at_main in_tasks (acquire_mutex by_main s)
main_runs in_tasks s = some (record (release_mutex s) { main = testing })
main_runs stopping s = some (record s { main = joining_comm; comm_running = false })
main_runs joining_comm s = join_comm s.comm s
main_runs stopping_socket s =
    some (record s { main = joining_socket; io_stopped = true; io_running = false })
main_runs joining_socket s = join_socket s.socket s
main_runs finished s = none
main_runs failed s = none

-- The thread of start_comm goes on; `requesting` is the test of the block it looks at.
unfoldable pub comm_runs : Bool → CommAt → Life → Option Life
unfolding acquire_mutex release_mutex at_comm
comm_runs requesting comm_off s = none
comm_runs requesting comm_entering s = some (record s { comm = comm_testing; comm_running = true })
comm_runs requesting comm_testing s =
    some (record s { comm = if s.comm_running then comm_reading else comm_ended })
comm_runs requesting comm_reading s =
    some (record s { comm = if requesting then comm_locking else comm_testing })
comm_runs requesting comm_locking s = at_comm comm_serving (acquire_mutex by_comm s)
comm_runs requesting comm_serving s = some (record (release_mutex s) { comm = comm_testing })
comm_runs requesting comm_ended s = none

-- The thread of PageSocketHandler::run goes on; `comes` says whether a client connects, and behind
-- that whether its request comes. `read_some` waits for the request without the mutex, however
-- long that takes and whatever `stop` does. A stopped io_service takes no more clients.
unfoldable pub socket_runs : Bool → SocketAt → Life → Option Life
unfolding acquire_mutex release_mutex at_socket
socket_runs comes socket_off s = none
socket_runs comes socket_entering s =
    some (record s { socket = socket_polling; io_running = true; io_stopped = false })
socket_runs comes socket_polling s = some (record s {
  socket = if s.io_stopped then socket_ended else if comes then socket_reading else socket_polling;
})
socket_runs comes socket_reading s =
    if comes then some (record s { socket = socket_locking }) else none
socket_runs comes socket_locking s = at_socket socket_handling (acquire_mutex by_socket s)
socket_runs comes socket_handling s = some (record (release_mutex s) { socket = socket_polling })
socket_runs comes socket_ended s = none

-- signal_callback: the first signal stops the tasks, the next one ends the process.
unfoldable pub signal_callback : Life → Life
signal_callback s =
    if s.is_task_running then record s { is_task_running = false } else record s { exited = true }

-- PageEngine::stop
unfoldable pub stop : Life → Life
stop s = record s { is_task_running = false }

pub data Event : Type 0 where
  main_goes : Event
  comm_goes socket_goes : Bool → Event
  signal stop_called : Event
  -- PageEngine::set_task_freq and set_comm_freq; the products with a million, as an `int`, are
  -- arguments
  task_freq_set comm_freq_set : ℕ → Event

unfoldable pub happens : Event → Life → Option Life
unfolding main_runs comm_runs socket_runs signal_callback stop
happens main_goes s = main_runs s.main s
happens (comm_goes requesting) s = comm_runs requesting s.comm s
happens (socket_goes comes) s = socket_runs comes s.socket s
happens signal s = some (signal_callback s)
happens stop_called s = some (stop s)
happens (task_freq_set freq) s = some (record s { task_freq = freq })
happens (comm_freq_set freq) s = some (record s { comm_freq = freq })

unfoldable pub act : Event → Life → Option Life
unfolding happens
act e s = if s.exited then none else happens e s

-- An engine as it is constructed.
abbrev pub new_life : Life
new_life = record {
  main = not_started;
  comm = comm_off;
  socket = socket_off;
  is_task_running = true;
  comm_running = false;
  io_running = false;
  io_stopped = false;
  paged_mtx = none;
  task_freq = 1000000;
  comm_freq = 500;
  exited = false;
}

pub data Reach : Life → Type 0 where
  created : Reach new_life
  after : {s t : Life} (e : Event) → Reach s → act e s ≡ some t → Reach t

-- A schedule: one event after the other.
unfoldable pub run : List Event → Life → Option Life
run [] s = some s
run (e ∷ es) s = elim (act e s) [ none ↦ none | some t ↦ run es t ]

-- A client connects, or its request comes.
unfoldable pub sends : Event → Bool
sends (socket_goes comes) = comes
sends e = false

unfoldable pub any_sends : List Event → Bool
unfolding sends
any_sends [] = false
any_sends (e ∷ es) = sends e || any_sends es
