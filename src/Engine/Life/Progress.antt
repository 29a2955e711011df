-- ===== src/Engine/Life/Progress.antt =====
-- PageEngine::stop_all: the thread whose turn it is goes on, and is nearer to its end.
use yijinjing_lite.Prelude.{
  ℕ, ◌+◌, ◌<◌, ◌≡◌, ◌≢◌, true, false, Bool, not, ◌&&◌, Option, none, some, arith,
}
use yijinjing_lite.Memory.{int_lt}
use yijinjing_lite.Engine.Life.{
  MainAt, not_started, comm_started, waiting, testing, locking, in_tasks, stopping, joining_comm,
  stopping_socket, joining_socket, finished, failed, CommAt, comm_off, comm_entering, comm_testing,
  comm_reading, comm_locking, comm_serving, comm_ended, SocketAt, socket_off, socket_entering,
  socket_polling, socket_reading, socket_locking, socket_handling, socket_ended, Thread, by_main,
  by_comm, by_socket, Life, Event, main_goes, comm_goes, socket_goes, main_runs, comm_runs,
  socket_runs, happens, act, sends,
}
use yijinjing_lite.Engine.Life.Sound.{IsSound}

-- How far a thread is from its end.
abbrev pub main_left : MainAt → ℕ
main_left not_started = 12
main_left comm_started = 11
main_left waiting = 10
main_left locking = 9
main_left in_tasks = 8
main_left testing = 7
main_left stopping = 6
main_left joining_comm = 5
main_left stopping_socket = 4
main_left joining_socket = 3
main_left finished = 0
main_left failed = 0

abbrev pub comm_left : CommAt → ℕ
comm_left comm_off = 6
comm_left comm_entering = 5
comm_left comm_locking = 4
comm_left comm_serving = 3
comm_left comm_reading = 3
comm_left comm_testing = 2
comm_left comm_ended = 0

abbrev pub socket_left : SocketAt → ℕ
socket_left socket_off = 6
socket_left socket_entering = 5
socket_left socket_reading = 4
socket_left socket_locking = 3
socket_left socket_handling = 2
socket_left socket_polling = 1
socket_left socket_ended = 0

abbrev pub left : Life → ℕ
left s = main_left s.main + comm_left s.comm + socket_left s.socket

-- A stop was asked for, and the process is not at an end.
pub record IsStopping (s : Life) : Type 0 where
  pub sound : IsSound s
  pub stopped : s.is_task_running ≡ false
  pub freq_pos : int_lt 0 s.task_freq ≡ true
  pub alive : s.exited ≡ false
  pub not_failed : s.main ≢ failed

-- The thread whose turn it is.
comm_first : CommAt → Event
comm_first comm_ended = main_goes
comm_first c = comm_goes false

socket_first : SocketAt → Event
socket_first socket_ended = main_goes
socket_first socket_reading = socket_goes true
socket_first k = socket_goes false

enter_first : CommAt → SocketAt → Event
enter_first comm_entering k = comm_goes false
enter_first c socket_entering = socket_goes false
enter_first c k = main_goes

turn_of : MainAt → Life → Event
unfolding comm_first socket_first enter_first
turn_of waiting s = enter_first s.comm s.socket
turn_of joining_comm s = comm_first s.comm
turn_of joining_socket s = socket_first s.socket
turn_of m s = main_goes

pub turn : Option Thread → Life → Event
unfolding turn_of
turn none s = turn_of s.main s
turn (some by_main) s = main_goes
turn (some by_comm) s = comm_goes false
turn (some by_socket) s = socket_goes false

abbrev pub is_reading : SocketAt → Bool
is_reading socket_reading = true
is_reading k = false

abbrev pub reached : Life → Option Life → Life
reached s none = s
reached s (some t) = t

abbrev pub next : Life → Life
next s = reached s (act (turn s.paged_mtx s) s)

abbrev pub Goes : Life → Type 0
Goes s =
    (act (turn s.paged_mtx s) s ≡ some (next s))
    × (left (next s) < left s)
    × ((next s).is_task_running ≡ false)
    × (int_lt 0 (next s).task_freq ≡ true)
    × ((next s).exited ≡ false)
    × ((next s).main ≢ failed)
    × (sends (turn s.paged_mtx s) && not (is_reading s.socket) ≡ false)
    × (is_reading (next s).socket && not (is_reading s.socket) ≡ false)

pub goes : (s : Life) → IsStopping s → s.main ≢ finished → Goes s
unfolding turn act happens main_runs comm_runs socket_runs sends
goes s v h = let u = v.sound in ground arith
