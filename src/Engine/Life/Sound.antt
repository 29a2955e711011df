-- ===== src/Engine/Life/Sound.antt =====
-- What holds of the engine's threads in whatever order they go on.
use yijinjing_lite.Prelude.{
  ℕ, ◌≤◌, ◌<◌, ◌≡◌, sym, ap, ◌∙◌, Bool, true, false, ◌&&◌, inl, inr, Bool-cases, Option, none, some,
  leb, arith, if◌then◌else◌,
}
use yijinjing_lite.Engine.Life.{
  MainAt, not_started, comm_started, waiting, testing, locking, in_tasks, stopping, joining_comm,
  stopping_socket, joining_socket, finished, failed, CommAt, comm_off, comm_entering, comm_testing,
  comm_reading, comm_locking, comm_serving, comm_ended, SocketAt, socket_off, socket_entering,
  socket_polling, socket_reading, socket_locking, socket_handling, socket_ended, Thread, by_main,
  by_comm, by_socket, Life, Event, main_goes, comm_goes, socket_goes, signal, stop_called,
  task_freq_set, comm_freq_set, main_runs, comm_runs, socket_runs, signal_callback, stop, happens,
  act, new_life, Reach, created, after,
}

abbrev pub stage : MainAt → ℕ
stage not_started = 0
stage comm_started = 1
stage waiting = 2
stage testing = 3
stage locking = 3
stage in_tasks = 3
stage stopping = 3
stage failed = 3
stage joining_comm = 4
stage stopping_socket = 5
stage joining_socket = 6
stage finished = 7

abbrev pub comm_stage : CommAt → ℕ
comm_stage comm_off = 0
comm_stage comm_entering = 1
comm_stage comm_testing = 2
comm_stage comm_reading = 2
comm_stage comm_locking = 2
comm_stage comm_serving = 2
comm_stage comm_ended = 3

abbrev pub socket_stage : SocketAt → ℕ
socket_stage socket_off = 0
socket_stage socket_entering = 1
socket_stage socket_polling = 2
socket_stage socket_reading = 2
socket_stage socket_locking = 2
socket_stage socket_handling = 2
socket_stage socket_ended = 3

-- The thread is between acquire_mutex and release_mutex.
abbrev pub main_holds : MainAt → Bool
main_holds in_tasks = true
main_holds m = false

abbrev pub comm_holds : CommAt → Bool
comm_holds comm_serving = true
comm_holds c = false

abbrev pub socket_holds : SocketAt → Bool
socket_holds socket_handling = true
socket_holds k = false

abbrev pub held_by_main : Option Thread → Bool
held_by_main (some by_main) = true
held_by_main t = false

abbrev pub held_by_comm : Option Thread → Bool
held_by_comm (some by_comm) = true
held_by_comm t = false

abbrev pub held_by_socket : Option Thread → Bool
held_by_socket (some by_socket) = true
held_by_socket t = false

pub record IsSound (s : Life) : Type 0 where
  -- the mutex is with the thread that is between the two calls
  pub main_lock : main_holds s.main ≡ held_by_main s.paged_mtx
  pub comm_lock : comm_holds s.comm ≡ held_by_comm s.paged_mtx
  pub socket_lock : socket_holds s.socket ≡ held_by_socket s.paged_mtx
  -- a thread exists from its start on
  pub comm_unborn : stage s.main < 1 → comm_stage s.comm ≡ 0
  pub comm_born : 1 ≤ stage s.main → 1 ≤ comm_stage s.comm
  pub socket_unborn : stage s.main < 2 → socket_stage s.socket ≡ 0
  pub socket_born : 2 ≤ stage s.main → 1 ≤ socket_stage s.socket
  -- `start` waits until both are in their loops
  pub comm_inside : 3 ≤ stage s.main → 2 ≤ comm_stage s.comm
  pub socket_inside : 3 ≤ stage s.main → 2 ≤ socket_stage s.socket
  -- a thread's flag is on from there on until `stop_all` takes it back, and the thread goes on
  pub comm_flag : stage s.main < 4 → s.comm_running ≡ leb 2 (comm_stage s.comm)
  pub comm_lasts : stage s.main < 4 → comm_stage s.comm < 3
  pub io_flag : stage s.main < 6 → s.io_running ≡ leb 2 (socket_stage s.socket)
  pub io_lasts : stage s.main < 6 → (socket_stage s.socket < 3) × (s.io_stopped ≡ false)
  -- once taken back it stays so, and `stop_all` goes on when the thread has ended
  pub comm_told : 4 ≤ stage s.main → s.comm_running ≡ false
  pub comm_joined : 5 ≤ stage s.main → comm_stage s.comm ≡ 3
  pub io_told : 6 ≤ stage s.main → s.io_stopped ≡ true
  pub socket_joined : 7 ≤ stage s.main → socket_stage s.socket ≡ 3

new_life-IsSound : IsSound new_life
new_life-IsSound = ground arith

main_runs-IsSound : (s t : Life) → IsSound s → main_runs s.main s ≡ some t → IsSound t
unfolding main_runs
main_runs-IsSound s t v e = ground (arith, e)

comm_runs-IsSound : (r : Bool) (s t : Life) → IsSound s → comm_runs r s.comm s ≡ some t → IsSound t
unfolding comm_runs
comm_runs-IsSound r s t v e = ground (arith, e)

socket_runs-IsSound :
    (r : Bool) (s t : Life) → IsSound s → socket_runs r s.socket s ≡ some t → IsSound t
unfolding socket_runs
socket_runs-IsSound r s t v e = ground (arith, e)

pub act-IsSound : (e : Event) (s t : Life) → IsSound s → act e s ≡ some t → IsSound t
unfolding act happens signal_callback stop
act-IsSound e s t v h = elim (Bool-cases s.exited) [
  | inl gone ↦ absurd (ground (arith, gone, h))
  | inr lives ↦ happened e (sym (ap (λ (b : Bool). if b then none else happens e s) lives) ∙ h)
]
  where
    happened : (e : Event) → happens e s ≡ some t → IsSound t
    happened main_goes h = main_runs-IsSound s t v h
    happened (comm_goes r) h = comm_runs-IsSound r s t v h
    happened (socket_goes r) h = socket_runs-IsSound r s t v h
    happened signal h = ground (arith, h)
    happened stop_called h = ground (arith, h)
    happened (task_freq_set n) h = ground (arith, h)
    happened (comm_freq_set n) h = ground (arith, h)

pub Reach-IsSound : {s : Life} → Reach s → IsSound s
Reach-IsSound created = new_life-IsSound
Reach-IsSound (after {s} {t} e r h) = act-IsSound e s t (Reach-IsSound r) h

-- In any state that the engine's threads reach, no two of the three are between `acquire_mutex`
-- and `release_mutex`, and if `stop_all` is through, the other two threads have ended.
pub Reach-exclusive :
    {s : Life}
    → Reach s
    → (main_holds s.main && comm_holds s.comm ≡ false)
      × (main_holds s.main && socket_holds s.socket ≡ false)
      × (comm_holds s.comm && socket_holds s.socket ≡ false)
      × (s.main ≡ finished → (s.comm ≡ comm_ended) × (s.socket ≡ socket_ended))
Reach-exclusive r =
    let v = Reach-IsSound r in (ground arith, ground arith, ground arith, λ e. ground (arith, e))
