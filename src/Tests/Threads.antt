-- ===== src/Tests/Threads.antt =====
-- The threads of an engine: its main thread has the mutex, and the one of start_comm waits for it.
use yijinjing_lite.Prelude.{
  subst, ◌≡◌, ◌&&◌, refl, true, false, Option, none, some, List, [], ◌∷◌, arith, ◌++◌,
}
use yijinjing_lite.Memory.{int_lt}
use yijinjing_lite.Engine.Life.{
  in_tasks, finished, comm_locking, comm_ended, socket_polling, socket_ended, by_main, Life, Event,
  main_goes, comm_goes, socket_goes, stop_called, main_runs, comm_runs, socket_runs, act, happens,
  Reach, created, after, run, socket_reading, joining_socket,
}
use yijinjing_lite.Engine.Life.Sound.{main_holds, comm_holds, socket_holds, Reach-exclusive}

Reach-run : (es : List Event) {s t : Life} → Reach s → run es s ≡ some t → Reach t
unfolding run
Reach-run [] r h = subst Reach (ground (arith, h)) r
Reach-run (e ∷ es) {s} {t} r h = goes (act e s) (λ u same k. Reach-run es (after e r same) k) refl h
  where
    goes :
        (o : Option Life)
        → ((u : Life) → act e s ≡ some u → run es u ≡ some t → Reach t)
        → act e s ≡ o
        → elim o [ none ↦ none | some u ↦ run es u ] ≡ some t
        → Reach t
    goes none more same k = absurd (ground (arith, k))
    goes (some u) more same k = more u same k

-- The engine after `start`, and into a round of tasks.
abbrev to_tasks : List Event
to_tasks =
    main_goes
    ∷ comm_goes false
    ∷ main_goes
    ∷ socket_goes false
    ∷ main_goes
    ∷ main_goes
    ∷ main_goes
    ∷ comm_goes true
    ∷ comm_goes true
    ∷ []

abbrev in_round : Life
in_round = record {
  main = in_tasks;
  comm = comm_locking;
  socket = socket_polling;
  is_task_running = true;
  comm_running = true;
  io_running = true;
  io_stopped = false;
  paged_mtx = some by_main;
  task_freq = 1000000;
  comm_freq = 500;
  exited = false;
}

in_round-Reach : Reach in_round
unfolding run act happens main_runs comm_runs socket_runs int_lt
in_round-Reach = Reach-run to_tasks created refl

Reach-exclusive_example :
    (main_holds in_tasks && comm_holds comm_locking ≡ false)
    × (main_holds in_tasks && socket_holds socket_polling ≡ false)
    × (comm_holds comm_locking && socket_holds socket_polling ≡ false)
    × (in_tasks ≡ finished → (comm_locking ≡ comm_ended) × (socket_polling ≡ socket_ended))
Reach-exclusive_example = Reach-exclusive in_round-Reach

-- A client has connected and has not sent its request; a stop leads to the join of its thread.
abbrev to_silence : List Event
to_silence = to_tasks ++ (socket_goes true ∷ [])

abbrev silent : Life
silent = record in_round { socket = socket_reading }

abbrev to_join : List Event
to_join =
    stop_called
    ∷ main_goes
    ∷ main_goes
    ∷ main_goes
    ∷ comm_goes false
    ∷ comm_goes false
    ∷ comm_goes false
    ∷ main_goes
    ∷ main_goes
    ∷ []

abbrev at_join : Life
at_join = record silent {
  main = joining_socket;
  comm = comm_ended;
  is_task_running = false;
  comm_running = false;
  io_running = false;
  io_stopped = true;
  paged_mtx = none;
}
