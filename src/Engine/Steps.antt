-- ===== src/Engine/Steps.antt =====
-- The calls that the engine's threads make under its mutex, in any order, as a step relation.
use yijinjing_lite.Prelude.{
  ℕ, suc, ◌+◌, ◌<◌, ◌^◌, Bool, true, false, inl, inr, Option-cases, List, [], ◌∷◌, arith,
}
use yijinjing_lite.Constants.{journal_page_size}
use yijinjing_lite.Comm.{comm_size, PageCommMsg}
use yijinjing_lite.Map.{Map, find, bytes_key}
use yijinjing_lite.Engine.State.{PageClientInfo, Task, base, pid_check, temp_page}
use yijinjing_lite.Engine.Pages.{initiate_page}
use yijinjing_lite.Engine.Clients.{
  reg_journal, free_block, leave, forget, reg_client, free_blocks, exit_client,
}
use yijinjing_lite.Engine.Service.{
  create_engine, start_comm_file, comm_round, release_last, serve, answer, exit_all, check_pids,
  prepare_temp_page, gone_clients, go, go_all, task_round, add_task, remove_task_by_name,
}
use yijinjing_lite.Engine.Users.{IsSound-release_page, IsSound-initiate_page}
use yijinjing_lite.Engine.Counts.{IsSound, IsSound-more, SameCounts, SameCounts-IsSound}
use yijinjing_lite.World.Effect.{bind_keeps, bind_reaches}
use yijinjing_lite.World.Frames.{engine-load_page_buffer}
use yijinjing_lite.World.{Os, World}

-- A new engine counts no users.
pub create_engine-IsSound :
    (comm_file temp_page_path : List ℕ) → IsSound 0 (create_engine comm_file temp_page_path)
unfolding create_engine find
create_engine-IsSound c t = record {
  one_writer = λ k n e. ground (arith, e);
  some_reader = λ k n e. ground (arith, e);
}

module _ (os : Os) where
  -- `put` is a client that writes into its block: the key and status that it posts there.
  pub data Step (w : World) : World → Type 0 where
    served : (idx : ℕ) → Step w (comm_round os idx w).1
    put : (comm : ℕ → PageCommMsg) → Step w (record w { comm = comm })
    register : (name : List ℕ) (pid : ℕ) (b : Bool) → Step w (reg_client os name pid b w).1
    register_journal : (name : List ℕ) → Step w (reg_journal name w).1
    left : (name : List ℕ) (hash : ℕ) (b : Bool) → Step w (exit_client os name hash b w).1
    tasks : Step w (task_round os w).1
    add : (task : Task) → Step w (add_task task w).1
    start : Step w (start_comm_file os w).1
    remove : (name : List ℕ) → Step w (remove_task_by_name name w).1

  pub data Steps (w : World) : World → Type 0 where
    done : Steps w w
    next : {u v : World} → Steps w u → Step u v → Steps w v

  abbrev steps : {u v : World} → Steps u v → ℕ
  steps done = 0
  steps (next before step) = suc (steps before)

  IsSound-release_last :
      {b : ℕ} (msg : PageCommMsg) (w : World)
      → IsSound b w.engine
      → IsSound b (release_last os msg w).1.engine
  unfolding release_last
  IsSound-release_last msg w s = ground (
    arith,
    IsSound-release_page os (record (msg.key) { page_num = msg.last_page_num }) msg.is_writer w s,
  )

  IsSound-serve :
      {b : ℕ} (idx : ℕ) (msg : PageCommMsg) (w : World)
      → suc b < 2 ^ 32
      → IsSound b w.engine
      → IsSound (suc b) (serve os idx msg w).1.engine
  unfolding serve answer
  IsSound-serve {b} idx msg w room s =
      let more : (v : World) → IsSound b v.engine → IsSound (suc b) v.engine =
        λ v. IsSound-more (omega arith) in
      bind_reaches (λ v. IsSound b v.engine) (λ v. IsSound (suc b) v.engine) more
        (release_last os msg) _ w (IsSound-release_last msg w s)
        (λ t e r.
          bind_reaches (λ v. IsSound (suc b) v.engine) (λ v. IsSound (suc b) v.engine) (λ v q. q)
            (initiate_page os msg.key msg.is_writer) _ _
            (IsSound-initiate_page os msg.key msg.is_writer _ room r) (λ c d q. q))

  IsSound-comm_round :
      {b : ℕ} (idx : ℕ) (w : World)
      → suc b < 2 ^ 32
      → IsSound b w.engine
      → IsSound (suc b) (comm_round os idx w).1.engine
  unfolding comm_round
  IsSound-comm_round {b} idx w room s =
      let t : IsSound (suc b) w.engine = IsSound-more (omega arith) s in
      ground (arith, IsSound-serve idx (w.comm idx) w room s, t)

  abbrev Keeps : ℕ → World → World → Type 0
  Keeps b u v = IsSound b u.engine → IsSound b v.engine

  Keeps-trans : (b : ℕ) (u v w : World) → Keeps b u v → Keeps b v w → Keeps b u w
  Keeps-trans b u v w f g s = g (f s)

  IsSound-free_block : {b : ℕ} (i : ℕ) (w : World) → Keeps b w (free_block os i w).1
  unfolding free_block
  IsSound-free_block {b} i w s =
      ground (arith, IsSound-release_page os (w.comm i).key (w.comm i).is_writer w s)

  IsSound-free_blocks : {b : ℕ} (is : List ℕ) (w : World) → Keeps b w (free_blocks os is w).1
  unfolding free_blocks
  IsSound-free_blocks {b} [] w = λ s. s
  IsSound-free_blocks {b} (i ∷ is) w =
      bind_keeps (Keeps b) (Keeps-trans b) (free_block os i) _ w (IsSound-free_block i w)
        (λ t e. IsSound-free_blocks is _)

  SameCounts-forget :
      (name : List ℕ) (info : PageClientInfo) (w : World)
      → SameCounts w.engine (forget os name info w).1.engine
  unfolding forget
  SameCounts-forget name info w = ground arith

  IsSound-leave :
      {b : ℕ} (name : List ℕ) (info : PageClientInfo) (w : World)
      → Keeps b w (leave os name info w).1
  unfolding leave
  IsSound-leave {b} name info w =
      bind_keeps (Keeps b) (Keeps-trans b) (free_blocks os info.user_index_vec) _ w
        (IsSound-free_blocks info.user_index_vec w)
        (λ t e. SameCounts-IsSound (SameCounts-forget name info _))

  IsSound-exit_client :
      {b : ℕ} (name : List ℕ) (hash : ℕ) (check : Bool) (w : World)
      → Keeps b w (exit_client os name hash check w).1
  unfolding exit_client
  IsSound-exit_client name hash check w s =
      elim (Option-cases (find w.engine.client_journals name)) [
        | inl e ↦ rw (e, exit_client) s
        | inr (info, e) ↦ rw (e, exit_client) (ground (arith, IsSound-leave name info w s))
      ]

  IsSound-exit_all : {b : ℕ} (names : List (List ℕ)) (w : World) → Keeps b w (exit_all os names w).1
  unfolding exit_all
  IsSound-exit_all {b} [] w = λ s. s
  IsSound-exit_all {b} (n ∷ names) w =
      bind_keeps (Keeps b) (Keeps-trans b) (exit_client os n 0 false) _ w
        (IsSound-exit_client n 0 false w) (λ t e. IsSound-exit_all names _)

  SameCounts-prepare_temp_page : (w : World) → SameCounts w.engine (prepare_temp_page os w).1.engine
  unfolding prepare_temp_page
  SameCounts-prepare_temp_page w =
      ground
        (arith, engine-load_page_buffer os w.engine.temp_page_path journal_page_size true true w)

  IsSound-go : {b : ℕ} (t : Task) (w : World) → Keeps b w (go os t w).1
  unfolding go check_pids
  IsSound-go {b} base w s = s
  IsSound-go {b} pid_check w s = IsSound-exit_all (gone_clients os w.engine.pid_client) w s
  IsSound-go {b} temp_page w s = SameCounts-IsSound (SameCounts-prepare_temp_page w) s

  IsSound-go_all : {b : ℕ} (m : Map (List ℕ) Task) (w : World) → Keeps b w (go_all os m w).1
  unfolding go_all
  IsSound-go_all {b} [] w = λ s. s
  IsSound-go_all {b} ((name, task) ∷ m) w =
      bind_keeps (Keeps b) (Keeps-trans b) (go os task) _ w (IsSound-go task w)
        (λ t e. IsSound-go_all m _)

  SameCounts-reg_client :
      (name : List ℕ) (pid : ℕ) (b : Bool) (w : World)
      → SameCounts w.engine (reg_client os name pid b w).1.engine
  unfolding reg_client
  SameCounts-reg_client name pid b w = ground arith

  SameCounts-reg_journal :
      (name : List ℕ) (w : World) → SameCounts w.engine (reg_journal name w).1.engine
  unfolding reg_journal
  SameCounts-reg_journal name w = ground arith

  SameCounts-add_task : (t : Task) (w : World) → SameCounts w.engine (add_task t w).1.engine
  unfolding add_task
  SameCounts-add_task t w = ground arith

  SameCounts-remove_task_by_name :
      (name : List ℕ) (w : World) → SameCounts w.engine (remove_task_by_name name w).1.engine
  unfolding remove_task_by_name
  SameCounts-remove_task_by_name name w = ground arith

  SameCounts-start_comm_file : (w : World) → SameCounts w.engine (start_comm_file os w).1.engine
  unfolding start_comm_file
  SameCounts-start_comm_file w =
      ground (arith, engine-load_page_buffer os w.engine.comm_file comm_size true true w)

  Step-IsSound :
      {b : ℕ} {u v : World}
      → Step u v
      → suc b < 2 ^ 32
      → IsSound b u.engine
      → IsSound (suc b) v.engine
  unfolding task_round
  Step-IsSound {b} {u} (served idx) room s = IsSound-comm_round idx u room s
  Step-IsSound (put comm) room s = IsSound-more (omega arith) s
  Step-IsSound {b} {u} (register name pid is_writer) room s =
      IsSound-more (omega arith) (SameCounts-IsSound (SameCounts-reg_client name pid is_writer u) s)
  Step-IsSound {b} {u} (register_journal name) room s =
      IsSound-more (omega arith) (SameCounts-IsSound (SameCounts-reg_journal name u) s)
  Step-IsSound {b} {u} (left name hash is_writer) room s =
      IsSound-more (omega arith) (IsSound-exit_client name hash is_writer u s)
  Step-IsSound {b} {u} tasks room s = IsSound-more (omega arith) (IsSound-go_all u.engine.tasks u s)
  Step-IsSound {b} {u} (add task) room s =
      IsSound-more (omega arith) (SameCounts-IsSound (SameCounts-add_task task u) s)
  Step-IsSound {b} {u} start room s =
      IsSound-more (omega arith) (SameCounts-IsSound (SameCounts-start_comm_file u) s)
  Step-IsSound {b} {u} (remove name) room s =
      IsSound-more (omega arith) (SameCounts-IsSound (SameCounts-remove_task_by_name name u) s)

  -- Whatever the clients ask for and in whatever order, if at first a page file that counts
  -- writers has exactly one, and one that counts readers has from 1 to `b`, this stays so,
  -- with a bound that is one more for each step, if `b` and the number of steps are together
  -- below 2^31.
  pub Steps-IsSound :
      {b : ℕ} {u v : World} (s : Steps u v)
      → IsSound b u.engine
      → b + steps s < 2 ^ 31
      → IsSound (b + steps s) v.engine
  Steps-IsSound {b} {u} done h room = IsSound-more (omega arith) h
  Steps-IsSound {b} {u} (next before step) h room =
      let inner = Steps-IsSound before h (omega (arith, room)) in
      IsSound-more (omega arith) (Step-IsSound step (omega (arith, room)) inner)
