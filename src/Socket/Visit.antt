-- ===== src/Socket/Visit.antt =====
-- A client that registers over the socket and leaves again.
use yijinjing_lite.Prelude.{
  ℕ, ◌<◌, ◌^◌, ◌≡◌, ◌≢◌, refl, sym, ap, subst, ◌∙◌, Bool, true, Bool-cases, inl, inr, List, [], ◌∷◌,
  ◌++◌, Option, if◌then◌else◌, length, none, some, All, bytes_eq, bytes_eq_iff, arith,
}
use yijinjing_lite.Map.{Map, find, insert, erase, bytes_key, nat_key}
use yijinjing_lite.Map.Laws.{find-insert, find-erase}
use yijinjing_lite.Comm.{comm_size}
use yijinjing_lite.Memory.{Memory, read_le}
use yijinjing_lite.Socket.{
  register_type, client_exit, c_string, put_request, put_response, process_msg, client_response,
}
use yijinjing_lite.Socket.Protocol.{request_type, request_name}
use yijinjing_lite.Socket.Clients.{
  client_response-process_msg, request_hash, Enrolled, reg_client-Enrolled, reg_client-lt,
}
use yijinjing_lite.Engine.State.{PageClientInfo}
use yijinjing_lite.Engine.Clients.{
  exit_client, leave, free_blocks, forget, add_name, names_of, is_empty, without_name,
}
use yijinjing_lite.World.Effect.{ok}
use yijinjing_lite.World.{Os, World}

-- A client without blocks has left: it is forgotten, and the blocks are as before.
record Gone (os : Os) (name : List ℕ) (h : ℕ) (u : World) (info : PageClientInfo) : Type 0 where
  after : World
  result : exit_client os name h true u ≡ (ok tt, after)
  clients : after.engine.client_journals ≡ erase u.engine.client_journals name
  processes : after.engine.pid_client ≡ (
      if is_empty (without_name name (names_of (find u.engine.pid_client info.pid)))
      then erase u.engine.pid_client info.pid
      else insert u.engine.pid_client info.pid
          (without_name name (names_of (find u.engine.pid_client info.pid))))
  blocks : after.comm ≡ u.comm

exit_client-Gone :
    (os : Os) (name : List ℕ) (h : ℕ) (u : World) (info : PageClientInfo)
    → find u.engine.client_journals name ≡ some info
    → info.hash_code ≡ h
    → info.user_index_vec ≡ []
    → Gone os name h u info
unfolding exit_client leave free_blocks forget
exit_client-Gone os name h u info found same none_held = record {
  after = (exit_client os name h true u).1;
  result = ap (λ r. (r, (exit_client os name h true u).1)) (ground (arith, found, same, none_held));
  clients = ground (arith, found, same, none_held);
  processes = ground (arith, found, same, none_held);
  blocks = ground (arith, found, same, none_held);
}

process_msg-exits :
    (os : Os) (timer_text : ℕ → List ℕ) (junk : ℕ × ℕ) (n : Memory) (name : List ℕ) (h : ℕ)
    (u v : World)
    → read_le 1 n 0 ≡ client_exit
    → c_string 499 n 1 ≡ name
    → read_le 4 n 35 ≡ h
    → exit_client os name h true u ≡ (ok tt, v)
    → process_msg os timer_text junk n u ≡ (ok (put_response 102 n client_exit true), v)
unfolding process_msg
process_msg-exits os timer_text junk n name h u v kind named hash e =
    ground (arith, kind, named, hash, e)

-- The client that was not there before, and has been erased.
find-erased :
    (clients : Map (List ℕ) PageClientInfo) (name other : List ℕ) (info : PageClientInfo)
    → find clients name ≡ none
    → find (erase (insert clients name info) name) other ≡ find clients other
find-erased clients name other info free =
    find-erase (insert clients name info) name other ∙ elim (Bool-cases (bytes_eq name other)) [
      | inl same ↦
          let named = (bytes_eq_iff name other).0 same in
          rw same (sym (subst (λ k. find clients k ≡ none) named free))
      | inr apart ↦ rw apart (find-insert clients name other info ∙ rw apart refl)
    ]

-- The name that was not on the list of its process, and has been taken off it.
abbrev left_names : List ℕ → Option (List (List ℕ)) → List (List ℕ)
left_names name old = without_name name (add_name old name)

without_name-append :
    (name : List ℕ) (names : List (List ℕ))
    → All (λ n. n ≢ name) names
    → without_name name (names ++ (name ∷ [])) ≡ names
unfolding without_name
without_name-append name [] h = rw ((bytes_eq_iff name name).1 refl) refl
without_name-append name (n ∷ ns) h = elim (Bool-cases (bytes_eq n name)) [
  | inl same ↦ absurd (h.0 ((bytes_eq_iff n name).0 same))
  | inr apart ↦ ground (arith, apart, without_name-append name ns h.1)
]

abbrev leave_process : Map ℕ (List (List ℕ)) → ℕ → List (List ℕ) → Map ℕ (List (List ℕ))
leave_process processes pid names =
    if is_empty names then erase processes pid else insert processes pid names

find-leave_process :
    (processes : Map ℕ (List (List ℕ))) (pid p : ℕ) (name : List ℕ) (old : Option (List (List ℕ)))
    → find processes pid ≡ old
    → ((names : List (List ℕ)) → old ≡ some names → (names ≢ []) × All (λ n. n ≢ name) names)
    → find (leave_process (insert processes pid (add_name old name)) pid (left_names name old)) p
      ≡ find processes p
unfolding add_name is_empty without_name
find-leave_process processes pid p name none was apart =
    let gone : left_names name none ≡ [] = without_name-append name [] tt in
    rw gone (
      ground (
        arith,
        find-erase (insert processes pid (name ∷ [])) pid p,
        find-insert processes pid p (name ∷ []),
        nat_key.beq_iff pid p,
        was,
      ))
find-leave_process processes pid p name (some []) was apart = absurd ((apart [] refl).0 refl)
find-leave_process processes pid p name (some (n ∷ ns)) was apart =
    let gone : left_names name (some (n ∷ ns)) ≡ n ∷ ns =
      without_name-append name (n ∷ ns) (apart (n ∷ ns) refl).1 in
    rw gone (
      ground (
        arith,
        find-insert (insert processes pid ((n ∷ ns) ++ (name ∷ []))) pid p (n ∷ ns),
        find-insert processes pid p ((n ∷ ns) ++ (name ∷ [])),
        nat_key.beq_iff pid p,
        was,
      ))

-- The lists of the processes behind a registration and an exit.
left_process :
    (os : Os) (name : List ℕ) (pid : ℕ) (b : Bool) (w : World) (new : Enrolled os name pid b w)
    (gone : Gone os name new.hash_code new.after new.info) (p : ℕ)
    → ((names : List (List ℕ))
        → find w.engine.pid_client pid ≡ some names
        → (names ≢ []) × All (λ n. n ≢ name) names)
    → find gone.after.engine.pid_client p ≡ find w.engine.pid_client p
unfolding names_of
left_process os name pid b w new gone p apart =
    let old = find w.engine.pid_client pid in
    let added = insert w.engine.pid_client pid (add_name old name) in
    let there : find added pid ≡ some (add_name old name) = ground (
      arith,
      find-insert w.engine.pid_client pid pid (add_name old name),
      nat_key.beq_iff pid pid,
    ) in
    let left : names_of (find added pid) ≡ add_name old name = ap names_of there in
    let after : gone.after.engine.pid_client ≡ leave_process added pid (left_names name old) =
      gone.processes
      ∙ ap
          (λ (m : Map ℕ (List (List ℕ))).
            leave_process m new.info.pid (without_name name (names_of (find m new.info.pid))))
          new.processes
      ∙ ap (λ (q : ℕ). leave_process added q (without_name name (names_of (find added q))))
          new.same_pid
      ∙ ap (λ (ns : List (List ℕ)). leave_process added pid (without_name name ns)) left in
    ap (λ (m : Map ℕ (List (List ℕ))). find m p) after
    ∙ find-leave_process w.engine.pid_client pid p name old refl apart

module _ (os : Os) (timer_text : ℕ → List ℕ) (junk : ℕ × ℕ) (m : Memory) (name : List ℕ)
    (short : length name < 30) (text : All (λ x. x ≢ 0) name) where
  -- If a client whose name of less than 30 bytes without a NUL is free registers over the
  -- socket, it reads back some hash code, the name of the file with the blocks and its size.
  -- If it then exits over the socket with that hash code, any name `other` leads to the
  -- client, and any process `p` to the list of clients, that it led to before, or to none, and
  -- the blocks are as before. The list of its process, if there is one before, is not empty
  -- and does not have the name. The process number fits 32 bits, and the file's name has under
  -- 100 bytes and no NUL.
  pub process_msg-visit :
      (b : Bool) (pid : ℕ) (w : World) (other : List ℕ) (p : ℕ)
      → pid < 2 ^ 32
      → find w.engine.client_journals name ≡ none
      → ((names : List (List ℕ))
          → find w.engine.pid_client pid ≡ some names
          → (names ≢ []) × All (λ n. n ≢ name) names)
      → length w.engine.comm_file < 100
      → All (λ x. x ≢ 0) w.engine.comm_file
      → (h : ℕ) × (r r' : Memory) × (u v : World) × (process_msg os timer_text junk
            (put_request m (register_type b) name pid 0)
            w
          ≡ (ok r, u))
        × (client_response (register_type b) r ≡ some (h, w.engine.comm_file, comm_size))
        × (process_msg os timer_text junk (put_request m client_exit name 0 h) u ≡ (ok r', v))
        × (find v.engine.client_journals other ≡ find w.engine.client_journals other)
        × (find v.engine.pid_client p ≡ find w.engine.pid_client p)
        × (v.comm ≡ w.comm)
  process_msg-visit b pid w other p pid_fits free apart file_short file_text =
      let new = reg_client-Enrolled os name pid b w free in
      let (r, registers, answer) =
        client_response-process_msg os timer_text junk m name short text b pid w new.after
          (some new.hash_code) pid_fits new.result (rw new.comm_file file_short)
          (rw new.comm_file file_text) in
      let found : find new.after.engine.client_journals name ≡ some new.info =
        ap (λ (c : Map (List ℕ) PageClientInfo). find c name) new.clients
        ∙ find-insert w.engine.client_journals name name new.info
        ∙ rw ((bytes_eq_iff name name).1 refl) refl in
      let gone =
        exit_client-Gone os name new.hash_code new.after new.info found new.same_hash
          new.no_blocks in
      let n = put_request m client_exit name 0 new.hash_code in
      let processes = left_process os name pid b w new gone p apart in
      (
        new.hash_code,
        r,
        put_response 102 n client_exit true,
        new.after,
        gone.after,
        registers,
        answer ∙ ap (λ f. some (new.hash_code, f, comm_size)) new.comm_file,
        process_msg-exits os timer_text junk n name new.hash_code new.after gone.after
            (request_type os timer_text junk m name 0 new.hash_code short text client_exit
              (omega arith))
            (request_name os timer_text junk m name 0 new.hash_code short text client_exit)
            (request_hash os timer_text junk m name short text client_exit 0 new.hash_code
              (reg_client-lt os name pid b w new.after new.hash_code new.result))
            gone.result,
        ap (λ (c : Map (List ℕ) PageClientInfo). find c other)
              (gone.clients ∙ ap (λ (c : Map (List ℕ) PageClientInfo). erase c name) new.clients)
            ∙ find-erased w.engine.client_journals name other new.info free,
        processes,
        gone.blocks ∙ new.blocks,
      )
