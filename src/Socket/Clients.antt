-- ===== src/Socket/Clients.antt =====
-- A client's registration and its exit over the socket, against the engine.
use yijinjing_lite.Prelude.{
  ℕ, ◌+◌, ◌<◌, ◌^◌, ◌≡◌, ◌≢◌, refl, ap, ◌∙◌, Bool, true, false, inl, inr, List, [], ◌∷◌, ◌++◌,
  length, length-append, Option, Option-cases, none, some, All, arith,
}
use mathlib.Core.Option
use yijinjing_lite.Constants.{hash_seed}
use yijinjing_lite.FileName.Decimal.{print_signed}
use yijinjing_lite.Hash.{murmur_hash2}
use yijinjing_lite.Hash.Bounds.{murmur_hash2-lt}
use yijinjing_lite.Map.{find, insert, bytes_key, nat_key}
use yijinjing_lite.Comm.{comm_size}
use yijinjing_lite.Memory.{
  Memory, read_le, write_le, read_le-write_le, read_le-write_le-Apart, read_le-copy-Apart,
}
use yijinjing_lite.Socket.{
  register_type, c_string, put_request, put_response, put_client_response, process_msg,
  client_response,
}
use yijinjing_lite.Socket.Protocol.{c_string-copy, request_type, request_name}
use yijinjing_lite.Engine.State.{PageClientInfo}
use yijinjing_lite.Engine.Clients.{minus_one, add_name, reg_client}
use yijinjing_lite.World.Effect.{ok}
use yijinjing_lite.World.{Os, World}

abbrev pub code_of : Os → List ℕ → ℕ → World → ℕ
code_of os name pid w =
    murmur_hash2
      (name ++ (print_signed (2 ^ 63) 20 (os.clock w.readings) ++ print_signed (2 ^ 31) 10 pid))
      hash_seed

abbrev pub new_info : Os → List ℕ → ℕ → Bool → World → PageClientInfo
new_info os name pid b w = record {
  user_index_vec = [];
  reg_nano = os.clock (w.readings + 1);
  pid = pid;
  hash_code = code_of os name pid w;
  is_writing = b;
  is_strategy = false;
  rid_start = minus_one;
  rid_end = minus_one;
  trade_engine_vec = [];
}

-- The hash code of a new client is an `int` pattern.
pub reg_client-lt :
    (os : Os) (name : List ℕ) (pid : ℕ) (is_writer : Bool) (w v : World) (h : ℕ)
    → reg_client os name pid is_writer w ≡ (ok (some h), v)
    → h < 2 ^ 32
unfolding reg_client
reg_client-lt os name pid is_writer w v h e =
    elim (Option-cases (find w.engine.client_journals name)) [
      | inl free ↦
          (let code =
              murmur_hash2-lt
                (name
                  ++ (print_signed (2 ^ 63) 20 (os.clock w.readings)
                      ++ print_signed (2 ^ 31) 10 pid))
                hash_seed in
            ground (arith, e, free, code))
      | inr (info, taken) ↦ absurd (ground (arith, e, taken))
    ]

register_type-lt : (b : Bool) → register_type b < 256
unfolding register_type
register_type-lt true = omega arith
register_type-lt false = omega arith

module _ (m : Memory) (t : ℕ) (t_fits : t < 256) (file : List ℕ) (short : length file < 100)
    (text : All (λ x. x ≢ 0) file) (size h : ℕ) (size_fits : size < 2 ^ 32)
    (h_fits : h < 2 ^ 32) where
  client_response-put :
      client_response t (put_client_response m t true file size h) ≡ some (h, file, size)
  unfolding client_response put_client_response put_response
  client_response-put =
      let end = length-append file (0 ∷ []) in
      let kind : read_le 1 (put_client_response m t true file size h) 0 ≡ t =
        read_le-copy-Apart 1 _ 0 102 (file ++ (0 ∷ [])) (omega arith)
        ∙ read_le-write_le-Apart 1 4 _ 0 208 _ (omega arith)
        ∙ read_le-write_le-Apart 1 4 _ 0 204 _ (omega arith)
        ∙ read_le-write_le-Apart 1 1 _ 0 1 _ (omega arith)
        ∙ read_le-write_le 1 _ 0 t (omega arith) in
      let success : read_le 1 (put_client_response m t true file size h) 1 ≡ 1 =
        read_le-copy-Apart 1 _ 1 102 (file ++ (0 ∷ [])) (omega arith)
        ∙ read_le-write_le-Apart 1 4 _ 1 208 _ (omega arith)
        ∙ read_le-write_le-Apart 1 4 _ 1 204 _ (omega arith)
        ∙ read_le-write_le 1 _ 1 1 (omega arith) in
      let hash : read_le 4 (put_client_response m t true file size h) 208 ≡ h =
        read_le-copy-Apart 4 _ 208 102 (file ++ (0 ∷ [])) (omega (arith, end))
        ∙ read_le-write_le 4 _ 208 h (omega (arith, h_fits)) in
      let length_of : read_le 4 (put_client_response m t true file size h) 204 ≡ size =
        read_le-copy-Apart 4 _ 204 102 (file ++ (0 ∷ [])) (omega (arith, end))
        ∙ read_le-write_le-Apart 4 4 _ 204 208 _ (omega arith)
        ∙ read_le-write_le 4 _ 204 size (omega (arith, size_fits)) in
      let m3 = write_le 4 (write_le 4 (put_response 212 m t true) 204 size) 208 h in
      let named = c_string-copy 398 file m3 102 (omega arith) text in
      ground (arith, kind, success, hash, length_of, named)

-- A failure is told from a success by its second byte.
client_response-failed :
    (m : Memory) (t : ℕ) (junk : ℕ × ℕ)
    → t < 256
    → client_response t (put_client_response m t false [] junk.0 junk.1) ≡ none
unfolding client_response put_client_response put_response
client_response-failed m t junk h =
    let success : read_le 1 (put_client_response m t false [] junk.0 junk.1) 1 ≡ 0 =
      read_le-copy-Apart 1 _ 1 102 (0 ∷ []) (omega arith)
      ∙ read_le-write_le-Apart 1 4 _ 1 208 _ (omega arith)
      ∙ read_le-write_le-Apart 1 4 _ 1 204 _ (omega arith)
      ∙ read_le-write_le 1 _ 1 0 (omega arith) in
    ground (arith, success)

module _ (os : Os) (timer_text : ℕ → List ℕ) (junk : ℕ × ℕ) (m : Memory) (name : List ℕ)
    (short : length name < 30) (text : All (λ x. x ≢ 0) name) where
  request_pid :
      (t pid hash_code : ℕ) → pid < 2 ^ 32 → read_le 4 (put_request m t name pid hash_code) 31 ≡ pid
  unfolding put_request
  request_pid t pid hash_code h =
      read_le-copy-Apart 4 _ 31 1 (name ++ (0 ∷ [])) (omega (arith, length-append name (0 ∷ [])))
      ∙ read_le-write_le-Apart 4 4 _ 31 35 _ (omega arith)
      ∙ read_le-write_le 4 _ 31 pid (omega arith)

  pub request_hash :
      (t pid hash_code : ℕ)
      → hash_code < 2 ^ 32
      → read_le 4 (put_request m t name pid hash_code) 35 ≡ hash_code
  unfolding put_request
  request_hash t pid hash_code h =
      read_le-copy-Apart 4 _ 35 1 (name ++ (0 ∷ [])) (omega (arith, length-append name (0 ∷ [])))
      ∙ read_le-write_le 4 _ 35 hash_code (omega arith)

  -- The answer to a client.
  abbrev answered : Memory → Bool → Option ℕ → World → Memory
  answered n b none v = put_client_response n (register_type b) false [] junk.0 junk.1
  answered n b (some h) v =
      put_client_response n (register_type b) true v.engine.comm_file comm_size h

  process_msg-answered :
      (n : Memory) (b : Bool) (pid : ℕ) (w v : World) (client : Option ℕ)
      → read_le 1 n 0 ≡ register_type b
      → c_string 499 n 1 ≡ name
      → read_le 4 n 31 ≡ pid
      → reg_client os name pid b w ≡ (ok client, v)
      → process_msg os timer_text junk n w ≡ (ok (answered n b client v), v)
  unfolding process_msg register_type
  process_msg-answered n true pid w v none kind named process e =
      ground (arith, kind, named, process, e)
  process_msg-answered n true pid w v (some h) kind named process e =
      ground (arith, kind, named, process, e)
  process_msg-answered n false pid w v none kind named process e =
      ground (arith, kind, named, process, e)
  process_msg-answered n false pid w v (some h) kind named process e =
      ground (arith, kind, named, process, e)

  client_response-answered :
      (n : Memory) (b : Bool) (pid : ℕ) (w v : World) (client : Option ℕ)
      → reg_client os name pid b w ≡ (ok client, v)
      → length v.engine.comm_file < 100
      → All (λ x. x ≢ 0) v.engine.comm_file
      → client_response (register_type b) (answered n b client v)
        ≡ Option.map (λ h. (h, v.engine.comm_file, comm_size)) client
  client_response-answered n b pid w v none e file_short file_text =
      client_response-failed n (register_type b) junk (register_type-lt b)
  client_response-answered n b pid w v (some h) e file_short file_text =
      client_response-put n (register_type b) (register_type-lt b) v.engine.comm_file file_short
        file_text comm_size h (omega arith) (reg_client-lt os name pid b w v h e)

  -- If the engine's `reg_client`, for a name of less than 30 bytes without a NUL, a process
  -- and a role, gives a hash code or a failure, then a registration of these over the socket
  -- has the same effect on the engine, and what the client reads back is that hash code, with
  -- the name of the file with the blocks and its size, or a failure. The process number fits
  -- 32 bits, and the file's name has under 100 bytes and no NUL.
  pub client_response-process_msg :
      (b : Bool) (pid : ℕ) (w v : World) (client : Option ℕ)
      → pid < 2 ^ 32
      → reg_client os name pid b w ≡ (ok client, v)
      → length v.engine.comm_file < 100
      → All (λ x. x ≢ 0) v.engine.comm_file
      → (r : Memory) × (process_msg os timer_text junk
            (put_request m (register_type b) name pid 0)
            w
          ≡ (ok r, v))
        × (client_response (register_type b) r
            ≡ Option.map (λ h. (h, v.engine.comm_file, comm_size)) client)
  client_response-process_msg b pid w v client h e file_short file_text =
      let n = put_request m (register_type b) name pid 0 in
      (
        answered n b client v,
        process_msg-answered n b pid w v client
            (request_type os timer_text junk m name pid 0 short text (register_type b)
              (register_type-lt b))
            (request_name os timer_text junk m name pid 0 short text (register_type b))
            (request_pid (register_type b) pid 0 h) e,
        client_response-answered n b pid w v client e file_short file_text,
      )

-- A client whose name was free has been registered.
pub record Enrolled (os : Os) (name : List ℕ) (pid : ℕ) (b : Bool) (w : World) : Type 0 where
  pub hash_code : ℕ
  pub info : PageClientInfo
  pub after : World
  pub result : reg_client os name pid b w ≡ (ok (some hash_code), after)
  pub same_hash : info.hash_code ≡ hash_code
  pub no_blocks : info.user_index_vec ≡ []
  pub clients : after.engine.client_journals ≡ insert w.engine.client_journals name info
  pub same_pid : info.pid ≡ pid
  pub processes :
      after.engine.pid_client
      ≡ insert w.engine.pid_client pid (add_name (find w.engine.pid_client pid) name)
  pub blocks : after.comm ≡ w.comm
  pub comm_file : after.engine.comm_file ≡ w.engine.comm_file

pub reg_client-Enrolled :
    (os : Os) (name : List ℕ) (pid : ℕ) (b : Bool) (w : World)
    → find w.engine.client_journals name ≡ none
    → Enrolled os name pid b w
unfolding reg_client
reg_client-Enrolled os name pid b w free = record {
  hash_code = code_of os name pid w;
  info = new_info os name pid b w;
  after = (reg_client os name pid b w).1;
  result = ap (λ r. (r, (reg_client os name pid b w).1)) (ground (arith, free));
  same_hash = refl;
  no_blocks = refl;
  clients = ground (arith, free);
  same_pid = refl;
  processes = ground (arith, free);
  blocks = ground (arith, free);
  comm_file = ground (arith, free);
}
