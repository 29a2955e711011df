-- ===== src/Socket/Protocol.antt =====
-- A client's registration of a journal over the socket, against the engine.
use yijinjing_lite.Prelude.{
  ℕ, zero, suc, ◌+◌, ◌<◌, ◌^◌, ◌≡◌, ◌≢◌, ◌∙◌, List, [], ◌∷◌, ◌++◌, length, none, some, All, ltb,
  if◌then◌else◌, arith,
}
use yijinjing_lite.Memory.{
  Memory, poke, read_le, copy, copy-Outside, read_le-write_le, read_le-write_le-Apart,
  read_le-copy-Apart,
}
use yijinjing_lite.Socket.{
  bool_byte, journal_register, c_string, put_request, put_journal_response, process_msg,
  journal_response,
}
use yijinjing_lite.Engine.Clients.{reg_journal}
use yijinjing_lite.World.Effect.{ok}
use yijinjing_lite.World.{Os, World}

-- A text without a NUL is read back from a buffer that it is copied to.
pub c_string-copy :
    (n : ℕ) (xs : List ℕ) (m : Memory) (a : ℕ)
    → length xs < n
    → All (λ x. x ≢ 0) xs
    → c_string n (copy m a (xs ++ (0 ∷ []))) a ≡ xs
unfolding c_string copy poke
c_string-copy zero xs m a h t = absurd (omega arith)
c_string-copy (suc n) [] m a h t = ground arith
c_string-copy (suc n) (x ∷ xs) m a h t =
    let rest = c_string-copy n xs (poke m a x) (a + 1) (omega arith) t.1 in
    let head = copy-Outside (poke m a x) (a + 1) (xs ++ (0 ∷ [])) a in
    ground (arith, rest, head, t.0)

module _ (n : Memory) (idx : ℕ) (h : idx < 2 ^ 32) where
  response_type : read_le 1 (put_journal_response n journal_register idx) 0 ≡ journal_register
  unfolding put_journal_response
  response_type =
      read_le-write_le-Apart 1 4 _ 0 104 _ (omega arith)
      ∙ read_le-write_le-Apart 1 1 _ 0 1 _ (omega arith)
      ∙ read_le-write_le 1 _ 0 11 (omega arith)

  response_success :
      read_le 1 (put_journal_response n journal_register idx) 1 ≡ bool_byte (ltb idx (2 ^ 31))
  unfolding put_journal_response bool_byte
  response_success =
      read_le-write_le-Apart 1 4 _ 1 104 _ (omega arith) ∙ read_le-write_le 1 _ 1 _ (ground arith)

  response_idx : read_le 4 (put_journal_response n journal_register idx) 104 ≡ idx
  unfolding put_journal_response
  response_idx = read_le-write_le 4 _ 104 idx (omega (arith, h))

  journal_response-put :
      journal_response (put_journal_response n journal_register idx)
      ≡ (if ltb idx (2 ^ 31) then some idx else none)
  unfolding journal_response bool_byte
  journal_response-put = ground (arith, response_type, response_success, response_idx)

module _ (os : Os) (timer_text : ℕ → List ℕ) (junk : ℕ × ℕ) (m : Memory) (name : List ℕ)
    (pid hash_code : ℕ) (short : length name < 30) (text : All (λ x. x ≢ 0) name) where
  pub request_type : (t : ℕ) → t < 256 → read_le 1 (put_request m t name pid hash_code) 0 ≡ t
  unfolding put_request
  request_type t h =
      read_le-copy-Apart 1 _ 0 1 (name ++ (0 ∷ [])) (omega arith)
      ∙ read_le-write_le-Apart 1 4 _ 0 35 _ (omega arith)
      ∙ read_le-write_le-Apart 1 4 _ 0 31 _ (omega arith)
      ∙ read_le-write_le 1 _ 0 t (omega arith)

  pub request_name : (t : ℕ) → c_string 499 (put_request m t name pid hash_code) 1 ≡ name
  unfolding put_request
  request_name t = c_string-copy 499 name _ 1 (omega arith) text

  process_msg-register :
      (w v : World) (idx : ℕ)
      → reg_journal name w ≡ (ok idx, v)
      → process_msg os timer_text junk (put_request m journal_register name pid hash_code) w ≡ (
        ok (
            put_journal_response
              (put_request m journal_register name pid hash_code)
              journal_register
              idx),
        v,
      )
  unfolding process_msg
  process_msg-register w v idx e = ground (arith, request_type 11 (omega arith), request_name 11, e)

  -- What a client reads back after it has registered a journal over the socket, under a name
  -- of less than 30 bytes without a NUL, is the block that the engine's `reg_journal` gave for
  -- that name, or a failure where that is negative.
  pub journal_response-process_msg :
      (w v : World) (idx : ℕ)
      → idx < 2 ^ 32
      → reg_journal name w ≡ (ok idx, v)
      → (r : Memory) × (process_msg os timer_text junk
            (put_request m journal_register name pid hash_code)
            w
          ≡ (ok r, v))
        × (journal_response r ≡ (if ltb idx (2 ^ 31) then some idx else none))
  journal_response-process_msg w v idx h e = (
    _,
    process_msg-register w v idx e,
    journal_response-put (put_request m journal_register name pid hash_code) idx h,
  )
