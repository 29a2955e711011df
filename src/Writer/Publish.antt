-- ===== src/Writer/Publish.antt =====
-- How a frame becomes visible: `write_frame` against the log of its page.
use yijinjing_lite.Prelude.{
  ℕ, zero, suc, ◌+◌, ◌≤◌, ◌<◌, ◌^◌, ◌≡◌, refl, sym, ◌∙◌, List, [], ◌∷◌, ◌++◌, length, arith, Bool,
  true, Bool-cases, inl, inr,
}
use yijinjing_lite.Constants.{frame_status_raw, frame_status_written, hash_seed}
use yijinjing_lite.Hash.{murmur_hash2}
use yijinjing_lite.Hash.Bounds.{murmur_hash2-lt}
use yijinjing_lite.Memory.{
  Memory, read_le, write_le, copy, bytes_at, address_add, extend_int, read_le_agree, bytes_at_agree,
  read_le-write_le, field_apart, read_le-copy-Apart, bytes_at-copy, read_le-write_le-Apart,
  bytes_at-write_le-Apart,
}
use yijinjing_lite.Frame.{
  basic_frame_header_length, get_status, get_nano, get_frame_length, get_msg_type, get_last_flag,
  get_hash_code, set_msg_type, set_last_flag, set_data, set_nano, set_status, set_status_written,
  get_next_entry, set_frame_length, set_hash_code,
}
use yijinjing_lite.Page.Log.{
  Message, Fits, frame_size, Stored, Agree, Agree-write_le, Agree-copy, Agree-trans, Written-Agree,
  Written-append, Holds, Holds-Agree,
}
use yijinjing_lite.Writer.Store.{write_statements, run_first, store_frame}

module _ (auto_hash : Bool) (m : Memory) (f : ℕ) (r : Message) (fits : Fits r)
    (room : f + frame_size r < 2 ^ 31) where
  pub data_address : address_add f basic_frame_header_length ≡ f + basic_frame_header_length
  unfolding address_add
  data_address = omega arith

  -- The memory before the two stores of the status bytes.
  unfoldable pub filled : Memory
  filled = run_first 4 (write_statements auto_hash f r) m

  Agree-set_data : (m : Memory) → Agree m (set_data auto_hash m f r.content) 0 (f + 1)
  unfolding set_data set_frame_length set_hash_code
  Agree-set_data m = elim (Bool-cases auto_hash) [
    | inl e ↦
        rw (e, data_address)
          (Agree-trans (Agree-copy m _ r.content 0 (f + 1) (omega arith)) (
            Agree-trans (Agree-write_le 4 _ (f + 9) _ 0 (f + 1) (omega arith))
              (Agree-write_le 4 _ (f + 13) _ 0 (f + 1) (omega arith))))
    | inr e ↦
        rw (e, data_address)
          (Agree-trans (Agree-copy m _ r.content 0 (f + 1) (omega arith))
            (Agree-write_le 4 _ (f + 9) _ 0 (f + 1) (omega arith)))
  ]

  pub size_filled : get_frame_length filled f ≡ frame_size r
  unfolding filled get_frame_length set_msg_type set_last_flag set_data set_frame_length
      set_hash_code set_nano
  size_filled = elim (Bool-cases auto_hash) [
    | inl e ↦ rw e (simp field_apart (read_le-write_le 4 _ (f + 9) _ (omega arith)))
    | inr e ↦ rw e (simp field_apart (read_le-write_le 4 _ (f + 9) _ (omega arith)))
  ]

  nano_filled : get_nano filled f ≡ r.nano
  unfolding filled get_nano set_nano
  nano_filled = read_le-write_le 8 _ (f + 1) _ fits.nano_fits

  copy_apart :
      (n o : ℕ) (m : Memory)
      → o + n ≤ 20
      → read_le n (copy m (address_add f 20) r.content) (f + o) ≡ read_le n m (f + o)
  copy_apart n o m h =
      rw data_address (read_le-copy-Apart n m (f + o) (f + 20) r.content (omega arith))

  msg_type_filled : get_msg_type filled f ≡ r.msg_type
  unfolding filled get_msg_type set_msg_type set_last_flag set_data set_frame_length set_hash_code
      set_nano
  msg_type_filled = elim (Bool-cases auto_hash) [
    | inl e ↦ rw e (
        simp field_apart (
          copy_apart 2 17 _ (omega arith)
          ∙ field_apart 2 1 _ f 17 19 _ refl
          ∙ read_le-write_le 2 _ (f + 17) _ fits.type_fits))
    | inr e ↦ rw e (
        simp field_apart (
          copy_apart 2 17 _ (omega arith)
          ∙ field_apart 2 1 _ f 17 19 _ refl
          ∙ read_le-write_le 2 _ (f + 17) _ fits.type_fits))
  ]

  last_flag_filled : get_last_flag filled f ≡ r.last_flag
  unfolding filled get_last_flag set_last_flag set_data set_frame_length set_hash_code set_nano
  last_flag_filled = elim (Bool-cases auto_hash) [
    | inl e ↦ rw e (
        simp field_apart
          (copy_apart 1 19 _ (omega arith) ∙ read_le-write_le 1 _ (f + 19) _ fits.flag_fits))
    | inr e ↦ rw e (
        simp field_apart
          (copy_apart 1 19 _ (omega arith) ∙ read_le-write_le 1 _ (f + 19) _ fits.flag_fits))
  ]

  content_apart :
      (k o : ℕ) (m : Memory) (v : ℕ)
      → o + k ≤ 20
      → bytes_at (length r.content) (write_le k m (f + o) v) (f + 20)
        ≡ bytes_at (length r.content) m (f + 20)
  content_apart k o m v h =
      bytes_at-write_le-Apart (length r.content) k m (f + 20) (f + o) v (omega arith)

  content_filled : bytes_at (length r.content) filled (f + 20) ≡ r.content
  unfolding filled set_data set_frame_length set_hash_code set_nano
  content_filled = elim (Bool-cases auto_hash) [
    | inl e ↦
        rw (e, data_address)
          (content_apart 8 1 _ _ (omega arith)
            ∙ content_apart 4 13 _ _ (omega arith)
            ∙ content_apart 4 9 _ _ (omega arith)
            ∙ bytes_at-copy _ (f + 20) r.content)
    | inr e ↦
        rw (e, data_address)
          (content_apart 8 1 _ _ (omega arith)
            ∙ content_apart 4 9 _ _ (omega arith)
            ∙ bytes_at-copy _ (f + 20) r.content)
  ]

  pub hash_filled : auto_hash ≡ true → get_hash_code filled f ≡ murmur_hash2 r.content hash_seed
  unfolding filled get_hash_code set_data set_hash_code set_nano
  hash_filled e =
      rw e
        (simp field_apart (read_le-write_le 4 _ (f + 13) _ (murmur_hash2-lt r.content hash_seed)))

  pub next_filled : get_next_entry filled f ≡ f + frame_size r
  unfolding get_next_entry address_add extend_int
  next_filled = rw size_filled (ground (arith, fits.size_fits))

  -- The memory when the next frame is cleared, and the frame itself is not yet marked.
  unfoldable pub cleared : Memory
  unfolding filled
  cleared = set_status filled (get_next_entry filled f) frame_status_raw

  pub store_frame-cleared : store_frame auto_hash m f r ≡ set_status cleared f frame_status_written
  unfolding store_frame cleared set_status_written
  store_frame-cleared = refl

  pub Agree-cleared : Agree filled cleared 0 (f + frame_size r)
  unfolding cleared set_status
  Agree-cleared =
      rw next_filled
        (Agree-write_le 1 filled (f + frame_size r + 0) 0 0 (f + frame_size r) (omega arith))

  Agree-filled : Agree m filled 0 (f + 1)
  unfolding filled set_msg_type set_last_flag set_nano
  Agree-filled = Agree-trans (Agree-write_le 2 m (f + 17) _ 0 (f + 1) (omega arith)) (
      Agree-trans (Agree-write_le 1 _ (f + 19) _ 0 (f + 1) (omega arith))
        (Agree-trans (Agree-set_data _) (Agree-write_le 8 _ (f + 1) _ 0 (f + 1) (omega arith))))

  status_byte_apart :
      (n o : ℕ)
      → 1 ≤ o
      → o + n ≤ 20
      → read_le n (set_status cleared f frame_status_written) (f + o) ≡ read_le n filled (f + o)
  unfolding set_status
  status_byte_apart n o lo hi =
      read_le-write_le-Apart n 1 cleared (f + o) (f + 0) 1 (omega arith)
      ∙ sym (
          read_le_agree n filled cleared (f + o)
            (λ c clo chi. Agree-cleared c (omega arith) (omega arith)))

  pub Stored-store_frame : Stored (store_frame auto_hash m f r) f r
  unfolding get_status get_nano get_frame_length get_msg_type get_last_flag set_status
  Stored-store_frame = rw store_frame-cleared (record {
    status = read_le-write_le 1 cleared (f + 0) 1 (omega arith);
    nano = status_byte_apart 8 1 (omega arith) (omega arith) ∙ nano_filled;
    size = status_byte_apart 4 9 (omega arith) (omega arith) ∙ size_filled;
    msg_type = status_byte_apart 2 17 (omega arith) (omega arith) ∙ msg_type_filled;
    last_flag = status_byte_apart 1 19 (omega arith) (omega arith) ∙ last_flag_filled;
    content =
        bytes_at-write_le-Apart (length r.content) 1 cleared (f + 20) (f + 0) 1 (omega arith)
        ∙ sym (
            bytes_at_agree (length r.content) filled cleared (f + 20)
              (λ c lo hi. Agree-cleared c (omega arith) (omega arith)))
        ∙ content_filled;
  })

  tail-store_frame : get_status (store_frame auto_hash m f r) (f + frame_size r) ≡ frame_status_raw
  unfolding get_status set_status cleared
  tail-store_frame =
      rw (store_frame-cleared, next_filled)
        (read_le-write_le-Apart 1 1 _ (f + frame_size r + 0) (f + 0) 1 (omega arith)
          ∙ read_le-write_le 1 filled (f + frame_size r + 0) 0 (omega arith))

  pub Agree-store_frame : Agree m (store_frame auto_hash m f r) 0 f
  unfolding set_status
  Agree-store_frame = rw store_frame-cleared (
      Agree-trans (λ c lo hi. Agree-filled c lo (omega arith))
        (Agree-trans (λ c lo hi. Agree-cleared c lo (omega arith))
          (Agree-write_le 1 cleared (f + 0) 1 0 f (omega arith))))

  Agree-run_first :
      (k : ℕ) → k < 6 → Agree m (run_first k (write_statements auto_hash f r) m) 0 (f + 1)
  unfolding set_msg_type set_last_flag set_nano filled cleared
  Agree-run_first zero h = λ c lo hi. refl
  Agree-run_first (suc zero) h = Agree-write_le 2 m (f + 17) _ 0 (f + 1) (omega arith)
  Agree-run_first (suc (suc zero)) h =
      Agree-trans (Agree-write_le 2 m (f + 17) _ 0 (f + 1) (omega arith))
        (Agree-write_le 1 _ (f + 19) _ 0 (f + 1) (omega arith))
  Agree-run_first (suc (suc (suc zero))) h =
      Agree-trans (Agree-write_le 2 m (f + 17) _ 0 (f + 1) (omega arith))
        (Agree-trans (Agree-write_le 1 _ (f + 19) _ 0 (f + 1) (omega arith)) (Agree-set_data _))
  Agree-run_first (suc (suc (suc (suc zero)))) h = Agree-filled
  Agree-run_first (suc (suc (suc (suc (suc zero))))) h =
      Agree-trans Agree-filled (λ c lo hi. Agree-cleared c lo (omega arith))
  Agree-run_first (suc (suc (suc (suc (suc (suc k)))))) h = absurd (omega arith)

  module _ (rs : List Message) (holds : Holds m rs f frame_status_raw) where
    -- After any number of the stores of `write_frame` but the last one, the page still holds
    -- the old log `rs` with a clean frame behind it. The message fits its fields and ends
    -- below 2^31, and the page held that log, ended by a clean frame, before.
    pub publish_atomic :
        (k : ℕ)
        → k < 6
        → Holds (run_first k (write_statements auto_hash f r) m) rs f frame_status_raw
    publish_atomic k h = Holds-Agree m _ rs f frame_status_raw (Agree-run_first k h) holds

    pub publish_appends :
        Holds (store_frame auto_hash m f r) (rs ++ r ∷ []) (f + frame_size r) frame_status_raw
    publish_appends = record {
      log =
          Written-append _ _ rs (r ∷ []) f (f + frame_size r)
            (Written-Agree m _ _ rs f (λ c lo hi. Agree-store_frame c (omega arith) hi) holds.log)
            (Stored-store_frame, refl);
      tail_status = tail-store_frame;
    }
