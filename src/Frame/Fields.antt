-- ===== src/Frame/Fields.antt =====
-- `setData` against the getters of a frame.
use yijinjing_lite.Prelude.{
  ℕ, ◌+◌, ◌^◌, ◌≤◌, ◌<◌, ◌≡◌, ◌∙◌, List, length, arith, Bool, if◌then◌else◌, Bool-cases, inl, inr,
}
use yijinjing_lite.Constants.{hash_seed}
use yijinjing_lite.Hash.{murmur_hash2}
use yijinjing_lite.Hash.Bounds.{murmur_hash2-lt}
use yijinjing_lite.Memory.{
  Memory, field_apart, read_le, write_le, read_le-write_le, read_le-copy-Apart, bytes_at,
  bytes_at-copy, bytes_at-write_le-Apart, copy, address_add,
}
use yijinjing_lite.Frame.{
  basic_frame_header_length, get_status, get_nano, get_frame_length, get_data_length, get_data,
  get_str, get_hash_code, get_msg_type, get_last_flag, set_data, set_frame_length, set_hash_code,
}

module _ (auto_hash : Bool) (m : Memory) (f : ℕ) (xs : List ℕ)
    (fits : f + 20 + length xs < 2 ^ 31) where
  data_address : address_add f basic_frame_header_length ≡ f + basic_frame_header_length
  unfolding address_add
  data_address = omega arith

  frame_length-set_data : get_frame_length (set_data auto_hash m f xs) f ≡ 20 + length xs
  unfolding get_frame_length set_data set_frame_length set_hash_code
  frame_length-set_data = elim (Bool-cases auto_hash) [
    | inl e ↦ rw e (simp field_apart (read_le-write_le 4 _ (f + 9) _ (omega arith)))
    | inr e ↦ rw e (read_le-write_le 4 _ (f + 9) _ (omega arith))
  ]

  data_length-set_data : get_data_length (set_data auto_hash m f xs) f ≡ length xs
  unfolding get_data_length
  data_length-set_data = rw frame_length-set_data (omega arith)

  apart :
      (k o : ℕ) (m : Memory) (v : ℕ)
      → o + k ≤ 20
      → bytes_at (length xs) (write_le k m (f + o) v) (f + 20) ≡ bytes_at (length xs) m (f + 20)
  apart k o m v h = bytes_at-write_le-Apart (length xs) k m (f + 20) (f + o) v (omega arith)

  bytes-set_data : bytes_at (length xs) (set_data auto_hash m f xs) (f + 20) ≡ xs
  unfolding set_data set_frame_length set_hash_code
  bytes-set_data = elim (Bool-cases auto_hash) [
    | inl e ↦
        rw (e, data_address)
          (apart 4 13 _ _ (omega arith) ∙ apart 4 9 _ _ (omega arith) ∙ bytes_at-copy m (f + 20) xs)
    | inr e ↦ rw (e, data_address) (apart 4 9 _ _ (omega arith) ∙ bytes_at-copy m (f + 20) xs)
  ]

  str-set_data : get_str (set_data auto_hash m f xs) f ≡ xs
  unfolding get_str get_data
  str-set_data = rw (data_length-set_data, data_address) bytes-set_data

  copy_apart :
      (n o : ℕ)
      → o + n ≤ 20
      → read_le n (copy m (address_add f 20) xs) (f + o) ≡ read_le n m (f + o)
  copy_apart n o h = rw data_address (read_le-copy-Apart n m (f + o) (f + 20) xs (omega arith))

  hash-set_data :
      get_hash_code (set_data auto_hash m f xs) f
      ≡ (if auto_hash then murmur_hash2 xs hash_seed else get_hash_code m f)
  unfolding get_hash_code set_data set_hash_code set_frame_length
  hash-set_data = elim (Bool-cases auto_hash) [
    | inl e ↦ rw e (read_le-write_le 4 _ (f + 13) _ (murmur_hash2-lt xs hash_seed))
    | inr e ↦ rw e (simp field_apart (copy_apart 4 13 (omega arith)))
  ]

  -- Content that leaves the frame below 2^31 is read back by `getStr` after `setData`, with
  -- its length; the hash code is that of the content if the build asks for it, and as before
  -- otherwise.
  pub get_str-set_data :
      (get_data_length (set_data auto_hash m f xs) f ≡ length xs)
      × (get_str (set_data auto_hash m f xs) f ≡ xs)
      × (get_hash_code (set_data auto_hash m f xs) f
          ≡ (if auto_hash then murmur_hash2 xs hash_seed else get_hash_code m f))
  get_str-set_data = (data_length-set_data, str-set_data, hash-set_data)

  -- For content that leaves the frame below 2^31, `setData` leaves the status, the time, the
  -- type and the last flag.
  pub set_data_keeps :
      (get_status (set_data auto_hash m f xs) f ≡ get_status m f)
      × (get_nano (set_data auto_hash m f xs) f ≡ get_nano m f)
      × (get_msg_type (set_data auto_hash m f xs) f ≡ get_msg_type m f)
      × (get_last_flag (set_data auto_hash m f xs) f ≡ get_last_flag m f)
  unfolding get_status get_nano get_msg_type get_last_flag set_data set_frame_length set_hash_code
  set_data_keeps = elim (Bool-cases auto_hash) [
    | inl e ↦ rw e (
        simp field_apart (
          copy_apart 1 0 (omega arith),
          copy_apart 8 1 (omega arith),
          copy_apart 2 17 (omega arith),
          copy_apart 1 19 (omega arith),
        ))
    | inr e ↦ rw e (
        simp field_apart (
          copy_apart 1 0 (omega arith),
          copy_apart 8 1 (omega arith),
          copy_apart 2 17 (omega arith),
          copy_apart 1 19 (omega arith),
        ))
  ]
