-- ===== src/Page/Log.antt =====
-- What a page file holds, seen as a log: frames with status WRITTEN, one behind the other.
use yijinjing_lite.Prelude.{
  ℕ, ◌+◌, ◌*◌, ◌≤◌, ◌<◌, ◌^◌, ◌≡◌, sym, ◌∙◌, List, [], ◌∷◌, ◌++◌, length, arith,
}
use yijinjing_lite.Constants.{frame_status_written}
use yijinjing_lite.Page.Header.{page_init_position}
use yijinjing_lite.Memory.{
  Memory, read_le, bytes_at, read_le_agree, bytes_at_agree, copy, write_le, write_le-Outside,
  copy-Outside,
}
use yijinjing_lite.Frame.{
  basic_frame_header_length, get_status, get_nano, get_frame_length, get_msg_type, get_last_flag,
}

-- The content of one frame.
pub record Message : Type 0 where
  pub nano : ℕ
  pub msg_type : ℕ
  pub last_flag : ℕ
  pub content : List ℕ

abbrev pub frame_size : Message → ℕ
frame_size r = basic_frame_header_length + length r.content

-- The fields fit their types, and the frame its `int` length.
pub record Fits (r : Message) : Type 0 where
  pub nano_fits : r.nano < 256 ^ 8
  pub type_fits : r.msg_type < 256 ^ 2
  pub flag_fits : r.last_flag < 256 ^ 1
  pub size_fits : frame_size r < 2 ^ 31

-- The frame at address `f` is written and holds `r`.
pub record Stored (m : Memory) (f : ℕ) (r : Message) : Type 0 where
  pub status : get_status m f ≡ frame_status_written
  pub nano : get_nano m f ≡ r.nano
  pub size : get_frame_length m f ≡ frame_size r
  pub msg_type : get_msg_type m f ≡ r.msg_type
  pub last_flag : get_last_flag m f ≡ r.last_flag
  pub content : bytes_at (length r.content) m (f + basic_frame_header_length) ≡ r.content

-- The frames from `a` on hold `rs`, and the next one stands at `b`.
abbrev pub Written : Memory → ℕ → List Message → ℕ → Type 0
Written m a [] b = a ≡ b
Written m a (r ∷ rs) b = Stored m a r × Written m (a + frame_size r) rs b

-- Memories that agree on a range of addresses.
abbrev pub Agree : Memory → Memory → ℕ → ℕ → Type 0
Agree m m' a b = (c : ℕ) → a ≤ c → c < b → m c ≡ m' c

-- A store of `k` bytes from `a` on leaves what is below `b`.
pub Agree-write_le : (k : ℕ) (m : Memory) (a v lo b : ℕ) → b ≤ a → Agree m (write_le k m a v) lo b
Agree-write_le k m a v lo b h c hlo hhi = sym (write_le-Outside k m a v c (omega arith))

pub Agree-copy : (m : Memory) (a : ℕ) (xs : List ℕ) (lo b : ℕ) → b ≤ a → Agree m (copy m a xs) lo b
Agree-copy m a xs lo b h c hlo hhi = sym (copy-Outside m a xs c (omega arith))

pub Agree-trans :
    {m m' m'' : Memory} {lo b : ℕ} → Agree m m' lo b → Agree m' m'' lo b → Agree m m'' lo b
Agree-trans p q c hlo hhi = p c hlo hhi ∙ q c hlo hhi

pub Written-size :
    (m : Memory) (a : ℕ) (rs : List Message) (b : ℕ)
    → Written m a rs b
    → a + basic_frame_header_length * length rs ≤ b
Written-size m a [] b w = omega arith
Written-size m a (r ∷ rs) b w = omega (arith, Written-size m (a + frame_size r) rs b w.1)

get_status-Agree :
    (m m' : Memory) (f b : ℕ) → f < b → Agree m m' f b → get_status m f ≡ get_status m' f
unfolding get_status
get_status-Agree m m' f b h e =
    read_le_agree 1 m m' (f + 0) (λ c lo hi. e c (omega arith) (omega arith))

module _ (m m' : Memory) (f : ℕ) (r : Message) (e : Agree m m' f (f + frame_size r)) where
  Stored-Agree : Stored m f r → Stored m' f r
  unfolding get_status get_nano get_frame_length get_msg_type get_last_flag
  Stored-Agree s = record {
    status = sym (field 1 0 (omega arith)) ∙ s.status;
    nano = sym (field 8 1 (omega arith)) ∙ s.nano;
    size = sym (field 4 9 (omega arith)) ∙ s.size;
    msg_type = sym (field 2 17 (omega arith)) ∙ s.msg_type;
    last_flag = sym (field 1 19 (omega arith)) ∙ s.last_flag;
    content =
        sym (
          bytes_at_agree (length r.content) m m' (f + 20)
            (λ c lo hi. e c (omega arith) (omega arith)))
        ∙ s.content;
  }
    where
      field : (n o : ℕ) → o + n ≤ 20 → read_le n m (f + o) ≡ read_le n m' (f + o)
      field n o h = read_le_agree n m m' (f + o) (λ c lo hi. e c (omega arith) (omega arith))

-- Stores outside a run of written frames leave it as it is.
pub Written-Agree :
    (m m' : Memory) (a : ℕ) (rs : List Message) (b : ℕ)
    → Agree m m' a b
    → Written m a rs b
    → Written m' a rs b
Written-Agree m m' a [] b e w = w
Written-Agree m m' a (r ∷ rs) b e w =
    let le = Written-size m (a + frame_size r) rs b w.1 in
    (
      Stored-Agree m m' a r (λ c lo hi. e c lo (omega arith)) w.0,
      Written-Agree m m' (a + frame_size r) rs b (λ c lo hi. e c (omega arith) hi) w.1,
    )

-- A log ends where its last frame does.
pub Written-append :
    (m : Memory) (a : ℕ) (rs qs : List Message) (b c : ℕ)
    → Written m a rs b
    → Written m b qs c
    → Written m a (rs ++ qs) c
Written-append m a [] qs b c w v = rw w v
Written-append m a (r ∷ rs) qs b c w v = (w.0, Written-append m (a + frame_size r) rs qs b c w.1 v)

-- The page's log is `rs`, and the frame behind it, at `b`, has status `st`.
pub record Holds (m : Memory) (rs : List Message) (b st : ℕ) : Type 0 where
  pub log : Written m page_init_position rs b
  pub tail_status : get_status m b ≡ st

-- Stores behind the status byte of the frame at `b` leave the log as it is.
pub Holds-Agree :
    (m m' : Memory) (rs : List Message) (b st : ℕ)
    → Agree m m' 0 (b + 1)
    → Holds m rs b st
    → Holds m' rs b st
Holds-Agree m m' rs b st e h = record {
  log =
      Written-Agree m m' page_init_position rs b (λ c lo hi. e c (omega arith) (omega arith)) h.log;
  tail_status =
      sym (get_status-Agree m m' b (b + 1) (omega arith) (λ c lo hi. e c (omega arith) hi))
      ∙ h.tail_status;
}
