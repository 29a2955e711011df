-- ===== src/Page/Cursor.antt =====
-- The loops of Page.h over a page that holds a log.
use yijinjing_lite.Prelude.{
  ℕ, zero, suc, ◌+◌, ◌%◌, ◌≤◌, ◌<◌, ◌^◌, ◌≡◌, ◌≢◌, refl, List, [], ◌∷◌, length, arith,
  if◌then◌else◌, Bool-cases, inl, inr, some, none, ltb, ◌==◌, ◌&&◌,
}
use yijinjing_lite.Constants.{
  frame_status_raw, frame_status_written, journal_page_size, page_min_headroom,
}
use yijinjing_lite.Memory.{Memory, address_add, extend_int, int_lt, int64_lt}
use yijinjing_lite.Frame.{get_status, get_next_entry, next}
use yijinjing_lite.Page.Log.{Message, frame_size, Stored, Written, Written-size}
use yijinjing_lite.Page.{Page, pass_frame, pass_written_frame, pass_to_time, locate_writable_frame}

-- The cursor stands at address `a`: `frame` and `position` agree.
pub record IsAt (p : Page) (a : ℕ) : Type 0 where
  pub at_frame : p.frame ≡ a
  pub at_position : p.position ≡ a
  pub count_fits : p.frame_num < 2 ^ 32

-- The cursor `n` frames further, at `b`.
abbrev pub moved : Page → ℕ → ℕ → Page
moved p b n = record p { frame = b; position = b; frame_num = (p.frame_num + n) % 2 ^ 32 }

pub moved-IsAt : (p : Page) (b n : ℕ) → IsAt (moved p b n) b
moved-IsAt p b n = record { at_frame = refl; at_position = refl; count_fits = omega arith }

pub pass_frame-moved :
    (m : Memory) (p : Page) (a : ℕ) (r : Message)
    → IsAt p a
    → Stored m a r
    → a + frame_size r < 2 ^ 31
    → pass_frame m p ≡ moved p (a + frame_size r) 1
unfolding pass_frame next get_next_entry address_add extend_int
pass_frame-moved m p a r v s h = rw (v.at_frame, v.at_position, s.size) (ground arith)

-- With more fuel than frames the loop ends, at the end of the log.
pub pass_written_frame-moved :
    (fuel : ℕ) (m : Memory) (p : Page) (a : ℕ) (rs : List Message) (b : ℕ)
    → IsAt p a
    → Written m a rs b
    → get_status m b ≢ frame_status_written
    → b < 2 ^ 31
    → length rs < fuel
    → pass_written_frame fuel m p ≡ some (moved p b (length rs))
unfolding pass_written_frame
pass_written_frame-moved zero m p a rs b v w e h lt = absurd (omega arith)
pass_written_frame-moved (suc fuel) m p a [] b v w e h lt = ground arith
pass_written_frame-moved (suc fuel) m p a (r ∷ rs) b v w e h lt =
    let le = Written-size m (a + frame_size r) rs b w.1 in
    let step = pass_frame-moved m p a r v w.0 (omega arith) in
    let rest =
      pass_written_frame-moved fuel m (moved p (a + frame_size r) 1) (a + frame_size r) rs b
        (moved-IsAt p (a + frame_size r) 1) w.1 e h (omega arith) in
    ground (arith, step, rest, w.0.status, v.at_frame)

-- The frames before the first one that is not older than `time`.
pub older : ℕ → List Message → List Message
older time [] = []
older time (r ∷ rs) = if int64_lt r.nano time then r ∷ older time rs else []

-- The address behind frames that start at `a`.
abbrev pub end_of : ℕ → List Message → ℕ
end_of a [] = a
end_of a (r ∷ rs) = end_of (a + frame_size r) rs

-- From a cursor in front of the written frames `rs`, which end below 2^31 in front of a frame
-- that is not written, with more fuel than frames, `passToTime` stops at the first one that is
-- not older than `time`, or behind the last one.
pub pass_to_time-older :
    (fuel : ℕ) (m : Memory) (p : Page) (a : ℕ) (rs : List Message) (b time : ℕ)
    → IsAt p a
    → Written m a rs b
    → get_status m b ≢ frame_status_written
    → b < 2 ^ 31
    → length rs < fuel
    → pass_to_time fuel m p time
      ≡ some (moved p (end_of a (older time rs)) (length (older time rs)))
unfolding pass_to_time older
pass_to_time-older zero m p a rs b time v w e h lt = absurd (omega arith)
pass_to_time-older (suc fuel) m p a [] b time v w e h lt = ground arith
pass_to_time-older (suc fuel) m p a (r ∷ rs) b time v w e h lt =
    let le = Written-size m (a + frame_size r) rs b w.1 in
    let step = pass_frame-moved m p a r v w.0 (omega arith) in
    let rest =
      pass_to_time-older fuel m (moved p (a + frame_size r) 1) (a + frame_size r) rs b time
        (moved-IsAt p (a + frame_size r) 1) w.1 e h (omega arith) in
    elim (Bool-cases (int64_lt r.nano time)) [
      | inl past ↦ rw past (ground (arith, step, rest, w.0.status, w.0.nano, v.at_frame, past))
      | inr late ↦ rw late (ground (arith, w.0.status, w.0.nano, v.at_frame, v.at_position, late))
    ]

-- From a cursor in front of the written frames `rs` of a page, with more fuel than frames,
-- `locateWritableFrame` passes them all, and gives the frame behind them, which is not written
-- and lies within the page, exactly if it is clean and has the headroom.
pub locate_writable_frame-Holds :
    (fuel : ℕ) (m : Memory) (p : Page) (a : ℕ) (rs : List Message) (b : ℕ)
    → IsAt p a
    → Written m a rs b
    → get_status m b ≢ frame_status_written
    → b ≤ journal_page_size
    → length rs < fuel
    → locate_writable_frame fuel m p
      ≡ some (
        moved p b (length rs),
        if get_status m b == frame_status_raw && ltb (b + page_min_headroom) journal_page_size
            then some b
            else none,
      )
unfolding locate_writable_frame int_lt
locate_writable_frame-Holds fuel m p a rs b v w e h lt =
    let passed = pass_written_frame-moved fuel m p a rs b v w e (omega arith) lt in
    rw (passed, locate_writable_frame) (ground arith)
