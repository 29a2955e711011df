-- ===== src/Page/Close.antt =====
-- What `finishPage` leaves behind.
use yijinjing_lite.Prelude.{ℕ, ◌+◌, ◌≤◌, ◌<◌, ◌^◌, ◌≡◌, sym, ◌∙◌, List, ◌⊎◌, arith, true, subst}
use yijinjing_lite.Constants.{frame_status_page_end}
use yijinjing_lite.Memory.{
  Memory, read_le, write_le, read_le-write_le, read_le-write_le-Apart, write_le-Outside,
}
use yijinjing_lite.Frame.{get_status, set_status, set_status_page_closed}
use yijinjing_lite.Page.Header.{
  page_init_position, close_nano_offset, frame_num_offset, last_pos_offset,
}
use yijinjing_lite.Page.Log.{Message, Written-Agree, Written-size, Holds}
use yijinjing_lite.Page.Cursor.{IsAt}
use yijinjing_lite.Page.{Page, is_at_page_end, finish_page}

module _ (m : Memory) (p : Page) (nano b : ℕ) (rs : List Message) (st : ℕ) (v : IsAt p b)
    (holds : Holds m rs b st) where
  pub finish_page_outside : (c : ℕ) → 57 ≤ c → c < b → finish_page m p nano c ≡ m c
  unfolding finish_page set_status_page_closed set_status
  finish_page_outside c lo hi =
      write_le-Outside 1 _ (p.frame + 0) 2 c (omega arith)
      ∙ write_le-Outside 4 _ 53 p.position c (omega arith)
      ∙ write_le-Outside 4 _ 49 p.frame_num c (omega arith)
      ∙ write_le-Outside 8 m 41 nano c (omega arith)

  finish_page-tail : get_status (finish_page m p nano) b ≡ frame_status_page_end
  unfolding finish_page set_status_page_closed set_status get_status
  finish_page-tail =
      subst (λ (a : ℕ). read_le 1 (finish_page m p nano) (a + 0) ≡ frame_status_page_end) v.at_frame
        (read_le-write_le 1 _ (p.frame + 0) 2 (omega arith))

  -- Closing a page keeps its log and marks the frame behind it, so that a reader there sees the
  -- end of the page.
  pub finish_page-Holds :
      Holds (finish_page m p nano) rs b frame_status_page_end
      × (is_at_page_end (finish_page m p nano) p ≡ true)
  unfolding is_at_page_end
  finish_page-Holds = (
    record {
      log =
          Written-Agree m (finish_page m p nano) page_init_position rs b
            (λ c lo hi. sym (finish_page_outside c (omega arith) hi)) holds.log;
      tail_status = finish_page-tail;
    },
    ground (arith, finish_page-tail, v.at_frame),
  )

  finish_page-status_apart :
      (n a : ℕ)
      → a + n ≤ page_init_position
      → read_le n (finish_page m p nano) a
        ≡ read_le n (write_le 4 (write_le 4 (write_le 8 m 41 nano) 49 p.frame_num) 53 p.position) a
  unfolding finish_page set_status_page_closed set_status
  finish_page-status_apart n a h =
      let le = Written-size m page_init_position rs b holds.log in
      read_le-write_le-Apart n 1 _ a (p.frame + 0) 2 (omega arith)

  -- `finishPage` with the cursor behind the log records in the header the closing time, the
  -- number of frames passed, and the end of the log, if the time fits 64 bits and the end 32.
  pub finish_page-header :
      nano < 256 ^ 8
      → b < 256 ^ 4
      → (read_le 8 (finish_page m p nano) close_nano_offset ≡ nano)
        × (read_le 4 (finish_page m p nano) frame_num_offset ≡ p.frame_num)
        × (read_le 4 (finish_page m p nano) last_pos_offset ≡ b)
  finish_page-header hn hb = (
    finish_page-status_apart 8 41 (omega arith)
        ∙ read_le-write_le-Apart 8 4 _ 41 53 _ (omega arith)
        ∙ read_le-write_le-Apart 8 4 _ 41 49 _ (omega arith)
        ∙ read_le-write_le 8 m 41 nano hn,
    finish_page-status_apart 4 49 (omega arith)
        ∙ read_le-write_le-Apart 4 4 _ 49 53 _ (omega arith)
        ∙ read_le-write_le 4 _ 49 p.frame_num v.count_fits,
    finish_page-status_apart 4 53 (omega arith)
        ∙ read_le-write_le 4 _ 53 p.position (omega arith)
        ∙ v.at_position,
  )

  -- The other fields of the header stay.
  pub finish_page-field :
      (n a : ℕ)
      → a + n ≤ page_init_position
      → (a + n ≤ close_nano_offset) ⊎ (last_pos_offset + 4 ≤ a)
      → read_le n (finish_page m p nano) a ≡ read_le n m a
  finish_page-field n a h apart =
      finish_page-status_apart n a h
      ∙ read_le-write_le-Apart n 4 _ a 53 _ (omega arith)
      ∙ read_le-write_le-Apart n 4 _ a 49 _ (omega arith)
      ∙ read_le-write_le-Apart n 8 m a 41 nano (omega arith)
