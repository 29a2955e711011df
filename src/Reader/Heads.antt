-- ===== src/Reader/Heads.antt =====
-- What a journal of a reader offers to `getNextFrame`.
use yijinjing_lite.Prelude.{
  ℕ, ◌≡◌, ◌≢◌, refl, false, Option, none, some, get_elem?, set-get_elem?, arith, ◌==◌,
  if◌then◌else◌,
}
use yijinjing_lite.Constants.{frame_status_written, frame_status_page_end}
use yijinjing_lite.Frame.{get_status, get_nano}
use yijinjing_lite.Page.{Page, is_at_page_end, locate_readable_frame}
use yijinjing_lite.Provider.{Provider}
use yijinjing_lite.Journal.{Journal, locate_frame}
use yijinjing_lite.Reader.Object.{Reading, FrameAt, on_journal}
use yijinjing_lite.Reader.{locate_header}
use yijinjing_lite.World.Effect.{ok}
use yijinjing_lite.World.{Os, World}

-- A reading journal with a current page that has not ended at the cursor.
pub record InPage (w : World) (j : Journal) : Type 0 where
  pub page : Page
  pub reading : j.is_writing ≡ false
  pub live : j.expired ≡ false
  pub at_page : j.cur_page ≡ some page
  pub open_page : get_status (w.contents page.buffer) page.frame ≢ frame_status_page_end

-- The frame under the cursor with its time, if it is written.
unfoldable pub head_of : World → Journal → Option (FrameAt × ℕ)
head_of w j = elim j.cur_page [
  | none ↦ none
  | some p ↦
      let m = w.contents p.buffer in
      if get_status m p.frame == frame_status_written
      then some (record { buffer = p.buffer; address = p.frame }, get_nano m p.frame)
      else none
]

module _ (os : Os) (provider : Provider) (fuel : ℕ) where
  pub locate_header-head :
      (w : World) (j : Journal)
      → InPage w j
      → locate_header os provider fuel (record { world = w; journal = j })
        ≡ (ok (head_of w j), record { world = w; journal = j })
  unfolding locate_header locate_frame head_of is_at_page_end locate_readable_frame
  locate_header-head w j i = ground (arith, i.reading, i.live, i.at_page, i.open_page)

  -- Locating the frame of such a journal changes nothing.
  pub on_journal-head :
      (i : ℕ) (s : Reading) (j : Journal)
      → get_elem? s.reader.journals i ≡ some j
      → InPage s.world j
      → on_journal i (locate_header os provider fuel) s ≡ (ok (head_of s.world j), s)
  unfolding on_journal
  on_journal-head i s j e p =
      rw (e, on_journal, locate_header-head s.world j p, set-get_elem? s.reader.journals i j e) refl
