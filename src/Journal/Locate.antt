-- ===== src/Journal/Locate.antt =====
-- `locateFrame` of a writer whose page is full, and of a reader.
use yijinjing_lite.Prelude.{
  ℕ, suc, ◌+◌, ◌%◌, ◌^◌, ◌≤◌, ◌≡◌, refl, List, [], some, true, false, arith, if◌then◌else◌,
}
use yijinjing_lite.Constants.{frame_status_raw, journal_page_size, page_min_headroom}
use yijinjing_lite.Frame.{get_status}
use yijinjing_lite.Page.{Page, is_at_page_end, locate_readable_frame}
use yijinjing_lite.Page.Header.{page_init_position}
use yijinjing_lite.Page.Log.{Message}
use yijinjing_lite.Page.Cursor.{IsAt, moved, locate_writable_frame-Holds}
use yijinjing_lite.Provider.{Provider, get_page, release_page}
use yijinjing_lite.Journal.Turn.{closed, load_next_page-closes}
use yijinjing_lite.Journal.{Journal, Session, load_next_page, locate_frame}
use yijinjing_lite.World.Effect.{ok}
use yijinjing_lite.World.{Os, World}

abbrev pub on_page : World → Journal → Page → Session
on_page w j p = record { world = w; journal = record j { cur_page = some p } }

module _ (os : Os) (provider : Provider) (rounds : ℕ) (w v u : World) (j : Journal) (p q : Page)
    (live : j.expired ≡ false) (writes : j.is_writing ≡ true) where
  -- A live writer at a clean frame with less than the headroom left in its page turns to the
  -- next page and gets its first frame, if the provider has the next page, the old one can be
  -- unmapped, and the next page starts with a clean frame at its cursor.
  pub locate_frame-turns :
      (rs : List Message) (b : ℕ)
      → IsAt p b
      → get_status (w.contents p.buffer) b ≡ frame_status_raw
      → b ≤ journal_page_size
      → journal_page_size ≤ b + page_min_headroom
      → get_page os provider j.directory j.short_name j.service_idx ((p.page_num + 1) % 2 ^ 16) w
        ≡ (ok (some q), v)
      → release_page os provider p.buffer (closed os v (moved p b 0)) ≡ (ok tt, u)
      → IsAt q page_init_position
      → get_status (u.contents q.buffer) page_init_position ≡ frame_status_raw
      → locate_frame os provider (suc (suc rounds)) (on_page w j p)
        ≡ (ok (some page_init_position), on_page u j (moved q page_init_position 0))
  unfolding locate_frame
  locate_frame-turns rs b cursor raw le full got freed start empty =
      let stays =
        locate_writable_frame-Holds (suc (suc rounds)) (w.contents p.buffer) p b [] b cursor refl
          (λ x. omega arith) le (omega arith) in
      let opens =
        locate_writable_frame-Holds (suc (suc rounds)) (u.contents q.buffer) q page_init_position []
          page_init_position start refl (λ x. omega arith) (omega arith) (omega arith) in
      let turned =
        load_next_page-closes os provider (suc (suc rounds)) w v u
          (record j { cur_page = some (moved p b 0) }) (moved p b 0) (some q) live writes refl got
          freed in
      ground (arith, stays, opens, turned, live, writes, raw, full, empty)

module _ (os : Os) (provider : Provider) (fuel : ℕ) (w v u : World) (j : Journal) (p q : Page)
    (live : j.expired ≡ false) (reads : j.is_writing ≡ false) where
  -- If the provider has the next page and the old one can be unmapped, a live reader goes on
  -- with the next page exactly at the end of its page, and only unmaps the old one. In the
  -- page where it then is, it has the frame under its cursor if that is written.
  pub locate_frame-follows :
      get_page os provider j.directory j.short_name j.service_idx ((p.page_num + 1) % 2 ^ 16) w
        ≡ (ok (some q), v)
      → release_page os provider p.buffer v ≡ (ok tt, u)
      → locate_frame os provider fuel (on_page w j p) ≡ (
          if is_at_page_end (w.contents p.buffer) p
          then (ok (locate_readable_frame (u.contents q.buffer) q), on_page u j q)
          else (ok (locate_readable_frame (w.contents p.buffer) p), on_page w j p))
  unfolding locate_frame load_next_page
  locate_frame-follows got freed = ground (arith, live, reads, got, freed)
