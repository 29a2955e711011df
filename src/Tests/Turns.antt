-- ===== src/Tests/Turns.antt =====
-- Turns to the next page file.
use yijinjing_lite.Prelude.{◌-◌, ◌≡◌, refl, Bool, true, [], ◌∷◌, some, codes, arith}
use yijinjing_lite.Constants.{frame_status_raw, frame_status_page_end, journal_page_size}
use yijinjing_lite.Memory.{read_le, write_le, copy, poke, address_add, short_lt}
use yijinjing_lite.Frame.{get_status}
use yijinjing_lite.Page.{Page, new_page, is_at_page_end}
use yijinjing_lite.Page.Header.{page_init_position}
use yijinjing_lite.Page.Log.{Holds}
use yijinjing_lite.Page.Cursor.{moved}
use yijinjing_lite.Provider.{get_page, release_page, load, local_provider, init_header}
use yijinjing_lite.Journal.{load_next_page, locate_frame}
use yijinjing_lite.Journal.Turn.{closed, load_next_page-Holds}
use yijinjing_lite.Journal.Locate.{on_page, locate_frame-turns}
use yijinjing_lite.World.Effect.{ok}
use yijinjing_lite.World.{World, get_nano_time, load_page_buffer, release_page_buffer}
use yijinjing_lite.Tests.Fixtures.{
  os, hello, page_at, page_at-IsAt, logged-Holds, empty_disk, local_writer,
}
use yijinjing_lite.Tests.Journals.{journal_at, logged_disk}

abbrev next_page : Page
next_page = record (new_page 5) { page_num = 2 }

-- The world after page 2 is there.
abbrev with_next : Bool → World → World
with_next is_writer w = (get_page os (local_provider is_writer) (codes "d") (codes "j") 0 2 w).1

abbrev turned : World → Page → World
turned w p = (release_page os local_writer p.buffer (closed os (with_next true w) p)).1

load_next_page-gets :
    get_page os local_writer (codes "d") (codes "j") 0 2 logged_disk
    ≡ (ok (some next_page), with_next true logged_disk)
unfolding get_page load load_page_buffer get_nano_time read_le poke
load_next_page-gets = refl

load_next_page-Holds_example :
    (load_next_page os local_writer 4
        (record { world = logged_disk; journal = journal_at true (page_at 162) })
      ≡ (
        ok tt,
        record { world = turned logged_disk (page_at 162); journal = journal_at true next_page },
      ))
    × Holds ((turned logged_disk (page_at 162)).contents 0) (hello ∷ []) 162 frame_status_page_end
    × (is_at_page_end ((turned logged_disk (page_at 162)).contents 0) (page_at 162) ≡ true)
unfolding get_page load load_page_buffer get_nano_time read_le poke release_page release_page_buffer
load_next_page-Holds_example =
    load_next_page-Holds os local_writer 4 logged_disk (with_next true logged_disk)
      (turned logged_disk (page_at 162)) (journal_at true (page_at 162)) (page_at 162)
      (some next_page) (hello ∷ []) 162 frame_status_raw refl refl refl load_next_page-gets refl
      (page_at-IsAt 162) logged-Holds

-- A page of zeros whose cursor stands 100 bytes before its end.
abbrev full : Page
full = page_at (journal_page_size - 100)

locate_frame-gets :
    get_page os local_writer (codes "d") (codes "j") 0 2 empty_disk
    ≡ (ok (some next_page), with_next true empty_disk)
unfolding get_page load load_page_buffer get_nano_time read_le poke
locate_frame-gets = refl

locate_frame-turns_example :
    locate_frame os local_writer 3 (on_page empty_disk (journal_at true full) full) ≡ (
      ok (some page_init_position),
      on_page
          (turned empty_disk (moved full (journal_page_size - 100) 0))
          (journal_at true full)
          (moved next_page page_init_position 0),
    )
unfolding get_page load load_page_buffer get_nano_time read_le poke release_page release_page_buffer
    get_status new_page address_add init_header copy write_le short_lt
locate_frame-turns_example =
    locate_frame-turns os local_writer 1 empty_disk (with_next true empty_disk)
      (turned empty_disk (moved full (journal_page_size - 100) 0)) (journal_at true full) full
      next_page refl refl [] (journal_page_size - 100) (page_at-IsAt (journal_page_size - 100)) refl
      (omega arith) (omega arith) locate_frame-gets refl
      (record { at_frame = refl; at_position = refl; count_fits = omega arith }) refl
