-- ===== src/Tests/Journals.antt =====
-- Journals over the page with one frame, and over a full page.
use yijinjing_lite.Provider.{local_provider}
use yijinjing_lite.Journal.{locate_frame}
use yijinjing_lite.Journal.Locate.{on_page}
use yijinjing_lite.Frame.{get_str, get_nano, get_msg_type}
use yijinjing_lite.Writer.Readback.{locate_frame-write_frame}
use yijinjing_lite.Prelude.{◌≡◌, refl, Bool, true, false, [], ◌∷◌, some, codes, arith}
use yijinjing_lite.Constants.{frame_status_raw}
use yijinjing_lite.FileName.{gen_page_full_path}
use yijinjing_lite.Page.{Page}
use yijinjing_lite.Page.Log.{Message, Fits, Holds}
use yijinjing_lite.Page.Cursor.{moved}
use yijinjing_lite.Provider.{load}
use yijinjing_lite.Provider.NewPage.{Works, IsNewPage, load-IsNewPage}
use yijinjing_lite.Journal.{Journal, Session}
use yijinjing_lite.Writer.{write_frame}
use yijinjing_lite.Writer.Frames.{Place, at_page, message, write_frame-appends}
use yijinjing_lite.World.Effect.{ok}
use yijinjing_lite.World.{World}
use yijinjing_lite.Tests.Fixtures.{
  os, hello, page_at, page_at-IsAt, logged, logged-Holds, disk, new_engine, empty_disk,
  local_writer,
}

abbrev pub place : Place
place = record { service_idx = 0; directory = codes "d"; short_name = codes "j" }

abbrev pub logged_disk : World
logged_disk = disk (λ i. logged) new_engine

abbrev second : Message
second = message os local_writer true 3 logged_disk place (page_at 162) 162 (codes "hi") 8 1

second-Fits : Fits second
second-Fits = record {
  nano_fits = omega arith;
  type_fits = omega arith;
  flag_fits = omega arith;
  size_fits = omega arith;
}

write_frame-appends_example :
    (s : Session) × (write_frame os local_writer true 4
        (codes "hi")
        8
        1
        (at_page logged_disk place (page_at 162))
      ≡ (ok 1000, s))
    × Holds (s.world.contents 0) (hello ∷ second ∷ []) 184 frame_status_raw
    × (s.journal.cur_page ≡ some (moved (moved (page_at 162) 162 0) 184 1))
    × (s.world.contents 1 ≡ logged)
write_frame-appends_example =
    write_frame-appends os local_writer true 3 logged_disk place (page_at 162) 162 (codes "hi") 8 1
      (hello ∷ []) 1 (page_at-IsAt 162) logged-Holds (omega arith) second-Fits (omega arith)
      (λ e. omega (arith, e))

all_work : Works os (gen_page_full_path (codes "d") (codes "j") 1)
all_work = record { opens = refl; seeks = refl; writes = refl; maps = refl }

load-IsNewPage_example :
    (p : Page) × (v : World) × (load os (codes "d") (codes "j") 1 true true empty_disk
      ≡ (ok (some p), v))
    × IsNewPage p v (codes "j") 1 1000
    × (v.files (gen_page_full_path (codes "d") (codes "j") 1) ≡ some p.buffer)
load-IsNewPage_example =
    load-IsNewPage os (codes "d") (codes "j") 1 empty_disk all_work refl (omega arith) (omega arith)
      (omega arith)

abbrev pub journal_at : Bool → Page → Journal
journal_at is_writing p = record {
  service_idx = 0;
  directory = codes "d";
  short_name = codes "j";
  is_writing = is_writing;
  expired = false;
  cur_page = some p;
}

locate_frame-write_frame_example :
    (s : Session) × (write_frame os local_writer true 4
        (codes "hi")
        8
        1
        (at_page logged_disk place (page_at 162))
      ≡ (ok 1000, s))
    × (locate_frame os
          (local_provider false)
          3
          (on_page s.world (journal_at false (page_at 162)) (page_at 162))
        ≡ (ok (some 162), on_page s.world (journal_at false (page_at 162)) (page_at 162)))
    × (get_str (s.world.contents 0) 162 ≡ codes "hi")
    × (get_nano (s.world.contents 0) 162 ≡ 1000)
    × (get_msg_type (s.world.contents 0) 162 ≡ 8)
locate_frame-write_frame_example =
    locate_frame-write_frame os local_writer (local_provider false) true 3 3 logged_disk place
      (page_at 162) 162 (codes "hi") 8 1 (journal_at false (page_at 162)) (page_at-IsAt 162)
      logged-Holds.tail_status (omega arith) second-Fits (omega arith) refl refl
