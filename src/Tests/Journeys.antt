-- ===== src/Tests/Journeys.antt =====
-- A journal that is begun, filled and read.
use yijinjing_lite.Prelude.{
  ℕ, ◌<◌, ◌^◌, ◌≡◌, refl, true, List, [], ◌∷◌, length, All, none, codes, arith,
}
use yijinjing_lite.FileName.{gen_page_full_path}
use yijinjing_lite.Directory.{get_page_nums, sort_shorts}
use yijinjing_lite.Provider.{local_provider, numbered_page}
use yijinjing_lite.Journal.{Journal, Session, create}
use yijinjing_lite.Writer.{init, strip_slash}
use yijinjing_lite.Writer.Frames.{Place, at_page, stored_world}
use yijinjing_lite.Writer.Refine.{extended, stored_world-Represents}
use yijinjing_lite.Writer.Log.{Log, Represents}
use yijinjing_lite.Writer.Sequence.{
  Entry, IsSmall, stamped, write_frames, Filled, write_frames-Represents,
}
use yijinjing_lite.Writer.Start.{new_place, begun_world, empty_log, init-Represents}
use yijinjing_lite.Reader.Object.{Reading}
use yijinjing_lite.Reader.One.{Fixed, reading_one}
use yijinjing_lite.Reader.Follows.{reading}
use yijinjing_lite.Reader.Passes.{SameDisk}
use yijinjing_lite.Reader.Drain.{take_frames, take_frames-messages}
use yijinjing_lite.Journey.{write_session, take_frames-write_session}
use yijinjing_lite.World.Effect.{ok}
use yijinjing_lite.World.{Os, World}
use yijinjing_lite.World.New.{Healthy}
use yijinjing_lite.Tests.Fixtures.{os, empty_disk, hello, hello-Fits}

abbrev pub steady : Os
steady = record os { clock = λ n. 1000 }

pub steady-Healthy : Healthy steady
steady-Healthy = record {
  opens = λ p. refl;
  seeks = λ p. refl;
  writes = λ p. refl;
  maps = λ p. refl;
  advises = λ i. refl;
  unlocks = λ i. refl;
  unmaps = λ i. refl;
}

pub no_files :
    (n : ℕ)
    → n < 2 ^ 15
    → empty_disk.files (gen_page_full_path (strip_slash (codes "d")) (codes "j") n) ≡ none
no_files n h = refl

none_listed : get_page_nums steady (strip_slash (codes "d")) (codes "j") empty_disk ≡ []
unfolding get_page_nums sort_shorts
none_listed = refl

abbrev nothing_yet : Journal
nothing_yet = create (codes "d") (codes "j") 0 (local_provider true)

abbrev two_entries : List Entry
two_entries =
    record { bytes = codes "hello"; msg_type = 7; last_flag = 1 }
    ∷ record { bytes = codes "world"; msg_type = 8; last_flag = 0 }
    ∷ []

two_entries-IsSmall : All IsSmall two_entries
two_entries-IsSmall = (
  record { type_fits = omega arith; flag_fits = omega arith; size_fits = omega arith },
  (record { type_fits = omega arith; flag_fits = omega arith; size_fits = omega arith }, tt),
)

abbrev pub others : Fixed
others = record { journal_map = []; visitors = []; visits = [] }

abbrev pub place : Place
place = new_place steady steady-Healthy empty_disk (codes "d") (codes "j") no_files

abbrev begun : World
begun = begun_world steady steady-Healthy empty_disk (codes "d") (codes "j") no_files

abbrev no_messages : Log
no_messages = empty_log steady steady-Healthy empty_disk (codes "d") (codes "j") no_files

init-Represents_example :
    (init steady
        (local_provider true)
        true
        1
        (codes "d")
        (codes "j")
        (record { world = empty_disk; journal = nothing_yet })
      ≡ (ok tt, at_page begun place no_messages.page))
    × Represents begun place no_messages
init-Represents_example =
    init-Represents steady steady-Healthy empty_disk (codes "d") (codes "j") no_files (omega arith)
      (omega arith) 0 none_listed true nothing_yet

begun-Represents : Represents begun place no_messages
begun-Represents = init-Represents_example.1

write_frames-Represents_example :
    (ts : List ℕ) × (g' : Log) × (v : World) × (write_frames steady true 2 two_entries
        (at_page begun place no_messages.page)
      ≡ (ok ts, at_page v place g'.page))
    × Filled place no_messages two_entries ts g' v
unfolding numbered_page
write_frames-Represents_example =
    write_frames-Represents steady steady-Healthy true 0 place (omega arith) (λ n. omega arith)
      two_entries begun no_messages begun-Represents two_entries-IsSmall (omega arith)

-- The journal with one frame.
abbrev pub one_message : Log
one_message = extended no_messages hello

abbrev pub written : World
written = stored_world true begun no_messages.page.buffer no_messages.tail hello

pub written-Represents : Represents written place one_message
unfolding numbered_page
written-Represents =
    stored_world-Represents steady true begun place no_messages hello begun-Represents hello-Fits
      (omega arith) (omega arith)

take_frames-messages_example :
    (s : Reading) × (take_frames steady 4 2 (reading_one written (reading place none) none others)
      ≡ (ok (hello ∷ []), s))
    × SameDisk written s.world
unfolding numbered_page
take_frames-messages_example =
    take_frames-messages steady steady-Healthy 4 written place one_message written-Represents
      (omega arith) others refl

take_frames-write_session_example :
    (ts : List ℕ) × (s : Session) × (t : Reading) × (write_session steady true 2
        (codes "d")
        (codes "j")
        two_entries
        (record { world = empty_disk; journal = nothing_yet })
      ≡ (ok ts, s))
    × (length ts ≡ 2)
    × (take_frames steady 4 3 (reading_one s.world (reading place none) none others)
        ≡ (ok (stamped ts two_entries), t))
take_frames-write_session_example =
    take_frames-write_session steady steady-Healthy true 0 4 (codes "d") (codes "j") (omega arith)
      (λ n. omega arith) empty_disk nothing_yet two_entries others no_files none_listed
      two_entries-IsSmall (omega arith)
