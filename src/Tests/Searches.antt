-- ===== src/Tests/Searches.antt =====
-- A folder with two pages, a registration over the socket, and a page that is given back.
use yijinjing_lite.Prelude.{
  ℕ, ◌≡◌, ◌⊎◌, inl, refl, true, false, [], ◌∷◌, reverse, none, some, All, codes, bytes_eq, arith,
}
use yijinjing_lite.Memory.{read_le, int64_lt, short_lt}
use yijinjing_lite.Map.{find, bytes_key}
use yijinjing_lite.FileName.{gen_page_file_name, extract_page_num}
use yijinjing_lite.FileName.Decimal.{to_string, atoi}
use yijinjing_lite.Directory.{get_page_nums, sort_shorts, get_page_num_with_time}
use yijinjing_lite.Directory.Search.{Starts, Found, get_page_num_with_time-Found}
use yijinjing_lite.Engine.State.{file_key}
use yijinjing_lite.Engine.Pages.{
  counts, map_page, count_user, new_file, load_if_null, add_buffer, is_none, initiate_page,
  release_page,
}
use yijinjing_lite.Engine.Clients.{first_raw, reg_journal}
use yijinjing_lite.Engine.Restore.{release_page-initiate_page}
use yijinjing_lite.Socket.{journal_register, put_request, process_msg, journal_response}
use yijinjing_lite.Socket.Protocol.{journal_response-process_msg}
use yijinjing_lite.Memory.{Memory}
use yijinjing_lite.World.Effect.{ok}
use yijinjing_lite.World.{Os, World, load_page_buffer, file_exists}
use yijinjing_lite.Tests.Fixtures.{os, zeros, empty_disk}
use yijinjing_lite.Tests.Clients.{page_key, free, new_engine-IsSound}

abbrev listing : Os
listing = record os {
  list_folder = λ files p. gen_page_file_name (codes "j") 2 ∷ gen_page_file_name (codes "j") 1 ∷ [];
  regex_match = λ name pattern. true;
}

abbrev stocked : World
stocked = record empty_disk { files = λ p. some 0 }

get_page_num_with_time-Found_example :
    ((n : ℕ) × Found listing
        (codes "d")
        (codes "j")
        10
        stocked
        (reverse (get_page_nums listing (codes "d") (codes "j") stocked))
        n
      × (get_page_num_with_time listing (codes "d") (codes "j") 10 stocked ≡ (ok n, stocked)))
    ⊎ (All
          (Starts listing (codes "d") (codes "j") 10 stocked false)
          (reverse (get_page_nums listing (codes "d") (codes "j") stocked))
        × (get_page_num_with_time listing (codes "d") (codes "j") 10 stocked ≡ (ok 1, stocked)))
unfolding get_page_nums sort_shorts gen_page_file_name extract_page_num to_string atoi short_lt
    read_le int64_lt
get_page_num_with_time-Found_example =
    get_page_num_with_time-Found listing (codes "d") (codes "j") 10 stocked (
      inl (record { file = 0; exists = refl; compared = refl }),
      (inl (record { file = 0; exists = refl; compared = refl }), tt),
    )

journal_response-process_msg_example :
    (r : Memory) × (process_msg os
        (λ n. codes "{}")
        (0, 0)
        (put_request zeros journal_register (codes "c") 0 0)
        free
      ≡ (ok r, (reg_journal (codes "c") free).1))
    × (journal_response r ≡ some 0)
unfolding reg_journal first_raw find bytes_eq
journal_response-process_msg_example =
    journal_response-process_msg os (λ n. codes "{}") (0, 0) zeros (codes "c") 0 0 (omega arith)
      ((λ e. omega (arith, e)), tt) free (reg_journal (codes "c") free).1 0 (omega arith) refl

release_page-initiate_page_example :
    find
      (counts true
        (release_page os page_key true (initiate_page os page_key true empty_disk).1).1.engine)
      page_key
    ≡ none
unfolding initiate_page find load_page_buffer file_exists map_page count_user new_file load_if_null
    add_buffer is_none
release_page-initiate_page_example =
    release_page-initiate_page os page_key page_key true empty_disk new_engine-IsSound refl
