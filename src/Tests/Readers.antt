-- ===== src/Tests/Readers.antt =====
-- A reader of two journals, of which one has a frame.
use yijinjing_lite.Prelude.{
  ℕ, zero, suc, ◌≡◌, ◌≢◌, ◌⊎◌, refl, subst, false, List, [], ◌∷◌, none, some, get_elem?, arith,
}
use yijinjing_lite.Constants.{time_to_last}
use yijinjing_lite.Provider.{local_provider}
use yijinjing_lite.Journal.{Journal}
use yijinjing_lite.Reader.Object.{Reading, FrameAt}
use yijinjing_lite.Reader.Heads.{InPage, head_of}
use yijinjing_lite.Reader.Next.{Finds, FindsNone, AllInPage, AllTimed, get_next_frame-least}
use yijinjing_lite.Tests.Fixtures.{os, page_at, logged-Holds}
use yijinjing_lite.Tests.Journals.{journal_at, logged_disk}

-- One journal in front of the frame, one behind it.
abbrev two : List Journal
two = journal_at false (page_at 137) ∷ journal_at false (page_at 162) ∷ []

abbrev reading : Reading
reading = record {
  world = logged_disk;
  reader = record { journals = two; cur_journal = none; journal_map = []; visitors = [] };
  visits = [];
}

of_two :
    (P : Journal → Type 0)
    → P (journal_at false (page_at 137))
    → P (journal_at false (page_at 162))
    → (k : ℕ) (j : Journal) → get_elem? two k ≡ some j
    → P j
of_two P p q zero j e = subst P (ground (arith, e)) p
of_two P p q (suc zero) j e = subst P (ground (arith, e)) q
of_two P p q (suc (suc k)) j e = ground (arith, e)

two_InPage : AllInPage logged_disk two
two_InPage =
    of_two (InPage logged_disk)
      (record {
        page = page_at 137;
        reading = refl;
        live = refl;
        at_page = refl;
        open_page = λ e. omega (arith, e, logged-Holds.log.0.status);
      })
      (record {
        page = page_at 162;
        reading = refl;
        live = refl;
        at_page = refl;
        open_page = λ e. omega (arith, e, logged-Holds.tail_status);
      })

Timed : Journal → Type 0
Timed j = (f : FrameAt) (nano : ℕ) → head_of logged_disk j ≡ some (f, nano) → nano ≢ time_to_last

two_Timed : AllTimed logged_disk two
unfolding Timed head_of
two_Timed k j f nano at e =
    of_two Timed (λ f n h l. ground (arith, h, l, logged-Holds.log.0.nano))
      (λ f n h l. ground (arith, h, l, logged-Holds.tail_status)) k j at f nano e

get_next_frame-least_example :
    FindsNone os (local_provider false) 3 reading ⊎ Finds os (local_provider false) 3 reading
get_next_frame-least_example =
    get_next_frame-least os (local_provider false) 3 reading two_InPage two_Timed
