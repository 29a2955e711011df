-- ===== src/Tests/Writers.antt =====
-- Two journals on one disk, with a writer each, and a reader of both.
use mathlib.Core.List.{Perm, Memᴰ}
use mathlib.Core.List.Memᴰ
use mathlib.Core.Option.{some-injective}
use yijinjing_lite.Prelude.{
  ℕ, zero, suc, ◌<◌, ◌^◌, ◌≡◌, refl, true, false, List, [], ◌∷◌, ◌++◌, length, map, All, none,
  codes, subst, arith, bytes_eq,
}
use yijinjing_lite.Memory.{int64_lt}
use yijinjing_lite.FileName.{gen_page_full_path, gen_page_file_name}
use yijinjing_lite.Page.{new_page}
use yijinjing_lite.Page.Log.{Message}
use yijinjing_lite.Provider.{numbered_page}
use yijinjing_lite.Writer.{strip_slash}
use yijinjing_lite.Writer.Frames.{Place}
use yijinjing_lite.Writer.Log.{Log, Represents, path_of}
use yijinjing_lite.Writer.Confined.{Apart, Represents-Confined}
use yijinjing_lite.Writer.Sequence.{stamped}
use yijinjing_lite.Writer.Start.{
  new_place, begun_world, empty_log, begun_world-Represents, begun_world-Confined,
}
use yijinjing_lite.Reader.Object.{Reading}
use yijinjing_lite.Reader.Passes.{SameDisk}
use yijinjing_lite.Reader.Streams.{reading_all}
use yijinjing_lite.Reader.Drain.{take_frames}
use yijinjing_lite.Reader.Merging.{Merges, InOrder, concat}
use yijinjing_lite.Reader.Merge.{Source, IsSource, logs, unread, take_frames-Merges}
use yijinjing_lite.Turns.Keeps.{shared, Open, Separate, Steady}
use yijinjing_lite.Turns.Merged.{Possible, places, entries, take_frames-take_turns}
use yijinjing_lite.Turns.{Call, take_turns}
use yijinjing_lite.World.Effect.{ok}
use yijinjing_lite.World.{World}
use yijinjing_lite.Tests.Journeys.{
  steady, steady-Healthy, place, one_message, written, written-Represents, others,
}
use yijinjing_lite.Tests.Fixtures.{hello}

no_other_files :
    (n : ℕ)
    → n < 2 ^ 15
    → written.files (gen_page_full_path (strip_slash (codes "d")) (codes "k") n) ≡ none
unfolding bytes_eq gen_page_full_path gen_page_file_name strip_slash
no_other_files n h = refl

abbrev other_place : Place
other_place = new_place steady steady-Healthy written (codes "d") (codes "k") no_other_files

abbrev other_log : Log
other_log = empty_log steady steady-Healthy written (codes "d") (codes "k") no_other_files

-- The second writer starts when the first journal has one frame.
abbrev both : World
both = begun_world steady steady-Healthy written (codes "d") (codes "k") no_other_files

other-Represents : Represents both other_place other_log
other-Represents =
    begun_world-Represents steady steady-Healthy written (codes "d") (codes "k") no_other_files
      (omega arith) (omega arith)

files_apart :
    (m n : ℕ) → m < 2 ^ 15 → n < 2 ^ 15 → bytes_eq (path_of other_place m) (path_of place n) ≡ false
unfolding bytes_eq gen_page_full_path gen_page_file_name strip_slash
files_apart m n h k = refl

files_apart_too :
    (m n : ℕ) → m < 2 ^ 15 → n < 2 ^ 15 → bytes_eq (path_of place m) (path_of other_place n) ≡ false
unfolding bytes_eq gen_page_full_path gen_page_file_name strip_slash
files_apart_too m n h k = refl

no_page : (i : ℕ) → Memᴰ i (6 ∷ []) → Memᴰ i (5 ∷ []) → ⊥
no_page i a b = omega (arith, Memᴰ.eq_of_singleton a, Memᴰ.eq_of_singleton b)

other-Apart : Apart other_place place other_log one_message
unfolding numbered_page new_page
other-Apart = record { paths = files_apart; pages = no_page }

first-Apart : Apart place other_place one_message other_log
unfolding numbered_page new_page
first-Apart = record { paths = files_apart_too; pages = λ i a b. no_page i b a }

first-Represents : Represents both place one_message
unfolding numbered_page
first-Represents =
    Represents-Confined written both other_place place other_log other_log one_message
      (begun_world-Confined steady steady-Healthy written (codes "d") (codes "k") no_other_files
        (omega arith) (omega arith))
      written-Represents (omega arith) other-Apart

abbrev two_sources : List Source
two_sources =
    record { place = place; log = one_message }
    ∷ record { place = other_place; log = other_log }
    ∷ []

two_sources-IsSource : All (IsSource both) two_sources
unfolding numbered_page int64_lt
two_sources-IsSource = (
  record {
    represents = first-Represents;
    pages = omega arith;
    from_first = refl;
    timed = (omega arith, tt);
    in_order = (tt, tt);
  },
  (
    record {
      represents = other-Represents;
      pages = omega arith;
      from_first = refl;
      timed = tt;
      in_order = tt;
    },
    tt,
  ),
)

take_frames-Merges_example :
    (out : List Message) × (s : Reading) × (take_frames steady 4 2
        (reading_all both (map unread two_sources) none others)
      ≡ (ok out, s))
    × Merges (logs two_sources) out
    × Perm (concat (logs two_sources)) out
    × InOrder out
    × SameDisk both s.world
take_frames-Merges_example =
    take_frames-Merges steady steady-Healthy 4 both others two_sources two_sources-IsSource

steady-Steady : Steady steady
unfolding int64_lt
steady-Steady = record {
  forward = λ m n le. refl;
  fits = λ n. omega arith;
  timed = λ n. omega arith;
}

two_sources-Open : All (Open steady both 2) two_sources
unfolding numbered_page int64_lt
two_sources-Open = (
  record {
    represents = first-Represents;
    from_first = refl;
    short_name = omega arith;
    pages = omega arith;
    timed = (omega arith, tt);
    in_order = (tt, tt);
    passed = (refl, tt);
  },
  (
    record {
      represents = other-Represents;
      from_first = refl;
      short_name = omega arith;
      pages = omega arith;
      timed = tt;
      in_order = tt;
      passed = tt;
    },
    tt,
  ),
)

two_sources-Separate : Separate two_sources
two_sources-Separate zero zero x y ne a b = absurd (ne refl)
two_sources-Separate zero (suc zero) x y ne a b =
    subst (λ (x : Source). Apart x.place y.place x.log y.log) (some-injective _ x a)
      (subst (λ (y : Source). Apart place y.place one_message y.log) (some-injective _ y b)
        first-Apart)
two_sources-Separate (suc zero) zero x y ne a b =
    subst (λ (x : Source). Apart x.place y.place x.log y.log) (some-injective _ x a)
      (subst (λ (y : Source). Apart other_place y.place other_log y.log) (some-injective _ y b)
        other-Apart)
two_sources-Separate (suc zero) (suc zero) x y ne a b = absurd (ne refl)
two_sources-Separate zero (suc (suc k)) x y ne a b = absurd (ground (arith, b))
two_sources-Separate (suc zero) (suc (suc k)) x y ne a b = absurd (ground (arith, b))
two_sources-Separate (suc (suc k)) j x y ne a b = absurd (ground (arith, a))

-- The second writer goes first.
abbrev two_calls : List Call
two_calls =
    record { writer = 1; entry = record { bytes = codes "world"; msg_type = 8; last_flag = 0 } }
    ∷ record { writer = 0; entry = record { bytes = codes "again"; msg_type = 7; last_flag = 1 } }
    ∷ []

two_calls-Possible : All (Possible two_sources) two_calls
two_calls-Possible = (
  record {
    writer = omega arith;
    small = record { type_fits = omega arith; flag_fits = omega arith; size_fits = omega arith };
  },
  (
    record {
      writer = omega arith;
      small = record { type_fits = omega arith; flag_fits = omega arith; size_fits = omega arith };
    },
    tt,
  ),
)

take_frames-take_turns_example :
    (ts : List ℕ) × (ys : List Source) × (v : World) × (out : List Message) × (s : Reading)
    × (take_turns steady true 2 two_calls (shared both two_sources) ≡ (ok ts, shared v ys))
    × (length ts ≡ 2)
    × (places ys ≡ place ∷ other_place ∷ [])
    × (take_frames steady 4 4 (reading_all v (map unread ys) none others) ≡ (ok out, s))
    × Perm (stamped ts (entries two_calls) ++ hello ∷ []) out
    × InOrder out
take_frames-take_turns_example =
    take_frames-take_turns steady steady-Healthy steady-Steady true 0 4 both two_sources two_calls
      others two_sources-Open two_sources-Separate two_calls-Possible
