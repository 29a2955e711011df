-- ===== src/Reader/One.antt =====
-- `getNextFrame` of a reader that has one journal.
use yijinjing_lite.Prelude.{ℕ, ◌≡◌, refl, List, [], ◌∷◌, Option, none, some}
use yijinjing_lite.Map.{Map}
use yijinjing_lite.Page.{Page, pass_frame}
use yijinjing_lite.Provider.{Provider}
use yijinjing_lite.Journal.{Journal, locate_frame, pass_current_frame}
use yijinjing_lite.Reader.Object.{Reading, FrameAt, on_journal}
use yijinjing_lite.Reader.{
  get_next_frame, locate_header, scan_journals, consider, take_best, pass_in_journal,
}
use yijinjing_lite.World.Effect.{ok, ◌>>=◌}
use yijinjing_lite.World.{Os, World}

-- What of the reader these calls leave.
pub record Fixed : Type 0 where
  pub journal_map : Map (List ℕ) ℕ
  pub visitors : List ℕ
  pub visits : List (ℕ × List ℕ × FrameAt)

abbrev pub reading_one : World → Journal → Option ℕ → Fixed → Reading
reading_one w j cur o = record {
  world = w;
  reader = record {
    journals = j ∷ [];
    cur_journal = cur;
    journal_map = o.journal_map;
    visitors = o.visitors;
  };
  visits = o.visits;
}

module _ (os : Os) (provider : Provider) (fuel : ℕ) (w v : World) (j k : Journal) (cur : Option ℕ)
    (o : Fixed) where
  pub get_next_frame-nothing :
      locate_frame os provider fuel (record { world = w; journal = j })
        ≡ (ok none, record { world = v; journal = k })
      → get_next_frame os provider fuel (reading_one w j cur o) ≡ (ok none, reading_one v k cur o)
  unfolding get_next_frame on_journal locate_header scan_journals consider take_best
  get_next_frame-nothing found = rw (found, ◌>>=◌) refl

  pub get_next_frame-passes :
      (f : ℕ) (p : Page)
      → locate_frame os provider fuel (record { world = w; journal = j })
        ≡ (ok (some f), record { world = v; journal = k })
      → k.cur_page ≡ some p
      → get_next_frame os provider fuel (reading_one w j cur o) ≡ (
        ok (some (record { buffer = p.buffer; address = f })),
        reading_one v
            (record k { cur_page = some (pass_frame (v.contents p.buffer) p) })
            (some 0)
            o,
      )
  unfolding get_next_frame on_journal locate_header scan_journals consider take_best pass_in_journal
      pass_current_frame
  get_next_frame-passes f p found at = rw (found, ◌>>=◌, at) refl
