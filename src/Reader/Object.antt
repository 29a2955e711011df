-- ===== src/Reader/Object.antt =====
-- The fields of a `JournalReader`, and the state that its methods act on. `curJournal` shares one
-- of the journals, so it is an index.
use yijinjing_lite.Prelude.{ℕ, List, [], Option, none, some, get_elem?, set}
use yijinjing_lite.Map.{Map}
use yijinjing_lite.Journal.{Journal, Session}
use yijinjing_lite.World.Effect.{Run, ok, fault, null_pointer}
use yijinjing_lite.World.{World}

pub record Reader : Type 0 where
  pub journals : List Journal
  pub cur_journal : Option ℕ
  pub journal_map : Map (List ℕ) ℕ
  -- the visitors, each known by a number
  pub visitors : List ℕ

-- A frame handed out: its address in the page file that it stands in.
pub record FrameAt : Type 0 where
  pub buffer : ℕ
  pub address : ℕ

pub record Reading : Type 0 where
  pub world : World
  pub reader : Reader
  -- the calls of `visit` so far: visitor, name and frame
  pub visits : List (ℕ × List ℕ × FrameAt)

-- A method of the journal with that index; there is none out of range.
on_found : {A : Type 0} → ℕ → Run Session A → Option Journal → Run Reading A
on_found i m none s = (fault null_pointer, s)
on_found i m (some j) s =
    let (r, t) = m (record { world = s.world; journal = j }) in
    (
      r,
      record s {
        world = t.world;
        reader = record s.reader { journals = set s.reader.journals i t.journal };
      },
    )

unfoldable pub on_journal : {A : Type 0} → ℕ → Run Session A → Run Reading A
unfolding on_found
on_journal i m s = on_found i m (get_elem? s.reader.journals i) s

abbrev pub modify : (Reader → Reader) → Run Reading Unit
modify f s = (ok tt, record s { reader = f s.reader })

-- JournalReader::getFrameName
unfoldable pub get_frame_name : Reader → List ℕ
get_frame_name r = elim r.cur_journal [
  | none ↦ []
  | some i ↦ elim (get_elem? r.journals i) [ none ↦ [] | some j ↦ j.short_name ]
]
