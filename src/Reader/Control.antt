-- ===== src/Reader/Control.antt =====
-- include/yijinjing/journal/JournalReader.cpp: which journals a reader has, where they stand, and
-- the visitors.
use yijinjing_lite.Reader.Object.{Reading, FrameAt, on_journal, modify, get_frame_name}
use yijinjing_lite.Reader.{get_next_frame}
use yijinjing_lite.Prelude.{
  ℕ, zero, suc, ◌+◌, Bool, true, false, List, [], ◌∷◌, ◌++◌, Option, none, some, length, ltb,
  if◌then◌else◌,
}
use yijinjing_lite.Map.{find, insert, bytes_key}
use yijinjing_lite.Provider.{Provider}
use yijinjing_lite.Journal.{Journal, seek_time, expire}
use yijinjing_lite.Writer.{add_journal}
use yijinjing_lite.World.Effect.{Run, ok, pure, ◌>>=◌, ◌>>◌}
use yijinjing_lite.World.{Os}

module _ (os : Os) (provider : Provider) (fuel : ℕ) where
  append_journal : Journal → Run Reading ℕ
  append_journal j s = (
    ok (length s.reader.journals),
    record s { reader = record s.reader { journals = s.reader.journals ++ (j ∷ []) } },
  )

  add_missing : List ℕ → List ℕ → Option ℕ → Run Reading ℕ
  unfolding append_journal
  add_missing dir jname (some idx) s = (ok idx, s)
  add_missing dir jname none s =
      (do
        j ← (λ t.
            let (r, w) = add_journal provider dir jname t.world in (r, record t { world = w }))
        idx ← append_journal j
        modify (λ r. record r { journal_map = insert r.journal_map jname idx })
        pure idx)
        s

  -- JournalReader::addJournal
  unfoldable pub add_reader_journal : List ℕ → List ℕ → Run Reading ℕ
  unfolding add_missing
  add_reader_journal dir jname s = add_missing dir jname (find s.reader.journal_map jname) s

  seek_all : ℕ → ℕ → ℕ → Run Reading Unit
  seek_all time zero i = pure tt
  seek_all time (suc n) i = do
    on_journal i (seek_time os provider fuel time)
    seek_all time n (i + 1)

  -- JournalReader::jumpStart
  unfoldable pub jump_start : ℕ → Run Reading Unit
  unfolding seek_all
  jump_start time s = seek_all time (length s.reader.journals) 0 s

  add_all : List (List ℕ × List ℕ) → Run Reading Unit
  add_all [] = pure tt
  add_all ((dir, jname) ∷ rest) = do add_reader_journal dir jname; add_all rest

  -- JournalReader::create, on the new reader: the folders with the names, the visitors, the time.
  unfoldable pub create_reader : List (List ℕ × List ℕ) → List ℕ → ℕ → Run Reading Unit
  unfolding add_all
  create_reader journals visitors time = do
    add_all journals
    jump_start time
    modify (λ r. record r { visitors = visitors })

  visit_all : List ℕ → FrameAt → List ℕ → List (ℕ × List ℕ × FrameAt)
  visit_all name f [] = []
  visit_all name f (v ∷ vs) = (v, name, f) ∷ visit_all name f vs

  visit_frame : Option FrameAt → Run Reading Unit
  unfolding visit_all
  visit_frame none s = (ok tt, s)
  visit_frame (some f) s = (
    ok tt,
    record s { visits = s.visits ++ visit_all (get_frame_name s.reader) f s.reader.visitors },
  )

  -- One round of the endless loop of JournalReader::startVisiting.
  unfoldable pub visit_round : Run Reading Unit
  unfolding visit_frame
  visit_round = do frame ← get_next_frame os provider fuel; visit_frame frame

  -- JournalReader::addVisitor
  unfoldable pub add_visitor : ℕ → Run Reading Bool
  add_visitor v s =
      (ok true, record s { reader = record s.reader { visitors = s.reader.visitors ++ (v ∷ []) } })

  -- JournalReader::expireJournal
  unfoldable pub expire_journal : ℕ → Run Reading Bool
  expire_journal idx s =
      if ltb idx (length s.reader.journals)
      then (do on_journal idx (expire os provider fuel); pure true) s
      else (ok false, s)

  -- JournalReader::seekTimeJournal
  unfoldable pub seek_time_journal : ℕ → ℕ → Run Reading Bool
  seek_time_journal idx nano s =
      if ltb idx (length s.reader.journals)
      then on_journal idx (seek_time os provider fuel nano) s
      else (ok false, s)

  -- JournalReader::expireJournalByName
  unfoldable pub expire_journal_by_name : List ℕ → Run Reading Bool
  expire_journal_by_name jname s = elim (find s.reader.journal_map jname) [
    | none ↦ (ok false, s)
    | some idx ↦ expire_journal idx s
  ]

  -- JournalReader::seekTimeJournalByName
  unfoldable pub seek_time_journal_by_name : List ℕ → ℕ → Run Reading Bool
  seek_time_journal_by_name jname nano s = elim (find s.reader.journal_map jname) [
    | none ↦ (ok false, s)
    | some idx ↦ seek_time_journal idx nano s
  ]
