-- ===== src/Reader.antt =====
-- include/yijinjing/journal/JournalReader.h: the next frame of several journals that are read as
-- one stream.
pub mod Object
pub mod Control
pub mod Heads
pub mod Winner
pub mod Next
pub mod One
pub mod Ahead
pub mod Passes
pub mod Follows
pub mod Drain
pub mod Merging
pub mod Streams
pub mod Settle
pub mod Taken
pub mod Take
pub mod Growth
pub mod Same
pub mod Merge
use yijinjing_lite.Reader.Object.{Reader, Reading, FrameAt, on_journal}
use yijinjing_lite.Prelude.{
  ℕ, zero, suc, ◌+◌, ◌-◌, Bool, true, false, ◌||◌, List, [], ◌∷◌, ◌++◌, Option, none, some, length,
  get_elem?, set, ltb, ◌==◌, if◌then◌else◌,
}
use yijinjing_lite.Constants.{time_to_last}
use yijinjing_lite.Memory.{int64_lt}
use yijinjing_lite.Frame.{get_nano}
use yijinjing_lite.Page.{Page}
use yijinjing_lite.Map.{Map, find, insert, bytes_key}
use yijinjing_lite.Provider.{Provider}
use yijinjing_lite.Journal.{Journal, Session, seek_time, locate_frame, pass_current_frame, expire}
use yijinjing_lite.Writer.{add_journal}
use yijinjing_lite.World.Effect.{Run, Result, ok, fault, pure, raise, ◌>>=◌, ◌>>◌, null_pointer}
use yijinjing_lite.World.{Os, World}

-- What the loop of getNextFrame carries: `minNano` and `res_address`.
pub record Best : Type 0 where
  pub min_nano : ℕ
  pub res_address : Option FrameAt

page_buffer : Option Page → Option ℕ
page_buffer none = none
page_buffer (some p) = some p.buffer

-- The located frame with its time.
header_of : Option ℕ → Run Session (Option (FrameAt × ℕ))
unfolding page_buffer
header_of none s = (ok none, s)
header_of (some f) s = elim (page_buffer s.journal.cur_page) [
  | none ↦ (fault null_pointer, s)
  | some i ↦ (ok (some (record { buffer = i; address = f }, get_nano (s.world.contents i) f)), s)
]

-- minNano == TIME_TO_LAST || nano < minNano
unfoldable pub takes_over : ℕ → ℕ → Bool
takes_over nano min_nano = min_nano == time_to_last || int64_lt nano min_nano

consider : ℕ → Best → Option (FrameAt × ℕ) → Run Reading Best
unfolding takes_over
consider i best none s = (ok best, s)
consider i best (some (f, nano)) s =
    if takes_over nano best.min_nano
    then (
      ok (record { min_nano = nano; res_address = some f }),
      record s { reader = record s.reader { cur_journal = some i } },
    )
    else (ok best, s)

module _ (os : Os) (provider : Provider) (fuel : ℕ) where
  pub locate_header : Run Session (Option (FrameAt × ℕ))
  unfolding header_of
  locate_header = do found ← locate_frame os provider fuel; header_of found

  -- The loop over the `n` journals from index `i` on.
  scan_journals : ℕ → ℕ → Best → Run Reading Best
  unfolding locate_header consider
  scan_journals zero i best = pure best
  scan_journals (suc n) i best = do
    header ← on_journal i locate_header
    best' ← consider i best header
    scan_journals n (i + 1) best'

  pass_in_journal : Option ℕ → Run Reading Unit
  pass_in_journal none = raise null_pointer
  pass_in_journal (some i) = on_journal i (pass_current_frame os provider fuel)

  take_best : Best → Run Reading (Option FrameAt)
  unfolding pass_in_journal
  take_best best s = elim best.res_address [
    | none ↦ (ok none, s)
    | some f ↦ (do pass_in_journal s.reader.cur_journal; pure (some f)) s
  ]

  -- JournalReader::getNextFrame
  unfoldable pub get_next_frame : Run Reading (Option FrameAt)
  unfolding scan_journals take_best
  get_next_frame s =
      (do
        best ←
            scan_journals (length s.reader.journals) 0
              (record { min_nano = time_to_last; res_address = none })
        take_best best)
        s
