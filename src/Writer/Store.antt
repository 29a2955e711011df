-- ===== src/Writer/Store.antt =====
-- include/yijinjing/journal/JournalWriter.cpp: the stores that `write_frame`, and `locateFrame`
-- with `passFrame`, make in the memory of the current page. `f` is the frame that the journal
-- located, `nano` the reading of the clock.
use yijinjing_lite.Prelude.{ℕ, zero, suc, List, [], ◌∷◌, Bool}
use yijinjing_lite.Constants.{frame_status_raw, frame_status_written}
use yijinjing_lite.Memory.{Memory}
use yijinjing_lite.Frame.{
  set_msg_type, set_last_flag, set_data, set_data_length, set_nano, set_status, set_status_written,
  get_next_entry,
}
use yijinjing_lite.Page.Log.{Message}

-- The statements of `write_frame` between `locateFrame` and `passFrame`, in their order;
-- `setStatusWritten` is its two stores.
abbrev pub write_statements : Bool → ℕ → Message → List (Memory → Memory)
write_statements auto_hash f r =
    (λ m. set_msg_type m f r.msg_type)
    ∷ (λ m. set_last_flag m f r.last_flag)
    ∷ (λ m. set_data auto_hash m f r.content)
    ∷ (λ m. set_nano m f r.nano)
    ∷ (λ m. set_status m (get_next_entry m f) frame_status_raw)
    ∷ (λ m. set_status m f frame_status_written)
    ∷ []

-- The memory after the first `k` statements.
abbrev pub run_first : ℕ → List (Memory → Memory) → Memory → Memory
run_first zero ss m = m
run_first (suc k) [] m = m
run_first (suc k) (s ∷ ss) m = run_first k ss (s m)

unfoldable pub store_frame : Bool → Memory → ℕ → Message → Memory
store_frame auto_hash m f r =
    let m1 = set_msg_type m f r.msg_type in
    let m2 = set_last_flag m1 f r.last_flag in
    let m3 = set_data auto_hash m2 f r.content in
    let m4 = set_nano m3 f r.nano in set_status_written m4 f

-- JournalWriter::locateFrame: the time is set, and the caller fills in the data.
unfoldable pub start_frame : Memory → ℕ → ℕ → Memory
start_frame m f nano = set_nano m f nano

-- JournalWriter::passFrame, up to the move.
unfoldable pub end_frame : Bool → Memory → ℕ → ℕ → ℕ → ℕ → Memory
end_frame auto_hash m f len msg_type last_flag =
    let m1 = set_msg_type m f msg_type in
    let m2 = set_last_flag m1 f last_flag in
    let m3 = set_data_length auto_hash m2 f len in set_status_written m3 f
