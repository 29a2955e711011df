-- ===== src/Writer/Readback.antt =====
-- A frame that `write_frame` has written, seen by a reader of the same page file.
use yijinjing_lite.Prelude.{
  ℕ, suc, ◌+◌, ◌-◌, ◌%◌, ◌^◌, ◌<◌, ◌≡◌, refl, Bool, false, List, [], length, some, arith,
}
use yijinjing_lite.Constants.{frame_status_raw, page_min_headroom, journal_page_size}
use yijinjing_lite.Memory.{Memory, address_add}
use yijinjing_lite.Frame.{get_status, get_str, get_data, get_data_length, get_nano, get_msg_type}
use yijinjing_lite.Page.{Page, is_at_page_end, locate_readable_frame}
use yijinjing_lite.Page.Log.{Message, Fits, frame_size, Stored}
use yijinjing_lite.Page.Cursor.{IsAt, moved, moved-IsAt, pass_frame-moved}
use yijinjing_lite.Provider.{Provider}
use yijinjing_lite.Journal.{Journal, Session, locate_frame}
use yijinjing_lite.Journal.Locate.{on_page}
use yijinjing_lite.Writer.Store.{store_frame}
use yijinjing_lite.Writer.Publish.{Stored-store_frame}
use yijinjing_lite.Writer.Frames.{
  Place, at_page, message, stored_world, has_room, write_frame-found,
}
use yijinjing_lite.Writer.{write_frame}
use yijinjing_lite.World.Effect.{ok}
use yijinjing_lite.World.{Os, World, put_at_self}

pub get_str-Stored :
    (m : Memory) (f : ℕ) (r : Message)
    → f + frame_size r < 2 ^ 31
    → Stored m f r
    → get_str m f ≡ r.content
unfolding get_str get_data get_data_length address_add
get_str-Stored m f r h s =
    let len : (frame_size r + 2 ^ 32 - 20) % 2 ^ 32 ≡ length r.content = omega (arith, h) in
    let at : (f + 20) % 2 ^ 64 ≡ f + 20 = omega (arith, h) in rw (s.size, len, at) s.content

-- A reader whose cursor is at a written frame has it, and stays.
pub locate_frame-Stored :
    (os : Os) (provider : Provider) (fuel : ℕ) (w : World) (j : Journal) (q : Page) (a : ℕ)
    (r : Message)
    → j.expired ≡ false
    → j.is_writing ≡ false
    → q.frame ≡ a
    → Stored (w.contents q.buffer) a r
    → locate_frame os provider fuel (on_page w j q) ≡ (ok (some a), on_page w j q)
unfolding locate_frame is_at_page_end locate_readable_frame
locate_frame-Stored os provider fuel w j q a r live reads at s =
    ground (arith, live, reads, at, s.status)

module _ (os : Os) (writer reader : Provider) (auto_hash : Bool) (rounds fuel : ℕ) (w : World)
    (l : Place) (p : Page) (b : ℕ) (bytes : List ℕ) (msg_type last_flag : ℕ) (j : Journal) where
  abbrev written : Message
  written = message os writer auto_hash rounds w l p b bytes msg_type last_flag

  -- If a writer stands at a clean frame with the headroom behind it, and writes a message that
  -- fits its fields and ends below 2^31, a live reader whose cursor is at that place of the
  -- same page then locates the frame, and reads the content, the time of the write and the
  -- type.
  pub locate_frame-write_frame :
      IsAt p b
      → get_status (w.contents p.buffer) b ≡ frame_status_raw
      → b + page_min_headroom < journal_page_size
      → Fits written
      → b + frame_size written < 2 ^ 31
      → j.expired ≡ false
      → j.is_writing ≡ false
      → (s : Session) × (write_frame os writer auto_hash
            (suc rounds)
            bytes
            msg_type
            last_flag
            (at_page w l p)
          ≡ (ok (os.clock w.readings), s))
        × (locate_frame os reader fuel (on_page s.world j p) ≡ (ok (some b), on_page s.world j p))
        × (get_str (s.world.contents p.buffer) b ≡ bytes)
        × (get_nano (s.world.contents p.buffer) b ≡ os.clock w.readings)
        × (get_msg_type (s.world.contents p.buffer) b ≡ msg_type)
  locate_frame-write_frame v h room fits small live reads =
      let m = w.contents p.buffer in
      let stored = Stored-store_frame auto_hash m b written fits small in
      let s =
        at_page (stored_world auto_hash w p.buffer b written) l
          (moved (moved p b 0) (b + frame_size written) 1) in
      let same = put_at_self w.contents p.buffer (store_frame auto_hash m b written) in
      (
        s,
        write_frame-found os writer auto_hash rounds w l p b bytes msg_type last_flag 0 _
            (has_room (suc rounds) m p b [] b v refl h room (omega arith))
            (pass_frame-moved _ (moved p b 0) b written (moved-IsAt p b 0) stored small),
        locate_frame-Stored os reader fuel s.world j p b written live reads v.at_frame
            (rw same stored),
        rw same (get_str-Stored _ b written small stored),
        rw same stored.nano,
        rw same stored.msg_type,
      )
