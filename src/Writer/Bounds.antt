-- ===== src/Writer/Bounds.antt =====
-- Where the stores of a frame go.
use yijinjing_lite.Prelude.{ℕ, ◌+◌, ◌≤◌, ◌<◌, ◌^◌, ◌≡◌, ◌∙◌, arith, Bool, Bool-cases, inl, inr}
use yijinjing_lite.Constants.{page_min_headroom, journal_page_size}
use yijinjing_lite.Memory.{Memory, write_le-Outside, copy-Outside}
use yijinjing_lite.Frame.{
  set_msg_type, set_last_flag, set_data, set_nano, set_status, set_frame_length, set_hash_code,
}
use yijinjing_lite.Page.Log.{Message, Fits, frame_size}
use yijinjing_lite.Writer.Store.{store_frame}
use yijinjing_lite.Writer.Publish.{filled, cleared, next_filled, data_address, store_frame-cleared}

module _ (auto_hash : Bool) (m : Memory) (f : ℕ) (r : Message) (fits : Fits r)
    (room : f + frame_size r < 2 ^ 31) where
  filled_above : (c : ℕ) → f + frame_size r ≤ c → filled auto_hash m f r fits room c ≡ m c
  unfolding filled set_msg_type set_last_flag set_data set_nano set_frame_length set_hash_code
  filled_above c h = elim (Bool-cases auto_hash) [
    | inl e ↦
        rw (e, data_address auto_hash m f r fits room)
          (write_le-Outside 8 _ (f + 1) _ c (omega arith)
            ∙ write_le-Outside 4 _ (f + 13) _ c (omega arith)
            ∙ write_le-Outside 4 _ (f + 9) _ c (omega arith)
            ∙ copy-Outside _ (f + 20) r.content c (omega arith)
            ∙ write_le-Outside 1 _ (f + 19) _ c (omega arith)
            ∙ write_le-Outside 2 m (f + 17) _ c (omega arith))
    | inr e ↦
        rw (e, data_address auto_hash m f r fits room)
          (write_le-Outside 8 _ (f + 1) _ c (omega arith)
            ∙ write_le-Outside 4 _ (f + 9) _ c (omega arith)
            ∙ copy-Outside _ (f + 20) r.content c (omega arith)
            ∙ write_le-Outside 1 _ (f + 19) _ c (omega arith)
            ∙ write_le-Outside 2 m (f + 17) _ c (omega arith))
  ]

  -- The last byte written is the status of the next frame.
  store_frame_above : (c : ℕ) → f + frame_size r + 1 ≤ c → store_frame auto_hash m f r c ≡ m c
  unfolding set_status cleared
  store_frame_above c h =
      rw (store_frame-cleared auto_hash m f r fits room, next_filled auto_hash m f r fits room)
        (write_le-Outside 1 _ (f + 0) 1 c (omega arith)
          ∙ write_le-Outside 1 _ (f + frame_size r + 0) 0 c (omega arith)
          ∙ filled_above c (omega arith))

-- A frame that is written where the page has headroom, that fits its fields and is no larger
-- than the headroom, changes no byte behind the end of the page.
pub store_frame_in_page :
    (auto_hash : Bool) (m : Memory) (f : ℕ) (r : Message)
    → Fits r
    → f + page_min_headroom < journal_page_size
    → frame_size r ≤ page_min_headroom
    → (c : ℕ) → journal_page_size ≤ c
    → store_frame auto_hash m f r c ≡ m c
store_frame_in_page auto_hash m f r fits room small c h =
    store_frame_above auto_hash m f r fits (omega arith) c (omega arith)
