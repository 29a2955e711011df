-- ===== src/Writer/Frames.antt =====
-- `write_frame` of a writer that stands in an open page.
use yijinjing_lite.Prelude.{
  ℕ, suc, ◌+◌, ◌^◌, ◌<◌, ◌≡◌, ◌≢◌, refl, ap, ◌∙◌, Bool, true, false, List, [], ◌∷◌, ◌++◌, length,
  some, arith,
}
use yijinjing_lite.Constants.{frame_status_raw, page_min_headroom, journal_page_size}
use yijinjing_lite.Memory.{Memory}
use yijinjing_lite.Frame.{get_status}
use yijinjing_lite.Page.{Page, locate_writable_frame, pass_frame}
use yijinjing_lite.Page.Log.{Message, Fits, frame_size, Written, Holds}
use yijinjing_lite.Page.Cursor.{
  IsAt, moved, moved-IsAt, pass_frame-moved, locate_writable_frame-Holds,
}
use yijinjing_lite.Provider.{Provider}
use yijinjing_lite.Journal.{Journal, Session, locate_frame, pass_current_frame}
use yijinjing_lite.Writer.Store.{store_frame}
use yijinjing_lite.Writer.Publish.{publish_appends, Stored-store_frame}
use yijinjing_lite.Writer.{write_frame}
use yijinjing_lite.World.Effect.{Result, ok, ◌>>=◌}
use yijinjing_lite.World.{Os, World, put_at, put_at_self, put_at_ne, get_nano_time}

-- A journal of a writer, with a current page.
pub record Place : Type 0 where
  pub service_idx : ℕ
  pub directory : List ℕ
  pub short_name : List ℕ

abbrev pub writing : Place → Page → Journal
writing l p = record {
  service_idx = l.service_idx;
  directory = l.directory;
  short_name = l.short_name;
  is_writing = true;
  expired = false;
  cur_page = some p;
}

abbrev pub at_page : World → Place → Page → Session
at_page w l p = record { world = w; journal = writing l p }

-- Behind a log that leaves the headroom, the writer's page gives a clean frame.
pub has_room :
    (fuel : ℕ) (m : Memory) (p : Page) (a : ℕ) (rs : List Message) (b : ℕ)
    → IsAt p a
    → Written m a rs b
    → get_status m b ≡ frame_status_raw
    → b + page_min_headroom < journal_page_size
    → length rs < fuel
    → locate_writable_frame fuel m p ≡ some (moved p b (length rs), some b)
has_room fuel m p a rs b v w e h lt =
    locate_writable_frame-Holds fuel m p a rs b v w (λ x. omega arith) (omega arith) lt
    ∙ ground (arith, e, h)

module _ (os : Os) (provider : Provider) (rounds : ℕ) (w : World) (l : Place) (p q : Page)
    (f : ℕ) where
  pub locate_frame-found :
      locate_writable_frame (suc rounds) (w.contents p.buffer) p ≡ some (q, some f)
      → locate_frame os provider (suc rounds) (at_page w l p) ≡ (ok (some f), at_page w l q)
  unfolding locate_frame
  locate_frame-found e = ground (arith, e)

-- The world after the store of a frame.
abbrev pub stored_world : Bool → World → ℕ → ℕ → Message → World
stored_world auto_hash w i f r = record w {
  readings = w.readings + 1;
  contents = put_at w.contents i (store_frame auto_hash (w.contents i) f r);
}

module _ (os : Os) (provider : Provider) (auto_hash : Bool) (rounds : ℕ) (w : World) (l : Place)
    (p : Page) (b : ℕ) (bytes : List ℕ) (msg_type last_flag : ℕ) where
  -- The message that a call at this state writes.
  abbrev pub message : Message
  message = record {
    nano = os.clock w.readings;
    msg_type = msg_type;
    last_flag = last_flag;
    content = bytes;
  }

  pub write_frame-found :
      (n : ℕ) (q : Page)
      → locate_writable_frame (suc rounds) (w.contents p.buffer) p ≡ some (moved p b n, some b)
      → pass_frame (store_frame auto_hash (w.contents p.buffer) b message) (moved p b n) ≡ q
      → write_frame os provider auto_hash (suc rounds) bytes msg_type last_flag (at_page w l p)
        ≡ (ok (os.clock w.readings), at_page (stored_world auto_hash w p.buffer b message) l q)
  unfolding write_frame get_nano_time pass_current_frame
  write_frame-found n q e passed =
      let found =
        locate_frame-found os provider rounds (record w { readings = w.readings + 1 }) l p
          (moved p b n) b e in
      let after : Page → Result ℕ × Session = λ q.
        (ok (os.clock w.readings), at_page (stored_world auto_hash w p.buffer b message) l q) in
      rw (found, ◌>>=◌)
        (ap (λ (m : Memory). after (pass_frame m (moved p b n)))
            (put_at_self w.contents p.buffer
              (store_frame auto_hash (w.contents p.buffer) b message))
          ∙ ap after passed)

  -- A writer whose cursor stands behind the log of its page, with the headroom and a clean
  -- frame there, appends by `write_frame` one frame of the given content, with the time of the
  -- call. The message fits its fields and ends below 2^31. The cursor ends behind the frame,
  -- the next frame is clean, and another file `j` is as before.
  pub write_frame-appends :
      (rs : List Message) (j : ℕ)
      → IsAt p b
      → Holds (w.contents p.buffer) rs b frame_status_raw
      → b + page_min_headroom < journal_page_size
      → Fits message
      → b + frame_size message < 2 ^ 31
      → p.buffer ≢ j
      → (s : Session) × (write_frame os provider auto_hash
            (suc rounds)
            bytes
            msg_type
            last_flag
            (at_page w l p)
          ≡ (ok (os.clock w.readings), s))
        × Holds
            (s.world.contents p.buffer)
            (rs ++ message ∷ [])
            (b + frame_size message)
            frame_status_raw
        × (s.journal.cur_page ≡ some (moved (moved p b 0) (b + frame_size message) 1))
        × (s.world.contents j ≡ w.contents j)
  write_frame-appends rs j v h room fits small ne =
      let m = w.contents p.buffer in
      let stored = Stored-store_frame auto_hash m b message fits small in
      (
        at_page (stored_world auto_hash w p.buffer b message) l
            (moved (moved p b 0) (b + frame_size message) 1),
        write_frame-found 0 _
            (has_room (suc rounds) m p b [] b v refl h.tail_status room (omega arith))
            (pass_frame-moved _ (moved p b 0) b message (moved-IsAt p b 0) stored small),
        rw (put_at_self w.contents p.buffer (store_frame auto_hash m b message))
            (publish_appends auto_hash m b message fits small rs h),
        refl,
        put_at_ne w.contents p.buffer j _ ne,
      )
