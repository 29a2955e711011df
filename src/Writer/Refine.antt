-- ===== src/Writer/Refine.antt =====
-- `write_frame` of JournalWriter.cpp over the local provider appends to the journal's log, in the
-- open page or in the next one.
use yijinjing_lite.Prelude.{ℕ, suc, ◌+◌, ◌<◌, ◌≤◌, ◌≡◌, refl, ◌∙◌, Bool, List, [], ◌∷◌, ◌++◌, arith}
use yijinjing_lite.Constants.{page_min_headroom, journal_page_size}
use yijinjing_lite.Page.{Page}
use yijinjing_lite.Page.Header.{page_init_position}
use yijinjing_lite.Page.Log.{Message, Fits, frame_size, Written-size}
use yijinjing_lite.Page.Cursor.{moved, moved-IsAt, pass_frame-moved}
use yijinjing_lite.Provider.{Provider}
use yijinjing_lite.Writer.Publish.{publish_appends, Stored-store_frame, Agree-store_frame}
use yijinjing_lite.Writer.Frames.{
  Place, at_page, message, stored_world, has_room, write_frame-found,
}
use yijinjing_lite.Writer.Log.{Sealed, Log, path_of, IsSealed, Represents, Usable-Agree, All-map}
use yijinjing_lite.Writer.{write_frame}
use yijinjing_lite.World.Effect.{ok}
use yijinjing_lite.World.{Os, World, put_at_self, put_at_ne}

-- The log with a frame behind its last one, in the open page.
abbrev pub extended : Log → Message → Log
extended g r = record g {
  page = moved (moved g.page g.tail 0) (g.tail + frame_size r) 1;
  frames = g.frames ++ r ∷ [];
  tail = g.tail + frame_size r;
}

-- The sealed pages stay what they are when later files change.
pub IsSealed_keeps :
    (w v : World) (l : Place) (p q : Page) (s : Sealed)
    → p.page_num ≤ q.page_num
    → p.buffer ≤ q.buffer
    → ((j : ℕ) → j < p.buffer → v.contents j ≡ w.contents j)
    → ((n : ℕ) → n < p.page_num → v.files (path_of l n) ≡ w.files (path_of l n))
    → IsSealed w l p s
    → IsSealed v l q s
IsSealed_keeps w v l p q s hn hb hc hf h = record {
  number_older = omega (arith, h.number_older);
  inode_older = omega (arith, h.inode_older);
  file = hf s.number h.number_older ∙ h.file;
  holds = rw (hc s.inode h.inode_older) h.holds;
  usable = rw (hc s.inode h.inode_older) h.usable;
  filled = h.filled;
  end_fits = h.end_fits;
}

module _ (os : Os) (auto_hash : Bool) (w : World) (l : Place) (g : Log) (r : Message)
    (rep : Represents w l g) (fits : Fits r) (small : frame_size r ≤ page_min_headroom) where
  -- The disk after a store in the open page.
  pub stored_world-Represents :
      g.tail + page_min_headroom < journal_page_size
      → Represents (stored_world auto_hash w g.page.buffer g.tail r) l (extended g r)
  stored_world-Represents room = record {
    closed =
        All-map _ _ g.closed
          (λ s h.
            IsSealed_keeps w (stored_world auto_hash w g.page.buffer g.tail r) l g.page
              (extended g r).page s (omega arith) (omega arith)
              (λ j lt. put_at_ne w.contents g.page.buffer j _ (omega arith)) (λ n lt. refl) h)
          rep.closed;
    order = rep.order;
    cursor = moved-IsAt (moved g.page g.tail 0) (g.tail + frame_size r) 1;
    holds = rw (put_at_self w.contents g.page.buffer _) (
        publish_appends auto_hash (w.contents g.page.buffer) g.tail r fits (omega arith) g.frames
          rep.holds);
    usable =
        let le = Written-size _ page_init_position g.frames g.tail rep.holds.log in
        rw (put_at_self w.contents g.page.buffer _) (
          Usable-Agree (w.contents g.page.buffer) _ g.tail (omega arith)
            (Agree-store_frame auto_hash (w.contents g.page.buffer) g.tail r fits (omega arith))
            rep.usable);
    tail_fits = omega arith;
    owned = rep.owned;
    file = rep.file;
    unused = rep.unused;
  }

module _ (os : Os) (provider : Provider) (auto_hash : Bool) (rounds : ℕ) (w : World) (l : Place)
    (g : Log) (bytes : List ℕ) (msg_type last_flag : ℕ) where
  abbrev pub next_message : Message
  next_message = message os provider auto_hash rounds w l g.page g.tail bytes msg_type last_flag

  -- With the headroom the frame goes into the open page.
  pub write_frame-extends :
      Represents w l g
      → Fits next_message
      → frame_size next_message ≤ page_min_headroom
      → g.tail + page_min_headroom < journal_page_size
      → (write_frame os provider auto_hash
            (suc rounds)
            bytes
            msg_type
            last_flag
            (at_page w l g.page)
          ≡ (
            ok (os.clock w.readings),
            at_page
                (stored_world auto_hash w g.page.buffer g.tail next_message)
                l
                (extended g next_message).page,
          ))
        × Represents
            (stored_world auto_hash w g.page.buffer g.tail next_message)
            l
            (extended g next_message)
  write_frame-extends rep fits small room =
      let m = w.contents g.page.buffer in
      let stored = Stored-store_frame auto_hash m g.tail next_message fits (omega arith) in
      (
        write_frame-found os provider auto_hash rounds w l g.page g.tail bytes msg_type last_flag 0
            _
            (has_room (suc rounds) m g.page g.tail [] g.tail rep.cursor refl rep.holds.tail_status
              room (omega arith))
            (pass_frame-moved _ (moved g.page g.tail 0) g.tail next_message
              (moved-IsAt g.page g.tail 0) stored (omega arith)),
        stored_world-Represents os auto_hash w l g next_message rep fits small room,
      )
