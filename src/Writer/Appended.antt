-- ===== src/Writer/Appended.antt =====
-- What one call of `write_frame` does to a journal on the disk.
use yijinjing_lite.Prelude.{ℕ, ◌+◌, ◌≤◌, ◌≡◌, ap, ◌∙◌, Bool, List, [], ◌∷◌, ◌++◌, some}
use yijinjing_lite.Memory.{Memory}
use yijinjing_lite.Page.{Page, pass_frame}
use yijinjing_lite.Page.Log.{Message}
use yijinjing_lite.Provider.{Provider}
use yijinjing_lite.Journal.{Session, locate_frame, pass_current_frame}
use yijinjing_lite.Writer.Store.{store_frame}
use yijinjing_lite.Writer.Frames.{Place, at_page}
use yijinjing_lite.Writer.Log.{Log, messages, Represents, All-map}
use yijinjing_lite.Writer.Growth.{Grown}
use yijinjing_lite.Writer.Confined.{Confined}
use yijinjing_lite.Writer.Refine.{next_message}
use yijinjing_lite.Writer.{write_frame}
use yijinjing_lite.World.Effect.{Result, ok, ◌>>=◌}
use yijinjing_lite.World.{Os, World, put_at, put_at_self, get_nano_time}

-- A reading of the clock leaves the disk.
abbrev pub ticked : World → ℕ → World
ticked w n = record w { readings = n }

pub Represents-ticked :
    (w : World) (n : ℕ) (l : Place) (g : Log) → Represents w l g → Represents (ticked w n) l g
Represents-ticked w n l g rep = record {
  closed =
      All-map _ _ g.closed
        (λ s h. record {
          number_older = h.number_older;
          inode_older = h.inode_older;
          file = h.file;
          holds = h.holds;
          usable = h.usable;
          filled = h.filled;
          end_fits = h.end_fits;
        })
        rep.closed;
  order = rep.order;
  cursor = rep.cursor;
  holds = rep.holds;
  usable = rep.usable;
  tail_fits = rep.tail_fits;
  owned = rep.owned;
  file = rep.file;
  unused = rep.unused;
}

module _ (os : Os) (provider : Provider) (auto_hash : Bool) (rounds : ℕ) (w : World) (l : Place)
    (g : Log) (bytes : List ℕ) (msg_type last_flag : ℕ) where
  abbrev r : Message
  r = next_message os provider auto_hash rounds w l g bytes msg_type last_flag

  -- The frame goes where the journal has located one.
  pub write_frame-located :
      (u : World) (q : Page) (f : ℕ) (q' : Page)
      → locate_frame os provider rounds (at_page (ticked w (w.readings + 1)) l g.page)
        ≡ (ok (some f), at_page u l q)
      → pass_frame (store_frame auto_hash (u.contents q.buffer) f r) q ≡ q'
      → write_frame os provider auto_hash rounds bytes msg_type last_flag (at_page w l g.page) ≡ (
        ok (os.clock w.readings),
        at_page
            (record u {
              contents =
                  put_at u.contents q.buffer (store_frame auto_hash (u.contents q.buffer) f r);
            })
            l
            q',
      )
  unfolding write_frame get_nano_time pass_current_frame
  write_frame-located u q f q' found passed =
      let m = store_frame auto_hash (u.contents q.buffer) f r in
      let after : Page → Result ℕ × Session = λ p. (
        ok (os.clock w.readings),
        at_page (record u { contents = put_at u.contents q.buffer m }) l p,
      ) in
      rw (found, ◌>>=◌)
        (ap (λ (n : Memory). after (pass_frame n q)) (put_at_self u.contents q.buffer m)
          ∙ ap after passed)

-- What one call leaves: the message is the last one of the journal, and at most one page is new.
pub record Appended (w : World) (l : Place) (g g' : Log) (v : World) (r : Message) : Type 0 where
  pub represents : Represents v l g'
  pub content : messages g' ≡ messages g ++ r ∷ []
  pub first_page : g'.first ≡ g.first
  pub pages : g'.page.page_num ≤ g.page.page_num + 1
  pub confined : Confined w l g g' v
  pub grown : Grown w l g g' v r
