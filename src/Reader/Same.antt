-- ===== src/Reader/Same.antt =====
-- What the disk holds is not changed by a reader's calls.
use yijinjing_lite.Prelude.{ℕ, ◌≡◌, ap, ◌∙◌, inl, inr, List, Option, arith}
use yijinjing_lite.Page.{Page}
use yijinjing_lite.Page.Log.{Message}
use yijinjing_lite.Writer.Frames.{Place}
use yijinjing_lite.Writer.Log.{Log, Sealed, IsSealed, Represents, path_of, All-map}
use yijinjing_lite.Reader.Ahead.{Ahead}
use yijinjing_lite.Reader.Passes.{SameDisk}
use yijinjing_lite.Reader.Streams.{Stream, Position, Standing}
use yijinjing_lite.World.{World}

module _ (w v : World) (same : SameDisk w v) where
  file_same : (l : Place) (n : ℕ) → v.files (path_of l n) ≡ w.files (path_of l n)
  file_same l n = ap (λ (files : List ℕ → Option ℕ). files (path_of l n)) same.files

  IsSealed-SameDisk : (l : Place) (p : Page) (s : Sealed) → IsSealed w l p s → IsSealed v l p s
  IsSealed-SameDisk l p s h = record {
    number_older = h.number_older;
    inode_older = h.inode_older;
    file = file_same l s.number ∙ h.file;
    holds = rw same.contents h.holds;
    usable = rw same.contents h.usable;
    filled = h.filled;
    end_fits = h.end_fits;
  }

  pub Represents-SameDisk : (l : Place) (g : Log) → Represents w l g → Represents v l g
  Represents-SameDisk l g rep = record {
    closed = All-map _ _ g.closed (IsSealed-SameDisk l g.page) rep.closed;
    order = rep.order;
    cursor = rep.cursor;
    holds = rw same.contents rep.holds;
    usable = rw same.contents rep.usable;
    tail_fits = rep.tail_fits;
    owned = omega (arith, rep.owned, same.inodes);
    file = file_same l g.page.page_num ∙ rep.file;
    unused = λ n lt fits. file_same l n ∙ rep.unused n lt fits;
  }

  Ahead-SameDisk :
      (l : Place) (g : Log) (q : Page) (rest : List Message)
      → Ahead w l g q rest
      → Ahead v l g q rest
  Ahead-SameDisk l g q rest (inl a) = inl (record {
    buffer = a.buffer;
    number = a.number;
    start = a.start;
    frames = rw same.contents a.frames;
  })
  Ahead-SameDisk l g q rest (inr a) = inr (record {
    here = a.here;
    later = a.later;
    ahead = a.ahead;
    buffer = a.buffer;
    number = a.number;
    sealed = IsSealed-SameDisk l g.page a.here a.sealed;
    others = All-map _ _ a.later (IsSealed-SameDisk l g.page) a.others;
    order = a.order;
    frames = rw same.contents a.frames;
    rest_is = a.rest_is;
  })

  Position-SameDisk : (st : Stream) → Position w st → Position v st
  Position-SameDisk st (inl h) = inl h
  Position-SameDisk st (inr (q, here, ahead, cursor)) =
      inr (q, here, Ahead-SameDisk st.place st.log q st.rest ahead, cursor)

  pub Standing-SameDisk : (st : Stream) → Standing w st → Standing v st
  Standing-SameDisk st s = record {
    represents = Represents-SameDisk st.place st.log s.represents;
    pages = s.pages;
    position = Position-SameDisk st s.position;
  }
