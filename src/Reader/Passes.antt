-- ===== src/Reader/Passes.antt =====
-- A reader of a journal, over the local provider: what it locates, and what it then has in front.
use yijinjing_lite.Prelude.{
  ℕ, ◌+◌, ◌<◌, ◌^◌, ◌≡◌, ◌≢◌, refl, subst, ap, ◌∙◌, inl, inr, List, [], ◌∷◌, ◌++◌, arith,
}
use yijinjing_lite.Constants.{frame_status_raw}
use yijinjing_lite.Frame.{get_status}
use yijinjing_lite.Page.{Page}
use yijinjing_lite.Page.Log.{Message, frame_size, Stored, Written, Written-size}
use yijinjing_lite.Page.Cursor.{moved}
use yijinjing_lite.Writer.Frames.{Place}
use yijinjing_lite.Writer.Log.{Log, closed_messages, Represents}
use yijinjing_lite.Reader.Ahead.{Ahead, IsReady}
use yijinjing_lite.World.{World}

-- The files are the same.
pub record SameDisk (w v : World) : Type 0 where
  pub contents : v.contents ≡ w.contents
  pub files : v.files ≡ w.files
  pub inodes : v.inodes ≡ w.inodes

-- The first of the frames in front, in a page that has one.
split_head :
    (fs back rest : List Message) (r : Message)
    → fs ≢ []
    → r ∷ rest ≡ fs ++ back
    → (xs : List Message) × (fs ≡ r ∷ xs) × (rest ≡ xs ++ back)
split_head [] back rest r filled e = absurd (filled refl)
split_head (x ∷ xs) back rest r filled e = (xs, cc, cc)

-- The frame at the cursor holds `r`, and behind it the rest is in front.
pub record HasHead (w : World) (l : Place) (g : Log) (q : Page) (r : Message) (rest : List Message)
    : Type 0 where
  pub stored : Stored (w.contents q.buffer) q.frame r
  pub in_page : q.frame + frame_size r < 2 ^ 31
  pub behind : Ahead w l g (moved q (q.frame + frame_size r) 1) rest

module _ (w : World) (l : Place) (g : Log) (rep : Represents w l g) (q : Page) where
  pub Ahead-head :
      (r : Message) (rest : List Message) (a : Ahead w l g q (r ∷ rest))
      → IsReady a
      → HasHead w l g q r rest
  Ahead-head r rest (inl a) ready =
      let le = Written-size _ (q.frame + frame_size r) rest g.tail a.frames.1 in
      record {
        stored = a.frames.0;
        in_page = omega (arith, rep.tail_fits);
        behind = inl (record {
          buffer = a.buffer;
          number = a.number;
          start = omega (arith, a.start);
          frames = a.frames.1;
        });
      }
  Ahead-head r rest (inr a) ready =
      let (xs, split, others) =
        split_head a.ahead (closed_messages a.later ++ g.frames) rest r ready a.rest_is in
      let frames =
        subst (λ (fs : List Message). Written (w.contents q.buffer) q.frame fs a.here.tail) split
          a.frames in
      let le = Written-size _ (q.frame + frame_size r) xs a.here.tail frames.1 in
      record {
        stored = frames.0;
        in_page = omega (arith, a.sealed.end_fits);
        behind = inr (record {
          here = a.here;
          later = a.later;
          ahead = xs;
          buffer = a.buffer;
          number = a.number;
          sealed = a.sealed;
          others = a.others;
          order = a.order;
          frames = frames.1;
          rest_is = others;
        });
      }

  pub Ahead-nothing :
      (a : Ahead w l g q [])
      → IsReady a
      → get_status (w.contents q.buffer) q.frame ≡ frame_status_raw
  Ahead-nothing (inl a) ready =
      ap (λ (i : ℕ). get_status (w.contents i) q.frame) a.buffer
      ∙ ap (get_status (w.contents g.page.buffer)) a.frames
      ∙ rep.holds.tail_status
  Ahead-nothing (inr a) ready = absurd (ready (append_nil-left _ _ a.rest_is))
    where
      append_nil-left : (fs back : List Message) → [] ≡ fs ++ back → fs ≡ []
      append_nil-left [] back e = refl
      append_nil-left (x ∷ fs) back e = cc
