-- ===== src/Writer/Growth.antt =====
-- What a call of `write_frame` leaves of the pages that a reader of the journal may stand in.
use yijinjing_lite.Prelude.{suc, ◌≡◌, ◌⊎◌, List, [], ◌∷◌, ◌++◌, All}
use yijinjing_lite.Page.Header.{page_init_position}
use yijinjing_lite.Page.Log.{Message, Agree, Written}
use yijinjing_lite.Writer.Frames.{Place}
use yijinjing_lite.Writer.Log.{Log, Sealed, IsSealed}
use yijinjing_lite.World.{World}

-- The open page as a closed one.
abbrev pub closing : Log → Sealed
closing g = record {
  number = g.page.page_num;
  inode = g.page.buffer;
  frames = g.frames;
  tail = g.tail;
}

-- The frame is in the same page.
pub record Extends (w : World) (g g' : Log) (v : World) (r : Message) : Type 0 where
  pub closed : g'.closed ≡ g.closed
  pub buffer : g'.page.buffer ≡ g.page.buffer
  pub number : g'.page.page_num ≡ g.page.page_num
  pub frames : g'.frames ≡ g.frames ++ r ∷ []
  pub agree : Agree (w.contents g.page.buffer) (v.contents g.page.buffer) page_init_position g.tail
  pub last : Written (v.contents g.page.buffer) g.tail (r ∷ []) g'.tail

-- The frame is the first one of the next page.
pub record Turns (w : World) (l : Place) (g g' : Log) (v : World) (r : Message) : Type 0 where
  pub sealed : IsSealed v l g'.page (closing g)
  pub number : g'.page.page_num ≡ suc g.page.page_num
  pub frames : g'.frames ≡ r ∷ []
  pub agree : Agree (w.contents g.page.buffer) (v.contents g.page.buffer) page_init_position g.tail

pub record Grown (w : World) (l : Place) (g g' : Log) (v : World) (r : Message) : Type 0 where
  pub sealed : (s : Sealed) → IsSealed w l g.page s → IsSealed v l g'.page s
  pub open_page : Extends w g g' v r ⊎ Turns w l g g' v r

pub All-last {ℓ κ} :
    {A : Type ℓ} (P : A → Type κ) (xs : List A) (x : A) → All P (xs ++ x ∷ []) → P x
All-last P [] x h = h.0
All-last P (y ∷ xs) x h = All-last P xs x h.1
