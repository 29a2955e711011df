-- ===== src/Reader/Ahead.antt =====
-- Where a reader stands in a journal, and the messages that it has not passed.
use yijinjing_lite.Prelude.{
  ℕ, suc, ◌≤◌, ◌≡◌, ◌≢◌, refl, sym, subst, ap, ◌∙◌, ◌⊎◌, inl, inr, List, [], ◌∷◌, ◌++◌, some, All,
  arith,
}
use mathlib.Core.List.{append_assoc}
use yijinjing_lite.Memory.{address_add}
use yijinjing_lite.Page.{Page, new_page}
use yijinjing_lite.Page.Header.{page_init_position}
use yijinjing_lite.Page.Log.{Message, Written}
use yijinjing_lite.Page.Cursor.{IsAt}
use yijinjing_lite.Provider.{numbered_page}
use yijinjing_lite.Writer.Frames.{Place}
use yijinjing_lite.Writer.Log.{
  Sealed, Log, closed_messages, path_of, Consecutive, Usable, IsSealed, Represents,
}
use yijinjing_lite.World.{World}

-- In the open page, with all of `rest` in front.
pub record InOpen (w : World) (g : Log) (q : Page) (rest : List Message) : Type 0 where
  pub buffer : q.buffer ≡ g.page.buffer
  pub number : q.page_num ≡ g.page.page_num
  pub start : page_init_position ≤ q.frame
  pub frames : Written (w.contents q.buffer) q.frame rest g.tail

-- In a closed page, with `ahead` in front in this page, and then the pages behind it.
pub record InClosed (w : World) (l : Place) (g : Log) (q : Page) (rest : List Message)
    : Type 0 where
  pub here : Sealed
  pub later : List Sealed
  pub ahead : List Message
  pub buffer : q.buffer ≡ here.inode
  pub number : q.page_num ≡ here.number
  pub sealed : IsSealed w l g.page here
  pub others : All (IsSealed w l g.page) later
  pub order : Consecutive (suc here.number) later g.page.page_num
  pub frames : Written (w.contents q.buffer) q.frame ahead here.tail
  pub rest_is : rest ≡ ahead ++ (closed_messages later ++ g.frames)

abbrev pub Ahead : World → Place → Log → Page → List Message → Type 0
Ahead w l g q rest = InOpen w g q rest ⊎ InClosed w l g q rest

-- Not at the end of a closed page.
abbrev pub IsReady :
    {w : World} {l : Place} {g : Log} {q : Page} {rest : List Message} → Ahead w l g q rest → Type 0
IsReady (inl a) = Unit {0}
IsReady (inr a) = a.ahead ≢ []

-- Page `n` of the journal, the first one of the closed pages `ss`, or the open one: what is in
-- front of its first frame.
pub record Arrival (w : World) (l : Place) (g : Log) (n : ℕ) (rest : List Message) : Type 0 where
  pub inode : ℕ
  pub file : w.files (path_of l n) ≡ some inode
  pub usable : Usable (w.contents inode)
  pub ahead : Ahead w l g (numbered_page inode n) rest
  pub ready : IsReady ahead

pub numbered_page-IsAt : (i n : ℕ) → IsAt (numbered_page i n) (numbered_page i n).frame
unfolding numbered_page new_page address_add
numbered_page-IsAt i n = record { at_frame = refl; at_position = refl; count_fits = omega arith }

module _ (w : World) (l : Place) (g : Log) (rep : Represents w l g) where
  pub arrives :
      (n : ℕ) (ss : List Sealed)
      → All (IsSealed w l g.page) ss
      → Consecutive n ss g.page.page_num
      → Arrival w l g n (closed_messages ss ++ g.frames)
  unfolding numbered_page new_page address_add
  arrives n [] sealed order = record {
    inode = g.page.buffer;
    file = ap (λ (k : ℕ). w.files (path_of l k)) order ∙ rep.file;
    usable = rep.usable;
    ahead =
        inl (record { buffer = refl; number = order; start = omega arith; frames = rep.holds.log });
    ready = tt;
  }
  arrives n (s ∷ ss) sealed order = record {
    inode = s.inode;
    file = ap (λ (k : ℕ). w.files (path_of l k)) (sym order.0) ∙ sealed.0.file;
    usable = sealed.0.usable;
    ahead = inr (record {
      here = s;
      later = ss;
      ahead = s.frames;
      buffer = refl;
      number = sym order.0;
      sealed = sealed.0;
      others = sealed.1;
      order = subst (λ (k : ℕ). Consecutive (suc k) ss g.page.page_num) (sym order.0) order.1;
      frames = sealed.0.holds.log;
      rest_is = append_assoc s.frames (closed_messages ss) g.frames;
    });
    ready = sealed.0.filled;
  }
