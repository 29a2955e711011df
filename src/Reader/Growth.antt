-- ===== src/Reader/Growth.antt =====
-- A reader that stands in a journal while its writer appends a frame.
use mathlib.Core.List.{append_assoc}
use yijinjing_lite.Prelude.{
  ℕ, suc, ◌<◌, ◌^◌, ◌≡◌, ◌⊎◌, inl, inr, refl, sym, ap, subst, ◌∙◌, List, [], ◌∷◌, ◌++◌, All, Option,
  arith,
}
use yijinjing_lite.Page.{Page}
use yijinjing_lite.Page.Header.{page_init_position}
use yijinjing_lite.Page.Log.{Message, Agree, Written, Written-Agree, Written-append}
use yijinjing_lite.Writer.Frames.{Place}
use yijinjing_lite.Writer.Log.{
  Log, IsSealed, Represents, Consecutive, closed_messages, closed_messages-append,
  Consecutive-append, All-append, All-map,
}
use yijinjing_lite.Writer.Growth.{closing, Extends, Turns, Grown}
use yijinjing_lite.Writer.Appended.{Appended}
use yijinjing_lite.Reader.Ahead.{InOpen, InClosed, Ahead}
use yijinjing_lite.Reader.Streams.{Position, Standing}
use yijinjing_lite.World.{World}

module _ (w v : World) (l : Place) (g g' : Log) (r : Message) (rep : Represents w l g)
    (appended : Appended w l g g' v r) where
  abbrev grown : Grown w l g g' v r
  grown = appended.grown

  -- What is written in front of a reader in the open page stays.
  kept :
      (q : Page) (rest : List Message)
      → Agree (w.contents g.page.buffer) (v.contents g.page.buffer) page_init_position g.tail
      → (a : InOpen w g q rest) → Written (v.contents q.buffer) q.frame rest g.tail
  kept q rest agree a = rw a.buffer (
      Written-Agree (w.contents g.page.buffer) (v.contents g.page.buffer) q.frame rest g.tail
        (λ c lo hi. agree c (omega (arith, a.start)) hi)
        (subst (λ (i : ℕ). Written (w.contents i) q.frame rest g.tail) a.buffer a.frames))

  open-Extends :
      (q : Page) (rest : List Message)
      → Extends w g g' v r
      → InOpen w g q rest
      → InOpen v g' q (rest ++ r ∷ [])
  open-Extends q rest e a = record {
    buffer = a.buffer ∙ sym e.buffer;
    number = a.number ∙ sym e.number;
    start = a.start;
    frames =
        Written-append (v.contents q.buffer) q.frame rest (r ∷ []) g.tail g'.tail
          (kept q rest e.agree a) (rw a.buffer e.last);
  }

  open-Turns :
      (q : Page) (rest : List Message)
      → Turns w l g g' v r
      → InOpen w g q rest
      → InClosed v l g' q (rest ++ r ∷ [])
  open-Turns q rest t a = record {
    here = closing g;
    later = [];
    ahead = rest;
    buffer = a.buffer;
    number = a.number;
    sealed = t.sealed;
    others = tt;
    order = sym t.number;
    frames = kept q rest t.agree a;
    rest_is = ap (◌++◌ rest) (sym t.frames);
  }

  module _ (q : Page) (rest : List Message) (a : InClosed w l g q rest) where
    same_page : v.contents q.buffer ≡ w.contents q.buffer
    same_page =
        appended.confined.contents q.buffer
          (omega (arith, a.buffer, a.sealed.inode_older, rep.owned))
          (omega (arith, a.buffer, a.sealed.inode_older))

    later_sealed : All (IsSealed v l g'.page) a.later
    later_sealed = All-map _ _ a.later grown.sealed a.others

    closed-Extends : Extends w g g' v r → InClosed v l g' q (rest ++ r ∷ [])
    closed-Extends e = record {
      here = a.here;
      later = a.later;
      ahead = a.ahead;
      buffer = a.buffer;
      number = a.number;
      sealed = grown.sealed a.here a.sealed;
      others = later_sealed;
      order = subst (Consecutive (suc a.here.number) a.later) (sym e.number) a.order;
      frames = rw same_page a.frames;
      rest_is =
          ap (λ (rs : List Message). rs ++ r ∷ []) a.rest_is
          ∙ append_assoc a.ahead _ (r ∷ [])
          ∙ ap (◌++◌ a.ahead) (
              append_assoc (closed_messages a.later) g.frames (r ∷ [])
              ∙ ap (◌++◌ (closed_messages a.later)) (sym e.frames));
    }

    closed-Turns : Turns w l g g' v r → InClosed v l g' q (rest ++ r ∷ [])
    closed-Turns t = record {
      here = a.here;
      later = a.later ++ closing g ∷ [];
      ahead = a.ahead;
      buffer = a.buffer;
      number = a.number;
      sealed = grown.sealed a.here a.sealed;
      others = All-append _ a.later (closing g) later_sealed t.sealed;
      order =
          subst (Consecutive (suc a.here.number) (a.later ++ closing g ∷ [])) (sym t.number) (
            Consecutive-append (suc a.here.number) g.page.page_num a.later (closing g) a.order
              refl);
      frames = rw same_page a.frames;
      rest_is =
          ap (λ (rs : List Message). rs ++ r ∷ []) a.rest_is
          ∙ append_assoc a.ahead _ (r ∷ [])
          ∙ ap (◌++◌ a.ahead) (rw (closed_messages-append a.later (closing g), t.frames) refl);
    }

  Ahead-grown :
      (q : Page) (rest : List Message)
      → Extends w g g' v r ⊎ Turns w l g g' v r
      → Ahead w l g q rest
      → Ahead v l g' q (rest ++ r ∷ [])
  Ahead-grown q rest (inl e) (inl a) = inl (open-Extends q rest e a)
  Ahead-grown q rest (inl e) (inr a) = inr (closed-Extends q rest a e)
  Ahead-grown q rest (inr t) (inl a) = inr (open-Turns q rest t a)
  Ahead-grown q rest (inr t) (inr a) = inr (closed-Turns q rest a t)

  Position-grown :
      (p : Option Page) (rest : List Message)
      → Position w (record { place = l; log = g; page = p; rest = rest })
      → Position v (record { place = l; log = g'; page = p; rest = rest ++ r ∷ [] })
  Position-grown p rest (inl (no_page, first, all)) = inl (
    no_page,
    appended.first_page ∙ first,
    ap (λ (rs : List Message). rs ++ r ∷ []) all ∙ sym appended.content,
  )
  Position-grown p rest (inr (q, here, ahead, cursor)) =
      inr (q, here, Ahead-grown q rest grown.open_page ahead, cursor)

  -- The new frame is behind all that the reader has in front of it.
  pub Standing-Appended :
      (p : Option Page) (rest : List Message)
      → g'.page.page_num < 2 ^ 15
      → Standing w (record { place = l; log = g; page = p; rest = rest })
      → Standing v (record { place = l; log = g'; page = p; rest = rest ++ r ∷ [] })
  Standing-Appended p rest more s = record {
    represents = appended.represents;
    pages = more;
    position = Position-grown p rest s.position;
  }
