-- ===== src/Reader/Streams.antt =====
-- A reader of several journals, each against the log that its writer has made, over the local
-- provider.
use yijinjing_lite.Prelude.{
  ℕ, ◌+◌, ◌<◌, ◌^◌, ◌≡◌, ◌≢◌, refl, sym, ap, subst, ◌∙◌, ◌⊎◌, inl, inr, List, [], ◌∷◌, map, Option,
  none, some, arith,
}
use yijinjing_lite.Constants.{frame_status_page_end, frame_status_raw, frame_status_written}
use yijinjing_lite.Frame.{get_status, get_nano}
use yijinjing_lite.Page.{Page, pass_frame}
use yijinjing_lite.Page.Log.{Message, frame_size, Stored}
use yijinjing_lite.Page.Cursor.{IsAt, moved, moved-IsAt, pass_frame-moved}
use yijinjing_lite.Journal.{Journal}
use yijinjing_lite.Writer.Frames.{Place}
use yijinjing_lite.Writer.Log.{Log, messages, Represents}
use yijinjing_lite.Reader.Object.{Reading, FrameAt}
use yijinjing_lite.Reader.Heads.{InPage, head_of}
use yijinjing_lite.Reader.Ahead.{Ahead, IsReady}
use yijinjing_lite.Reader.Passes.{SameDisk, Ahead-head, Ahead-nothing}
use yijinjing_lite.Reader.Follows.{
  reading, reading_in, Located, locate_frame-Located, locate_frame-first,
}
use yijinjing_lite.Reader.One.{Fixed}
use yijinjing_lite.Reader.Drain.{message_at, message_at-Stored}
use yijinjing_lite.World.{Os, World}
use yijinjing_lite.World.New.{Healthy}

-- A journal of the reader: where it is, its log, the reader's page of it and the messages in front.
pub record Stream : Type 0 where
  pub place : Place
  pub log : Log
  pub page : Option Page
  pub rest : List Message

abbrev pub journal_of : Stream → Journal
journal_of st = reading st.place st.page

-- Which journals they are.
abbrev pub origins : List Stream → List (Place × Log)
origins = map (λ st. (st.place, st.log))

abbrev pub reading_all : World → List Stream → Option ℕ → Fixed → Reading
reading_all w sts cur o = record {
  world = w;
  reader = record {
    journals = map journal_of sts;
    cur_journal = cur;
    journal_map = o.journal_map;
    visitors = o.visitors;
  };
  visits = o.visits;
}

-- The reader has had no page yet, or stands in one.
abbrev pub Position : World → Stream → Type 0
Position w st =
    ((st.page ≡ none) × (st.log.first ≡ 1) × (st.rest ≡ messages st.log))
    ⊎ ((q : Page) × (st.page ≡ some q) × Ahead w st.place st.log q st.rest × IsAt q q.frame)

pub record Standing (w : World) (st : Stream) : Type 0 where
  pub represents : Represents w st.place st.log
  pub pages : st.log.page.page_num < 2 ^ 15
  pub position : Position w st

-- It stands in a page that has not ended there.
pub record Settled (w : World) (st : Stream) : Type 0 where
  pub page : Page
  pub here : st.page ≡ some page
  pub represents : Represents w st.place st.log
  pub pages : st.log.page.page_num < 2 ^ 15
  pub ahead : Ahead w st.place st.log page st.rest
  pub ready : IsReady ahead
  pub cursor : IsAt page page.frame

-- The first message in front, as a frame with its time.
abbrev pub first_in : List Message → Page → Option (FrameAt × ℕ)
first_in [] q = none
first_in (r ∷ rest) q = some (record { buffer = q.buffer; address = q.frame }, r.nano)

module _ (os : Os) (healthy : Healthy os) (fuel : ℕ) (w v : World) (same : SameDisk w v) where
  pub Standing-Located :
      (st : Stream)
      → Standing w st
      → Located os fuel w st.place st.log (reading_in v st.place st.page) st.rest
  Standing-Located st s = located s.position
    where
      located :
          Position w st → Located os fuel w st.place st.log (reading_in v st.place st.page) st.rest
      located (inl (no_page, first, all)) =
          subst
            (λ (p : Option Page).
              Located os fuel w st.place st.log (reading_in v st.place p) st.rest)
            (sym no_page)
            (subst (Located os fuel w st.place st.log (reading_in v st.place none)) (sym all) (
              locate_frame-first os healthy fuel w st.place st.log s.represents s.pages v same first
                s.represents.closed))
      located (inr (q, here, ahead, cursor)) =
          subst
            (λ (p : Option Page).
              Located os fuel w st.place st.log (reading_in v st.place p) st.rest)
            (sym here)
            (locate_frame-Located os healthy fuel w st.place st.log s.represents s.pages v same q
              st.rest ahead cursor)

-- The status of the frame that they are in front of.
abbrev status_at : List Message → ℕ
status_at [] = frame_status_raw
status_at (r ∷ rest) = frame_status_written

status_at-ne-page_end : (rest : List Message) → status_at rest ≢ frame_status_page_end
status_at-ne-page_end [] e = omega (arith, e)
status_at-ne-page_end (r ∷ rest) e = omega (arith, e)

-- What a settled journal offers.
module _ (w v : World) (same : SameDisk w v) where
  frame_status :
      (l : Place) (g : Log) (q : Page) (rest : List Message) (a : Ahead w l g q rest)
      → Represents w l g
      → IsReady a
      → get_status (v.contents q.buffer) q.frame ≡ status_at rest
  frame_status l g q [] a rep ready = rw same.contents (Ahead-nothing w l g rep q a ready)
  frame_status l g q (r ∷ rest) a rep ready =
      rw same.contents (Ahead-head w l g rep q r rest a ready).stored.status

  head_in :
      (l : Place) (g : Log) (q : Page) (rest : List Message) (a : Ahead w l g q rest)
      → Represents w l g
      → IsReady a
      → head_of v (reading l (some q)) ≡ first_in rest q
  unfolding head_of
  head_in l g q [] a rep ready =
      let status = frame_status l g q [] a rep ready in ground (arith, status)
  head_in l g q (r ∷ rest) a rep ready =
      let status = frame_status l g q (r ∷ rest) a rep ready in
      let nano : get_nano (v.contents q.buffer) q.frame ≡ r.nano =
        rw same.contents (Ahead-head w l g rep q r rest a ready).stored.nano in
      ground (arith, status, nano)

  module _ (st : Stream) (s : Settled w st) where
    pub Settled-InPage : InPage v (journal_of st)
    Settled-InPage = record {
      page = s.page;
      reading = refl;
      live = refl;
      at_page = s.here;
      open_page = λ e.
          status_at-ne-page_end st.rest
            (sym (frame_status st.place st.log s.page st.rest s.ahead s.represents s.ready) ∙ e);
    }

    pub Settled-head : head_of v (journal_of st) ≡ first_in st.rest s.page
    Settled-head =
        ap (λ (p : Option Page). head_of v (reading st.place p)) s.here
        ∙ head_in st.place st.log s.page st.rest s.ahead s.represents s.ready

    -- Behind its first message it stands in front of the others.
    pub Settled-behind :
        (r : Message) (rest : List Message)
        → st.rest ≡ r ∷ rest
        → (q : Page) × (q ≡ pass_frame (v.contents s.page.buffer) s.page)
          × (message_at (v.contents s.page.buffer) s.page.frame ≡ r)
          × Standing w (record st { page = some q; rest = rest })
    Settled-behind r rest e =
        let (ahead, ready) =
          subst (λ (rs : List Message). (a : Ahead w st.place st.log s.page rs) × IsReady a) e
            (s.ahead, s.ready) in
        let front = Ahead-head w st.place st.log s.represents s.page r rest ahead ready in
        let stored : Stored (v.contents s.page.buffer) s.page.frame r =
          rw same.contents front.stored in
        (
          moved s.page (s.page.frame + frame_size r) 1,
          sym (pass_frame-moved _ s.page s.page.frame r s.cursor stored front.in_page),
          message_at-Stored _ s.page.frame r front.in_page stored,
          record {
            represents = s.represents;
            pages = s.pages;
            position =
                inr (_, refl, front.behind, moved-IsAt s.page (s.page.frame + frame_size r) 1);
          },
        )
