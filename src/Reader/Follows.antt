-- ===== src/Reader/Follows.antt =====
-- `locateFrame` of a reader over the local provider, in any page of the journal.
use yijinjing_lite.Prelude.{
  ℕ, suc, ◌+◌, ◌%◌, ◌<◌, ◌^◌, ◌≡◌, refl, sym, subst, ap, ◌∙◌, inl, inr, true, false, List, [], ◌∷◌,
  ◌++◌, Option, none, some, arith, All,
}
use yijinjing_lite.Constants.{frame_status_page_end}
use yijinjing_lite.Frame.{get_status}
use yijinjing_lite.Page.{Page, is_at_page_end, locate_readable_frame}
use yijinjing_lite.Page.Log.{Message, Written}
use yijinjing_lite.Page.Cursor.{IsAt}
use yijinjing_lite.Provider.{local_provider, numbered_page, get_page}
use yijinjing_lite.Provider.Local.{released, release_page-released, opened_page, get_page-opened}
use yijinjing_lite.Journal.{Journal, Session, locate_frame, load_next_page}
use yijinjing_lite.Journal.Locate.{locate_frame-follows}
use yijinjing_lite.Writer.Frames.{Place}
use yijinjing_lite.Writer.Log.{Log, path_of, closed_messages, IsSealed, Represents}
use yijinjing_lite.Reader.Ahead.{InClosed, Ahead, IsReady, Arrival, arrives, numbered_page-IsAt}
use yijinjing_lite.Reader.Passes.{SameDisk, Ahead-head, Ahead-nothing}
use yijinjing_lite.World.Effect.{ok}
use yijinjing_lite.World.{Os, World}
use yijinjing_lite.World.New.{Healthy}

-- A live reader's journal.
abbrev pub reading : Place → Option Page → Journal
reading l p = record {
  service_idx = l.service_idx;
  directory = l.directory;
  short_name = l.short_name;
  is_writing = false;
  expired = false;
  cur_page = p;
}

abbrev pub reading_in : World → Place → Option Page → Session
reading_in w l p = record { world = w; journal = reading l p }

-- The frame under the cursor, if something is in front.
abbrev pub head : List Message → Page → Option ℕ
head [] q = none
head (r ∷ rest) q = some q.frame

-- `locateFrame` ends in page `q`, where the frame under the cursor is the first one in front.
pub record Located (os : Os) (fuel : ℕ) (w : World) (l : Place) (g : Log) (s : Session)
    (rest : List Message) : Type 0 where
  pub world : World
  pub page : Page
  pub result :
      locate_frame os (local_provider false) fuel s
      ≡ (ok (head rest page), reading_in world l (some page))
  pub same : SameDisk w world
  pub cursor : IsAt page page.frame
  pub ahead : Ahead w l g page rest
  pub ready : IsReady ahead

module _ (os : Os) (healthy : Healthy os) (fuel : ℕ) (w : World) (l : Place) (g : Log)
    (rep : Represents w l g) (more : g.page.page_num < 2 ^ 15) (v : World)
    (same : SameDisk w v) where
  readable :
      (q : Page) (rest : List Message) (a : Ahead w l g q rest)
      → IsReady a
      → locate_readable_frame (v.contents q.buffer) q ≡ head rest q
  unfolding locate_readable_frame
  readable q [] a ready =
      let raw = Ahead-nothing w l g rep q a ready in rw same.contents (ground (arith, raw))
  readable q (r ∷ rest) a ready =
      let written = (Ahead-head w l g rep q r rest a ready).stored.status in
      rw same.contents (ground (arith, written))

  not_at_end :
      (q : Page) (rest : List Message) (a : Ahead w l g q rest)
      → IsReady a
      → is_at_page_end (v.contents q.buffer) q ≡ false
  unfolding is_at_page_end
  not_at_end q [] a ready =
      let raw = Ahead-nothing w l g rep q a ready in rw same.contents (ground (arith, raw))
  not_at_end q (r ∷ rest) a ready =
      let written = (Ahead-head w l g rep q r rest a ready).stored.status in
      rw same.contents (ground (arith, written))

  -- Not at the end of a page, the reader stays.
  locate_frame-stays :
      (q : Page) (rest : List Message) (a : Ahead w l g q rest)
      → IsReady a
      → IsAt q q.frame
      → Located os fuel w l g (reading_in v l (some q)) rest
  unfolding locate_frame
  locate_frame-stays q rest a ready cursor = record {
    world = v;
    page = q;
    result = ground (arith, not_at_end q rest a ready, readable q rest a ready);
    same = same;
    cursor = cursor;
    ahead = a;
    ready = ready;
  }

  module _ (n : ℕ) (rest : List Message) (to : Arrival w l g n rest) where
    abbrev next_page : Page
    next_page = numbered_page to.inode n

    abbrev opened_next : World
    opened_next = opened_page os healthy l.directory l.short_name n v to.inode

    get_page-next :
        get_page os (local_provider false) l.directory l.short_name l.service_idx n v
        ≡ (ok (some next_page), opened_next)
    get_page-next =
        get_page-opened os healthy l.directory l.short_name n v to.inode l.service_idx
          (ap (λ (files : List ℕ → Option ℕ). files (path_of l n)) same.files ∙ to.file)
          (rw same.contents to.usable.status) (rw same.contents to.usable.version)

module _ (os : Os) (healthy : Healthy os) (fuel : ℕ) (w : World) (l : Place) (g : Log)
    (rep : Represents w l g) (more : g.page.page_num < 2 ^ 15) (v : World)
    (same : SameDisk w v) where
  module _ (n : ℕ) (rest : List Message) (to : Arrival w l g n rest) where
    abbrev arrived : Page
    arrived = next_page os healthy fuel w l g rep more v same n rest to

    abbrev opened : World
    opened = opened_next os healthy fuel w l g rep more v same n rest to

    -- A reader without a page starts with the first one.
    locate_frame-starts : n ≡ 1 → Located os fuel w l g (reading_in v l none) rest
    unfolding locate_frame load_next_page
    locate_frame-starts first =
        let got = get_page-next os healthy fuel w l g rep more v same n rest to in
        let sees =
          readable os healthy fuel w l g rep more opened
            (record { contents = same.contents; files = same.files; inodes = same.inodes }) arrived
            rest to.ahead to.ready in
        record {
          world = opened;
          page = arrived;
          result = started got sees;
          same = record { contents = same.contents; files = same.files; inodes = same.inodes };
          cursor = numbered_page-IsAt to.inode n;
          ahead = to.ahead;
          ready = to.ready;
        }
      where
        started :
            get_page os (local_provider false) l.directory l.short_name l.service_idx n v
              ≡ (ok (some arrived), opened)
            → locate_readable_frame (opened.contents arrived.buffer) arrived ≡ head rest arrived
            → locate_frame os (local_provider false) fuel (reading_in v l none)
              ≡ (ok (head rest arrived), reading_in opened l (some arrived))
        started got sees = ground (arith, first, got, sees)

    -- At the end of a page it goes on with the next one.
    locate_frame-crosses :
        (q : Page)
        → (q.page_num + 1) % 2 ^ 16 ≡ n
        → is_at_page_end (v.contents q.buffer) q ≡ true
        → Located os fuel w l g (reading_in v l (some q)) rest
    locate_frame-crosses q number ended =
        let got = get_page-next os healthy fuel w l g rep more v same n rest to in
        let left = released os healthy q.buffer opened in
        let sees =
          readable os healthy fuel w l g rep more left
            (record { contents = same.contents; files = same.files; inodes = same.inodes }) arrived
            rest to.ahead to.ready in
        let follows =
          locate_frame-follows os (local_provider false) fuel v opened left (reading l (some q)) q
            arrived refl refl (rw number got)
            (release_page-released os healthy false q.buffer opened) in
        record {
          world = left;
          page = arrived;
          result = follows ∙ rw (ended, sees) refl;
          same = record { contents = same.contents; files = same.files; inodes = same.inodes };
          cursor = numbered_page-IsAt to.inode n;
          ahead = to.ahead;
          ready = to.ready;
        }

  ended_page :
      (q : Page) (rest : List Message) (a : InClosed w l g q rest)
      → a.ahead ≡ []
      → is_at_page_end (v.contents q.buffer) q ≡ true
  unfolding is_at_page_end
  ended_page q rest a empty =
      let tail : q.frame ≡ a.here.tail =
        subst (λ (fs : List Message). Written (w.contents q.buffer) q.frame fs a.here.tail) empty
          a.frames in
      let status : get_status (w.contents q.buffer) q.frame ≡ frame_status_page_end =
        ap (λ (i : ℕ). get_status (w.contents i) q.frame) a.buffer
        ∙ ap (get_status (w.contents a.here.inode)) tail
        ∙ a.sealed.holds.tail_status in
      rw same.contents (ground (arith, status))

  locate_frame-InClosed :
      (q : Page) (rest : List Message) (a : InClosed w l g q rest) (fs : List Message)
      → a.ahead ≡ fs
      → IsAt q q.frame
      → Located os fuel w l g (reading_in v l (some q)) rest
  locate_frame-InClosed q rest a [] empty cursor =
      let to = arrives w l g rep (suc a.here.number) a.later a.others a.order in
      let here : rest ≡ closed_messages a.later ++ g.frames =
        a.rest_is ∙ ap (λ (xs : List Message). xs ++ (closed_messages a.later ++ g.frames)) empty in
      locate_frame-crosses (suc a.here.number) rest
        (subst (Arrival w l g (suc a.here.number)) (sym here) to) q
        (omega (arith, a.number, a.sealed.number_older, more)) (ended_page q rest a empty)
  locate_frame-InClosed q rest a (r ∷ fs) filled cursor =
      locate_frame-stays os healthy fuel w l g rep more v same q rest (inr a)
        (λ e. absurd (nonempty (sym filled ∙ e))) cursor
    where
      nonempty : (r ∷ fs) ≡ [] → ⊥
      nonempty e = cc

  pub locate_frame-Located :
      (q : Page) (rest : List Message)
      → Ahead w l g q rest
      → IsAt q q.frame
      → Located os fuel w l g (reading_in v l (some q)) rest
  locate_frame-Located q rest (inl a) cursor =
      locate_frame-stays os healthy fuel w l g rep more v same q rest (inl a) tt cursor
  locate_frame-Located q rest (inr a) cursor = locate_frame-InClosed q rest a a.ahead refl cursor

  pub locate_frame-first :
      g.first ≡ 1
      → All (IsSealed w l g.page) g.closed
      → Located os fuel w l g (reading_in v l none) (closed_messages g.closed ++ g.frames)
  locate_frame-first first sealed =
      locate_frame-starts g.first _ (arrives w l g rep g.first g.closed sealed rep.order) first
