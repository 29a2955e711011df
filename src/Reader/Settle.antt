-- ===== src/Reader/Settle.antt =====
-- `getNextFrame` goes over all journals. It makes no difference to what it gives and does if each
-- of them is brought to its frame before.
use mathlib.Core.List.{append_assoc}
use yijinjing_lite.Prelude.{
  ℕ, suc, ◌+◌, ◌≡◌, refl, sym, ap, ◌∙◌, inl, inr, List, [], ◌∷◌, ◌++◌, map, Option, none, some, All,
  length, length-append, length-map, get_elem?-middle, set-middle, arith, false, Bool-cases,
}
use yijinjing_lite.Constants.{time_to_last}
use yijinjing_lite.Frame.{get_nano}
use yijinjing_lite.Page.{Page}
use yijinjing_lite.Page.Log.{Message}
use yijinjing_lite.Provider.{local_provider}
use yijinjing_lite.Journal.{locate_frame}
use yijinjing_lite.Reader.Object.{Reading, FrameAt, on_journal}
use yijinjing_lite.Reader.{
  Best, takes_over, consider, locate_header, scan_journals, take_best, get_next_frame,
}
use yijinjing_lite.Reader.Heads.{on_journal-head}
use yijinjing_lite.Writer.Frames.{Place}
use yijinjing_lite.Writer.Log.{Log, Represents}
use yijinjing_lite.Reader.Ahead.{Ahead, IsReady}
use yijinjing_lite.Reader.Passes.{SameDisk, Ahead-head}
use yijinjing_lite.Reader.Follows.{reading_in, head, Located}
use yijinjing_lite.Reader.One.{Fixed}
use yijinjing_lite.Reader.Streams.{
  origins, Stream, journal_of, reading_all, Standing, Settled, first_in, Standing-Located,
  Settled-InPage, Settled-head,
}
use yijinjing_lite.World.Effect.{Result, ok, ◌>>=◌, continue, bind_returns}
use yijinjing_lite.World.{Os, World}
use yijinjing_lite.World.New.{Healthy}

-- What the comparison with one frame leaves.
record Considered (i : ℕ) (best : Best) (found : Option (FrameAt × ℕ)) (cur : Option ℕ)
    : Type 0 where
  best' : Best
  cur' : Option ℕ
  result :
      (w : World) (sts : List Stream) (o : Fixed)
      → consider i best found (reading_all w sts cur o) ≡ (ok best', reading_all w sts cur' o)

consider-Considered :
    (i : ℕ) (best : Best) (found : Option (FrameAt × ℕ)) (cur : Option ℕ)
    → Considered i best found cur
unfolding consider
consider-Considered i best none cur = record { best' = best; cur' = cur; result = λ w sts o. refl }
consider-Considered i best (some (f, nano)) cur =
    elim (Bool-cases (takes_over nano best.min_nano)) [
      | inl over ↦ record {
        best' = record { min_nano = nano; res_address = some f };
        cur' = some i;
        result = λ w sts o. rw over refl;
      }
      | inr kept ↦ record { best' = best; cur' = cur; result = λ w sts o. rw kept refl }
    ]

module _ (os : Os) (healthy : Healthy os) (fuel : ℕ) (w : World) (o : Fixed) where
  abbrev scans : ℕ → ℕ → Best → Reading → Result Best × Reading
  scans = scan_journals os (local_provider false) fuel

  scan_one :
      (n i : ℕ) (best : Best) (found : Option (FrameAt × ℕ)) (cur : Option ℕ) (s : Reading)
      (u : World) (sts : List Stream) (c : Considered i best found cur)
      → on_journal i (locate_header os (local_provider false) fuel) s
        ≡ (ok found, reading_all u sts cur o)
      → scans (suc n) i best s ≡ scans n (i + 1) c.best' (reading_all u sts c.cur' o)
  unfolding scan_journals
  scan_one n i best found cur s u sts c e =
      bind_returns (on_journal i (locate_header os (local_provider false) fuel)) _ s _ found e
      ∙ bind_returns (consider i best found) (scans n (i + 1)) _ _ c.best' (c.result u sts o)

  header_found :
      (l : Place) (g : Log) (q : Page) (rest : List Message) (p : Option Page) (v u : World)
      → Represents w l g
      → SameDisk w u
      → (a : Ahead w l g q rest) → IsReady a
      → locate_frame os (local_provider false) fuel (reading_in v l p)
        ≡ (ok (head rest q), reading_in u l (some q))
      → locate_header os (local_provider false) fuel (reading_in v l p)
        ≡ (ok (first_in rest q), reading_in u l (some q))
  unfolding locate_header
  header_found l g q [] p v u rep same a ready e = rw (e, ◌>>=◌) refl
  header_found l g q (r ∷ rest) p v u rep same a ready e =
      let nano : get_nano (u.contents q.buffer) q.frame ≡ r.nano =
        rw same.contents (Ahead-head w l g rep q r rest a ready).stored.nano in
      rw (e, ◌>>=◌, nano) refl

  -- The journals from number `i` on, each brought to its frame.
  record Settles (v : World) (i : ℕ) (back : List Stream) : Type 0 where
    world : World
    streams : List Stream
    same : SameDisk w world
    settled : All (Settled w) streams
    rests : map (λ st. st.rest) streams ≡ map (λ st. st.rest) back
    same_origins : origins streams ≡ origins back
    count : length streams ≡ length back
    scan :
        (best : Best) (cur : Option ℕ) (front : List Stream)
        → i ≡ length front
        → scans (length back) i best (reading_all v (front ++ back) cur o)
          ≡ scans (length back) i best (reading_all world (front ++ streams) cur o)

  module _ (v : World) (i : ℕ) (st : Stream) (back : List Stream)
      (at : Located os fuel w st.place st.log (reading_in v st.place st.page) st.rest)
      (s : Standing w st) where
    abbrev brought : Stream
    brought = record st { page = some at.page }

    brought-Settled : Settled w brought
    brought-Settled = record {
      page = at.page;
      here = refl;
      represents = s.represents;
      pages = s.pages;
      ahead = at.ahead;
      ready = at.ready;
      cursor = at.cursor;
    }

    -- One journal of the scan.
    brings :
        (front : List Stream) (cur : Option ℕ)
        → on_journal
            (length front)
            (locate_header os (local_provider false) fuel)
            (reading_all v (front ++ st ∷ back) cur o)
          ≡ (ok (first_in st.rest at.page), reading_all at.world (front ++ brought ∷ back) cur o)
    unfolding on_journal
    brings front cur =
        let header =
          header_found st.place st.log at.page st.rest st.page v at.world s.represents at.same
            at.ahead at.ready at.result in
        rw
          (
            get_elem?-middle journal_of front back st,
            on_journal,
            header,
            set-middle journal_of front back st brought,
          )
          refl

    stays :
        (u : World) (front back' : List Stream) (cur : Option ℕ)
        → SameDisk w u
        → on_journal
            (length front)
            (locate_header os (local_provider false) fuel)
            (reading_all u (front ++ brought ∷ back') cur o)
          ≡ (ok (first_in st.rest at.page), reading_all u (front ++ brought ∷ back') cur o)
    unfolding brought-Settled
    stays u front back' cur same =
        on_journal-head os (local_provider false) fuel (length front)
          (reading_all u (front ++ brought ∷ back') cur o) (journal_of brought)
          (get_elem?-middle journal_of front back' brought)
          (Settled-InPage w u same brought brought-Settled)
        ∙ ap (λ h. (ok h, reading_all u (front ++ brought ∷ back') cur o))
            (Settled-head w u same brought brought-Settled)

    Settles-next : Settles at.world (i + 1) back → Settles v i (st ∷ back)
    Settles-next r = record {
      world = r.world;
      streams = brought ∷ r.streams;
      same = r.same;
      settled = (brought-Settled, r.settled);
      rests = ap (◌∷◌ st.rest) r.rests;
      same_origins = ap (◌∷◌ (st.place, st.log)) r.same_origins;
      count = ap suc r.count;
      scan = λ best cur front e.
          let c = consider-Considered i best (first_in st.rest at.page) cur in
          let regroup = append_assoc front (brought ∷ []) in
          scan_one (length back) i best (first_in st.rest at.page) cur _ at.world
            (front ++ brought ∷ back) c (rw e (brings front cur))
          ∙ ap (λ sts. scans (length back) (i + 1) c.best' (reading_all at.world sts c.cur' o))
              (sym (regroup back))
          ∙ r.scan c.best' c.cur' (front ++ brought ∷ [])
              (omega (arith, e, length-append front (brought ∷ [])))
          ∙ ap (λ sts. scans (length back) (i + 1) c.best' (reading_all r.world sts c.cur' o))
              (regroup r.streams)
          ∙ sym (
              scan_one (length back) i best (first_in st.rest at.page) cur _ r.world
                (front ++ brought ∷ r.streams) c (rw e (stays r.world front r.streams cur r.same)));
    }

  settles :
      (back : List Stream) (v : World) (i : ℕ)
      → SameDisk w v
      → All (Standing w) back
      → Settles v i back
  settles [] v i same all = record {
    world = v;
    streams = [];
    same = same;
    settled = tt;
    rests = refl;
    same_origins = refl;
    count = refl;
    scan = λ best cur front e. refl;
  }
  settles (st ∷ back) v i same all =
      let at = Standing-Located os healthy fuel w v same st all.0 in
      Settles-next v i st back at all.0 (settles back at.world (i + 1) at.same all.1)

  -- The call of the reader as it is, and after each journal has been brought to its frame.
  pub get_next_frame-settles :
      (back : List Stream) (v : World) (cur : Option ℕ)
      → SameDisk w v
      → All (Standing w) back
      → (u : World) × (sts : List Stream) × SameDisk w u
        × All (Settled w) sts
        × (map (λ st. st.rest) sts ≡ map (λ st. st.rest) back)
        × (origins sts ≡ origins back)
        × (get_next_frame os (local_provider false) fuel (reading_all v back cur o)
            ≡ get_next_frame os (local_provider false) fuel (reading_all u sts cur o))
  unfolding get_next_frame
  get_next_frame-settles back v cur same all =
      let r = settles back v 0 same all in
      let take = take_best os (local_provider false) fuel in
      let init : Best = record { min_nano = time_to_last; res_address = none } in
      let after = λ (x : Result Best × Reading). continue x.0 take x.1 in
      (
        r.world,
        r.streams,
        r.same,
        r.settled,
        r.rests,
        r.same_origins,
        ap (λ (n : ℕ). after (scans n 0 init (reading_all v back cur o)))
              (length-map journal_of back)
            ∙ ap after (r.scan init cur [] refl)
            ∙ ap (λ (n : ℕ). after (scans n 0 init (reading_all r.world r.streams cur o)))
                (sym (length-map journal_of r.streams ∙ r.count)),
      )
