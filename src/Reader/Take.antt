-- ===== src/Reader/Take.antt =====
-- One call of `getNextFrame` over several journals, against their logs.
use yijinjing_lite.Reader.Taken.{
  rests, IsTimed, first_in-none, first_in-some, first_in-NotEarlier, Nothing, Taken, reading_of,
  All-Standing,
}
use yijinjing_lite.Prelude.{
  ℕ, ◌<◌, ◌≡◌, refl, sym, ap, subst, ◌∙◌, ◌⊎◌, inl, inr, List, [], ◌∷◌, map, Option, some, All,
  length-map, false, get_elem?, set, get_elem?-map, get_elem?-map-some, get_elem?-lt, set-map,
  set-get_elem?, All-get_elem?, All-set, All_of_places, All-map_list, All_of_map,
}
use yijinjing_lite.Memory.{int64_lt}
use yijinjing_lite.Page.{Page}
use yijinjing_lite.Provider.{local_provider}
use yijinjing_lite.Journal.{Journal}
use yijinjing_lite.Reader.Object.{Reading, FrameAt}
use yijinjing_lite.Reader.{get_next_frame}
use yijinjing_lite.Reader.Heads.{InPage}
use yijinjing_lite.Reader.Next.{AllInPage, AllTimed, Finds, FindsNone, past, get_next_frame-least}
use yijinjing_lite.Reader.Passes.{SameDisk}
use yijinjing_lite.Reader.Follows.{reading}
use yijinjing_lite.Reader.One.{Fixed}
use yijinjing_lite.Reader.Drain.{message_at}
use yijinjing_lite.Reader.Merging.{NotEarlier}
use yijinjing_lite.Reader.Streams.{
  origins, Stream, journal_of, reading_all, Standing, Settled, Settled-InPage, Settled-head,
  Settled-behind,
}
use yijinjing_lite.Reader.Settle.{get_next_frame-settles}
use yijinjing_lite.World.Effect.{Result, ok}
use yijinjing_lite.World.{Os, World}
use yijinjing_lite.World.New.{Healthy}

module _ (os : Os) (healthy : Healthy os) (fuel : ℕ) (w u : World) (same : SameDisk w u) (o : Fixed)
    (sts : List Stream) (settled : All (Settled w) sts) (cur : Option ℕ) where
  abbrev call : Result (Option FrameAt) × Reading
  call = get_next_frame os (local_provider false) fuel (reading_all u sts cur o)

  abbrev gone_past : World → Journal → Journal
  gone_past = past os (local_provider false) fuel

  all_in_page : AllInPage u (map journal_of sts)
  all_in_page k j at =
      let (st, here, e) = get_elem?-map journal_of sts k j at in
      subst (InPage u) e
        (Settled-InPage w u same st (All-get_elem? (Settled w) sts k st settled here))

  all_timed : All IsTimed (rests sts) → AllTimed u (map journal_of sts)
  all_timed timed k j f nano at has =
      let (st, here, e) = get_elem?-map journal_of sts k j at in
      let s = All-get_elem? (Settled w) sts k st settled here in
      let (r, more, is, _, time) =
        first_in-some st.rest s.page f nano (sym (Settled-head w u same st s) ∙ rw e has) in
      let both = subst IsTimed is (
        All-get_elem? (λ st. IsTimed st.rest) sts k st
          (All_of_map IsTimed (λ st. st.rest) sts timed) here) in
      λ late. both.0 (time ∙ late)

  nothing :
      FindsNone os (local_provider false) fuel (reading_all u sts cur o) → Nothing w o sts call
  nothing (c, none_there, e) = record {
    world = u;
    streams = sts;
    current = c;
    result = e;
    same = same;
    standing = All-Standing w sts settled;
    same_origins = refl;
    same_rests = refl;
    all_read =
        All-map_list (λ rs. rs ≡ []) (λ st. st.rest) sts
          (All_of_places (λ st. st.rest ≡ []) sts
            (λ k st at.
              let s = All-get_elem? (Settled w) sts k st settled at in
              first_in-none st.rest s.page (
                sym (Settled-head w u same st s)
                ∙ none_there k (journal_of st)
                    (subst (λ (n : ℕ). k < n) (sym (length-map journal_of sts))
                      (get_elem?-lt sts k st at))
                    (get_elem?-map-some journal_of sts k st at))));
  }

  taken : Finds os (local_provider false) fuel (reading_all u sts cur o) → Taken w o sts call
  taken (f, nano, v, e) =
      let (st, here, is) = get_elem?-map journal_of sts v.winner v.journal v.stands in
      let s = All-get_elem? (Settled w) sts v.winner st settled here in
      let (r, more, rest_is, frame_is, time) =
        first_in-some st.rest s.page f nano
          (sym (Settled-head w u same st s) ∙ rw is v.has_frame) in
      let (q, q_is, reads, stands) = Settled-behind w u same st s r more rest_is in
      let st' : Stream = record st { page = some q; rest = more } in
      let gone : gone_past u v.journal ≡ journal_of st' =
        ap (gone_past u) (sym is)
        ∙ ap (λ (p : Option Page). gone_past u (reading st.place p)) s.here
        ∙ ap (λ (p : Page). reading st.place (some p)) (sym q_is) in
      let journals : set (map journal_of sts) v.winner (gone_past u v.journal)
          ≡ map journal_of (set sts v.winner st') =
        ap (set (map journal_of sts) v.winner) gone ∙ sym (set-map journal_of sts v.winner st') in
      record {
        index = v.winner;
        message = r;
        more = more;
        frame = f;
        world = u;
        streams = set sts v.winner st';
        result =
            e
            ∙ ap (λ (js : List Journal). (ok (some f), reading_of u js (some v.winner) o)) journals;
        reads =
            ap (λ (g : FrameAt). message_at (u.contents g.buffer) g.address) (sym frame_is) ∙ reads;
        same = same;
        standing = All-set (Standing w) sts v.winner st' (All-Standing w sts settled) stands;
        same_origins =
            set-map (λ (st : Stream). (st.place, st.log)) sts v.winner st'
            ∙ set-get_elem? (origins sts) v.winner (st.place, st.log)
                (get_elem?-map-some (λ (st : Stream). (st.place, st.log)) sts v.winner st here);
        first = get_elem?-map-some (λ st. st.rest) sts v.winner st here ∙ ap some rest_is;
        least =
            All-map_list (NotEarlier r.nano) (λ st. st.rest) sts
              (All_of_places (λ st. NotEarlier r.nano st.rest) sts
                (λ k other at.
                  let t = All-get_elem? (Settled w) sts k other settled at in
                  first_in-NotEarlier other.rest t.page r.nano (λ g m has.
                    ap (int64_lt m) time
                    ∙ v.least k (journal_of other)
                        (subst (λ (n : ℕ). k < n) (sym (length-map journal_of sts))
                          (get_elem?-lt sts k other at))
                        (get_elem?-map-some journal_of sts k other at) g m
                        (Settled-head w u same other t ∙ has))));
        behind = set-map (λ st. st.rest) sts v.winner st';
      }

  call-result : All IsTimed (rests sts) → Nothing w o sts call ⊎ Taken w o sts call
  call-result timed = which (
      get_next_frame-least os (local_provider false) fuel (reading_all u sts cur o) all_in_page
        (all_timed timed))
    where
      which :
          FindsNone os (local_provider false) fuel (reading_all u sts cur o)
            ⊎ Finds os (local_provider false) fuel (reading_all u sts cur o)
          → Nothing w o sts call ⊎ Taken w o sts call
      which (inl none_there) = inl (nothing none_there)
      which (inr some_there) = inr (taken some_there)

-- One call of a reader whose journals stand at `back`.
module _ (os : Os) (healthy : Healthy os) (fuel : ℕ) (w v : World) (same : SameDisk w v) (o : Fixed)
    (back : List Stream) (standing : All (Standing w) back) (cur : Option ℕ)
    (timed : All IsTimed (rests back)) where
  pub get_next_frame-takes :
      Nothing w o back (get_next_frame os (local_provider false) fuel (reading_all v back cur o))
      ⊎ Taken w o back (get_next_frame os (local_provider false) fuel (reading_all v back cur o))
  get_next_frame-takes =
      let (u, sts, same', settled, rests_same, same_origins, first) =
        get_next_frame-settles os healthy fuel w o back v cur same standing in
      carried u sts rests_same same_origins first (
        call-result os healthy fuel w u same' o sts settled cur
          (subst (All IsTimed) (sym rests_same) timed))
    where
      carried :
          (u : World) (sts : List Stream)
          → rests sts ≡ rests back
          → origins sts ≡ origins back
          → get_next_frame os (local_provider false) fuel (reading_all v back cur o)
            ≡ get_next_frame os (local_provider false) fuel (reading_all u sts cur o)
          → Nothing w o sts
              (get_next_frame os (local_provider false) fuel (reading_all u sts cur o))
            ⊎ Taken w o sts
                (get_next_frame os (local_provider false) fuel (reading_all u sts cur o))
          → Nothing w o back
              (get_next_frame os (local_provider false) fuel (reading_all v back cur o))
            ⊎ Taken w o back
                (get_next_frame os (local_provider false) fuel (reading_all v back cur o))
      carried u sts e from first (inl n) = inl (record {
        world = n.world;
        streams = n.streams;
        current = n.current;
        result = first ∙ n.result;
        same = n.same;
        standing = n.standing;
        same_origins = n.same_origins ∙ from;
        same_rests = n.same_rests ∙ e;
        all_read = subst (All (λ rs. rs ≡ [])) e n.all_read;
      })
      carried u sts e from first (inr t) = inr (record {
        index = t.index;
        message = t.message;
        more = t.more;
        frame = t.frame;
        world = t.world;
        streams = t.streams;
        result = first ∙ t.result;
        reads = t.reads;
        same = t.same;
        standing = t.standing;
        same_origins = t.same_origins ∙ from;
        first = subst (λ rss. get_elem? rss t.index ≡ some (t.message ∷ t.more)) e t.first;
        least = subst (All (NotEarlier t.message.nano)) e t.least;
        behind = t.behind ∙ ap (λ rss. set rss t.index t.more) e;
      })
