-- ===== src/Queue/Fifo.antt =====
-- The journal is a queue: the reader gets what the writer has written, in order and at once.
use yijinjing_lite.Queue.Stand.{
  stream, pair, Stands, IsPossible, single, only_first, empty_is, dequeued_is, Reads,
}
use yijinjing_lite.Prelude.{
  ℕ, suc, ◌+◌, ◌<◌, ◌^◌, ◌≡◌, ◌≢◌, inl, inr, refl, ap, subst, ◌∙◌, Bool, List, [], ◌∷◌, ◌++◌,
  length, All, false, Option, none, some, set, arith,
}
use yijinjing_lite.Constants.{time_to_last}
use yijinjing_lite.Page.{Page}
use yijinjing_lite.Page.Log.{Message, Fits}
use yijinjing_lite.Provider.{local_provider}
use yijinjing_lite.Writer.Frames.{Place, writing}
use yijinjing_lite.Writer.Log.{Log, Represents, messages, All-append}
use yijinjing_lite.Writer.Append.{write_frame-Represents}
use yijinjing_lite.Writer.Sequence.{Entry, IsSmall, stamped_one}
use yijinjing_lite.Reader.Object.{Reading, FrameAt}
use yijinjing_lite.Reader.One.{Fixed}
use yijinjing_lite.Reader.Streams.{reading_all, Standing}
use yijinjing_lite.Reader.Taken.{rests, IsTimed, Nothing, Taken}
use yijinjing_lite.Reader.Take.{get_next_frame-takes}
use yijinjing_lite.Reader.Growth.{Standing-Appended}
use yijinjing_lite.Reader.Same.{Standing-SameDisk}
use yijinjing_lite.Reader.{get_next_frame}
use yijinjing_lite.Queue.{
  Pair, Op, writes, reads, Answer, wrote, got, apply, apply_all, Queue, ended, enqueued,
}
use yijinjing_lite.World.Effect.{Run, Result, ok, pure, ◌>>=◌, bind_returns}
use yijinjing_lite.World.{Os, World}
use yijinjing_lite.World.New.{Healthy}

module _ (os : Os) (healthy : Healthy os) (auto_hash : Bool) (rounds : ℕ)
    (clock_fits : (n : ℕ) → os.clock n < 2 ^ 64) (clock_timed : (n : ℕ) → os.clock n ≢ time_to_last)
    (l : Place) (short_name : length l.short_name < 30) (o : Fixed) where
  abbrev fuel : ℕ
  fuel = suc (suc rounds)

  abbrev does : Op → Run Pair Answer
  does = apply os auto_hash fuel

  does-writes :
      (v : World) (g : Log) (p : Option Page) (rest : List Message) (n : ℕ) (cur : Option ℕ)
      (e : Entry)
      → Stands v l g p rest (suc n)
      → IsSmall e
      → (g' : Log) × (u : World) × (does (writes e) (pair v l g p rest cur o) ≡ (
        ok (wrote (os.clock v.readings)),
        pair u l g' p (rest ++ stamped_one (os.clock v.readings) e ∷ []) cur o,
      ))
        × Stands u l g' p (rest ++ stamped_one (os.clock v.readings) e ∷ []) n
  unfolding apply
  does-writes v g p rest n cur e s small =
      let fits : Fits (stamped_one (os.clock v.readings) e) = record {
        nano_fits = clock_fits v.readings;
        type_fits = small.type_fits;
        flag_fits = small.flag_fits;
        size_fits = omega (arith, small.size_fits);
      } in
      let (g', u, done, appended) =
        write_frame-Represents os healthy auto_hash rounds v l g e.bytes e.msg_type e.last_flag
          s.standing.represents short_name (clock_fits (v.readings + 1)) (omega (arith, s.pages))
          fits small.size_fits in
      (
        g',
        u,
        rw (done, ◌>>=◌) refl,
        record {
          standing =
              Standing-Appended v u l g g' _ s.standing.represents appended p rest
                (omega (arith, appended.pages, s.pages)) s.standing;
          timed = All-append _ rest _ s.timed (clock_timed v.readings);
          pages = omega (arith, appended.pages, s.pages);
        },
      )

  abbrev calls :
      World → Log → Option Page → List Message → Option ℕ → Result (Option FrameAt) × Reading
  calls v g p rest cur =
      get_next_frame os (local_provider false) fuel (reading_all v (stream l g p rest ∷ []) cur o)

  finds-Nothing :
      (v : World) (g : Log) (p : Option Page) (rest : List Message) (n : ℕ) (cur : Option ℕ)
      → Stands v l g p rest (suc n)
      → Nothing v o (stream l g p rest ∷ []) (calls v g p rest cur)
      → Reads l g o rest n (does reads (pair v l g p rest cur o))
  unfolding apply
  finds-Nothing v g p rest n cur s found =
      let (q, is) = single found.streams l g rest found.same_origins found.same_rests in
      let stands = subst (All (Standing v)) is found.standing in
      record {
        world = found.world;
        page = q;
        more = rest;
        current = found.current;
        answer = none;
        result =
            rw (found.result, ◌>>=◌)
              (ap
                (λ sts. (
                  ok (got none),
                  record {
                    writer = writing l g.page;
                    reading = reading_all found.world sts found.current o;
                  },
                ))
                is);
        stands = record {
          standing = Standing-SameDisk v found.world found.same (stream l g q rest) stands.0;
          timed = s.timed;
          pages = omega (arith, s.pages);
        };
        queue = λ later. empty_is found.all_read.0 later;
      }

  finds :
      (v : World) (g : Log) (p : Option Page) (rest : List Message) (n : ℕ) (cur : Option ℕ)
      → Stands v l g p rest (suc n)
      → Taken v o (stream l g p rest ∷ []) (calls v g p rest cur)
      → Reads l g o rest n (does reads (pair v l g p rest cur o))
  unfolding apply
  finds v g p rest n cur s found =
      let (at, front) = only_first rest found.more found.message found.index found.first in
      let behind : rests found.streams ≡ found.more ∷ [] =
        found.behind ∙ ap (λ (k : ℕ). set (rest ∷ []) k found.more) at in
      let (q, is) = single found.streams l g found.more found.same_origins behind in
      let stands = subst (All (Standing v)) is found.standing in
      record {
        world = found.world;
        page = q;
        more = found.more;
        current = some found.index;
        answer = some found.message;
        result =
            rw (found.result, ◌>>=◌, found.reads)
              (ap
                (λ sts. (
                  ok (got (some found.message)),
                  record {
                    writer = writing l g.page;
                    reading = reading_all found.world sts (some found.index) o;
                  },
                ))
                is);
        stands = record {
          standing = Standing-SameDisk v found.world found.same (stream l g q found.more) stands.0;
          timed = (subst IsTimed front s.timed).1;
          pages = omega (arith, s.pages);
        };
        queue = λ later. dequeued_is front later;
      }

  does-reads :
      (v : World) (g : Log) (p : Option Page) (rest : List Message) (n : ℕ) (cur : Option ℕ)
      → Stands v l g p rest (suc n)
      → Reads l g o rest n (does reads (pair v l g p rest cur o))
  does-reads v g p rest n cur s =
      elim (get_next_frame-takes os healthy fuel v v
        (record { contents = refl; files = refl; inodes = refl }) o (stream l g p rest ∷ [])
        (s.standing, tt) cur (s.timed, tt)) [
          | inl found ↦ finds-Nothing v g p rest n cur s found
          | inr found ↦ finds v g p rest n cur s found
        ]

  apply_all-cons :
      (op : Op) (ops : List Op) (s s1 s2 : Pair) (a : Answer) (answers : List Answer)
      → does op s ≡ (ok a, s1)
      → apply_all os auto_hash fuel ops s1 ≡ (ok answers, s2)
      → apply_all os auto_hash fuel (op ∷ ops) s ≡ (ok (a ∷ answers), s2)
  unfolding apply_all
  apply_all-cons op ops s s1 s2 a answers first rest =
      bind_returns (does op)
        (λ a. apply_all os auto_hash fuel ops >>= λ answers. pure (a ∷ answers)) s s1 a first
      ∙ bind_returns (apply_all os auto_hash fuel ops) (λ answers. pure (a ∷ answers)) s1 s2 answers
          rest

  abbrev Answers : List Message → List Op → Pair → Type 0
  Answers rest ops s =
      (answers : List Answer) × (t : Pair) × (left : List Message) × (apply_all os auto_hash fuel
          ops s
        ≡ (ok answers, t))
      × Queue rest ops answers left

  apply_all-Answers :
      (ops : List Op) (v : World) (g : Log) (p : Option Page) (rest : List Message) (cur : Option ℕ)
      → Stands v l g p rest (length ops)
      → All IsPossible ops
      → Answers rest ops (pair v l g p rest cur o)
  unfolding apply_all
  apply_all-Answers [] v g p rest cur s possible = ([], _, rest, refl, ended)
  apply_all-Answers (writes e ∷ ops) v g p rest cur s possible =
      let (g', u, done, s') = does-writes v g p rest (length ops) cur e s possible.0 in
      let (answers, t, left, more, queue) = apply_all-Answers ops u g' p _ cur s' possible.1 in
      (
        wrote (os.clock v.readings) ∷ answers,
        t,
        left,
        apply_all-cons (writes e) ops _ _ t _ answers done more,
        enqueued e (os.clock v.readings) queue,
      )
  apply_all-Answers (reads ∷ ops) v g p rest cur s possible =
      let read = does-reads v g p rest (length ops) cur s in
      let (answers, t, left, more, queue) =
        apply_all-Answers ops read.world g read.page read.more read.current read.stands
          possible.1 in
      (
        got read.answer ∷ answers,
        t,
        left,
        apply_all-cons reads ops _ _ t _ answers read.result more,
        read.queue queue,
      )

  -- If the disk holds the journal `g` from page 1 on, its writer stands behind it and a reader
  -- has had no page of it yet, then the calls `ops` of `write_frame` by the one and of
  -- `getNextFrame` by the other, in whatever order, all return, and they answer as a queue
  -- does that holds the messages of the journal at first: a write puts the entry with the time
  -- of the call behind the others, a read takes the first message, and gives none exactly if
  -- there is none. The entries are no larger than the headroom, there is a page number below
  -- 2^15 left for every call, the name has under 30 bytes, the system calls succeed, no
  -- message has the time that stands for none, and the clock fits 64 bits and never gives that
  -- time.
  pub apply_all-Queue :
      (ops : List Op) (w : World) (g : Log)
      → Represents w l g
      → g.first ≡ 1
      → IsTimed (messages g)
      → g.page.page_num + length ops < 2 ^ 15
      → All IsPossible ops
      → (answers : List Answer) × (t : Pair) × (left : List Message) × (apply_all os auto_hash
            (suc (suc rounds))
            ops
            (pair w l g none (messages g) none o)
          ≡ (ok answers, t))
        × Queue (messages g) ops answers left
  apply_all-Queue ops w g rep first timed room possible =
      apply_all-Answers ops w g none (messages g) none
        (record {
          standing = record {
            represents = rep;
            pages = omega (arith, room);
            position = inl (refl, first, refl);
          };
          timed = timed;
          pages = room;
        })
        possible
