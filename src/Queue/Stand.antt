-- ===== src/Queue/Stand.antt =====
-- A writer and a reader of one journal, and the messages between them.
use yijinjing_lite.Prelude.{
  ℕ, zero, suc, ◌+◌, ◌<◌, ◌^◌, ◌≡◌, refl, sym, ap, subst, ◌∙◌, List, [], ◌∷◌, Option, none, some,
  get_elem?, get_or, arith,
}
use yijinjing_lite.Page.{Page}
use yijinjing_lite.Page.Log.{Message}
use yijinjing_lite.Writer.Frames.{Place, writing}
use yijinjing_lite.Writer.Log.{Log}
use yijinjing_lite.Writer.Sequence.{IsSmall}
use yijinjing_lite.Reader.One.{Fixed}
use yijinjing_lite.Reader.Streams.{Stream, origins, reading_all, Standing}
use yijinjing_lite.Reader.Taken.{rests, IsTimed}
use yijinjing_lite.Queue.{Pair, Op, writes, reads, Answer, got, Queue, empty, dequeued}
use yijinjing_lite.World.Effect.{Result, ok}
use yijinjing_lite.World.{World}

abbrev pub stream : Place → Log → Option Page → List Message → Stream
stream l g p rest = record { place = l; log = g; page = p; rest = rest }

abbrev pub pair : World → Place → Log → Option Page → List Message → Option ℕ → Fixed → Pair
pair v l g p rest cur o = record {
  writer = writing l g.page;
  reading = reading_all v (stream l g p rest ∷ []) cur o;
}

-- The reader stands in the journal, with `rest` in front, and there is room for `n` page files.
pub record Stands (v : World) (l : Place) (g : Log) (p : Option Page) (rest : List Message) (n : ℕ)
    : Type 0 where
  pub standing : Standing v (stream l g p rest)
  pub timed : IsTimed rest
  pub pages : g.page.page_num + n < 2 ^ 15

-- An entry fits its frame.
abbrev pub IsPossible : Op → Type 0
IsPossible (writes e) = IsSmall e
IsPossible reads = Unit {0}

-- The only journal of a reader.
pub single :
    (sts : List Stream) (l : Place) (g : Log) (rest : List Message)
    → origins sts ≡ (l, g) ∷ []
    → rests sts ≡ rest ∷ []
    → (p : Option Page) × (sts ≡ stream l g p rest ∷ [])
single [] l g rest e h = absurd (ground (arith, h))
single (st ∷ []) l g rest e h =
    let journal : (st.place, st.log) ≡ (l, g) = ap (λ xs. get_or xs 0 (l, g)) e in
    let front : st.rest ≡ rest = ap (λ xs. get_or xs 0 rest) h in
    (
      st.page,
      ap (λ (x : Place × Log). stream x.0 x.1 st.page st.rest ∷ []) journal
          ∙ ap (λ (rs : List Message). stream l g st.page rs ∷ []) front,
    )
single (st ∷ other ∷ sts) l g rest e h = absurd (ground (arith, h))

pub only_first :
    (rest more : List Message) (r : Message) (k : ℕ)
    → get_elem? (rest ∷ []) k ≡ some (r ∷ more)
    → (k ≡ 0) × (rest ≡ r ∷ more)
only_first rest more r zero h = (refl, ground (arith, h))
only_first rest more r (suc k) h = absurd (ground (arith, h))

module _ {ops : List Op} {answers : List Answer} {left : List Message} where
  pub empty_is :
      {rest : List Message}
      → rest ≡ []
      → Queue rest ops answers left
      → Queue rest (reads ∷ ops) (got none ∷ answers) left
  empty_is {rest} e queue =
      subst (λ (rs : List Message). Queue rs (reads ∷ ops) (got none ∷ answers) left) (sym e)
        (empty (subst (λ (rs : List Message). Queue rs ops answers left) e queue))

  pub dequeued_is :
      {rest more : List Message} {r : Message}
      → rest ≡ r ∷ more
      → Queue more ops answers left
      → Queue rest (reads ∷ ops) (got (some r) ∷ answers) left
  dequeued_is {rest} {more} {r} e queue =
      subst (λ (rs : List Message). Queue rs (reads ∷ ops) (got (some r) ∷ answers) left) (sym e)
        (dequeued r queue)

-- What a call of the reader gives, and how the queue answers.
pub record Reads (l : Place) (g : Log) (o : Fixed) (rest : List Message) (n : ℕ)
    (call : Result Answer × Pair) : Type 0 where
  pub world : World
  pub page : Option Page
  pub more : List Message
  pub current : Option ℕ
  pub answer : Option Message
  pub result : call ≡ (ok (got answer), pair world l g page more current o)
  pub stands : Stands world l g page more n
  pub queue :
      {ops : List Op} {answers : List Answer} {left : List Message}
      → Queue more ops answers left
      → Queue rest (reads ∷ ops) (got answer ∷ answers) left
