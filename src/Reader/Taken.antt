-- ===== src/Reader/Taken.antt =====
-- What a call of `getNextFrame` may give over several journals.
use yijinjing_lite.Prelude.{
  ℕ, ◌≡◌, ◌≢◌, refl, inr, List, [], ◌∷◌, map, Option, none, some, All, false, get_elem?, set, arith,
}
use yijinjing_lite.Constants.{time_to_last}
use yijinjing_lite.Memory.{int64_lt}
use yijinjing_lite.Page.{Page}
use yijinjing_lite.Page.Log.{Message}
use yijinjing_lite.Journal.{Journal}
use yijinjing_lite.Reader.Object.{Reading, FrameAt}
use yijinjing_lite.Reader.Passes.{SameDisk}
use yijinjing_lite.Reader.One.{Fixed}
use yijinjing_lite.Reader.Drain.{message_at}
use yijinjing_lite.Reader.Merging.{NotEarlier}
use yijinjing_lite.Reader.Streams.{origins, Stream, reading_all, Standing, Settled, first_in}
use yijinjing_lite.World.Effect.{Result, ok}
use yijinjing_lite.World.{World}

abbrev pub rests : List Stream → List (List Message)
rests = map (λ st. st.rest)

-- No message has the time that stands for none.
abbrev pub IsTimed : List Message → Type 0
IsTimed = All (λ r. r.nano ≢ time_to_last)

pub first_in-none : (rest : List Message) (q : Page) → first_in rest q ≡ none → rest ≡ []
first_in-none [] q h = refl
first_in-none (r ∷ rest) q h = absurd (ground (arith, h))

-- The first message, where there is one.
pub first_in-some :
    (rest : List Message) (q : Page) (f : FrameAt) (nano : ℕ)
    → first_in rest q ≡ some (f, nano)
    → (r : Message) × (more : List Message) × (rest ≡ r ∷ more)
      × (record { buffer = q.buffer; address = q.frame } ≡ f)
      × (r.nano ≡ nano)
first_in-some [] q f nano h = absurd (ground (arith, h))
first_in-some (r ∷ rest) q f nano h = (r, rest, refl, ground (arith, h), ground (arith, h))

pub first_in-NotEarlier :
    (rest : List Message) (q : Page) (nano : ℕ)
    → ((g : FrameAt) (m : ℕ) → first_in rest q ≡ some (g, m) → int64_lt m nano ≡ false)
    → NotEarlier nano rest
first_in-NotEarlier [] q nano h = tt
first_in-NotEarlier (r ∷ rest) q nano h = h _ r.nano refl

-- Nothing is in front of any journal.
pub record Nothing (w : World) (o : Fixed) (back : List Stream)
    (r : Result (Option FrameAt) × Reading) : Type 0 where
  pub world : World
  pub streams : List Stream
  pub current : Option ℕ
  pub result : r ≡ (ok none, reading_all world streams current o)
  pub same : SameDisk w world
  pub standing : All (Standing w) streams
  pub same_origins : origins streams ≡ origins back
  pub same_rests : rests streams ≡ rests back
  pub all_read : All (λ rs. rs ≡ []) (rests back)

-- The first message of journal `index` is given.
pub record Taken (w : World) (o : Fixed) (back : List Stream)
    (r : Result (Option FrameAt) × Reading) : Type 0 where
  pub index : ℕ
  pub message : Message
  pub more : List Message
  pub frame : FrameAt
  pub world : World
  pub streams : List Stream
  pub result : r ≡ (ok (some frame), reading_all world streams (some index) o)
  pub reads : message_at (world.contents frame.buffer) frame.address ≡ message
  pub same : SameDisk w world
  pub standing : All (Standing w) streams
  pub same_origins : origins streams ≡ origins back
  pub first : get_elem? (rests back) index ≡ some (message ∷ more)
  pub least : All (NotEarlier message.nano) (rests back)
  pub behind : rests streams ≡ set (rests back) index more

abbrev pub reading_of : World → List Journal → Option ℕ → Fixed → Reading
reading_of w js cur o = record {
  world = w;
  reader = record {
    journals = js;
    cur_journal = cur;
    journal_map = o.journal_map;
    visitors = o.visitors;
  };
  visits = o.visits;
}

-- Settled journals stand in a page.
pub All-Standing : (w : World) (sts : List Stream) → All (Settled w) sts → All (Standing w) sts
All-Standing w [] h = tt
All-Standing w (st ∷ sts) h = (
  record {
    represents = h.0.represents;
    pages = h.0.pages;
    position = inr (h.0.page, h.0.here, h.0.ahead, h.0.cursor);
  },
  All-Standing w sts h.1,
)
