-- ===== src/Reader/Merge.antt =====
-- A reader of several journals that takes frames until there is none: it merges their logs by time.
use mathlib.Core.List.{Perm}
use yijinjing_lite.Prelude.{
  ℕ, zero, suc, ◌<◌, ◌^◌, ◌≡◌, refl, false, sym, ap, subst, ◌∙◌, inl, inr, List, [], ◌∷◌, map,
  Option, none, some, All, length, length-append, get_elem?, set, All-get_elem?, All-set, arith,
}
use yijinjing_lite.Page.Log.{Message}
use yijinjing_lite.Provider.{local_provider}
use yijinjing_lite.Writer.Frames.{Place}
use yijinjing_lite.Writer.Log.{Log, messages, Represents}
use yijinjing_lite.Reader.Object.{Reading}
use yijinjing_lite.Reader.{get_next_frame}
use yijinjing_lite.Reader.Passes.{SameDisk}
use yijinjing_lite.Reader.One.{Fixed}
use yijinjing_lite.Reader.Drain.{take_frames, take_frames-nothing, take_frames-some}
use yijinjing_lite.Reader.Merging.{
  Merges, all_read, least_next, concat, InOrder, Merges-perm, Merges-InOrder,
}
use yijinjing_lite.Reader.Streams.{Stream, reading_all, Standing}
use yijinjing_lite.Reader.Taken.{rests, IsTimed, Nothing, Taken}
use yijinjing_lite.Reader.Take.{get_next_frame-takes}
use yijinjing_lite.World.Effect.{ok}
use yijinjing_lite.World.{Os, World}
use yijinjing_lite.World.New.{Healthy}

length-concat_taken :
    (ss : List (List Message)) (k : ℕ) (r : Message) (rest : List Message)
    → get_elem? ss k ≡ some (r ∷ rest)
    → length (concat ss) ≡ suc (length (concat (set ss k rest)))
length-concat_taken [] k r rest h = absurd (ground (arith, h))
length-concat_taken (s ∷ ss) zero r rest h =
    let first : s ≡ r ∷ rest = ground (arith, h) in rw first refl
length-concat_taken (s ∷ ss) (suc k) r rest h = omega (
  arith,
  length-append s (concat ss),
  length-append s (concat (set ss k rest)),
  length-concat_taken ss k r rest h,
)

module _ (os : Os) (healthy : Healthy os) (fuel : ℕ) (w : World) (o : Fixed) where
  abbrev Drains : ℕ → World → List Stream → Option ℕ → Type 0
  Drains n v back cur =
      (out : List Message) × (s : Reading) × (take_frames os fuel (suc n) (reading_all v back cur o)
        ≡ (ok out, s))
      × Merges (rests back) out
      × SameDisk w s.world

  drained :
      (n : ℕ) (v : World) (back : List Stream) (cur : Option ℕ)
      → Nothing w o back (get_next_frame os (local_provider false) fuel (reading_all v back cur o))
      → Drains n v back cur
  drained n v back cur e = (
    [],
    reading_all e.world e.streams e.current o,
    take_frames-nothing os fuel n _ _ e.result,
    all_read e.all_read,
    e.same,
  )

  goes_on :
      (n : ℕ) (v : World) (back : List Stream) (cur : Option ℕ)
      (t : Taken w o back
        (get_next_frame os (local_provider false) fuel (reading_all v back cur o)))
      → Drains n t.world t.streams (some t.index)
      → Drains (suc n) v back cur
  goes_on n v back cur t (out, s, takes, merges, same) = (
    t.message ∷ out,
    s,
    take_frames-some os fuel (suc n) _ (reading_all t.world t.streams (some t.index) o) s t.frame
          out t.result takes
        ∙ ap (λ (r : Message). (ok (r ∷ out), s)) t.reads,
    least_next t.index t.message t.first t.least
        (subst (λ (ss : List (List Message)). Merges ss out) t.behind merges),
    same,
  )

  drains :
      (n : ℕ) (v : World) (back : List Stream) (cur : Option ℕ)
      → SameDisk w v
      → All (Standing w) back
      → All IsTimed (rests back)
      → length (concat (rests back)) ≡ n
      → Drains n v back cur
  drains zero v back cur same standing timed count =
      elim (get_next_frame-takes os healthy fuel w v same o back standing cur timed) [
        | inl e ↦ drained zero v back cur e
        | inr t ↦ absurd (
            omega (arith, count, length-concat_taken (rests back) t.index t.message t.more t.first))
      ]
  drains (suc n) v back cur same standing timed count =
      elim (get_next_frame-takes os healthy fuel w v same o back standing cur timed) [
        | inl e ↦ drained (suc n) v back cur e
        | inr t ↦
            let left = length-concat_taken (rests back) t.index t.message t.more t.first in
            let own =
              All-get_elem? IsTimed (rests back) t.index (t.message ∷ t.more) timed t.first in
            goes_on n v back cur t (
              drains n t.world t.streams (some t.index) t.same t.standing
                (subst (All IsTimed) (sym t.behind)
                  (All-set IsTimed (rests back) t.index t.more timed own.1))
                (ap (λ (ss : List (List Message)). length (concat ss)) t.behind
                  ∙ omega (arith, left, count)))
      ]

-- A journal that the reader has not opened yet.
pub record Source : Type 0 where
  pub place : Place
  pub log : Log

abbrev pub unread : Source → Stream
unread x = record { place = x.place; log = x.log; page = none; rest = messages x.log }

abbrev pub logs : List Source → List (List Message)
logs = map (λ x. messages x.log)

-- The disk holds the journal from page 1 on, and its frames are in the order of their times.
pub record IsSource (w : World) (x : Source) : Type 0 where
  pub represents : Represents w x.place x.log
  pub pages : x.log.page.page_num < 2 ^ 15
  pub from_first : x.log.first ≡ 1
  pub timed : IsTimed (messages x.log)
  pub in_order : InOrder (messages x.log)

all-Standing :
    (w : World) (xs : List Source) → All (IsSource w) xs → All (Standing w) (map unread xs)
all-Standing w [] h = tt
all-Standing w (x ∷ xs) h = (
  record {
    represents = h.0.represents;
    pages = h.0.pages;
    position = inl (refl, h.0.from_first, refl);
  },
  all-Standing w xs h.1,
)

rests-unread : (xs : List Source) → rests (map unread xs) ≡ logs xs
rests-unread [] = refl
rests-unread (x ∷ xs) = ap (◌∷◌ (messages x.log)) (rests-unread xs)

all-IsTimed : (w : World) (xs : List Source) → All (IsSource w) xs → All IsTimed (logs xs)
all-IsTimed w [] h = tt
all-IsTimed w (x ∷ xs) h = (h.0.timed, all-IsTimed w xs h.1)

all-InOrder : (w : World) (xs : List Source) → All (IsSource w) xs → All InOrder (logs xs)
all-InOrder w [] h = tt
all-InOrder w (x ∷ xs) h = (h.0.in_order, all-InOrder w xs h.1)

module _ (os : Os) (healthy : Healthy os) (fuel : ℕ) (w : World) (o : Fixed) where
  -- If the disk holds the journals `xs`, each from page 1 on, a new reader of all of them that
  -- asks for one frame more than there are messages gets a merge of their lists: each frame is
  -- the first one left in its journal, and none that is left is earlier. It gets every message
  -- once, in the order of time, then none, and changes no file. Each journal is in the order
  -- of its times, no message has the time that stands for none, page numbers are below 2^15
  -- and the system calls succeed.
  pub take_frames-Merges :
      (xs : List Source)
      → All (IsSource w) xs
      → (out : List Message) × (s : Reading) × (take_frames os fuel
            (suc (length (concat (logs xs))))
            (reading_all w (map unread xs) none o)
          ≡ (ok out, s))
        × Merges (logs xs) out
        × Perm (concat (logs xs)) out
        × InOrder out
        × SameDisk w s.world
  take_frames-Merges xs h =
      let (out, s, takes, merges, same) =
        drains os healthy fuel w o (length (concat (logs xs))) w (map unread xs) none
          (record { contents = refl; files = refl; inodes = refl }) (all-Standing w xs h)
          (subst (All IsTimed) (sym (rests-unread xs)) (all-IsTimed w xs h))
          (ap (λ (ss : List (List Message)). length (concat ss)) (rests-unread xs)) in
      let merged = subst (λ (ss : List (List Message)). Merges ss out) (rests-unread xs) merges in
      (out, s, takes, merged, Merges-perm merged, Merges-InOrder merged (all-InOrder w xs h), same)
