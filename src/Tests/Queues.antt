-- ===== src/Tests/Queues.antt =====
-- A writer and a reader of one journal side by side.
use yijinjing_lite.Prelude.{◌≡◌, refl, true, List, [], ◌∷◌, All, none, codes, arith}
use yijinjing_lite.Page.Log.{Message}
use yijinjing_lite.Provider.{numbered_page}
use yijinjing_lite.Reader.Taken.{IsTimed}
use yijinjing_lite.Queue.{Pair, Op, writes, reads, Answer, apply_all, Queue}
use yijinjing_lite.Queue.Stand.{pair, IsPossible}
use yijinjing_lite.Queue.Fifo.{apply_all-Queue}
use yijinjing_lite.World.Effect.{ok}
use yijinjing_lite.Tests.Journeys.{
  steady, steady-Healthy, place, one_message, written, written-Represents, others,
}
use yijinjing_lite.Tests.Fixtures.{hello}

-- The reader empties the journal and finds nothing, and then finds what is written.
abbrev some_ops : List Op
some_ops =
    reads
    ∷ reads
    ∷ writes (record { bytes = codes "world"; msg_type = 8; last_flag = 0 })
    ∷ reads
    ∷ writes (record { bytes = codes "again"; msg_type = 7; last_flag = 1 })
    ∷ []

some_ops-IsPossible : All IsPossible some_ops
some_ops-IsPossible = (
  tt,
  (
    tt,
    (
      record { type_fits = omega arith; flag_fits = omega arith; size_fits = omega arith },
      (
        tt,
        (record { type_fits = omega arith; flag_fits = omega arith; size_fits = omega arith }, tt),
      ),
    ),
  ),
)

one_message-IsTimed : IsTimed (hello ∷ [])
one_message-IsTimed = (omega arith, tt)

apply_all-Queue_example :
    (answers : List Answer) × (t : Pair) × (left : List Message) × (apply_all steady true 2 some_ops
        (pair written place one_message none (hello ∷ []) none others)
      ≡ (ok answers, t))
    × Queue (hello ∷ []) some_ops answers left
unfolding numbered_page
apply_all-Queue_example =
    apply_all-Queue steady steady-Healthy true 0 (λ n. omega arith) (λ n. omega arith) place
      (omega arith) others some_ops written one_message written-Represents refl one_message-IsTimed
      (omega arith) some_ops-IsPossible
