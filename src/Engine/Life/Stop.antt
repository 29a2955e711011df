-- ===== src/Engine/Life/Stop.antt =====
-- PageEngine::stop_all: how a stop leads the engine's threads to their end.
use yijinjing_lite.Prelude.{ℕ, ◌≤◌, ◌≡◌, false, not, ◌&&◌, some, List, length, arith}
use yijinjing_lite.Engine.Life.{finished, comm_ended, socket_ended, Life, Event, run, any_sends}
use yijinjing_lite.Engine.Life.Sound.{IsSound}
use yijinjing_lite.Engine.Life.Progress.{is_reading}

pub finished-ended :
    (s : Life) → IsSound s → s.main ≡ finished → (s.comm ≡ comm_ended) × (s.socket ≡ socket_ended)
finished-ended s v e = ground (arith, e)

-- Some schedule of at most `n` events leads to the end.
abbrev Ends : ℕ → Life → Type 0
Ends n s =
    (es : List Event) × (t : Life) × (run es s ≡ some t)
    × (length es ≤ n)
    × (t.main ≡ finished)
    × (t.comm ≡ comm_ended)
    × (t.socket ≡ socket_ended)
    × (any_sends es && not (is_reading s.socket) ≡ false)
