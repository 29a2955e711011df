-- ===== src/Timer/Clock.antt =====
-- The times that `NanoTimer` reads, include/yijinjing/journal/Timer.cpp.
use yijinjing_lite.Prelude.{
  ℕ, ◌+◌, ◌-◌, ◌*◌, ◌%◌, ◌^◌, ◌≤◌, ◌<◌, ◌≡◌, refl, none, some, arith, true,
}
use yijinjing_lite.Memory.{int64_lt, extend_int}
use yijinjing_lite.Timer.{
  nanoseconds_per_second, NanoTimer, get_local_diff, create, get_nano, get_sec_diff,
}

-- A timer with the engine's difference reads what the engine's timer reads.
get_nano-answer :
    (engine : NanoTimer) (unix tick l : ℕ)
    → get_nano (create (some (get_sec_diff engine)) unix tick) l ≡ get_nano engine l
unfolding get_nano create get_sec_diff
get_nano-answer engine unix tick l = refl

int64_lt-small :
    (a b base x y : ℕ)
    → a ≡ base + x
    → b ≡ base + y
    → x < y
    → base + y < 2 ^ 63
    → int64_lt a b ≡ true
unfolding int64_lt
int64_lt-small a b base x y ea eb lt fits = ground arith

module _ (unix tick : ℕ) (unix_fits : unix < 2 ^ 31)
    (tick_fits : tick < 2 ^ 31 * nanoseconds_per_second) where
  -- A timer that is set up without the engine reads, at any later tick, the unix time of its
  -- start in nanoseconds, and the part of a second of the tick of its start, and the ticks
  -- since then. The unix time and the seconds of the start are below 2^31, and the tick is
  -- below 2^62.
  pub get_nano-create :
      (later : ℕ)
      → tick ≤ later
      → later < 2 ^ 62
      → get_nano (create none unix tick) later
        ≡ unix * nanoseconds_per_second + tick % nanoseconds_per_second + (later - tick)
  unfolding get_nano create get_local_diff extend_int
  get_nano-create later h fits = ground arith

  -- Of an engine's timer and a client's timer, which has the engine's difference, the one that
  -- reads at the later tick reads the later time, whichever it is, and whatever the client's
  -- own clock reads. The engine's unix time and seconds at the start are below 2^31, and the
  -- ticks are not before its start and below 2^62.
  pub get_nano_shared :
      (unix' tick' l l' : ℕ)
      → tick ≤ l
      → l < l'
      → l' < 2 ^ 62
      → (int64_lt
            (get_nano (create none unix tick) l)
            (get_nano (create (some (get_sec_diff (create none unix tick))) unix' tick') l')
          ≡ true)
        × (int64_lt
              (get_nano (create (some (get_sec_diff (create none unix tick))) unix' tick') l)
              (get_nano (create none unix tick) l')
            ≡ true)
  get_nano_shared unix' tick' l l' h lt fits =
      let first = get_nano-create l h (omega arith) in
      let second = get_nano-create l' (omega arith) fits in
      let order =
        int64_lt-small _ _ (unix * nanoseconds_per_second + tick % nanoseconds_per_second)
          (l - tick) (l' - tick) first second (omega arith) (omega arith) in
      (
        rw (get_nano-answer (create none unix tick) unix' tick' l') order,
        rw (get_nano-answer (create none unix tick) unix' tick' l) order,
      )
