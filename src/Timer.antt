-- ===== src/Timer.antt =====
-- include/yijinjing/journal/Timer.h and Timer.cpp: the clock of the journals, and times as text.
-- What the system's clocks read, what the engine answers over the socket, and the calendar of the
-- C library are arguments. An `int64_t` is its 64-bit pattern. strptime, with its children, is the
-- one that the library brings for Windows.
pub mod Number
pub mod Fields
pub mod Conversion
pub mod Strptime
pub mod Clock
use yijinjing_lite.Prelude.{
  ℕ, ◌+◌, ◌-◌, ◌*◌, ◌/◌, ◌%◌, ◌^◌, List, Option, none, some, codes, ltb, ◌==◌, ◌||◌, not,
  if◌then◌else◌,
}
use yijinjing_lite.Memory.{int64_lt, extend_int}
use Fields.{Tm, Parse, parsed, refused, too_deep}
use Strptime.{strptime}

abbrev pub nanoseconds_per_second : ℕ
nanoseconds_per_second = 1000000000

pub record NanoTimer : Type 0 where
  pub sec_diff : ℕ

-- `int` difference of two numbers of seconds, the later one from the steady clock, in nanoseconds.
unfoldable pub get_local_diff : ℕ → ℕ → ℕ
get_local_diff unix tick =
    let unix_second_num = unix % 2 ^ 32 in
    let tick_second_num = tick / nanoseconds_per_second % 2 ^ 32 in
    (extend_int ((unix_second_num + 2 ^ 32 - tick_second_num) % 2 ^ 32) * nanoseconds_per_second)
    % 2 ^ 64

-- NanoTimer::NanoTimer; `answer` is what get_socket_diff gives, `none` where it throws.
unfoldable pub create : Option ℕ → ℕ → ℕ → NanoTimer
create none unix tick = record { sec_diff = get_local_diff unix tick }
create (some diff) unix tick = record { sec_diff = diff }

-- NanoTimer::getInstance: the timer, which is then m_ptr.
unfoldable pub get_instance : Option NanoTimer → Option ℕ → ℕ → ℕ → NanoTimer
unfolding create
get_instance (some timer) answer unix tick = timer
get_instance none answer unix tick = create answer unix tick

-- NanoTimer::getNano
unfoldable pub get_nano : NanoTimer → ℕ → ℕ
get_nano timer tick = (tick + timer.sec_diff) % 2 ^ 64

-- getSecDiff
unfoldable pub get_sec_diff : NanoTimer → ℕ
get_sec_diff timer = timer.sec_diff

module _ (timelocal : Tm → ℕ) where
  unfoldable pub parse_tm : Tm → ℕ
  parse_tm tm = timelocal tm * nanoseconds_per_second % 2 ^ 64

  -- `*tm` as strptime leaves it, whether it succeeds or not.
  left_in : Tm → Parse (List ℕ × Tm) → Tm
  left_in tm (parsed (rest, tm')) = tm'
  left_in tm (refused tm') = tm'
  left_in tm too_deep = tm

  -- `tm` is what stands in the local that is not initialised.
  unfoldable pub parse_time : List ℕ → List ℕ → Tm → ℕ
  unfolding left_in
  parse_time text format tm = parse_tm (left_in tm (strptime 3 format text tm))

module _ (localtime : ℕ → Tm) (strftime : List ℕ → Tm → List ℕ) where
  -- parseNano, with a format
  unfoldable pub print_nano : ℕ → List ℕ → List ℕ
  print_nano nano format =
      if int64_lt nano 0 || nano == 0
      then codes "NULL"
      else strftime format (localtime (nano / nanoseconds_per_second))
