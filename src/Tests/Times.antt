-- ===== src/Tests/Times.antt =====
-- Times as text, and readings of the clock.
use yijinjing_lite.Prelude.{◌+◌, ◌*◌, ◌%◌, ◌≡◌, true, none, some, codes, arith}
use yijinjing_lite.Memory.{int64_lt}
use yijinjing_lite.Timer.{nanoseconds_per_second, create, get_nano, get_sec_diff}
use yijinjing_lite.Timer.Number.{Number}
use yijinjing_lite.Timer.Clock.{get_nano-create, get_nano_shared}
use yijinjing_lite.Timer.Fields.{Tm, parsed, too_deep}
use yijinjing_lite.Timer.Strptime.{strptime}
use yijinjing_lite.Timer.Strptime.Depth.{strptime-ne-too_deep}
use yijinjing_lite.Timer.Strptime.RoundTrip.{Moment, IsMoment, long_format, strptime-printed}

abbrev blank : Tm
blank = record {
  tm_sec = 0;
  tm_min = 0;
  tm_hour = 0;
  tm_mday = 0;
  tm_mon = 0;
  tm_year = 0;
  tm_wday = 0;
  tm_yday = 0;
}

abbrev moment : Moment
moment = record { year = 2018; month = 3; day = 9; hour = 21; minute = 5; second = 30 }

moment-IsMoment : IsMoment moment
moment-IsMoment = record {
  year_fits = omega arith;
  month_pos = omega arith;
  month_fits = omega arith;
  day_pos = omega arith;
  day_fits = omega arith;
  hour_fits = omega arith;
  minute_fits = omega arith;
  second_fits = omega arith;
}

strptime-printed_example :
    strptime 3 long_format (codes "20180309-21:05:30 CST") blank
    ≡ parsed (
      codes " CST",
      record blank {
        tm_year = 118;
        tm_mon = 2;
        tm_mday = 9;
        tm_hour = 21;
        tm_min = 5;
        tm_sec = 30;
      },
    )
strptime-printed_example = strptime-printed 2 moment (codes " CST") blank moment-IsMoment

strptime-ne-too_deep_example : ¬ (strptime 3 (codes "%c") (codes "Fri") blank ≡ too_deep)
strptime-ne-too_deep_example = strptime-ne-too_deep (codes "%c") (codes "Fri") blank

get_nano-create_example :
    get_nano (create none 1500000000 7000000123) 7000000200
    ≡ 1500000000 * nanoseconds_per_second + 7000000123 % nanoseconds_per_second + 77
get_nano-create_example =
    get_nano-create 1500000000 7000000123 (omega arith) (omega arith) 7000000200 (omega arith)
      (omega arith)

get_nano_shared_example :
    (int64_lt (get_nano (create none 1500000000 7000000123) 7000000200) (
        get_nano
          (create (some (get_sec_diff (create none 1500000000 7000000123))) 1500000009 8000000000)
          8000000001)
      ≡ true)
    × (int64_lt
          (get_nano
            (create (some (get_sec_diff (create none 1500000000 7000000123))) 1500000009 8000000000)
            7000000200)
          (get_nano (create none 1500000000 7000000123) 8000000001)
        ≡ true)
get_nano_shared_example =
    get_nano_shared 1500000000 7000000123 (omega arith) (omega arith) 1500000009 8000000000
      7000000200 8000000001 (omega arith) (omega arith) (omega arith)
