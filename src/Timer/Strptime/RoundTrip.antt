-- ===== src/Timer/Strptime/RoundTrip.antt =====
-- strptime against the text of a time.
use yijinjing_lite.Prelude.{
  false, some, ◌∙◌, ℕ, suc, ◌+◌, ◌-◌, ◌%◌, ◌^◌, ◌≤◌, ◌<◌, ◌≡◌, List, [], ◌∷◌, ◌++◌, codes, arith,
}
use yijinjing_lite.Timer.Number.{
  two_digits, four_digits, conv_num, conv_num-two_digits, conv_num-four_digits,
}
use yijinjing_lite.Timer.Fields.{Tm, State, Parse, parsed, in_text, plain}
use yijinjing_lite.Timer.Conversion.{
  conversion_of, convert, literal, year, month, month_day, hour, minute, second,
}
use yijinjing_lite.Timer.Strptime.{run_format, step, strptime}

-- The format that Timer.h names as an example.
abbrev pub long_format : List ℕ
long_format = codes "%Y%m%d-%H:%M:%S"

-- A time of day of the calendar, in numbers as they are printed.
pub record Moment : Type 0 where
  pub year : ℕ
  pub month : ℕ
  pub day : ℕ
  pub hour : ℕ
  pub minute : ℕ
  pub second : ℕ

pub record IsMoment (t : Moment) : Type 0 where
  pub year_fits : t.year < 10000
  pub month_pos : 1 ≤ t.month
  pub month_fits : t.month ≤ 12
  pub day_pos : 1 ≤ t.day
  pub day_fits : t.day ≤ 31
  pub hour_fits : t.hour ≤ 23
  pub minute_fits : t.minute ≤ 59
  pub second_fits : t.second ≤ 61

-- The moment as the format prints it.
abbrev pub printed : Moment → List ℕ → List ℕ
printed t rest =
    four_digits t.year
    ++ (two_digits t.month
        ++ (two_digits t.day
            ++ (b'-'
                ∷ (two_digits t.hour
                    ++ (b':' ∷ (two_digits t.minute ++ (b':' ∷ (two_digits t.second ++ rest))))))))

-- The moment in a struct.
abbrev pub stored : Moment → Tm → Tm
stored t tm = record tm {
  tm_year = (t.year + 2 ^ 32 - 1900) % 2 ^ 32;
  tm_mon = t.month - 1;
  tm_mday = t.day;
  tm_hour = t.hour;
  tm_min = t.minute;
  tm_sec = t.second;
}

module _ (nested : List ℕ → List ℕ → Tm → Parse (List ℕ × Tm)) (st : State) where
  -- A conversion that succeeds is passed.
  run_format-convert :
      (c : ℕ) (format : List ℕ) (st' : State)
      → convert nested (conversion_of c) plain st ≡ parsed (in_text, st')
      → run_format nested in_text (b'%' ∷ (c ∷ format)) st ≡ run_format nested in_text format st'
  unfolding run_format step
  run_format-convert c format st' h = ground (arith, h)

  module _ (n : ℕ) (s : List ℕ) where
    convert-year :
        conv_num 0 9999 st.text ≡ some (n, s)
        → convert nested year plain st
          ≡ parsed (
            in_text,
            record st { text = s; tm = record st.tm { tm_year = (n + 2 ^ 32 - 1900) % 2 ^ 32 } },
          )
    unfolding convert
    convert-year h = ground (arith, h)

    convert-month :
        conv_num 1 12 st.text ≡ some (n, s)
        → convert nested month plain st
          ≡ parsed (in_text, record st { text = s; tm = record st.tm { tm_mon = n - 1 } })
    unfolding convert
    convert-month h = ground (arith, h)

    convert-month_day :
        conv_num 1 31 st.text ≡ some (n, s)
        → convert nested month_day plain st
          ≡ parsed (in_text, record st { text = s; tm = record st.tm { tm_mday = n } })
    unfolding convert
    convert-month_day h = ground (arith, h)

    convert-hour :
        conv_num 0 23 st.text ≡ some (n, s)
        → convert nested hour plain st
          ≡ parsed (in_text, record st { text = s; tm = record st.tm { tm_hour = n } })
    unfolding convert
    convert-hour h = ground (arith, h)

    convert-minute :
        conv_num 0 59 st.text ≡ some (n, s)
        → convert nested minute plain st
          ≡ parsed (in_text, record st { text = s; tm = record st.tm { tm_min = n } })
    unfolding convert
    convert-minute h = ground (arith, h)

    convert-second :
        conv_num 0 61 st.text ≡ some (n, s)
        → convert nested second plain st
          ≡ parsed (in_text, record st { text = s; tm = record st.tm { tm_sec = n } })
    unfolding convert
    convert-second h = ground (arith, h)

-- The states on the way.
abbrev reading : List ℕ → Tm → State
reading text tm = record { text = text; tm = tm; split_year = false }

-- A moment whose fields are in the ranges of the calendar, printed as `%Y%m%d-%H:%M:%S`, is read
-- back by `strptime` into the struct, whose other fields stay, and what stands behind it in the
-- text is left.
pub strptime-printed :
    (depth : ℕ) (t : Moment) (rest : List ℕ) (tm : Tm)
    → IsMoment t
    → strptime (suc depth) long_format (printed t rest) tm ≡ parsed (rest, stored t tm)
unfolding strptime run_format step literal conversion_of
strptime-printed depth t rest tm v =
    let self = strptime depth in
    let after_minute : List ℕ = b':' ∷ (two_digits t.second ++ rest) in
    let after_hour : List ℕ = b':' ∷ (two_digits t.minute ++ after_minute) in
    let after_day : List ℕ = b'-' ∷ (two_digits t.hour ++ after_hour) in
    let after_month = two_digits t.day ++ after_day in
    let after_year = two_digits t.month ++ after_month in
    let tm1 : Tm = record tm { tm_year = (t.year + 2 ^ 32 - 1900) % 2 ^ 32 } in
    let tm2 : Tm = record tm1 { tm_mon = t.month - 1 } in
    let tm3 : Tm = record tm2 { tm_mday = t.day } in
    let tm4 : Tm = record tm3 { tm_hour = t.hour } in
    let tm5 : Tm = record tm4 { tm_min = t.minute } in
    run_format-convert self (reading (printed t rest) tm) b'Y' (codes "%m%d-%H:%M:%S")
      (reading after_year tm1)
      (convert-year self (reading (printed t rest) tm) t.year after_year
        (conv_num-four_digits t.year after_year v.year_fits))
    ∙ run_format-convert self (reading after_year tm1) b'm' (codes "%d-%H:%M:%S")
        (reading after_month tm2)
        (convert-month self (reading after_year tm1) t.month after_month (
          conv_num-two_digits 1 12 t.month after_month v.month_pos v.month_fits (omega arith)
            (omega arith)))
    ∙ run_format-convert self (reading after_month tm2) b'd' (codes "-%H:%M:%S")
        (reading after_day tm3)
        (convert-month_day self (reading after_month tm2) t.day after_day (
          conv_num-two_digits 1 31 t.day after_day v.day_pos v.day_fits (omega arith)
            (omega arith)))
    ∙ run_format-convert self (reading (two_digits t.hour ++ after_hour) tm3) b'H' (codes ":%M:%S")
        (reading after_hour tm4)
        (convert-hour self (reading (two_digits t.hour ++ after_hour) tm3) t.hour after_hour (
          conv_num-two_digits 0 23 t.hour after_hour (omega arith) v.hour_fits (omega arith)
            (omega arith)))
    ∙ run_format-convert self (reading (two_digits t.minute ++ after_minute) tm4) b'M' (codes ":%S")
        (reading after_minute tm5)
        (convert-minute self (reading (two_digits t.minute ++ after_minute) tm4) t.minute
          after_minute
          (conv_num-two_digits 0 59 t.minute after_minute (omega arith) v.minute_fits (omega arith)
            (omega arith)))
    ∙ run_format-convert self (reading (two_digits t.second ++ rest) tm5) b'S' []
        (reading rest (stored t tm))
        (convert-second self (reading (two_digits t.second ++ rest) tm5) t.second rest (
          conv_num-two_digits 0 61 t.second rest (omega arith) v.second_fits (omega arith)
            (omega arith)))
