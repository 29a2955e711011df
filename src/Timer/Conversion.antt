-- ===== src/Timer/Conversion.antt =====
-- The `switch` of strptime, include/yijinjing/journal/Timer.cpp.
pub mod Ends
use yijinjing_lite.Prelude.{
  ℕ, ◌+◌, ◌-◌, ◌*◌, ◌%◌, ◌^◌, Bool, true, false, ◌||◌, List, [], ◌∷◌, none, some, codes, bytes_eq,
  leb, ◌==◌, if◌then◌else◌,
}
use yijinjing_lite.Memory.{int_lt}
use yijinjing_lite.FileName.Decimal.{is_space}
use yijinjing_lite.Timer.Number.{conv_num}
use yijinjing_lite.Timer.Fields.{
  Tm, tm_year_base, int_rem, int_quot, Name, days, months, find_name, State, Parse, parsed, refused,
  too_deep, Alternative, alt_e, alt_o, legal_alt, Mode, in_text, in_conversion,
}

-- The cases of the switch.
pub data Conversion : Type 0 where
  percent modifier_e modifier_o : Conversion
  date_time date hour_minute time_12 time locale_time locale_date : Conversion
  day_name month_name century month_day hour_blank hour hour_12_blank hour_12 : Conversion
  year_day minute month am_pm second week week_day year short_year white_space unknown : Conversion

-- The case labels.
unfoldable pub conversion_of : ℕ → Conversion
conversion_of c =
    if c == b'%'
    then percent
    else if c == b'E'
    then modifier_e
    else if c == b'O'
    then modifier_o
    else if c == b'c'
    then date_time
    else if c == b'D'
    then date
    else if c == b'R'
    then hour_minute
    else if c == b'r'
    then time_12
    else if c == b'T'
    then time
    else if c == b'X'
    then locale_time
    else if c == b'x'
    then locale_date
    else if c == b'A' || c == b'a'
    then day_name
    else if c == b'B' || c == b'b' || c == b'h'
    then month_name
    else if c == b'C'
    then century
    else if c == b'd' || c == b'e'
    then month_day
    else if c == b'k'
    then hour_blank
    else if c == b'H'
    then hour
    else if c == b'l'
    then hour_12_blank
    else if c == b'I'
    then hour_12
    else if c == b'j'
    then year_day
    else if c == b'M'
    then minute
    else if c == b'm'
    then month
    else if c == b'p'
    then am_pm
    else if c == b'S'
    then second
    else if c == b'U' || c == b'W'
    then week
    else if c == b'w'
    then week_day
    else if c == b'Y'
    then year
    else if c == b'y'
    then short_year
    else if c == b'n' || c == b't'
    then white_space
    else unknown

-- while (isspace(*bp)) bp++;
unfoldable pub skip_space : List ℕ → List ℕ
unfolding is_space
skip_space [] = []
skip_space (c ∷ s) = let rest = skip_space s in if is_space c then rest else c ∷ s

-- if (c != *bp++) return 0;
unfoldable pub literal : ℕ → State → Parse State
literal c st = elim st.text [
  | [] ↦ refused st.tm
  | d ∷ s ↦ if c == d then parsed (record st { text = s }) else refused st.tm
]

-- A number between the limits, stored by `store`.
unfoldable pub number : ℕ → ℕ → (ℕ → State → State) → State → Parse State
number llim ulim store st = elim (conv_num llim ulim st.text) [
  | none ↦ refused st.tm
  | some (n, s) ↦ parsed (store n (record st { text = s }))
]

-- A name of the table; its index is stored.
unfoldable pub name : List Name → (ℕ → State → State) → State → Parse State
name names store st = elim (find_name names 0 st.text) [
  | none ↦ refused st.tm
  | some (i, s) ↦ parsed (store i (record st { text = s }))
]

set_tm : (ℕ → Tm → Tm) → ℕ → State → State
set_tm set n st = record st { tm = set n st.tm }

set_century : ℕ → State → State
set_century i st =
    if st.split_year
    then record st {
      tm = record st.tm { tm_year = (int_rem st.tm.tm_year 100 + i * 100) % 2 ^ 32 };
    }
    else record st { tm = record st.tm { tm_year = i * 100 }; split_year = true }

set_hour_12 : ℕ → State → State
set_hour_12 n st = record st { tm = record st.tm { tm_hour = if n == 12 then 0 else n } }

set_year : ℕ → State → State
set_year i st = record st { tm = record st.tm { tm_year = (i + 2 ^ 32 - tm_year_base) % 2 ^ 32 } }

set_short_year : ℕ → State → State
set_short_year i st =
    if st.split_year
    then record st {
      tm = record st.tm { tm_year = (int_quot st.tm.tm_year 100 * 100 + i) % 2 ^ 32 };
    }
    else record st {
      tm = record st.tm {
        tm_year = (i + (if leb i 68 then 2000 else 1900) + 2 ^ 32 - tm_year_base) % 2 ^ 32;
      };
      split_year = true;
    }

-- strcmp(am_pm[i], bp) == 0 is a test of the whole text that is left.
half_day : State → Parse State
half_day st =
    if bytes_eq (codes "AM") st.text
    then if int_lt 11 st.tm.tm_hour then refused st.tm else parsed (record st { text = [] })
    else if bytes_eq (codes "PM") st.text
    then if int_lt 11 st.tm.tm_hour
      then refused st.tm
      else parsed
          (record st { text = []; tm = record st.tm { tm_hour = (st.tm.tm_hour + 12) % 2 ^ 32 } })
    else refused st.tm

-- What a nested call gives; it has a `split_year` of its own.
resume : State → Parse (List ℕ × Tm) → Parse State
resume st (parsed (s, tm)) = parsed (record st { text = s; tm = tm })
resume st (refused tm) = refused tm
resume st too_deep = too_deep

-- `break` of the switch, after LEGAL_ALT.
leave : Bool → Bool → Alternative → State → Parse State → Parse (Mode × State)
leave e o alt st (parsed st') = if legal_alt e o alt then parsed (in_text, st') else refused st.tm
leave e o alt st (refused tm) = if legal_alt e o alt then refused tm else refused st.tm
leave e o alt st too_deep = if legal_alt e o alt then too_deep else refused st.tm

-- `goto again`, after LEGAL_ALT(0).
again : Alternative → Alternative → State → Parse (Mode × State)
again alt alt' st =
    if legal_alt false false alt then parsed (in_conversion alt', st) else refused st.tm

-- `nested` is strptime itself.
module _ (nested : List ℕ → List ℕ → Tm → Parse (List ℕ × Tm)) where
  call : List ℕ → State → Parse State
  unfolding resume
  call format st = resume st (nested format st.text st.tm)

  -- The switch.
  unfoldable pub convert : Conversion → Alternative → State → Parse (Mode × State)
  unfolding call leave again half_day set_tm set_century set_hour_12 set_year set_short_year literal
      number name skip_space legal_alt
  convert percent alt st = leave true true alt st (literal b'%' st)
  convert modifier_e alt st = again alt alt_e st
  convert modifier_o alt st = again alt alt_o st
  convert date_time alt st = leave true false alt st (call (codes "%x %X") st)
  convert date alt st = leave false false alt st (call (codes "%m/%d/%y") st)
  convert hour_minute alt st = leave false false alt st (call (codes "%H:%M") st)
  convert time_12 alt st = leave false false alt st (call (codes "%I:%M:%S %p") st)
  convert time alt st = leave false false alt st (call (codes "%H:%M:%S") st)
  convert locale_time alt st = leave true false alt st (call (codes "%H:%M:%S") st)
  convert locale_date alt st = leave true false alt st (call (codes "%m/%d/%y") st)
  convert day_name alt st =
      leave false false alt st (name days (set_tm (λ n tm. record tm { tm_wday = n })) st)
  convert month_name alt st =
      leave false false alt st (name months (set_tm (λ n tm. record tm { tm_mon = n })) st)
  convert century alt st = leave true false alt st (number 0 99 set_century st)
  convert month_day alt st =
      leave false true alt st (number 1 31 (set_tm (λ n tm. record tm { tm_mday = n })) st)
  convert hour_blank alt st =
      leave false false alt st (number 0 23 (set_tm (λ n tm. record tm { tm_hour = n })) st)
  convert hour alt st =
      leave false true alt st (number 0 23 (set_tm (λ n tm. record tm { tm_hour = n })) st)
  convert hour_12_blank alt st = leave false false alt st (number 1 12 set_hour_12 st)
  convert hour_12 alt st = leave false true alt st (number 1 12 set_hour_12 st)
  convert year_day alt st =
      leave false false alt st (number 1 366 (set_tm (λ n tm. record tm { tm_yday = n - 1 })) st)
  convert minute alt st =
      leave false true alt st (number 0 59 (set_tm (λ n tm. record tm { tm_min = n })) st)
  convert month alt st =
      leave false true alt st (number 1 12 (set_tm (λ n tm. record tm { tm_mon = n - 1 })) st)
  convert am_pm alt st = leave false false alt st (half_day st)
  convert second alt st =
      leave false true alt st (number 0 61 (set_tm (λ n tm. record tm { tm_sec = n })) st)
  convert week alt st = leave false true alt st (number 0 53 (λ n st'. st') st)
  convert week_day alt st =
      leave false true alt st (number 0 6 (set_tm (λ n tm. record tm { tm_wday = n })) st)
  convert year alt st = leave true false alt st (number 0 9999 set_year st)
  convert short_year alt st = leave true true alt st (number 0 99 set_short_year st)
  convert white_space alt st =
      leave false false alt st (parsed (record st { text = skip_space st.text }))
  convert unknown alt st = refused st.tm
