-- ===== src/Timer/Strptime.antt =====
-- The loop of strptime over its format, include/yijinjing/journal/Timer.cpp. A format calls
-- strptime again for parts of it, at most two calls deep; `depth` bounds that.
pub mod Depth
pub mod RoundTrip
use yijinjing_lite.Prelude.{ℕ, zero, suc, false, List, [], ◌∷◌, ◌==◌, if◌then◌else◌}
use yijinjing_lite.FileName.Decimal.{is_space}
use yijinjing_lite.Timer.Fields.{
  Tm, State, Parse, parsed, refused, too_deep, Mode, in_text, in_conversion, plain,
}
use yijinjing_lite.Timer.Conversion.{conversion_of, convert, literal, skip_space}

stay : Parse State → Parse (Mode × State)
stay (parsed st) = parsed (in_text, st)
stay (refused tm) = refused tm
stay too_deep = too_deep

-- A byte of the format outside of a conversion.
text_step : ℕ → State → Parse (Mode × State)
unfolding stay
text_step c st =
    if is_space c
    then parsed (in_text, record st { text = skip_space st.text })
    else if c == b'%'
    then parsed (in_conversion plain, st)
    else stay (literal c st)

-- The NUL behind the format; behind a `%` it is an unknown conversion.
finish : Mode → State → Parse (List ℕ × Tm)
finish in_text st = parsed (st.text, st.tm)
finish (in_conversion alt) st = refused st.tm

module _ (nested : List ℕ → List ℕ → Tm → Parse (List ℕ × Tm)) where
  -- A byte of the format.
  unfoldable pub step : Mode → ℕ → State → Parse (Mode × State)
  unfolding text_step is_space
  step in_text c st = text_step c st
  step (in_conversion alt) c st = convert nested (conversion_of c) alt st

  unfoldable pub run_format : Mode → List ℕ → State → Parse (List ℕ × Tm)
  unfolding finish
  run_format mode [] st = finish mode st
  run_format mode (c ∷ format) st = elim (step mode c st) [
    | parsed (mode', st') ↦ run_format mode' format st'
    | refused tm ↦ refused tm
    | too_deep ↦ too_deep
  ]

-- The format, the text and the struct; the text behind what was read, and the struct.
unfoldable pub strptime : ℕ → List ℕ → List ℕ → Tm → Parse (List ℕ × Tm)
unfolding run_format step
strptime zero format text tm = too_deep
strptime (suc depth) format text tm =
    run_format (strptime depth) in_text format (record { text = text; tm = tm; split_year = false })
