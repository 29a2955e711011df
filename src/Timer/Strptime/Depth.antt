-- ===== src/Timer/Strptime/Depth.antt =====
-- How deep strptime calls itself.
use yijinjing_lite.Prelude.{ℕ, zero, suc, ◌≤◌, ◌≢◌, List, [], ◌∷◌, All, arith, ◌==◌}
use yijinjing_lite.FileName.Decimal.{is_space}
use yijinjing_lite.Timer.Fields.{
  Tm, State, Parse, parsed, refused, too_deep, Mode, in_text, in_conversion, Alternative,
}
use yijinjing_lite.Timer.Conversion.{Conversion, conversion_of, convert}
use yijinjing_lite.Timer.Conversion.Ends.{
  rank, Ends, Ends-if, Ends-ne_too_deep, literal-Ends, convert_flat-Ends, convert-Ends,
}
use yijinjing_lite.Timer.Strptime.{stay, text_step, finish, step, run_format, strptime}

stay-Ends : (r : Parse State) → Ends r → Ends (stay r)
unfolding stay
stay-Ends (parsed st) h = tt
stay-Ends (refused tm) h = tt
stay-Ends too_deep h = h

text_step-Ends : (c : ℕ) (st : State) → Ends (text_step c st)
unfolding text_step
text_step-Ends c st =
    Ends-if (is_space c) _ _ tt (Ends-if (c == b'%') _ _ tt (stay-Ends _ (literal-Ends c st)))

finish-Ends : (mode : Mode) (st : State) → Ends (finish mode st)
unfolding finish
finish-Ends in_text st = tt
finish-Ends (in_conversion alt) st = tt

module _ (nested : List ℕ → List ℕ → Tm → Parse (List ℕ × Tm)) (d : ℕ)
    (converts : (conv : Conversion) (alt : Alternative) (st : State)
      → rank conv ≤ d
      → Ends (convert nested conv alt st)) where
  step-Ends :
      (mode : Mode) (c : ℕ) (st : State) → rank (conversion_of c) ≤ d → Ends (step nested mode c st)
  unfolding step
  step-Ends in_text c st h = text_step-Ends c st
  step-Ends (in_conversion alt) c st h = converts (conversion_of c) alt st h

  proceed-Ends :
      (format : List ℕ) (r : Parse (Mode × State))
      → Ends r
      → ((mode : Mode) (st : State) → Ends (run_format nested mode format st))
      → Ends {A = List ℕ × Tm} (elim r [
        | parsed (mode, st) ↦ run_format nested mode format st
        | refused tm ↦ refused tm
        | too_deep ↦ too_deep
      ])
  proceed-Ends format (parsed (mode, st)) h k = k mode st
  proceed-Ends format (refused tm) h k = tt
  proceed-Ends format too_deep h k = h

  run_format-Ends :
      (mode : Mode) (format : List ℕ) (st : State)
      → All (λ c. rank (conversion_of c) ≤ d) format
      → Ends (run_format nested mode format st)
  unfolding run_format
  run_format-Ends mode [] st h = finish-Ends mode st
  run_format-Ends mode (c ∷ format) st h =
      proceed-Ends format (step nested mode c st) (step-Ends mode c st h.0)
        (λ mode' st'. run_format-Ends mode' format st' h.1)

-- The calls end for a format whose conversions have ranks up to `d`.
strptime-Ends :
    (d : ℕ) (format text : List ℕ) (tm : Tm)
    → All (λ c. rank (conversion_of c) ≤ d) format
    → Ends (strptime (suc d) format text tm)
unfolding strptime
strptime-Ends zero format text tm h =
    run_format-Ends (strptime zero) zero
      (λ conv alt st k. convert_flat-Ends (strptime zero) conv alt st (omega arith)) in_text format
      _ h
strptime-Ends (suc d) format text tm h =
    run_format-Ends (strptime (suc d)) (suc d)
      (λ conv alt st k. convert-Ends (strptime (suc d)) d (strptime-Ends d) conv alt st k) in_text
      format _ h

rank-le : (conv : Conversion) → rank conv ≤ 2
unfolding rank
rank-le conv = ground arith

ranks-le : (format : List ℕ) → All (λ c. rank (conversion_of c) ≤ 2) format
ranks-le [] = tt
ranks-le (c ∷ format) = (rank-le (conversion_of c), ranks-le format)

-- A depth of 3 is enough for `strptime` on every format, text and struct: it calls itself at
-- most twice deep.
pub strptime-ne-too_deep : (format text : List ℕ) (tm : Tm) → strptime 3 format text tm ≢ too_deep
strptime-ne-too_deep format text tm =
    Ends-ne_too_deep _ (strptime-Ends 2 format text tm (ranks-le format))
