-- ===== src/Timer/Conversion/Ends.antt =====
-- Which conversions of strptime call strptime, and how deep.
use yijinjing_lite.Prelude.{
  ◌==◌, ℕ, suc, ◌≤◌, ◌≡◌, ◌≢◌, refl, Bool, true, false, List, [], ◌∷◌, All, Option-cases, inl, inr,
  arith, if◌then◌else◌,
}
use yijinjing_lite.Timer.Number.{conv_num}
use yijinjing_lite.Timer.Fields.{
  Tm, State, Parse, parsed, refused, too_deep, Name, find_name, legal_alt, Alternative, alt_e,
  alt_o,
}
use yijinjing_lite.Timer.Conversion.{
  Conversion, percent, modifier_e, modifier_o, date_time, date, hour_minute, time_12, time,
  locale_time, locale_date, day_name, month_name, century, month_day, hour_blank, hour,
  hour_12_blank, hour_12, year_day, minute, month, am_pm, second, week, week_day, year, short_year,
  white_space, unknown, conversion_of, literal, number, name, half_day, resume, leave, again, call,
  convert,
}

-- The calls below a conversion.
unfoldable pub rank : Conversion → ℕ
rank date_time = 2
rank date = 1
rank hour_minute = 1
rank time_12 = 1
rank time = 1
rank locale_time = 1
rank locale_date = 1
rank _ = 0

abbrev pub Ends : {A : Type 0} → Parse A → Type 0
Ends (parsed a) = Unit {0}
Ends (refused tm) = Unit {0}
Ends too_deep = ⊥

module _ {A : Type 0} where
  pub Ends-if : (b : Bool) (x y : Parse A) → Ends x → Ends y → Ends (if b then x else y)
  Ends-if true x y hx hy = hx
  Ends-if false x y hx hy = hy

  pub Ends-ne_too_deep : (r : Parse A) → Ends r → r ≢ too_deep
  Ends-ne_too_deep (parsed a) h = λ e. cc
  Ends-ne_too_deep (refused tm) h = λ e. cc
  Ends-ne_too_deep too_deep h = absurd h

leave-Ends :
    (e o : Bool) (alt : Alternative) (st : State) (r : Parse State)
    → Ends r
    → Ends (leave e o alt st r)
unfolding leave
leave-Ends e o alt st (parsed st') h = Ends-if (legal_alt e o alt) _ _ tt tt
leave-Ends e o alt st (refused tm) h = Ends-if (legal_alt e o alt) _ _ tt tt
leave-Ends e o alt st too_deep h = absurd h

again-Ends : (alt alt' : Alternative) (st : State) → Ends (again alt alt' st)
unfolding again
again-Ends alt alt' st = search (Ends-if, tt)

number-Ends :
    (llim ulim : ℕ) (store : ℕ → State → State) (st : State) → Ends (number llim ulim store st)
unfolding number
number-Ends llim ulim store st = elim (Option-cases (conv_num llim ulim st.text)) [
  | inl e ↦ rw (e, number) tt
  | inr (a, e) ↦ rw (e, number) tt
]

name-Ends :
    (names : List Name) (store : ℕ → State → State) (st : State) → Ends (name names store st)
unfolding name
name-Ends names store st = elim (Option-cases (find_name names 0 st.text)) [
  | inl e ↦ rw (e, name) tt
  | inr (a, e) ↦ rw (e, name) tt
]

literal_text-Ends : (c : ℕ) (text : List ℕ) (st : State) → st.text ≡ text → Ends (literal c st)
unfolding literal
literal_text-Ends c [] st e = rw (e, literal) tt
literal_text-Ends c (d ∷ s) st e = rw (e, literal) (Ends-if (c == d) _ _ tt tt)

pub literal-Ends : (c : ℕ) (st : State) → Ends (literal c st)
literal-Ends c st = literal_text-Ends c st.text st refl

half_day-Ends : (st : State) → Ends (half_day st)
unfolding half_day
half_day-Ends st = search (Ends-if, tt)

resume-Ends : (st : State) (r : Parse (List ℕ × Tm)) → Ends r → Ends (resume st r)
unfolding resume
resume-Ends st (parsed (s, tm)) h = tt
resume-Ends st (refused tm) h = tt
resume-Ends st too_deep h = h

ruleset flat_rules =
    (Ends-if, leave-Ends, again-Ends, number-Ends, name-Ends, literal-Ends, half_day-Ends, tt)

module _ (nested : List ℕ → List ℕ → Tm → Parse (List ℕ × Tm)) where
  -- A conversion that makes no call.
  pub convert_flat-Ends :
      (conv : Conversion) (alt : Alternative) (st : State)
      → rank conv ≡ 0
      → Ends (convert nested conv alt st)
  unfolding convert rank
  convert_flat-Ends percent alt st h = search flat_rules
  convert_flat-Ends modifier_e alt st h = again-Ends alt alt_e st
  convert_flat-Ends modifier_o alt st h = again-Ends alt alt_o st
  convert_flat-Ends day_name alt st h = search flat_rules
  convert_flat-Ends month_name alt st h = search flat_rules
  convert_flat-Ends century alt st h = search flat_rules
  convert_flat-Ends month_day alt st h = search flat_rules
  convert_flat-Ends hour_blank alt st h = search flat_rules
  convert_flat-Ends hour alt st h = search flat_rules
  convert_flat-Ends hour_12_blank alt st h = search flat_rules
  convert_flat-Ends hour_12 alt st h = search flat_rules
  convert_flat-Ends year_day alt st h = search flat_rules
  convert_flat-Ends minute alt st h = search flat_rules
  convert_flat-Ends month alt st h = search flat_rules
  convert_flat-Ends am_pm alt st h = search flat_rules
  convert_flat-Ends second alt st h = search flat_rules
  convert_flat-Ends week alt st h = search flat_rules
  convert_flat-Ends week_day alt st h = search flat_rules
  convert_flat-Ends year alt st h = search flat_rules
  convert_flat-Ends short_year alt st h = search flat_rules
  convert_flat-Ends white_space alt st h = search flat_rules
  convert_flat-Ends unknown alt st h = tt
  convert_flat-Ends _ alt st h = absurd (omega (arith, h))

  -- A conversion whose calls end, for formats that need less depth.
  pub convert-Ends :
      (k : ℕ)
      → ((format text : List ℕ) (tm : Tm)
          → All (λ c. rank (conversion_of c) ≤ k) format
          → Ends (nested format text tm))
      → (conv : Conversion) (alt : Alternative) (st : State) → rank conv ≤ suc k
      → Ends (convert nested conv alt st)
  unfolding convert call rank conversion_of
  convert-Ends k calls date_time alt st h =
      leave-Ends _ _ alt st _ (resume-Ends st _ (calls _ st.text st.tm (omega arith)))
  convert-Ends k calls date alt st h =
      leave-Ends _ _ alt st _ (resume-Ends st _ (calls _ st.text st.tm (omega arith)))
  convert-Ends k calls hour_minute alt st h =
      leave-Ends _ _ alt st _ (resume-Ends st _ (calls _ st.text st.tm (omega arith)))
  convert-Ends k calls time_12 alt st h =
      leave-Ends _ _ alt st _ (resume-Ends st _ (calls _ st.text st.tm (omega arith)))
  convert-Ends k calls time alt st h =
      leave-Ends _ _ alt st _ (resume-Ends st _ (calls _ st.text st.tm (omega arith)))
  convert-Ends k calls locale_time alt st h =
      leave-Ends _ _ alt st _ (resume-Ends st _ (calls _ st.text st.tm (omega arith)))
  convert-Ends k calls locale_date alt st h =
      leave-Ends _ _ alt st _ (resume-Ends st _ (calls _ st.text st.tm (omega arith)))
  convert-Ends k calls conv alt st h = convert_flat-Ends conv alt st refl
