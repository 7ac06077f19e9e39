-- ===== src/Budget/Forecast.antt =====
-- `forecast_eta` and what it calls, crates/jesterky-contract/src/budget.rs.

-- 0.5, 0.75, 0.85, 1.25, 1.5, 2.0
use jesterky.Budget.Defs.{low, medium, BudgetForecast, high, ForecastConfidence}
use jesterky.F64.{
  f64_mul, one_f64, f64_max, f64_sub, f64_div, zero_f64, f64_min, is_finite, F64, f64_lt, f64_le,
}
use jesterky.Prelude.{
  ◌/◌, length, ◌&&◌, [], get_elem?, leb, unwrap_or, some, Option, if◌then◌else◌, ◌∷◌, none, String,
  ℕ, List,
}

abbrev half : F64
half = record { bits = 0x3fe0000000000000 }

abbrev three_quarters : F64
three_quarters = record { bits = 0x3fe8000000000000 }

abbrev point_85 : F64
point_85 = record { bits = 0x3feb333333333333 }

abbrev one_quarter_more : F64
one_quarter_more = record { bits = 0x3ff4000000000000 }

abbrev one_half_more : F64
one_half_more = record { bits = 0x3ff8000000000000 }

abbrev two : F64
two = record { bits = 0x4000000000000000 }

-- A sample: seconds and the amount then.
abbrev pub Sample : Type 0
Sample = F64 × F64

-- `series.windows(2)`, with the sample before the window.
rates_after : Sample → List Sample → List F64
rates_after before [] = []
rates_after (t0, s0) ((t1, s1) ∷ series) =
    let dt = f64_sub t1 t0 in
    let ds = f64_sub s1 s0 in
    let rest = rates_after (t1, s1) series in
    if f64_le one_f64 dt && f64_lt zero_f64 ds then f64_div ds dt ∷ rest else rest

unfoldable pub positive_rates : List Sample → List F64
unfolding rates_after f64_le f64_lt
positive_rates [] = []
positive_rates (s ∷ series) = rates_after s series

-- `sort_by` with `partial_cmp`, where NaN counts as equal: a stable insertion.
insert_rate : F64 → List F64 → List F64
unfolding f64_lt
insert_rate r [] = r ∷ []
insert_rate r (x ∷ xs) = let rest = insert_rate r xs in if f64_lt x r then x ∷ rest else r ∷ x ∷ xs

sorted_rates : List F64 → List F64
unfolding insert_rate
sorted_rates [] = []
sorted_rates (r ∷ rs) = insert_rate r (sorted_rates rs)

abbrev confidence_of : ℕ → ForecastConfidence
confidence_of n = if leb n 2 then low else if leb n 5 then medium else high

-- The loop variables of `forecast_eta`: model, rate, confidence.
abbrev pub Pick : Type 0
Pick = String × Option F64 × ForecastConfidence

unfoldable pub pick_rate : List F64 → Pick
unfolding sorted_rates
pick_rate [] = ("insufficient_samples", none, ForecastConfidence.unknown)
pick_rate (r ∷ rs) =
    let sorted = sorted_rates (r ∷ rs) in
    ("median_rate", get_elem? sorted (length sorted / 2), confidence_of (length sorted))

unfoldable pub interval_multipliers : ForecastConfidence → F64 × F64
interval_multipliers high = (point_85, one_quarter_more)
interval_multipliers medium = (three_quarters, one_half_more)
interval_multipliers low = (half, two)
interval_multipliers ForecastConfidence.unknown = (half, two)

abbrev pub last : List Sample → Option Sample
last [] = none
last (s ∷ []) = some s
last (s ∷ t ∷ series) = last (t ∷ series)

-- The median against the average over the whole series.
unfoldable pub capped_rate : F64 → Sample → Sample → F64
unfolding f64_lt f64_le f64_min
capped_rate r (t0, s0) (t1, s1) =
    let elapsed_avg = f64_div (f64_sub s1 s0) (f64_sub t1 t0) in
    if f64_lt t0 t1 && f64_le s0 s1 && f64_lt zero_f64 elapsed_avg
    then f64_min r (f64_mul elapsed_avg one_half_more)
    else r

abbrev cap_pick : Pick → List Sample → Pick
cap_pick (model, none, confidence) series = (model, none, confidence)
cap_pick (model, some r, confidence) [] = (model, some r, confidence)
cap_pick (model, some r, confidence) (s ∷ series) =
    (model, some (capped_rate r s (unwrap_or (last (s ∷ series)) s)), confidence)

-- `rate.or_else(..)`
unfoldable pub or_elapsed : Pick → List Sample → F64 → F64 → Pick
unfolding f64_lt
or_elapsed (model, some r, confidence) series wall_secs min_wall_secs = (model, some r, confidence)
or_elapsed (model, none, confidence) series wall_secs min_wall_secs =
    let spent = (unwrap_or (last series) (zero_f64, zero_f64)).1 in
    if f64_lt min_wall_secs wall_secs && f64_lt zero_f64 spent
    then ("elapsed_average", some (f64_div spent wall_secs), low)
    else (model, none, confidence)

unfoldable pub forecast_at : Pick → F64 → ℕ → BudgetForecast
unfolding f64_lt is_finite f64_max interval_multipliers
forecast_at (model, rate, confidence) remaining n =
    let none_yet : BudgetForecast = record {
      model = "insufficient_samples";
      seconds_to_limit = none;
      seconds_to_limit_low = none;
      seconds_to_limit_high = none;
      rate_per_second = none;
      confidence = ForecastConfidence.unknown;
      sample_count = n;
    } in
    elim rate [
      | none ↦ none_yet
      | some r ↦
          let seconds = f64_max (f64_div remaining r) zero_f64 in
          let (lo_m, hi_m) = interval_multipliers confidence in
          if f64_lt zero_f64 r && is_finite r
          then record {
            model = model;
            seconds_to_limit = some seconds;
            seconds_to_limit_low = some (f64_max (f64_mul seconds lo_m) zero_f64);
            seconds_to_limit_high = some (f64_max (f64_mul seconds hi_m) zero_f64);
            rate_per_second = some r;
            confidence = confidence;
            sample_count = n;
          }
          else none_yet
    ]

-- The three steps that choose the rate.
abbrev pub picked : List Sample → F64 → F64 → Pick
picked series wall_secs min_wall_secs =
    or_elapsed (cap_pick (pick_rate (positive_rates series)) series) series wall_secs min_wall_secs

unfoldable pub forecast_eta : F64 → List Sample → F64 → F64 → BudgetForecast
unfolding f64_le positive_rates pick_rate capped_rate or_elapsed forecast_at
forecast_eta remaining series wall_secs min_wall_secs =
    if f64_le remaining zero_f64
    then record {
      model = "exhausted";
      seconds_to_limit = some zero_f64;
      seconds_to_limit_low = some zero_f64;
      seconds_to_limit_high = some zero_f64;
      rate_per_second = none;
      confidence = high;
      sample_count = length series;
    }
    else forecast_at (picked series wall_secs min_wall_secs) remaining (length series)
