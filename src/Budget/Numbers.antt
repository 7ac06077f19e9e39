-- ===== src/Budget/Numbers.antt =====
-- The seconds of a forecast are a number.

use jesterky.Budget.Engine.{series_of, forecast_series, remaining_of, BudgetObservation, item_of}
use jesterky.Budget.Defs.{BudgetCap, BudgetPlan, BudgetStatus}
use jesterky.Prelude.{
  map, [], refl, true, length, ◌∷◌, Bool, All, List, inr, inl, ◌&&◌, none, arith, false, Bool-cases,
  ℕ, ◌≡◌, some, Option,
}
use jesterky.Budget.Forecast.{picked, Sample, forecast_eta, Pick, forecast_at}
use jesterky.F64.{f64_le, f64_div, is_finite, zero_f64, is_nan, f64_lt, F64, f64_max}

abbrev pub IsNumber? : Option F64 → Type 0
IsNumber? none = Unit
IsNumber? (some s) = is_nan s ≡ false

max-number : (a : F64) → is_nan (f64_max a zero_f64) ≡ false
unfolding f64_max is_nan
max-number a = ground arith

forecast-IsNumber :
    (pick : Pick) (remaining : F64) (n : ℕ)
    → IsNumber? (forecast_at pick remaining n).seconds_to_limit
unfolding forecast_at
forecast-IsNumber (model, none, confidence) remaining n = tt
forecast-IsNumber (model, some r, confidence) remaining n =
    elim (Bool-cases (f64_lt zero_f64 r && is_finite r)) [
      | inl usable ↦ rw usable (max-number (f64_div remaining r))
      | inr other ↦ rw other tt
    ]

forecast_eta-IsNumber :
    (remaining : F64) (series : List Sample) (wall_secs min_wall_secs : F64)
    → IsNumber? (forecast_eta remaining series wall_secs min_wall_secs).seconds_to_limit
unfolding forecast_eta
forecast_eta-IsNumber remaining series wall_secs min_wall_secs =
    elim (Bool-cases (f64_le remaining zero_f64)) [
      | inl used_up ↦ rw used_up (unfold is_nan in refl)
      | inr left ↦
          rw left
            (forecast-IsNumber (picked series wall_secs min_wall_secs) remaining (length series))
    ]

abbrev pub seconds : BudgetStatus → Option F64
seconds i = i.forecast.seconds_to_limit

item_of-IsNumber :
    (plan : BudgetPlan) (observations : List BudgetObservation) (wall_secs : F64) (eta : Bool)
    (cap : BudgetCap)
    → IsNumber? (seconds (item_of plan observations wall_secs eta cap))
unfolding item_of
item_of-IsNumber plan observations wall_secs true cap =
    forecast_eta-IsNumber (remaining_of cap observations wall_secs)
      (forecast_series (series_of cap observations)) wall_secs plan.eta.min_wall_secs
item_of-IsNumber plan observations wall_secs false cap = tt

pub items-IsNumber :
    (plan : BudgetPlan) (observations : List BudgetObservation) (wall_secs : F64) (eta : Bool)
    (caps : List BudgetCap)
    → All
        (λ (i : BudgetStatus). IsNumber? (seconds i))
        (map (item_of plan observations wall_secs eta) caps)
items-IsNumber plan observations wall_secs eta [] = tt
items-IsNumber plan observations wall_secs eta (c ∷ caps) = (
  item_of-IsNumber plan observations wall_secs eta c,
  items-IsNumber plan observations wall_secs eta caps,
)
