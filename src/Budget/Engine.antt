-- ===== src/Budget/Engine.antt =====
-- `BudgetEngine::snapshot`, crates/jesterky-contract/src/budget.rs.

use jesterky.Budget.Forecast.{forecast_eta, Sample}
use jesterky.Prelude.{
  length, is_empty, not, map, false, ◌&&◌, true, [], any, Bool, unwrap_or, none, ◌∷◌, some,
  if◌then◌else◌, keep, String, ℕ, Option, List,
}
use jesterky.F64.{
  f64_of, f64_sub, f64_mul, f64_clamp, f64_le, f64_add, zero_f64, f64_div, is_finite, f64_lt,
  f64_max, F64,
}
use jesterky.Budget.Defs.{
  nearest_only, unlimited, off, tokens, warning, ForecastConfidence, BudgetSnapshot, exhausted,
  wall_seconds, actor_calls, BudgetForecast, BudgetState, BudgetCap, BudgetEtaMode, BudgetPlan,
  BudgetStatus, BudgetKind,
}

pub record BudgetObservation : Type 0 where
  pub kind : BudgetKind
  pub t_secs : F64
  pub spent : F64
  pub reserved : F64

abbrev pub kind_eq : BudgetKind → BudgetKind → Bool
kind_eq actor_calls actor_calls = true
kind_eq tokens tokens = true
kind_eq wall_seconds wall_seconds = true
kind_eq _ _ = false

abbrev pub kind_name : BudgetKind → String
kind_name actor_calls = "actor_calls"
kind_name tokens = "tokens"
kind_name wall_seconds = "wall_seconds"

abbrev unit : BudgetKind → String
unit actor_calls = "calls"
unit tokens = "tokens"
unit wall_seconds = "seconds"

abbrev pub warning_for : BudgetPlan → BudgetCap → F64
warning_for plan cap = unwrap_or cap.warning_percent plan.warning_percent

abbrev pub label_for : BudgetCap → String
label_for cap = unwrap_or cap.label (kind_name cap.kind)

abbrev is_off : BudgetEtaMode → Bool
is_off off = true
is_off nearest_only = false
is_off BudgetEtaMode.all = false

unfoldable pub is_valid : BudgetCap → Bool
unfolding is_finite f64_lt
is_valid cap = is_finite cap.max && f64_lt zero_f64 cap.max

abbrev pub last_of : List BudgetObservation → Option BudgetObservation
last_of [] = none
last_of (o ∷ []) = some o
last_of (o ∷ p ∷ os) = last_of (p ∷ os)

abbrev pub series_of : BudgetCap → List BudgetObservation → List BudgetObservation
series_of cap observations = keep (λ (o : BudgetObservation). kind_eq o.kind cap.kind) observations

abbrev pub amount : (BudgetObservation → F64) → Option BudgetObservation → F64
amount f none = zero_f64
amount f (some o) = f64_max (f o) zero_f64

unfoldable pub spent_of : BudgetCap → List BudgetObservation → F64 → F64
unfolding f64_max
spent_of cap observations wall_secs =
    let spent =
      amount (λ (o : BudgetObservation). o.spent) (last_of (series_of cap observations)) in
    if kind_eq cap.kind wall_seconds then f64_max wall_secs spent else spent

abbrev pub reserved_of : BudgetCap → List BudgetObservation → F64
reserved_of cap observations =
    amount (λ (o : BudgetObservation). o.reserved) (last_of (series_of cap observations))

abbrev pub committed_of : BudgetCap → List BudgetObservation → F64 → F64
committed_of cap observations wall_secs =
    f64_add (spent_of cap observations wall_secs) (reserved_of cap observations)

abbrev pub forecast_series : List BudgetObservation → List Sample
forecast_series [] = []
forecast_series (o ∷ os) =
    (f64_max o.t_secs zero_f64, f64_add (f64_max o.spent zero_f64) (f64_max o.reserved zero_f64))
    ∷ forecast_series os

abbrev pub remaining_of : BudgetCap → List BudgetObservation → F64 → F64
remaining_of cap observations wall_secs =
    f64_max (f64_sub cap.max (committed_of cap observations wall_secs)) zero_f64

abbrev pub used_percent_of : BudgetCap → List BudgetObservation → F64 → F64
used_percent_of cap observations wall_secs =
    let utilization = f64_div (committed_of cap observations wall_secs) cap.max in
    f64_clamp (f64_mul utilization (f64_of 100)) zero_f64 (f64_of 9999)

abbrev pub state_of : BudgetPlan → BudgetCap → List BudgetObservation → F64 → BudgetState
state_of plan cap observations wall_secs =
    if f64_le cap.max (committed_of cap observations wall_secs)
    then exhausted
    else if f64_le (warning_for plan cap) (used_percent_of cap observations wall_secs)
    then warning
    else BudgetState.ok

abbrev disabled : ℕ → BudgetForecast
disabled n = record {
  model = "disabled";
  seconds_to_limit = none;
  seconds_to_limit_low = none;
  seconds_to_limit_high = none;
  rate_per_second = none;
  confidence = ForecastConfidence.unknown;
  sample_count = n;
}

-- One round of the loop over the caps, for a valid cap.
unfoldable pub item_of : BudgetPlan → List BudgetObservation → F64 → Bool → BudgetCap → BudgetStatus
unfolding spent_of f64_max f64_le f64_clamp forecast_eta
item_of plan observations wall_secs eta_enabled cap =
    let committed = committed_of cap observations wall_secs in
    let remaining = remaining_of cap observations wall_secs in
    let series = forecast_series (series_of cap observations) in
    record {
      kind = cap.kind;
      label = label_for cap;
      unit = unit cap.kind;
      max = cap.max;
      spent = spent_of cap observations wall_secs;
      reserved = reserved_of cap observations;
      remaining = remaining;
      utilization = f64_div committed cap.max;
      used_percent = used_percent_of cap observations wall_secs;
      state = state_of plan cap observations wall_secs;
      hard = cap.hard;
      show_progress = cap.show_progress;
      show_eta = cap.show_eta;
      forecast =
          if eta_enabled
          then forecast_eta remaining series wall_secs plan.eta.min_wall_secs
          else disabled (length series);
    }

-- The better of the best so far and an item with these seconds; the earlier one if they are equal.
abbrev pub nearer :
    Option (F64 × BudgetStatus) → Option F64 → BudgetStatus → Option (F64 × BudgetStatus)
nearer best none item = best
nearer none (some secs) item = some (secs, item)
nearer (some b) (some secs) item = if f64_lt secs b.0 then some (secs, item) else some b

-- `filter_map` and `min_by`
unfoldable pub nearest_from :
    Option (F64 × BudgetStatus) → List BudgetStatus → Option (F64 × BudgetStatus)
unfolding f64_lt
nearest_from best [] = best
nearest_from best (item ∷ items) =
    nearest_from (nearer best item.forecast.seconds_to_limit item) items

abbrev pub status_part : Option (F64 × BudgetStatus) → Option BudgetStatus
status_part none = none
status_part (some b) = some b.1

abbrev pub is_exhausted : BudgetStatus → Bool
is_exhausted i = elim i.state [ exhausted ↦ true | _ ↦ false ]

abbrev pub is_warning : BudgetStatus → Bool
is_warning i = elim i.state [ warning ↦ true | _ ↦ false ]

abbrev pub eta_enabled : BudgetPlan → Bool
eta_enabled plan = plan.eta.enabled && not (is_off plan.eta.mode)

abbrev pub overall : List BudgetStatus → BudgetState
overall items =
    if any is_exhausted items
    then exhausted
    else if any is_warning items
    then warning
    else if is_empty items
    then unlimited
    else BudgetState.ok

unfoldable pub budget_snapshot : String → BudgetPlan → List BudgetObservation → F64 → BudgetSnapshot
unfolding f64_max is_valid item_of nearest_from
budget_snapshot run_id plan observations wall =
    let wall_secs = f64_max wall zero_f64 in
    let items =
      map (item_of plan observations wall_secs (eta_enabled plan)) (keep is_valid plan.caps) in
    if is_empty plan.caps
    then record {
      schema_version = "budget_engine.v1";
      run_id = run_id;
      wall_secs = wall_secs;
      plan = plan;
      items = [];
      nearest = none;
      state = unlimited;
    }
    else record {
      schema_version = "budget_engine.v1";
      run_id = run_id;
      wall_secs = wall_secs;
      plan = plan;
      items = items;
      nearest = if eta_enabled plan then status_part (nearest_from none items) else none;
      state = overall items;
    }
