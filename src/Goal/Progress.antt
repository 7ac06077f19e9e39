-- ===== src/Goal/Progress.antt =====
-- The verdict and the progress of one goal.
use jesterky.Prelude.{
  ◌≡◌, refl, Bool, true, false, Option, none, some, String, arith, Bool-cases, inl, inr,
}
use jesterky.F64.{F64, zero_f64, one_f64, is_finite, f64_le, f64_lt, f64_div}
use jesterky.F64.Laws.{IsUnit, div-not_nan, clamp-IsUnit, zero-IsUnit, one-IsUnit}
use jesterky.Json.{Value}
use jesterky.Json.Equality.{value_eq}
use jesterky.Goal.Defs.{GoalKind, ledger_pred, metric_threshold}
use jesterky.Goal.Engine.{
  threshold_progress, GoalState, met, unmet, unknown, evaluate, evaluate_metric, evaluate_pred,
  numeric,
}

abbrev pub IsFinite? : Option F64 → Type 0
IsFinite? none = Unit
IsFinite? (some v) = is_finite v ≡ true

-- The numbers that the goal compares are finite, as every number of a JSON text is.
abbrev pub HasFiniteNumbers : GoalKind → Option Value → Type 0
HasFiniteNumbers (ledger_pred path equals) observed = Unit
HasFiniteNumbers (metric_threshold path min) observed =
    (is_finite min ≡ true) × IsFinite? (numeric observed)

-- What each kind of goal asks for, apart from the engine.
abbrev pub holds : GoalKind → Option Value → Bool
holds (ledger_pred path equals) none = false
holds (ledger_pred path equals) (some v) = value_eq v equals
holds (metric_threshold path min) observed = elim (numeric observed) [
  | none ↦ false
  | some v ↦ f64_le min v
]

-- Whether the goal can be read at all.
abbrev pub can_read : GoalKind → Option Value → Bool
can_read (ledger_pred path equals) none = false
can_read (ledger_pred path equals) (some v) = true
can_read (metric_threshold path min) observed = elim (numeric observed) [
  | none ↦ false
  | some v ↦ true
]

abbrev pub expected : Bool → Bool → GoalState
expected true true = met
expected true false = unmet
expected false h = unknown

threshold-IsUnit :
    (v min : F64) → is_finite min ≡ true → is_finite v ≡ true → IsUnit (threshold_progress v min)
threshold-IsUnit v min fm fv = elim (Bool-cases (f64_lt zero_f64 min)) [
  | inl positive ↦ rw positive (clamp-IsUnit (f64_div v min) (div-not_nan v min fv fm positive))
  | inr other ↦ elim (Bool-cases (f64_le min v)) [
    | inl reached ↦ rw (other, reached) one-IsUnit
    | inr below ↦ rw (other, below) zero-IsUnit
  ]
]

module _ (show_value : Value → String) (show_f64 : F64 → String) where
  -- A goal is unknown if its value is missing or, for a threshold, no number; else it is met
  -- exactly if the value equals the wanted one, or reaches the threshold.
  pub evaluate_state :
      (kind : GoalKind) (observed : Option Value)
      → (evaluate show_value show_f64 kind observed).0
        ≡ expected (can_read kind observed) (holds kind observed)
  unfolding evaluate_pred evaluate_metric evaluate
  evaluate_state (ledger_pred path equals) none = refl
  evaluate_state (ledger_pred path equals) (some v) = ground arith
  evaluate_state (metric_threshold path min) observed = ground arith

  metric_bounds :
      (path : String) (min : F64) (o : Option F64)
      → is_finite min ≡ true
      → IsFinite? o
      → IsUnit (evaluate_metric show_value show_f64 path min o).1
  metric_bounds path min none fm fv = unfold evaluate_metric in zero-IsUnit
  metric_bounds path min (some v) fm fv = elim (Bool-cases (f64_le min v)) [
    | inl reached ↦ unfold evaluate_metric in rw reached one-IsUnit
    | inr below ↦ unfold evaluate_metric in rw below (rw below at (threshold-IsUnit v min fm fv))
  ]

  progress_lem :
      (kind : GoalKind) (observed : Option Value)
      → HasFiniteNumbers kind observed
      → let (state, progress, detail) = evaluate show_value show_f64 kind observed in
        IsUnit progress × (state ≡ met → progress ≡ one_f64)
  unfolding evaluate
  progress_lem (ledger_pred path equals) none h = unfold evaluate_pred in (zero-IsUnit, λ e. cc)
  progress_lem (ledger_pred path equals) (some v) h = elim (Bool-cases (value_eq v equals)) [
    | inl same ↦ unfold evaluate_pred in rw same (one-IsUnit, λ e. refl)
    | inr other ↦ unfold evaluate_pred in rw other (zero-IsUnit, λ e. cc)
  ]
  progress_lem (metric_threshold path min) observed h = (
    metric_bounds path min (numeric observed) h.0 h.1,
    λ e. unfold evaluate_metric in ground arith,
  )

  -- The progress of a goal over finite numbers is a number between 0 and 1.
  pub evaluate_progress :
      (kind : GoalKind) (observed : Option Value)
      → HasFiniteNumbers kind observed
      → IsUnit (evaluate show_value show_f64 kind observed).1
  evaluate_progress kind observed h = (progress_lem kind observed h).0

  -- A goal over finite numbers that is met has the progress 1.
  pub evaluate_met :
      (kind : GoalKind) (observed : Option Value)
      → HasFiniteNumbers kind observed
      → (evaluate show_value show_f64 kind observed).0 ≡ met
      → (evaluate show_value show_f64 kind observed).1 ≡ one_f64
  evaluate_met kind observed h reached = (progress_lem kind observed h).1 reached
