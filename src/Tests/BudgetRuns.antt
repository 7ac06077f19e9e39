-- ===== src/Tests/BudgetRuns.antt =====
-- One cap and two samples, crates/jesterky-contract/src/budget.rs.

use jesterky.Prelude.{ok}
use jesterky.Budget.{tokens}
use jesterky.Json.{object, empty}
use jesterky.Budget.Plan.{default_plan, cap_of, panel_label_for, overlay_json, overlay_json-empty}
use jesterky.Budget.Verdict.{budget_snapshot_state, state_of_caps}
use jesterky.F64.{
  f64_clamp, f64_max, one_f64, f64_min, f64_lt, f64_le, zero_f64, f64_arithmetic, f64_of,
}
use jesterky.Prelude.{some, refl, none, true, [], ◌≡◌, ◌∷◌, List, ℕ}
use jesterky.Budget.{
  warning, nearest_only, BudgetObservation, actor_calls, BudgetCap, forecast_eta, budget_snapshot,
  BudgetPlan,
}

abbrev calls_cap : BudgetCap
calls_cap = record {
  kind = actor_calls;
  max = f64_of 10;
  hard = true;
  label = none;
  warning_percent = none;
  show_progress = true;
  show_eta = true;
}

abbrev calls_plan : BudgetPlan
calls_plan = record {
  caps = calls_cap ∷ [];
  warning_percent = f64_of 80;
  fail_on_hard_exhaust = true;
  eta = record {
    enabled = true;
    mode = nearest_only;
    min_wall_secs = one_f64;
    sample_interval_secs = one_f64;
  };
  viz = record {
    enabled = true;
    show_progress = true;
    show_eta = true;
    show_nearest_tag = true;
    short_labels = true;
  };
}

abbrev sample : ℕ → ℕ → BudgetObservation
sample t n = record { kind = actor_calls; t_secs = f64_of t; spent = f64_of n; reserved = zero_f64 }

abbrev two_samples : List BudgetObservation
two_samples = sample 0 1 ∷ sample 10 6 ∷ []

-- 4 calls are left, at one call in two seconds.
seconds_runs :
    (forecast_eta
      (f64_of 4)
      ((zero_f64, f64_of 1) ∷ (f64_of 10, f64_of 6) ∷ [])
      (f64_of 10)
      one_f64).seconds_to_limit
    ≡ some (f64_of 8)
unfolding forecast_eta f64_arithmetic f64_le f64_lt f64_min f64_max
seconds_runs = refl

snapshot_warns : (budget_snapshot "r1" calls_plan (sample 10 9 ∷ []) (f64_of 10)).state ≡ warning
unfolding budget_snapshot f64_arithmetic f64_le f64_lt f64_min f64_max f64_clamp
snapshot_warns = refl

budget_snapshot_state_example :
    (budget_snapshot "r1" calls_plan two_samples (f64_of 10)).state
    ≡ state_of_caps calls_plan two_samples (f64_max (f64_of 10) zero_f64) calls_plan.caps
budget_snapshot_state_example = budget_snapshot_state "r1" calls_plan two_samples (f64_of 10)

plan_runs :
    (panel_label_for default_plan calls_cap ≡ "calls")
    × (cap_of calls_plan actor_calls ≡ some calls_cap)
    × (cap_of calls_plan tokens ≡ none)
unfolding panel_label_for cap_of default_plan
plan_runs = (refl, refl, refl)

overlay_runs :
    overlay_json (λ p. ok (object empty)) (λ v. ok calls_plan) calls_plan (object empty)
    ≡ ok calls_plan
overlay_runs =
    overlay_json-empty (λ p. ok (object empty)) (λ v. ok calls_plan) calls_plan (object empty) refl
      refl refl
