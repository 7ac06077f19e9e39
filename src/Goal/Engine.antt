-- ===== src/Goal/Engine.antt =====
-- `GoalEngine::snapshot` and what it calls, crates/jesterky-contract/src/goal.rs.
use Prim.Native.String.{◌++◌}
use jesterky.Prelude.{
  ℕ, ◌+◌, ◌%◌, ◌^◌, Bool, true, false, not, ◌&&◌, Option, none, some, List, [], ◌∷◌, String,
  if◌then◌else◌, get_elem?,
}
use jesterky.Prelude.Text.{split_dots, is_blank, parse_usize}
use jesterky.F64.{F64, zero_f64, one_f64, f64_le, f64_lt, f64_div, f64_clamp}
use jesterky.Json.{Value, object, array, to_list, as_f64}
use jesterky.Json.Object.{get}
use jesterky.Json.Equality.{value_eq}
use jesterky.Goal.Defs.{
  GoalKind, ledger_pred, metric_threshold, tag, path_of, GoalSpec, GoalPlan, has_no_goals,
  label_for,
}

pub data GoalState : Type 0 where
  met unmet unknown : GoalState

pub record GoalStatus : Type 0 where
  pub id : String
  pub label : String
  pub kind : String
  pub required : Bool
  pub state : GoalState
  pub progress : F64
  pub detail : String
  pub observed : Option Value
  pub show_progress : Bool

pub record GoalSnapshot : Type 0 where
  pub schema_version : String
  pub run_id : String
  pub plan : GoalPlan
  pub items : List GoalStatus
  pub state : GoalState
  pub required_total : ℕ
  pub required_met : ℕ
  pub terminated_early : Bool

abbrev pub is_met : GoalState → Bool
is_met met = true
is_met unmet = false
is_met unknown = false

abbrev pub all_required_met : GoalSnapshot → Bool
all_required_met s = is_met s.state

unfoldable pub should_terminate : GoalSnapshot → Bool
should_terminate s = s.plan.terminate_on_met && all_required_met s

unfoldable pub should_fail : GoalSnapshot → Bool
should_fail s = s.plan.fail_on_unmet && not (all_required_met s)

abbrev pub goal_engine_version : String
goal_engine_version = "goal_engine.v1"

-- One segment of the loop in `resolve_path`; an empty one is skipped.
abbrev pub step_into : Value → String → Option Value
step_into (object m) seg = get seg m
step_into (array vs) seg = elim (parse_usize seg) [
  | none ↦ none
  | some i ↦ get_elem? (to_list vs) i
]
step_into _ seg = none

unfoldable pub resolve_segments : Option Value → List String → Option Value
resolve_segments none segs = none
resolve_segments (some cur) [] = some cur
resolve_segments (some cur) (seg ∷ segs) =
    resolve_segments (if is_blank seg then some cur else step_into cur seg) segs

unfoldable pub resolve_path : Value → String → Option Value
unfolding resolve_segments
resolve_path v path = resolve_segments (some v) (split_dots path)

abbrev pub Evaluation : Type 0
Evaluation = GoalState × F64 × String

-- The loop's variables besides `items`.
pub record Tally : Type 0 where
  pub required_total : ℕ
  pub required_met : ℕ
  pub all_required_met : Bool

-- The counters are `u32`.
unfoldable pub count_goal : Tally → GoalStatus → Tally
count_goal t s =
    if s.required
    then (if is_met s.state
        then record t {
          required_total = (t.required_total + 1) % 2 ^ 32;
          required_met = (t.required_met + 1) % 2 ^ 32;
        }
        else record t {
          required_total = (t.required_total + 1) % 2 ^ 32;
          all_required_met = false;
        })
    else t

abbrev pub threshold_progress : F64 → F64 → F64
threshold_progress v min =
    if f64_lt zero_f64 min
    then f64_clamp (f64_div v min) zero_f64 one_f64
    else if f64_le min v
    then one_f64
    else zero_f64

abbrev pub numeric : Option Value → Option F64
numeric none = none
numeric (some v) = as_f64 v

-- `show_value` and `show_f64` are the `Display` of `Value` and of `f64`.
module _ (show_value : Value → String) (show_f64 : F64 → String) where
  unfoldable pub evaluate_pred : String → Value → Option Value → Evaluation
  evaluate_pred path equals none =
      (unknown, zero_f64, path ++ (" missing (want " ++ (show_value equals ++ ")")))
  evaluate_pred path equals (some v) =
      if value_eq v equals
      then (met, one_f64, path ++ (" == " ++ show_value equals))
      else (unmet, zero_f64, path ++ (" = " ++ (show_value v ++ (" != " ++ show_value equals))))

  unfoldable pub evaluate_metric : String → F64 → Option F64 → Evaluation
  evaluate_metric path min none =
      (unknown, zero_f64, path ++ (" not numeric (want >= " ++ (show_f64 min ++ ")")))
  evaluate_metric path min (some v) =
      if f64_le min v
      then (met, one_f64, path ++ (" " ++ (show_f64 v ++ (" >= min " ++ show_f64 min))))
      else (
        unmet,
        threshold_progress v min,
        path ++ (" " ++ (show_f64 v ++ (" < min " ++ show_f64 min))),
      )

  unfoldable pub evaluate : GoalKind → Option Value → Evaluation
  unfolding evaluate_pred evaluate_metric
  evaluate (ledger_pred path equals) observed = evaluate_pred path equals observed
  evaluate (metric_threshold path min) observed = evaluate_metric path min (numeric observed)

  unfoldable pub status_of : Value → GoalSpec → GoalStatus
  unfolding resolve_path evaluate
  status_of ledger goal =
      let observed = resolve_path ledger (path_of goal.kind) in
      let (state, progress, detail) = evaluate goal.kind observed in
      record {
        id = goal.id;
        label = label_for goal;
        kind = tag goal.kind;
        required = goal.required;
        state = state;
        progress = progress;
        detail = detail;
        observed = observed;
        show_progress = goal.show_progress;
      }

  unfoldable pub run_goals : Value → List GoalSpec → Tally → List GoalStatus × Tally
  unfolding status_of count_goal
  run_goals ledger [] t = ([], t)
  run_goals ledger (goal ∷ goals) t =
      let status = status_of ledger goal in
      let (items, t') = run_goals ledger goals (count_goal t status) in (status ∷ items, t')

  -- `GoalEngine::snapshot`
  unfoldable pub snapshot : String → GoalPlan → Value → GoalSnapshot
  unfolding run_goals
  snapshot run_id plan ledger =
      let (items, t) =
        run_goals ledger plan.goals
          (record { required_total = 0; required_met = 0; all_required_met = true }) in
      if has_no_goals plan
      then record {
        schema_version = goal_engine_version;
        run_id = run_id;
        plan = plan;
        items = [];
        state = met;
        required_total = 0;
        required_met = 0;
        terminated_early = false;
      }
      else record {
        schema_version = goal_engine_version;
        run_id = run_id;
        plan = plan;
        items = items;
        state = if t.all_required_met then met else unmet;
        required_total = t.required_total;
        required_met = t.required_met;
        terminated_early = false;
      }
