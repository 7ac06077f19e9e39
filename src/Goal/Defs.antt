-- ===== src/Goal/Defs.antt =====
-- The plan of goals and its overlay, crates/jesterky-contract/src/goal.rs.
use Prim.Native.String.{◌++◌}
use jesterky.Prelude.{
  Bool, true, false, Option, none, List, [], String, Result, err, ◌>>=◌, if◌then◌else◌, is_empty,
  unwrap_or,
}
use jesterky.F64.{F64}
use jesterky.Json.{Value, is_object}
use jesterky.Overlay.{OverlayError, invalid_overlay, with_message, json_type, deep_merge_json}

pub data GoalKind : Type 0 where
  ledger_pred : String → Value → GoalKind
  metric_threshold : String → F64 → GoalKind

abbrev pub tag : GoalKind → String
tag (ledger_pred path equals) = "ledger_pred"
tag (metric_threshold path min) = "metric_threshold"

abbrev pub path_of : GoalKind → String
path_of (ledger_pred path equals) = path
path_of (metric_threshold path min) = path

pub record GoalSpec : Type 0 where
  pub id : String
  pub kind : GoalKind
  pub required : Bool
  pub label : Option String
  pub show_progress : Bool

pub record GoalVizConfig : Type 0 where
  pub enabled : Bool
  pub show_progress : Bool
  pub short_labels : Bool

pub record GoalPlan : Type 0 where
  pub goals : List GoalSpec
  pub terminate_on_met : Bool
  pub fail_on_unmet : Bool
  pub finalize : Option String
  pub cancel_in_flight : Bool
  pub viz : GoalVizConfig

-- `GoalPlan::default`
abbrev pub default_plan : GoalPlan
default_plan = record {
  goals = [];
  terminate_on_met = true;
  fail_on_unmet = true;
  finalize = none;
  cancel_in_flight = false;
  viz = record { enabled = true; show_progress = true; short_labels = true };
}

-- `GoalPlan::is_empty`
abbrev pub has_no_goals : GoalPlan → Bool
has_no_goals plan = is_empty plan.goals

abbrev pub label_for : GoalSpec → String
label_for goal = unwrap_or goal.label goal.id

-- `to_value` and `from_value` are serde's, with the text of their errors.
module _ (to_value : GoalPlan → Result String Value)
    (from_value : Value → Result String GoalPlan) where
  unfoldable pub overlay_json : GoalPlan → Value → Result OverlayError GoalPlan
  unfolding deep_merge_json
  overlay_json plan overlay =
      if is_object overlay
      then (do
        base ← with_message "goal" "failed to serialize base plan: " (to_value plan)
        with_message "goal" "" (from_value (deep_merge_json base overlay)))
      else err (invalid_overlay "goal" ("expected JSON object, got " ++ json_type overlay))
