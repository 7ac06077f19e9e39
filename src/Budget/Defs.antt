-- ===== src/Budget/Defs.antt =====
-- The plan of caps and the snapshot's types, crates/jesterky-contract/src/budget.rs.
use jesterky.Prelude.{ℕ, Bool, Option, List, String}
use jesterky.F64.{F64}

pub data BudgetKind : Type 0 where
  actor_calls tokens wall_seconds : BudgetKind

pub record BudgetCap : Type 0 where
  pub kind : BudgetKind
  pub max : F64
  pub hard : Bool
  pub label : Option String
  pub warning_percent : Option F64
  pub show_progress : Bool
  pub show_eta : Bool

pub data BudgetEtaMode : Type 0 where
  off nearest_only all : BudgetEtaMode

pub record BudgetEtaConfig : Type 0 where
  pub enabled : Bool
  pub mode : BudgetEtaMode
  pub min_wall_secs : F64
  pub sample_interval_secs : F64

pub record BudgetVizConfig : Type 0 where
  pub enabled : Bool
  pub show_progress : Bool
  pub show_eta : Bool
  pub show_nearest_tag : Bool
  pub short_labels : Bool

pub record BudgetPlan : Type 0 where
  pub caps : List BudgetCap
  pub warning_percent : F64
  pub fail_on_hard_exhaust : Bool
  pub eta : BudgetEtaConfig
  pub viz : BudgetVizConfig

pub data BudgetState : Type 0 where
  ok warning exhausted unlimited unknown : BudgetState

pub data ForecastConfidence : Type 0 where
  high medium low unknown : ForecastConfidence

pub record BudgetForecast : Type 0 where
  pub model : String
  pub seconds_to_limit : Option F64
  pub seconds_to_limit_low : Option F64
  pub seconds_to_limit_high : Option F64
  pub rate_per_second : Option F64
  pub confidence : ForecastConfidence
  pub sample_count : ℕ

pub record BudgetStatus : Type 0 where
  pub kind : BudgetKind
  pub label : String
  pub unit : String
  pub max : F64
  pub spent : F64
  pub reserved : F64
  pub remaining : F64
  pub utilization : F64
  pub used_percent : F64
  pub state : BudgetState
  pub hard : Bool
  pub show_progress : Bool
  pub show_eta : Bool
  pub forecast : BudgetForecast

pub record BudgetSnapshot : Type 0 where
  pub schema_version : String
  pub run_id : String
  pub wall_secs : F64
  pub plan : BudgetPlan
  pub items : List BudgetStatus
  pub nearest : Option BudgetStatus
  pub state : BudgetState
