-- ===== src/Budget/Verdict.antt =====
-- The state of a snapshot against the caps of the plan.

use jesterky.F64.{
  f64_le, f64_lt, zero_f64, f64_max, F64, f64_add, f64_div, f64_mul, f64_of, f64_clamp, is_finite,
}
use jesterky.Prelude.{
  Option, none, some, unwrap_or, ap, ◌∙◌, is_empty-map-keep, sym, any-map-keep, Bool-cases, true,
  refl, [], ◌∷◌, is_empty, inr, inl, ◌&&◌, any, keep, map, if◌then◌else◌, not, Bool, ◌≡◌, List,
  String,
}
use jesterky.Budget.Engine.{
  overall, is_warning, is_exhausted, is_valid, warning_for, committed_of, spent_of, series_of,
  last_of, amount, kind_eq, eta_enabled, item_of, BudgetObservation, budget_snapshot,
}
use jesterky.Budget.Defs.{
  BudgetKind, wall_seconds, unlimited, warning, exhausted, BudgetState, BudgetCap, BudgetPlan,
}

abbrev later : Option BudgetObservation → Option BudgetObservation → Option BudgetObservation
later first none = first
later first (some o) = some o

-- The last observation of a kind.
abbrev pub latest : BudgetKind → List BudgetObservation → Option BudgetObservation
latest kind [] = none
latest kind (o ∷ os) = later (if kind_eq o.kind kind then some o else none) (latest kind os)

-- What an observation says, where nothing counts below 0.
abbrev pub reading : (BudgetObservation → F64) → Option BudgetObservation → F64
reading f none = zero_f64
reading f (some o) = f64_max (f o) zero_f64

-- A limit that is a positive number.
abbrev pub is_limit : BudgetCap → Bool
is_limit cap = is_finite cap.max && f64_lt zero_f64 cap.max

later_none : (o : Option BudgetObservation) → o ≡ later none o
later_none none = refl
later_none (some p) = refl

last_some :
    (first : Option BudgetObservation) (p : BudgetObservation) (os : List BudgetObservation)
    → last_of (p ∷ os) ≡ later first (last_of (p ∷ os))
last_some first p [] = refl
last_some first p (q ∷ os) = last_some first q os

last_of_kept :
    (o : BudgetObservation) (os : List BudgetObservation)
    → last_of (o ∷ os) ≡ later (some o) (last_of os)
last_of_kept o [] = refl
last_of_kept o (p ∷ os) = last_some (some o) p os

last_of_series :
    (kind : BudgetKind) (os : List BudgetObservation)
    → last_of (keep (λ (o : BudgetObservation). kind_eq o.kind kind) os) ≡ latest kind os
last_of_series kind [] = refl
last_of_series kind (o ∷ os) = elim (Bool-cases (kind_eq o.kind kind)) [
  | inl is ↦ rw is (
      last_of_kept o (keep (λ (o : BudgetObservation). kind_eq o.kind kind) os)
      ∙ ap (later (some o)) (last_of_series kind os))
  | inr other ↦ rw other (last_of_series kind os ∙ later_none (latest kind os))
]

module _ (plan : BudgetPlan) (observations : List BudgetObservation) (wall_secs : F64) where
  abbrev last_seen : BudgetCap → Option BudgetObservation
  last_seen cap = latest cap.kind observations

  -- What is spent, where the wall clock counts for its own kind, and what is reserved.
  abbrev pub used : BudgetCap → F64
  used cap =
      let spent = reading (λ (o : BudgetObservation). o.spent) (last_seen cap) in
      f64_add (if kind_eq cap.kind wall_seconds then f64_max wall_secs spent else spent)
        (reading (λ (o : BudgetObservation). o.reserved) (last_seen cap))

  abbrev pub is_reached : BudgetCap → Bool
  is_reached cap = f64_le cap.max (used cap)

  -- The share that is used, in percent from 0 to 9999.
  abbrev pub percent_of : BudgetCap → F64
  percent_of cap =
      f64_clamp (f64_mul (f64_div (used cap) cap.max) (f64_of 100)) zero_f64 (f64_of 9999)

  -- The limit is not reached, but that share reaches the percentage of warning, which is the cap's
  -- own or else the plan's.
  abbrev pub is_close : BudgetCap → Bool
  is_close cap =
      not (is_reached cap)
      && f64_le (unwrap_or cap.warning_percent plan.warning_percent) (percent_of cap)

  -- The state that the positive limits call for.
  abbrev pub state_of_caps : List BudgetCap → BudgetState
  state_of_caps caps =
      if any (λ (c : BudgetCap). is_limit c && is_reached c) caps
      then exhausted
      else if any (λ (c : BudgetCap). is_limit c && is_close c) caps
      then warning
      else if not (any is_limit caps)
      then unlimited
      else BudgetState.ok

  last_seen_lem : (cap : BudgetCap) → last_of (series_of cap observations) ≡ last_seen cap
  last_seen_lem cap = last_of_series cap.kind observations

  used_lem : (cap : BudgetCap) → committed_of cap observations wall_secs ≡ used cap
  unfolding spent_of
  used_lem cap =
      ap
        (λ o.
          f64_add
            (if kind_eq cap.kind wall_seconds
              then f64_max wall_secs (amount (λ (o : BudgetObservation). o.spent) o)
              else amount (λ (o : BudgetObservation). o.spent) o)
            (amount (λ (o : BudgetObservation). o.reserved) o))
        (last_seen_lem cap)

  module _ (eta : Bool) where
    reached_lem :
        (c : BudgetCap) → is_exhausted (item_of plan observations wall_secs eta c) ≡ is_reached c
    unfolding item_of
    reached_lem c = rw (used_lem c) (elim (Bool-cases (is_reached c)) [
      | inl over ↦ rw over refl
      | inr under ↦ rw under (elim (Bool-cases (f64_le (warning_for plan c) (percent_of c))) [
        | inl near ↦ rw near refl
        | inr far ↦ rw far refl
      ])
    ])

    close_lem :
        (c : BudgetCap) → is_warning (item_of plan observations wall_secs eta c) ≡ is_close c
    unfolding item_of
    close_lem c = rw (used_lem c) (elim (Bool-cases (is_reached c)) [
      | inl over ↦ rw over refl
      | inr under ↦ rw under (elim (Bool-cases (f64_le (warning_for plan c) (percent_of c))) [
        | inl near ↦ rw near refl
        | inr far ↦ rw far refl
      ])
    ])

    overall_lem :
        (caps : List BudgetCap)
        → overall (map (item_of plan observations wall_secs eta) (keep is_valid caps))
          ≡ state_of_caps caps
    unfolding is_valid
    overall_lem caps =
        rw
          (
            any-map-keep (item_of plan observations wall_secs eta) is_exhausted is_reached is_valid
                caps reached_lem,
            any-map-keep (item_of plan observations wall_secs eta) is_warning is_close is_valid caps
                close_lem,
            is_empty-map-keep (item_of plan observations wall_secs eta) is_valid caps,
          )
          refl

  no_caps : (caps : List BudgetCap) → is_empty caps ≡ true → state_of_caps caps ≡ unlimited
  no_caps [] h = refl
  no_caps (c ∷ caps) h = cc

-- A snapshot is exhausted exactly if some positive limit, hard or not, is reached by what was last
-- seen spent and reserved of its kind, where the wall clock counts as spent for its own kind; if
-- none is, it warns exactly if the share used of some limit reaches its percentage of warning; it is
-- unlimited exactly if no limit is a positive number.
pub budget_snapshot_state :
    (run_id : String) (plan : BudgetPlan) (observations : List BudgetObservation) (wall : F64)
    → (budget_snapshot run_id plan observations wall).state
      ≡ state_of_caps plan observations (f64_max wall zero_f64) plan.caps
unfolding budget_snapshot
budget_snapshot_state run_id plan observations wall =
    let wall_secs = f64_max wall zero_f64 in
    elim (Bool-cases (is_empty plan.caps)) [
      | inl none_ ↦ rw none_ (sym (no_caps plan observations wall_secs plan.caps none_))
      | inr some_ ↦ rw some_ (overall_lem plan observations wall_secs (eta_enabled plan) plan.caps)
    ]
