-- ===== src/Goal/Counts.antt =====
-- The verdict of a run: what `GoalEngine::snapshot` counts, against the list of its items.
use jesterky.Prelude.{
  inr, inl, List-cases, ◌≤◌, ◌+◌, ◌^◌, ◌<◌, ◌≡◌, refl, Bool, true, not, ◌&&◌, List, [], ◌∷◌, String,
  map, any, keep, length, length-map, arith, if◌then◌else◌, ◌==◌,
}
use jesterky.F64.{F64}
use jesterky.Json.{Value}
use jesterky.Goal.Defs.{GoalSpec, GoalPlan}
use jesterky.Goal.Engine.{
  met, unmet, is_met, GoalStatus, Tally, count_goal, status_of, run_goals, snapshot, should_fail,
  should_terminate, all_required_met,
}

abbrev pub blocks : GoalStatus → Bool
blocks s = s.required && not (is_met s.state)

abbrev pub counts_as_met : GoalStatus → Bool
counts_as_met s = s.required && is_met s.state

abbrev pub is_required : GoalStatus → Bool
is_required s = s.required

-- What the loop adds to its variables.
abbrev tallied : Tally → List GoalStatus → Tally
tallied t [] = t
tallied t (s ∷ items) = tallied (count_goal t s) items

tallied_open :
    (items : List GoalStatus) (t : Tally)
    → (tallied t items).all_required_met ≡ (t.all_required_met && not (any blocks items))
unfolding count_goal
tallied_open [] t = ground arith
tallied_open (s ∷ items) t = ground (arith, tallied_open items (count_goal t s))

tallied_counts :
    (items : List GoalStatus) (t : Tally)
    → t.required_total + length items < 2 ^ 32
    → t.required_met + length items < 2 ^ 32
    → ((tallied t items).required_total ≡ t.required_total + length (keep is_required items))
      × ((tallied t items).required_met ≡ t.required_met + length (keep counts_as_met items))
unfolding count_goal
tallied_counts [] t h k = (omega arith, omega arith)
tallied_counts (s ∷ items) t h k = ground (arith, tallied_counts items (count_goal t s))

counts-le :
    (items : List GoalStatus) → length (keep counts_as_met items) ≤ length (keep is_required items)
counts-le [] = omega arith
counts-le (s ∷ items) = ground (arith, counts-le items)

counts_agree :
    (items : List GoalStatus)
    → (length (keep counts_as_met items) == length (keep is_required items))
      ≡ not (any blocks items)
counts_agree [] = ground arith
counts_agree (s ∷ items) = ground (arith, counts_agree items, counts-le items)

abbrev start : Tally
start = record { required_total = 0; required_met = 0; all_required_met = true }

module _ (show_value : Value → String) (show_f64 : F64 → String) (ledger : Value) where
  run_goals_lem :
      (goals : List GoalSpec) (t : Tally)
      → run_goals show_value show_f64 ledger goals t ≡ (
        map (status_of show_value show_f64 ledger) goals,
        tallied t (map (status_of show_value show_f64 ledger) goals),
      )
  unfolding run_goals
  run_goals_lem [] t = refl
  run_goals_lem (goal ∷ goals) t =
      rw (run_goals_lem goals (count_goal t (status_of show_value show_f64 ledger goal)))

  abbrev items_of : GoalPlan → List GoalStatus
  items_of plan = map (status_of show_value show_f64 ledger) plan.goals

  -- The fields of a snapshot, for an empty plan and for any other.
  snapshot_view :
      (run_id : String) (plan : GoalPlan)
      → let s = snapshot show_value show_f64 run_id plan ledger in
        let t = tallied start (items_of plan) in
        (s.items ≡ items_of plan)
        × (s.state ≡ (if t.all_required_met then met else unmet))
        × (s.required_total ≡ t.required_total)
        × (s.required_met ≡ t.required_met)
        × (s.plan ≡ plan)
  unfolding snapshot
  snapshot_view run_id plan = elim (List-cases plan.goals) [
    | inl e ↦ ground (arith, e, run_goals_lem plan.goals start)
    | inr (goal, goals, e) ↦ ground (arith, e, run_goals_lem plan.goals start)
  ]

  -- A snapshot reports on every goal of the plan, in order, and it is met exactly if no required
  -- goal is short of met.
  pub snapshot_state :
      (run_id : String) (plan : GoalPlan)
      → let s = snapshot show_value show_f64 run_id plan ledger in
        (s.items ≡ map (status_of show_value show_f64 ledger) plan.goals)
        × (s.state ≡ (if any blocks s.items then unmet else met))
  snapshot_state run_id plan =
      let (items, state, total, done, same) = snapshot_view run_id plan in
      (items, ground (arith, items, state, tallied_open (items_of plan) start))

  -- With fewer than 2^32 goals, a snapshot counts the required goals and the met ones among them,
  -- and the two counts agree exactly if the snapshot is met.
  pub snapshot_counts :
      (run_id : String) (plan : GoalPlan)
      → length plan.goals < 2 ^ 32
      → let s = snapshot show_value show_f64 run_id plan ledger in
        (s.required_total ≡ length (keep is_required s.items))
        × (s.required_met ≡ length (keep counts_as_met s.items))
        × (all_required_met s ≡ (s.required_met == s.required_total))
  snapshot_counts run_id plan h =
      let (items, state, total, done, same) = snapshot_view run_id plan in
      let size = length-map (status_of show_value show_f64 ledger) plan.goals in
      let (t, m) =
        tallied_counts (items_of plan) start (omega (arith, size)) (omega (arith, size)) in
      let open_goals = tallied_open (items_of plan) start in
      (
        ground (arith, items, total, t),
        ground (arith, items, done, m),
        ground (arith, state, total, done, t, m, open_goals, counts_agree (items_of plan)),
      )

  -- A run fails for its goals exactly if the plan says so and a required goal is not met; it may
  -- stop early exactly if the plan says so and none is.
  pub should_fail_lem :
      (run_id : String) (plan : GoalPlan)
      → let s = snapshot show_value show_f64 run_id plan ledger in
        (should_fail s ≡ (plan.fail_on_unmet && any blocks s.items))
        × (should_terminate s ≡ (plan.terminate_on_met && not (any blocks s.items)))
  unfolding should_fail should_terminate
  should_fail_lem run_id plan =
      let (items, state, total, done, same) = snapshot_view run_id plan in
      ground (arith, items, state, same, tallied_open (items_of plan) start)
