-- ===== src/Runner/RunSteps.antt =====
-- What the nodes of a run keep, the run keeps: its entrypoints and its finalize node.
use jesterky.Runner.NodeSteps.{execute_node-Keeps}
use jesterky.Runner.Monad.{Exec}
use jesterky.Json.{Value}
use jesterky.Topology.{Node, WorkflowSpec}
use jesterky.Runner.Errors.{CoreError}
use jesterky.Goal.{GoalPlan}
use jesterky.Runner.Run.{
  context, terminate, go_on, finalize_node, with_next, run_entry, with_result, Next, finalize_with,
  Progress, finalized, run_entries, run_finalize, run_named, after_node,
}
use jesterky.Prelude.{
  true, [], false, none, lookup, ◌∷◌, ok, err, some, Option, List, String, Bool, ℕ, Result,
}
use jesterky.Runner.Keeps.{bind-Keeps, attempt-Keeps, give-Keeps, Keeps, IsKept}
use jesterky.Runner.Seam.{Host, RunState}
use jesterky.Event.{root, child}

module _ {S : Type 0} (R : RunState S → RunState S → Type 0) (k : IsKept R) (host : Host S) where
  after_node-Keeps : (plan : GoalPlan) (cancel : Bool) → Keeps Unit R (after_node host plan cancel)
  unfolding after_node Keeps
  after_node-Keeps plan cancel w = k.here w.1

  named-Keeps :
      (fuel : ℕ) (spec : WorkflowSpec) (args : Value) (cancel : Bool) (id : String) (n : Node)
      → Keeps Unit R (run_named host fuel spec args cancel id n)
  unfolding run_named
  named-Keeps fuel spec args cancel id n =
      attempt-Keeps Unit R k _
        (execute_node-Keeps R k host (context spec args cancel) fuel n (child root id) none 0)

  module _ (plan : GoalPlan) (cancel : Bool) (rest : Bool → Exec S Progress)
      (h : (c : Bool) → Keeps Unit R (rest c)) where
    next-Keeps : (next : Next) → Keeps Unit R (with_next host cancel rest next)
    next-Keeps terminate = give-Keeps Unit R k _
    next-Keeps (go_on c) = h c

    result-Keeps : (r : Result CoreError Value) → Keeps Unit R (with_result host plan cancel rest r)
    result-Keeps (err e) = give-Keeps Unit R k _
    result-Keeps (ok v) = bind-Keeps Unit R k _ _ (after_node-Keeps plan cancel) next-Keeps

    entry-Keeps :
        (fuel : ℕ) (spec : WorkflowSpec) (args : Value) (id : String) (o : Option Node)
        → Keeps Unit R (run_entry host fuel spec plan args cancel id rest o)
    entry-Keeps fuel spec args id none = give-Keeps Unit R k _
    entry-Keeps fuel spec args id (some n) =
        bind-Keeps Unit R k _ _ (named-Keeps fuel spec args cancel id n) result-Keeps

  pub entries-Keeps :
      (fuel : ℕ) (spec : WorkflowSpec) (plan : GoalPlan) (args : Value) (ids : List String)
      (cancel : Bool)
      → Keeps Unit R (run_entries host fuel spec plan args cancel ids)
  unfolding run_entries
  entries-Keeps fuel spec plan args [] cancel = give-Keeps Unit R k _
  entries-Keeps fuel spec plan args (id ∷ ids) cancel =
      entry-Keeps plan cancel _ (entries-Keeps fuel spec plan args ids) fuel spec args id
        (lookup id spec.nodes)

  finalized-Keeps : (r : Result CoreError Value) → Keeps Unit R (finalized host r)
  finalized-Keeps (err e) = give-Keeps Unit R k _
  finalized-Keeps (ok v) = give-Keeps Unit R k _

  finalize_node-Keeps :
      (fuel : ℕ) (spec : WorkflowSpec) (args : Value) (cancel : Bool) (id : String)
      (o : Option Node)
      → Keeps Unit R (finalize_node host fuel spec args cancel id o)
  finalize_node-Keeps fuel spec args cancel id none = give-Keeps Unit R k _
  finalize_node-Keeps fuel spec args cancel id (some n) =
      bind-Keeps Unit R k _ _ (named-Keeps fuel spec args cancel id n) finalized-Keeps

  finalize_with-Keeps :
      (fuel : ℕ) (spec : WorkflowSpec) (args : Value) (cancel : Bool) (o : Option String)
      → Keeps Unit R (finalize_with host fuel spec args cancel o)
  finalize_with-Keeps fuel spec args cancel none = give-Keeps Unit R k _
  finalize_with-Keeps fuel spec args cancel (some id) =
      finalize_node-Keeps fuel spec args cancel id (lookup id spec.nodes)

  pub finalize-Keeps :
      (fuel : ℕ) (spec : WorkflowSpec) (plan : GoalPlan) (args : Value) (p : Progress)
      → Keeps Unit R (run_finalize host fuel spec plan args p)
  unfolding run_finalize
  finalize-Keeps fuel spec plan args (some reason, terminated, cancel) = give-Keeps Unit R k _
  finalize-Keeps fuel spec plan args (none, false, cancel) = give-Keeps Unit R k _
  finalize-Keeps fuel spec plan args (none, true, cancel) =
      finalize_with-Keeps fuel spec args cancel plan.finalize
