-- ===== src/Runner/Execute.antt =====
-- `execute_node_with_ledger` and its arm of `SessionGroup`, crates/jesterky-core/src/runner.rs. The
-- run is one task, so the guard that a waiting `acquire` needs is held by a node around it: it
-- waits for ever.
use jesterky.Runner.Fan.{execute_for_each, execute_map, as_items}
use jesterky.Prelude.Text.{decimal}
use jesterky.Runner.Readings.{value_get}
use jesterky.Artifact.{and_then}
use jesterky.Topology.{
  resume_session, session_group, branch, while, for_each, reduce, program, NodeKind, Limit, Node,
}
use jesterky.Ledger.{Bindings, type_mismatch, with_item, resolve, Ledger, Ref}
use jesterky.Limits.{check_known, LimitSet, release, poll, LimitError}
use jesterky.Runner.Errors.{limit, CoreError}
use jesterky.Runner.Seam.{hangs, out_of_fuel, returns, RunCtx, Host}
use jesterky.Prelude.{
  zero, false, true, none, [], some, ◌∷◌, suc, err, Bool, ok, unwrap_or, ℕ, Option, List, Result,
  String,
}
use jesterky.Json.{array_of, null, as_str, string, Value}
use Prim.Native.String.{◌++◌}
use jesterky.Event.{
  semaphore_released, node_completed, semaphore_acquired, session_started, node_started, NodePath,
  child,
}
use jesterky.Runner.Nodes.{run_resume, run_branch, run_while, run_actor, run_program, Call}
use jesterky.Runner.Monad.{
  the_ledger, try, attempt, try_ledger, on_ledger, give, Answer, reads, emits, Exec, json_object,
  RunWorld, ◌>>=◌,
}

abbrev pub limit_json : String → Value
limit_json name = json_object (("limit", string name) ∷ [])

abbrev pub refused : Result LimitError Unit → Result CoreError Unit
refused (ok u) = ok u
refused (err e) = err (limit e)

-- `item.get("id")` as text, or the index.
unfoldable pub session_id : Value → ℕ → String
session_id v i = unwrap_or (and_then (value_get "id" v) as_str) (decimal i)

unfoldable pub collected : List (Result CoreError Value) → Result CoreError (List Value)
collected [] = ok []
collected (err e ∷ rs) = err e
collected (ok v ∷ rs) = elim (collected rs) [ ok vs ↦ ok (v ∷ vs) | err e ↦ err e ]

module _ {S : Type 0} where
  abbrev pub polled : RunWorld S → Option (Bool × LimitSet) → Answer S Unit
  polled w (some (true, set)) = returns (ok tt, (w.0, record w.1 { limits = set }))
  polled w (some (false, set)) = hangs
  polled w none = hangs

  -- The wait for a permit; the name has been found before.
  unfoldable pub wait_for : String → Exec S Unit
  wait_for name w = polled w (poll 0 w.1.limits name)

  unfoldable pub known_limit_in : String → Exec S Unit
  known_limit_in name w = returns (refused (check_known w.1.limits name), w)

  -- `drop(guard)`
  unfoldable pub drop_limit : String → Exec S Unit
  drop_limit name w = returns (ok tt, (w.0, record w.1 { limits = (release w.1.limits name).1 }))

module _ {S : Type 0} (host : Host S) (ctx : RunCtx) where
  -- The body of a session between `acquire` and the drop of the guard.
  unfoldable pub under_limit : NodePath → Option Limit → Exec S Value → Exec S Value
  unfolding known_limit_in wait_for drop_limit
  under_limit path none body = body
  under_limit path (some l) body = do
    t ← known_limit_in l.name
    u ← wait_for l.name
    v ← emits host path 0 semaphore_acquired (limit_json l.name)
    result ← attempt body
    w ← drop_limit l.name
    x ← emits host path 0 semaphore_released (limit_json l.name)
    try result

  module _ (call : Call S) where
    unfoldable pub run_session : NodePath → Node → Option Limit → Ledger → ℕ → Value → Exec S Value
    unfolding under_limit session_id
    run_session path body limit_ base i v = do
      u ←
          emits host (child path (session_id v i)) 0 session_started
            (json_object (("session", string (session_id v i)) ∷ []))
      under_limit (child path (session_id v i)) limit_ (
          on_ledger (with_item base v)
            (call (child (child path (session_id v i)) "body") body none 0))

    -- Every session runs, whatever becomes of the others.
    unfoldable pub run_sessions :
        NodePath
        → Node
        → Option Limit
        → Ledger
        → ℕ
        → List Value
        → Exec S (List (Result CoreError Value))
    unfolding run_session
    run_sessions path body limit_ base i [] = give []
    run_sessions path body limit_ base i (v ∷ vs) = do
      r ← attempt (run_session path body limit_ base i v)
      rs ← run_sessions path body limit_ base (suc i) vs
      give (r ∷ rs)

    unfoldable pub run_session_group : NodePath → Ref → Node → Option Limit → Exec S Value
    unfolding run_sessions collected
    run_session_group path sessions body limit_ = do
      v ← reads (λ l. resolve host.from_str l sessions)
      items ← try_ledger (
          as_items
            (type_mismatch
              ("session_group `" ++ (host.show_path path ++ "` sessions is not an array")))
            v)
      base ← the_ledger
      results ← run_sessions path body limit_ base 0 items
      vs ← try (collected results)
      give (array_of vs)

    -- The `match` on the kind of a node.
    unfoldable pub run_kind :
        NodePath → NodeKind → Bindings → Bindings → Option Value → ℕ → Exec S Value
    unfolding run_program run_actor run_while run_branch run_resume execute_map execute_for_each
        run_session_group
    run_kind path (program op) inputs outputs override iteration =
        run_program host false op path inputs outputs override iteration
    run_kind path (reduce op) inputs outputs override iteration =
        run_program host true op path inputs outputs override iteration
    run_kind path (NodeKind.actor name) inputs outputs override iteration =
        run_actor host name path inputs outputs override iteration
    run_kind path (NodeKind.map over item_as concurrency min_success body) inputs outputs override
          iteration =
        execute_map host ctx call path over item_as concurrency min_success body outputs iteration
    run_kind path (for_each over item_as body) inputs outputs override iteration =
        execute_for_each host ctx call path over item_as body iteration
    run_kind path (while cond body max_iters) inputs outputs override iteration =
        run_while host call path cond body max_iters 0 null
    run_kind path (branch cond then_ otherwise) inputs outputs override iteration =
        run_branch host ctx call path cond then_ otherwise iteration
    run_kind path (session_group sessions name body limit_) inputs outputs override iteration =
        run_session_group path sessions body limit_
    run_kind path (resume_session session body) inputs outputs override iteration =
        run_resume host call path session body iteration

    unfoldable pub run_node : Call S
    unfolding run_kind
    run_node path (Node.node k inputs outputs) override iteration = do
      u ← emits host path iteration node_started null
      result ← run_kind path k inputs outputs override iteration
      v ← emits host path iteration node_completed null
      give result

  -- Fuel for the nesting of nodes in nodes and of branches.
  unfoldable pub execute_node : ℕ → Call S
  unfolding run_node
  execute_node zero path n override iteration w = out_of_fuel
  execute_node (suc fuel) path n override iteration w =
      run_node (execute_node fuel) path n override iteration w
