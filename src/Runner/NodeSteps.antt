-- ===== src/Runner/NodeSteps.antt =====
-- Every node keeps what the single steps keep, if the nodes that it runs do.
use jesterky.Runner.FanSteps.{for_each-Keeps, map-Keeps}
use jesterky.Runner.LimitSteps.{under_limit-Keeps}
use jesterky.Json.{null, Value}
use jesterky.Ledger.{with_item, Ref, Ledger, Bindings}
use jesterky.Runner.Steps.{
  resume-Keeps, branch-Keeps, while-Keeps, actor-Keeps, TargetKeeps, program-Keeps, RunsKeep,
}
use jesterky.Runner.Execute.{
  run_session_group, run_sessions, run_session, run_node, execute_node, run_kind,
}
use jesterky.Runner.Keeps.{
  try-Keeps, attempt-Keeps, the_ledger-Keeps, on_ledger-Keeps, try_ledger-Keeps, give-Keeps,
  reads-Keeps, emits-Keeps, bind-Keeps, Keeps, IsKept,
}
use jesterky.Topology.{
  resume_session, session_group, branch, while, kind, for_each, actor, Limit, reduce, program,
  NodeKind, Node,
}
use jesterky.Runner.Seam.{RunCtx, Host, RunState}
use jesterky.Prelude.{
  zero, [], refl, none, true, ◌∷◌, false, List, lookup, some, suc, ℕ, ◌≡◌, String, Option, Dict,
}
use jesterky.Event.{NodePath}
use jesterky.Runner.Nodes.{Call}

-- The nodes that a node of this kind runs: its body, or the nodes that it branches to.
abbrev pub ForCallees : Dict Node → (Node → Type 0) → NodeKind → Type 0
ForCallees nodes P (program op) = Unit
ForCallees nodes P (reduce op) = Unit
ForCallees nodes P (actor name) = Unit
ForCallees nodes P (NodeKind.map over item_as concurrency min_success body) = P body
ForCallees nodes P (for_each over item_as body) = P body
ForCallees nodes P (while cond body max_iters) = P body
ForCallees nodes P (branch cond then_ otherwise) =
    ((n : Node) → lookup then_ nodes ≡ some n → P n)
    × ((id : String) (n : Node) → otherwise ≡ some id → lookup id nodes ≡ some n → P n)
ForCallees nodes P (session_group sessions name body limit_) = P body
ForCallees nodes P (resume_session session body) = P body

module _ {S : Type 0} (F : Type 0) (R : RunState S → RunState S → Type 0) (k : IsKept R)
    (host : Host S) (ctx : RunCtx) (call : Call S) where
  module _ (body : Node) (limit_ : Option Limit) (h : RunsKeep F R k host call body) where
    session-Keeps :
        (path : NodePath) (base : Ledger) (i : ℕ) (v : Value)
        → Keeps F R (run_session host ctx call path body limit_ base i v)
    unfolding run_session
    session-Keeps path base i v = bind-Keeps F R k _ _ (emits-Keeps F R k host _ 0 _ _) λ u.
        under_limit-Keeps F R k host ctx _ limit_ _
          (on_ledger-Keeps F R k (with_item base v) _ (h _ none 0))

    sessions-Keeps :
        (path : NodePath) (base : Ledger) (i : ℕ) (vs : List Value)
        → Keeps F R (run_sessions host ctx call path body limit_ base i vs)
    unfolding run_sessions
    sessions-Keeps path base i [] = give-Keeps F R k _
    sessions-Keeps path base i (v ∷ vs) =
        bind-Keeps F R k _ _ (attempt-Keeps F R k _ (session-Keeps path base i v))
          λ r. bind-Keeps F R k _ _ (sessions-Keeps path base (suc i) vs) λ rs. give-Keeps F R k _

    group-Keeps :
        (path : NodePath) (sessions : Ref)
        → Keeps F R (run_session_group host ctx call path sessions body limit_)
    unfolding run_session_group
    group-Keeps path sessions = bind-Keeps F R k _ _ (reads-Keeps F R k _) λ v.
        bind-Keeps F R k _ _ (try_ledger-Keeps F R k _) λ items.
          bind-Keeps F R k _ _ (the_ledger-Keeps F R k) λ base.
            bind-Keeps F R k _ _ (sessions-Keeps path base 0 items)
              λ results. bind-Keeps F R k _ _ (try-Keeps F R k _) λ vs. give-Keeps F R k _

  to_target :
      (o : Option String)
      → ((id : String) (n : Node)
          → o ≡ some id
          → lookup id ctx.nodes ≡ some n
          → RunsKeep F R k host call n)
      → TargetKeeps F R k host ctx call o
  to_target none h = tt
  to_target (some id) h = λ n e. h id n refl e

  kind-Keeps :
      (kind_ : NodeKind) (path : NodePath) (inputs outputs : Bindings) (override : Option Value)
      (iteration : ℕ)
      → ForCallees ctx.nodes (RunsKeep F R k host call) kind_
      → Keeps F R (run_kind host ctx call path kind_ inputs outputs override iteration)
  unfolding run_kind
  kind-Keeps (program op) path inputs outputs override iteration h =
      program-Keeps F R k host false op path inputs outputs override iteration
  kind-Keeps (reduce op) path inputs outputs override iteration h =
      program-Keeps F R k host true op path inputs outputs override iteration
  kind-Keeps (actor name) path inputs outputs override iteration h =
      actor-Keeps F R k host name path inputs outputs override iteration
  kind-Keeps (NodeKind.map over item_as concurrency min_success body) path inputs outputs override
        iteration h =
      map-Keeps F R k host ctx call body h path over item_as concurrency min_success outputs
        iteration
  kind-Keeps (for_each over item_as body) path inputs outputs override iteration h =
      for_each-Keeps F R k host ctx call body h path over item_as iteration
  kind-Keeps (while cond body max_iters) path inputs outputs override iteration h =
      while-Keeps F R k host call path cond body max_iters 0 null h
  kind-Keeps (branch cond then_ otherwise) path inputs outputs override iteration h =
      branch-Keeps F R k host ctx call path cond then_ otherwise iteration h.0
        (to_target otherwise h.1)
  kind-Keeps (session_group sessions name body limit_) path inputs outputs override iteration h =
      group-Keeps body limit_ h path sessions
  kind-Keeps (resume_session session body) path inputs outputs override iteration h =
      resume-Keeps F R k host call path session body iteration h

  pub node-Keeps :
      (n : Node)
      → ForCallees ctx.nodes (RunsKeep F R k host call) (kind n)
      → RunsKeep F R k host (run_node host ctx call) n
  unfolding run_node
  node-Keeps (Node.node kind_ inputs outputs) h path override iteration =
      bind-Keeps F R k _ _ (emits-Keeps F R k host path iteration _ _) λ u.
        bind-Keeps F R k _ _ (kind-Keeps kind_ path inputs outputs override iteration h) λ result.
          bind-Keeps F R k _ _ (emits-Keeps F R k host path iteration _ _)
            λ v. give-Keeps F R k result

for_all_callees :
    (nodes : Dict Node) (P : Node → Type 0) (kind_ : NodeKind)
    → ((n : Node) → P n)
    → ForCallees nodes P kind_
for_all_callees nodes P (program op) h = tt
for_all_callees nodes P (reduce op) h = tt
for_all_callees nodes P (actor name) h = tt
for_all_callees nodes P (NodeKind.map over item_as concurrency min_success body) h = h body
for_all_callees nodes P (for_each over item_as body) h = h body
for_all_callees nodes P (while cond body max_iters) h = h body
for_all_callees nodes P (branch cond then_ otherwise) h = (λ n e. h n, λ id n e e'. h n)
for_all_callees nodes P (session_group sessions name body limit_) h = h body
for_all_callees nodes P (resume_session session body) h = h body

module _ {S : Type 0} (R : RunState S → RunState S → Type 0) (k : IsKept R) (host : Host S)
    (ctx : RunCtx) where
  -- Whatever relation the single steps keep, a run of a node keeps, however it ends.
  pub execute_node-Keeps :
      (fuel : ℕ) (n : Node) → RunsKeep Unit R k host (execute_node host ctx fuel) n
  unfolding execute_node Keeps
  execute_node-Keeps zero n path override iteration w = tt
  execute_node-Keeps (suc fuel) n path override iteration w =
      node-Keeps Unit R k host ctx (execute_node host ctx fuel) n
        (for_all_callees ctx.nodes _ (kind n) (execute_node-Keeps fuel)) path override iteration w
