-- ===== src/Runner/Ends.antt =====
-- A run of a node ends: where every branch, also one inside a body, leads to a node of a lower
-- rank, the nesting of the nodes is bounded.
use jesterky.Runner.Monad.{Answer, RunWorld}
use jesterky.Json.{Value}
use jesterky.Event.{NodePath}
use jesterky.Runner.NodeSteps.{node-Keeps, ForCallees}
use jesterky.Runner.Execute.{execute_node}
use jesterky.Runner.Steps.{RunsKeep}
use jesterky.Runner.Seam.{out_of_fuel, RunCtx, Host, RunState}
use jesterky.Prelude.{
  subst, ◌≢◌, Option, zero, arith, refl, [], ◌∷◌, ◌<◌, true, contains_key, ◌≤◌, some, ◌+◌, ◌≡◌, ◌*◌,
  suc, lookup, String, ℕ, Dict,
}
use jesterky.Runner.Keeps.{After, Keeps, IsKept}
use jesterky.Topology.{
  resume_session, session_group, branch, while, for_each, actor, reduce, program, NodeKind, Node,
}
use Prim.Native.Nat.{max}
use native.Mathlib.Nat.{mul-le-mul_right}

-- The depth of the bodies of a node.
unfoldable mutual
  pub depth : Node → ℕ
  depth (Node.node kind_ inputs outputs) = suc (kind_depth kind_)

  pub kind_depth : NodeKind → ℕ
  kind_depth (program op) = 0
  kind_depth (reduce op) = 0
  kind_depth (actor name) = 0
  kind_depth (NodeKind.map over item_as concurrency min_success body) = depth body
  kind_depth (for_each over item_as body) = depth body
  kind_depth (while cond body max_iters) = depth body
  kind_depth (branch cond then_ otherwise) = 0
  kind_depth (session_group sessions name body limit_) = depth body
  kind_depth (resume_session session body) = depth body

-- Every branch in a node, also in its bodies, leads below the rank, where it leads to a node.
unfoldable mutual
  pub BranchesBelow : Dict Node → (String → ℕ) → ℕ → Node → Type 0
  BranchesBelow nodes rank r (Node.node kind_ inputs outputs) = KindBelow nodes rank r kind_

  pub KindBelow : Dict Node → (String → ℕ) → ℕ → NodeKind → Type 0
  KindBelow nodes rank r (program op) = Unit
  KindBelow nodes rank r (reduce op) = Unit
  KindBelow nodes rank r (actor name) = Unit
  KindBelow nodes rank r (NodeKind.map over item_as concurrency min_success body) =
      BranchesBelow nodes rank r body
  KindBelow nodes rank r (for_each over item_as body) = BranchesBelow nodes rank r body
  KindBelow nodes rank r (while cond body max_iters) = BranchesBelow nodes rank r body
  KindBelow nodes rank r (branch cond then_ otherwise) =
      (contains_key then_ nodes ≡ true → rank then_ < r)
      × ((id : String) → otherwise ≡ some id → contains_key id nodes ≡ true → rank id < r)
  KindBelow nodes rank r (session_group sessions name body limit_) = BranchesBelow nodes rank r body
  KindBelow nodes rank r (resume_session session body) = BranchesBelow nodes rank r body

-- No node branches to one of its own rank or above.
abbrev pub BranchesDescend : Dict Node → (String → ℕ) → Type 0
BranchesDescend nodes rank =
    (id : String) (n : Node) → lookup id nodes ≡ some n → BranchesBelow nodes rank (rank id) n

abbrev pub max_depth : Dict Node → ℕ
max_depth [] = 0
max_depth ((id, n) ∷ nodes) = max (depth n) (max_depth nodes)

pub depth-le :
    (nodes : Dict Node) (id : String) (n : Node)
    → lookup id nodes ≡ some n
    → depth n ≤ max_depth nodes
depth-le [] id n h = cc
depth-le ((j, m) ∷ nodes) id n h = ground (arith, depth-le nodes id n)

-- The relation of which every step keeps nothing: only how an answer ends counts.
abbrev pub Any : {S : Type 0} → RunState S → RunState S → Type 0
Any s t = Unit

pub Any-IsKept : {S : Type 0} → IsKept {S = S} Any
Any-IsKept = record {
  here = λ s. tt;
  later = λ s t u a b. tt;
  on_host = λ s h. tt;
  on_emit = λ s path iteration kind_ payload t. tt;
  on_record = λ s r. tt;
  on_io = λ s lane io. tt;
  guarded = λ s t name set e a. tt;
}

module _ {S : Type 0} (host : Host S) (ctx : RunCtx) (rank : String → ℕ)
    (down : BranchesDescend ctx.nodes rank) where
  abbrev Ends : ℕ → Node → Type 0
  Ends fuel n = RunsKeep ⊥ Any Any-IsKept host (execute_node host ctx fuel) n

  found_known :
      (id : String) (n : Node) → lookup id ctx.nodes ≡ some n → contains_key id ctx.nodes ≡ true
  found_known id n e = rw e refl

  -- A node of a lower rank fits into the fuel.
  lower_end :
      (fuel r : ℕ) (id : String) (n : Node)
      → lookup id ctx.nodes ≡ some n
      → rank id < r
      → r * max_depth ctx.nodes + 0 ≤ fuel
      → ((r' : ℕ) (n : Node)
          → BranchesBelow ctx.nodes rank r' n
          → r' * max_depth ctx.nodes + depth n ≤ fuel
          → Ends fuel n)
      → Ends fuel n
  lower_end fuel r id n e less h rec =
      let step = mul-le-mul_right {m = suc (rank id)} {n = r} (max_depth ctx.nodes) less in
      rec (rank id) n (down id n e) (omega (arith, step, depth-le ctx.nodes id n e, h))

  -- Fuel for a node of a depth whose branches lead below `r`.
  callees_end :
      (fuel r : ℕ) (kind_ : NodeKind)
      → KindBelow ctx.nodes rank r kind_
      → r * max_depth ctx.nodes + kind_depth kind_ ≤ fuel
      → ((r' : ℕ) (n : Node)
          → BranchesBelow ctx.nodes rank r' n
          → r' * max_depth ctx.nodes + depth n ≤ fuel
          → Ends fuel n)
      → ForCallees ctx.nodes (Ends fuel) kind_
  unfolding KindBelow kind_depth
  callees_end fuel r (program op) b h rec = tt
  callees_end fuel r (reduce op) b h rec = tt
  callees_end fuel r (actor name) b h rec = tt
  callees_end fuel r (NodeKind.map over item_as concurrency min_success body) b h rec =
      rec r body b h
  callees_end fuel r (for_each over item_as body) b h rec = rec r body b h
  callees_end fuel r (while cond body max_iters) b h rec = rec r body b h
  callees_end fuel r (branch cond then_ otherwise) b h rec = (
    λ n e. lower_end fuel r then_ n e (b.0 (found_known then_ n e)) h rec,
    λ id n e e'. lower_end fuel r id n e' (b.1 id e (found_known id n e')) h rec,
  )
  callees_end fuel r (session_group sessions name body limit_) b h rec = rec r body b h
  callees_end fuel r (resume_session session body) b h rec = rec r body b h

  Ends-from :
      (fuel r : ℕ) (n : Node)
      → BranchesBelow ctx.nodes rank r n
      → r * max_depth ctx.nodes + depth n ≤ fuel
      → Ends fuel n
  unfolding BranchesBelow depth execute_node Keeps
  Ends-from zero r (Node.node kind_ inputs outputs) b h path override iteration w =
      absurd (omega (arith, h))
  Ends-from (suc fuel) r (Node.node kind_ inputs outputs) b h path override iteration w =
      node-Keeps ⊥ Any Any-IsKept host ctx (execute_node host ctx fuel)
        (Node.node kind_ inputs outputs)
        (callees_end fuel r kind_ b (omega (arith, h)) (λ r'. Ends-from fuel r')) path override
        iteration w

  -- If every branch, also one inside a body, leads to a node of a lower rank, a run of a node never
  -- runs out of the fuel that its rank and the depth of the bodies give, whatever the host does.
  pub execute_node_ends :
      (id : String) (n : Node) (path : NodePath) (override : Option Value) (iteration : ℕ)
      (w : RunWorld S)
      → lookup id ctx.nodes ≡ some n
      → let fuel = suc (rank id) * max_depth ctx.nodes in
        execute_node host ctx fuel path n override iteration w ≢ out_of_fuel
  unfolding Keeps
  execute_node_ends id n path override iteration w e out =
      let fuel = suc (rank id) * max_depth ctx.nodes in
      let ends =
        Ends-from fuel (rank id) n (down id n e) (omega (arith, depth-le ctx.nodes id n e)) path
          override iteration w in
      subst (λ (o : Answer S Value). After ⊥ Any w.1 o) out ends
