-- ===== src/Runner/Steps.antt =====
-- Each kind of node keeps what its single steps keep, if the nodes that it runs do.
use jesterky.Runner.Readings.{is_truthy}
use jesterky.Runner.Errors.{HostError, unknown_node}
use jesterky.Runner.Monad.{◌>>=◌, try}
use jesterky.Prelude.{
  false, true, Result, refl, zero, ok_or, suc, lookup, ◌≡◌, none, some, ℕ, String, Option, Bool,
}
use jesterky.Json.{null, Value}
use jesterky.Ledger.{Ref, Bindings}
use jesterky.Topology.{Node}
use jesterky.Event.{child, NodePath}
use jesterky.Runner.Keeps.{
  on_ledger-Keeps, emits-Keeps, record_output-Keeps, peek-Keeps, if-Keeps, asks-Keeps,
  record_node_io-Keeps, writes-Keeps, reads-Keeps, the_ledger-Keeps, give-Keeps, try-Keeps,
  bind-Keeps, Keeps, IsKept,
}
use jesterky.Runner.Seam.{RunCtx, Host, RunState}
use jesterky.Runner.Nodes.{
  target_of, run_resume, run_branch, loaded, run_target, run_actor, run_while, inputs_of,
  run_program, event_inputs_payload, Call,
}

module _ {S : Type 0} (F : Type 0) (R : RunState S → RunState S → Type 0) (k : IsKept R)
    (host : Host S) where
  -- Every run of a node keeps the relation.
  abbrev pub RunsKeep : Call S → Node → Type 0
  RunsKeep call n =
      (path : NodePath) (override : Option Value) (iteration : ℕ)
      → Keeps F R (call path n override iteration)

  pub inputs_of-Keeps :
      (path : NodePath) (b : Bindings) (override : Option Value)
      → Keeps F R (inputs_of host path b override)
  inputs_of-Keeps path b (some v) = give-Keeps F R k v
  inputs_of-Keeps path b none = reads-Keeps F R k _

  pub program-Keeps :
      (is_reduce : Bool) (op : String) (path : NodePath) (inputs outputs : Bindings)
      (override : Option Value) (iteration : ℕ)
      → Keeps F R (run_program host is_reduce op path inputs outputs override iteration)
  unfolding run_program
  program-Keeps is_reduce op path inputs outputs override iteration =
      bind-Keeps F R k _ _ (inputs_of-Keeps path inputs override) λ args.
        bind-Keeps F R k _ _ (try-Keeps F R k _) λ program.
          bind-Keeps F R k _ _ (the_ledger-Keeps F R k) λ l.
            bind-Keeps F R k _ _ (try-Keeps F R k _) λ result.
              bind-Keeps F R k _ _ (writes-Keeps F R k _) λ u.
                bind-Keeps F R k _ _ (record_node_io-Keeps F R k path iteration args result _ _)
                  λ v. give-Keeps F R k result

  payload-Keeps : (inputs : Value) → Keeps F R (event_inputs_payload host inputs)
  unfolding event_inputs_payload
  payload-Keeps inputs = bind-Keeps F R k _ _ (try-Keeps F R k _) λ bytes.
      if-Keeps F R k _ _ _ (give-Keeps F R k inputs)
        (bind-Keeps F R k _ _ (asks-Keeps F R k _) λ reference. give-Keeps F R k _)

  pub actor-Keeps :
      (name : String) (path : NodePath) (inputs outputs : Bindings) (override : Option Value)
      (iteration : ℕ)
      → Keeps F R (run_actor host name path inputs outputs override iteration)
  unfolding run_actor
  actor-Keeps name path inputs outputs override iteration =
      bind-Keeps F R k _ _ (inputs_of-Keeps path inputs override) λ args.
        bind-Keeps F R k _ _ (peek-Keeps F R k path iteration) λ addr.
          bind-Keeps F R k _ _ (payload-Keeps args) λ event_inputs.
            bind-Keeps F R k _ _ (asks-Keeps F R k _) λ result.
              bind-Keeps F R k _ _ (record_output-Keeps F R k _) λ t.
                bind-Keeps F R k _ _ (writes-Keeps F R k _) λ u.
                  bind-Keeps F R k _ _ (record_node_io-Keeps F R k path iteration _ _ _ _) λ v.
                    bind-Keeps F R k _ _ (emits-Keeps F R k host path iteration _ _)
                      λ w. give-Keeps F R k _

  pub while-Keeps :
      (call : Call S) (path : NodePath) (cond : Ref) (body : Node) (left pass : ℕ) (last : Value)
      → RunsKeep call body
      → Keeps F R (run_while host call path cond body left pass last)
  unfolding run_while
  while-Keeps call path cond body zero pass last h = give-Keeps F R k last
  while-Keeps call path cond body (suc left) pass last h =
      bind-Keeps F R k _ _ (reads-Keeps F R k _) λ c.
        if-Keeps F R k _ _ _
          (bind-Keeps F R k _ _ (h _ none pass)
            λ v. while-Keeps call path cond body left (suc pass) v h)
          (give-Keeps F R k last)

  -- The node that an id names, if it names one.
  abbrev pub TargetKeeps : RunCtx → Call S → Option String → Type 0
  TargetKeeps ctx call none = Unit
  TargetKeeps ctx call (some id) = (n : Node) → lookup id ctx.nodes ≡ some n → RunsKeep call n

  found-Keeps :
      (call : Call S) (path : NodePath) (iteration : ℕ) (id : String) (o : Option Node)
      → ((n : Node) → o ≡ some n → RunsKeep call n)
      → Keeps F R (try (ok_or o (unknown_node id)) >>= λ (n : Node). call path n none iteration)
  unfolding Keeps ◌>>=◌ try
  found-Keeps call path iteration id none h w = k.here w.1
  found-Keeps call path iteration id (some n) h w = h n refl path none iteration w

  target-Keeps :
      (ctx : RunCtx) (call : Call S) (path : NodePath) (iteration : ℕ) (o : Option String)
      → TargetKeeps ctx call o
      → Keeps F R (run_target host ctx call path iteration o)
  unfolding run_target
  target-Keeps ctx call path iteration none h = give-Keeps F R k null
  target-Keeps ctx call path iteration (some id) h =
      found-Keeps call (child path id) iteration id (lookup id ctx.nodes) h

  pub branch-Keeps :
      (ctx : RunCtx) (call : Call S) (path : NodePath) (cond : Ref) (then_ : String)
      (otherwise : Option String) (iteration : ℕ)
      → TargetKeeps ctx call (some then_)
      → TargetKeeps ctx call otherwise
      → Keeps F R (run_branch host ctx call path cond then_ otherwise iteration)
  unfolding run_branch
  branch-Keeps ctx call path cond then_ otherwise iteration h g =
      bind-Keeps F R k _ _ (reads-Keeps F R k _) λ c.
        target-Keeps ctx call path iteration (target_of (is_truthy c) then_ otherwise)
          (either (is_truthy c))
    where
      either : (b : Bool) → TargetKeeps ctx call (target_of b then_ otherwise)
      either true = h
      either false = g

  load-Keeps :
      (id : String) (load : Option (String → S → Result HostError (Option Value) × S))
      → Keeps F R (loaded host load id)
  unfolding loaded
  load-Keeps id none = give-Keeps F R k null
  load-Keeps id (some load) = bind-Keeps F R k _ _ (asks-Keeps F R k _) λ state. give-Keeps F R k _

  pub resume-Keeps :
      (call : Call S) (path : NodePath) (session : Ref) (body : Node) (iteration : ℕ)
      → RunsKeep call body
      → Keeps F R (run_resume host call path session body iteration)
  unfolding run_resume
  resume-Keeps call path session body iteration h = bind-Keeps F R k _ _ (reads-Keeps F R k _) λ v.
      bind-Keeps F R k _ _ (load-Keeps _ host.load) λ state.
        bind-Keeps F R k _ _ (emits-Keeps F R k host path iteration _ _) λ u.
          bind-Keeps F R k _ _ (the_ledger-Keeps F R k)
            λ l. on_ledger-Keeps F R k _ _ (h _ none iteration)
