-- ===== src/Runner/Nodes.antt =====
-- The kinds of nodes that do not fan out: the arms of `execute_node_with_ledger` for programs,
-- reductions, actors, loops and branches, crates/jesterky-core/src/runner.rs. `call` is its own
-- recursive call, and `resume_session` its arm that rehydrates a checkpoint.
use jesterky.Runner.Readings.{is_truthy, reduce_outcome}
use jesterky.F64.{F64}
use jesterky.Runner.Errors.{HostError, unknown_node, unknown_program, at_node, json, CoreError}
use jesterky.Runner.Monad.{
  ◌>>=◌, record_node_io, writes, on_ledger, the_ledger, record_output, emits, asks, reads, try,
  peek, give, Exec, json_object,
}
use jesterky.Topology.{Node}
use jesterky.Json.{pos_int, number, null, as_str, string, Value}
use jesterky.Ledger.{
  with_item_as, store_outputs, resolve, resolve_bindings, LedgerError, Ref, Bindings,
}
use jesterky.Artifact.{Grounding, CallKind, ArtifactRef}
use jesterky.Event.{child, actor_invoked, session_resumed, NodePath}
use jesterky.Runner.Seam.{RunCtx, Host}
use jesterky.Prelude.{
  zero, [], length, lookup, false, leb, ok_or, true, if◌then◌else◌, suc, ◌∷◌, err, some, ok, none,
  Option, List, unwrap_or, ◌*◌, Result, String, Bool, ℕ,
}

-- `execute_node_with_ledger` on a path, a node, an `input_override` and an iteration.
abbrev pub Call : Type 0 → Type 0
Call S = NodePath → Node → Option Value → ℕ → Exec S Value

abbrev pub event_input_inline_limit_bytes : ℕ
event_input_inline_limit_bytes = 64 * 1024

abbrev at_path : NodePath → Result LedgerError Value → Result LedgerError Value
at_path path (ok v) = ok v
at_path path (err e) = err (at_node e path)

-- A `Reduce` reads a score and a signal off its result, a `Program` does not.
abbrev pub outcome_of : Bool → Value → Option F64 × Option Value
outcome_of is_reduce result = if is_reduce then reduce_outcome result else (none, none)

abbrev pub ref_json : ArtifactRef → Value
ref_json r = json_object (
    ("key", string r.key)
    ∷ ("size_bytes", number (pos_int r.size_bytes))
    ∷ ("content_type", string r.content_type)
    ∷ [])

abbrev pub target_of : Bool → String → Option String → Option String
target_of true then_ otherwise = some then_
target_of false then_ otherwise = otherwise

module _ {S : Type 0} (host : Host S) where
  abbrev pub inputs_of : NodePath → Bindings → Option Value → Exec S Value
  inputs_of path inputs (some v) = give v
  inputs_of path inputs none = reads (λ l. at_path path (resolve_bindings host.from_str l inputs))

  abbrev serialized : Result String (List ℕ) → Result CoreError (List ℕ)
  serialized (ok bytes) = ok bytes
  serialized (err message) = err (json message)

  unfoldable pub event_inputs_payload : Value → Exec S Value
  event_inputs_payload inputs = do
    bytes ← try (serialized (host.to_vec inputs))
    if leb (length bytes) event_input_inline_limit_bytes
        then give inputs
        else (asks (host.put bytes "application/json") >>= λ (reference : ArtifactRef).
            give (json_object (("artifact_ref", ref_json reference) ∷ [])))

  -- `Program` and `Reduce`.
  unfoldable pub run_program :
      Bool → String → NodePath → Bindings → Bindings → Option Value → ℕ → Exec S Value
  run_program is_reduce op path inputs outputs override iteration = do
    args ← inputs_of path inputs override
    program ← try (ok_or (host.program op) (unknown_program op))
    l ← the_ledger
    result ← try (program l args)
    u ← writes (λ l. store_outputs l outputs result)
    v ←
        record_node_io path iteration args result (outcome_of is_reduce result).0
          (outcome_of is_reduce result).1
    give result

  unfoldable pub run_actor :
      String → NodePath → Bindings → Bindings → Option Value → ℕ → Exec S Value
  unfolding event_inputs_payload
  run_actor name path inputs outputs override iteration = do
    args ← inputs_of path inputs override
    addr ← peek path iteration
    event_inputs ← event_inputs_payload args
    result ← asks (host.drive (record { addr = addr; actor = name; inputs = args }))
    t ← record_output (record {
      addr = addr;
      call = CallKind.actor name;
      outputs = result.outputs;
      score = result.score;
      signal = result.signal;
      artifacts = result.artifacts;
      grounding = Grounding.ungraded;
    })
    u ← writes (λ l. store_outputs l outputs result.outputs)
    v ← record_node_io path iteration event_inputs result.outputs result.score result.signal
    w ← emits host path iteration actor_invoked (
        json_object
          (("actor", string name) ∷ ("inputs", event_inputs) ∷ ("outputs", result.outputs) ∷ []))
    give result.outputs

  -- `for pass in 0..max_iters`, with the passes left.
  unfoldable pub run_while : Call S → NodePath → Ref → Node → ℕ → ℕ → Value → Exec S Value
  run_while call path cond body zero pass last = give last
  run_while call path cond body (suc left) pass last = do
    c ← reads (λ l. resolve host.from_str l cond)
    if is_truthy c
        then (call (child path "body") body none pass >>= λ (v : Value).
            run_while call path cond body left (suc pass) v)
        else give last

  unfoldable pub run_target : RunCtx → Call S → NodePath → ℕ → Option String → Exec S Value
  run_target ctx call path iteration none = give null
  run_target ctx call path iteration (some id) = do
    n ← try (ok_or (lookup id ctx.nodes) (unknown_node id))
    call (child path id) n none iteration

  unfoldable pub run_branch :
      RunCtx → Call S → NodePath → Ref → String → Option String → ℕ → Exec S Value
  unfolding run_target
  run_branch ctx call path cond then_ otherwise iteration = do
    c ← reads (λ l. resolve host.from_str l cond)
    run_target ctx call path iteration (target_of (is_truthy c) then_ otherwise)

  abbrev pub session_name : Value → String
  session_name v = unwrap_or (as_str v) (host.show_value v)

  unfoldable pub loaded :
      Option (String → S → Result HostError (Option Value) × S) → String → Exec S Value
  loaded none id = give null
  loaded (some load) id = asks (load id) >>= λ (state : Option Value). give (unwrap_or state null)

  unfoldable pub run_resume : Call S → NodePath → Ref → Node → ℕ → Exec S Value
  unfolding loaded
  run_resume call path session body iteration = do
    v ← reads (λ l. resolve host.from_str l session)
    state ← loaded host.load (session_name v)
    u ←
        emits host path iteration session_resumed
          (json_object (("session", string (session_name v)) ∷ []))
    l ← the_ledger
    on_ledger (with_item_as l "session" state) (call (child path "body") body none iteration)
