-- ===== src/Runner/RunEvents.antt =====
-- A run as a whole: its events, its status and its self-check.
use jesterky.Artifact.UniqueAddrs.{unique_addrs-emit_all}
use jesterky.Runner.Trace.Covers.{build_trace_covers}
use jesterky.Runner.RunSteps.{finalize-Keeps, entries-Keeps}
use jesterky.Runner.Streams.{length-sink, run_id-emit_all, emit_all-append, Emitted, Emitted-IsKept}
use jesterky.Event.{Event, workflow_started, root}
use jesterky.Runner.Finished.{Agrees, conclude_with_lem, bind_ok, Concluded}
use jesterky.Clock.{LogicalClock, fresh_clock, emit_all, Emission}
use jesterky.Artifact.{
  trace_checks, unique_addrs_check, compute_invariants, check_fan_nodes, InvariantCheck,
  InvariantReport, ProcessNode, RunManifest,
}
use jesterky.Goal.{GoalPlan}
use jesterky.Runner.Run.{resolve_goal_plan, run_finalize, run_entries, first_world, RunTools}
use jesterky.Runner.Monad.{emits, ◌>>=◌}
use jesterky.Runner.Errors.{CoreError}
use jesterky.Runner.Manifest.{run, host_of, run_hashed, conclude, run_planned}
use jesterky.Json.{Value}
use jesterky.Runner.Monad.{Answer, RunWorld, Exec}
use jesterky.Topology.{validate_and_hash, WorkflowSpec}
use jesterky.Prelude.{
  arith, none, true, Option, sym, all, ◌^◌, ◌<◌, [], length, ◌∷◌, some, ap, ◌∙◌, false, refl, err,
  List, ok, String, subst, ◌≡◌, Result, ℕ,
}
use jesterky.Runner.Keeps.{emits-Keeps, After, Keeps}
use jesterky.Runner.Seam.{Outcome, out_of_fuel, hangs, returns, RunState, Host}
use mathlib.Core.List.{◌++◌ as ◌⧺◌}

from_after :
    {S A : Type 0} (R : RunState S → RunState S → Type 0) (m : Exec S A) (w w' : RunWorld S)
    (r : Result CoreError A)
    → Keeps Unit R m
    → m w ≡ returns (r, w')
    → R w.1 w'.1
unfolding Keeps
from_after R m w w' r h e = subst (λ (o : Answer _ _). After Unit R w.1 o) e (h w)

module _ {S : Type 0} (host : Host S) (fuel : ℕ) (spec : WorkflowSpec) (args : Value) where
  planned_lem :
      (plan : GoalPlan) (hash : String) (w w' : RunWorld S) (m : RunManifest)
      → run_planned host fuel spec plan hash args w ≡ returns (ok m, w')
      → (es : List Emission) × Concluded host (emit_all w.1.clock es) m
  unfolding run_planned ◌>>=◌ conclude
  planned_lem plan hash w w' m e =
      let (u, wa, ea, ra) = bind_ok (emits host root 0 workflow_started args w) _ m w' e in
      let (p, wb, eb, rb) =
        bind_ok (run_entries host fuel spec plan args false spec.entrypoint wa) _ m w' ra in
      let (failure, wc, ec, rc) = bind_ok (run_finalize host fuel spec plan args p wb) _ m w' rb in
      let k = Emitted-IsKept {S = S} in
      let first =
        from_after Emitted (emits host root 0 workflow_started args) w wa _
          (emits-Keeps Unit Emitted k host root 0 workflow_started args) ea in
      let middle =
        from_after Emitted _ wa wb _
          (entries-Keeps Emitted k host fuel spec plan args spec.entrypoint false) eb in
      let last_ =
        from_after Emitted _ wb wc _ (finalize-Keeps Emitted k host fuel spec plan args p) ec in
      let (es, moved) = k.later w.1 wb.1 wc.1 (k.later w.1 wa.1 wb.1 first middle) last_ in
      (
        es,
        subst (λ (c : LogicalClock). Concluded host c m) moved
            (conclude_with_lem host spec hash args failure _ wc w' m rc),
      )

  abbrev result_in :
      Result CoreError RunManifest
      → Outcome (Result CoreError RunManifest × S)
      → Result CoreError RunManifest
  result_in d (returns (r, s)) = r
  result_in d hangs = d
  result_in d out_of_fuel = d

  module _ (tools : RunTools) (run_id : String) (s s' : S) (m : RunManifest) where
    abbrev start : RunWorld S
    start = first_world spec run_id args s

    of_plan :
        (hash : String) (plan : Result CoreError GoalPlan)
        → run_hashed host tools fuel spec run_id args s hash plan ≡ returns (ok m, s')
        → (es : List Emission) × Concluded host (emit_all (fresh_clock run_id) es) m
    unfolding first_world
    of_plan hash (err e) h = absurd (cc h)
    of_plan hash (ok plan) h = go (run_planned host fuel spec plan hash args start) refl h
      where
        go :
            (o : Answer S RunManifest)
            → run_planned host fuel spec plan hash args start ≡ o
            → host_of host o ≡ returns (ok m, s')
            → (es : List Emission) × Concluded host (emit_all (fresh_clock run_id) es) m
        go (returns (r, w)) e h' = planned_lem plan hash start w m (
            e
            ∙ ap (λ (x : Result CoreError RunManifest). returns (x, w)) (ap (result_in (ok m)) h'))
        go hangs e h' = absurd (cc h')
        go out_of_fuel e h' = absurd (cc h')

    of_hash :
        (hash : Option (Result String String))
        → validate_and_hash tools.spec spec ≡ hash
        → run host tools fuel spec run_id args s ≡ returns (ok m, s')
        → (es : List Emission) × Concluded host (emit_all (fresh_clock run_id) es) m
    unfolding run
    of_hash none e h = absurd (cc (rw (e, run) at h))
    of_hash (some (err message)) e h = absurd (cc (rw (e, run) at h))
    of_hash (some (ok hash)) e h =
        of_plan hash (resolve_goal_plan tools spec.runplan.goals args) (rw (e, run) at h)

    whole_stream :
        (es : List Emission) (e : Emission)
        → m.events ≡ (emit_all (emit_all (fresh_clock run_id) es) (e ∷ [])).sink
        → m.events ≡ (emit_all (fresh_clock run_id) (es ⧺ e ∷ [])).sink
    whole_stream es e whole =
        whole
        ∙ ap (λ (c : LogicalClock). c.sink) (sym (emit_all-append (fresh_clock run_id) es (e ∷ [])))

    events_unique :
        (es : List Emission) (e : Emission)
        → m.events ≡ (emit_all (emit_all (fresh_clock run_id) es) (e ∷ [])).sink
        → length m.events < 2 ^ 32
        → (unique_addrs_check host.show_addr host.show_f64 m.events).ok ≡ true
    events_unique es e whole few =
        let all_ = whole_stream es e whole in
        rw all_ (
          unique_addrs-emit_all host.show_addr host.show_f64 run_id (es ⧺ e ∷ [])
            (omega (arith, few, ap length all_, length-sink (fresh_clock run_id) (es ⧺ e ∷ []))))

    -- The events of a run that returns a manifest are those of its calls of `emit`, in their order,
    -- on a fresh clock, and the last of them, at the root, agrees with the manifest: it completed
    -- with its goals met or not held to them, a node or a binding failed, or its goals were unmet.
    pub run_events :
        run host tools fuel spec run_id args s ≡ returns (ok m, s')
        → (es : List Emission) × (before : List Event) × (last : Event) × (m.events
            ≡ (emit_all (fresh_clock run_id) es).sink)
          × (m.events ≡ before ⧺ last ∷ [])
          × (last.addr.node_path ≡ root)
          × (m.run_id ≡ run_id)
          × Agrees m last
    run_events h =
        let (es, c) = of_hash (validate_and_hash tools.spec spec) refl h in
        let (e, last, whole, split, top, same, agrees, traced, report) = c in
        (
          es ⧺ e ∷ [],
          (emit_all (fresh_clock run_id) es).sink,
          last,
          whole_stream es e whole,
          split,
          top,
          same ∙ run_id-emit_all es (fresh_clock run_id),
          agrees,
        )

    -- The self-check that a run attaches to a manifest with a trace and fewer than 2^32 events
    -- passes exactly if its checks of the fan nodes do: no two events share an address, and every
    -- recorded output is a leaf of the trace.
    pub run_self_check :
        (trace : ProcessNode)
        → run host tools fuel spec run_id args s ≡ returns (ok m, s')
        → m.trace ≡ some trace
        → length m.events < 2 ^ 32
        → (report : InvariantReport) × (m.invariants ≡ some report)
          × (report.all_ok
              ≡ all
                  (λ (c : InvariantCheck). c.ok)
                  (check_fan_nodes host.show_addr host.show_f64 trace))
    unfolding compute_invariants trace_checks
    run_self_check trace h traced few =
        let (es, c) = of_hash (validate_and_hash tools.spec spec) refl h in
        let (e, last, whole, split, top, same, agrees, (snap, io, built), report) = c in
        let covers =
          build_trace_covers host.show_addr host.show_f64 m.run_id m.workflow_name m.args snap
            m.recorded io m.events trace (sym built ∙ traced) in
        let unique = events_unique es e whole few in
        (
          compute_invariants host.show_addr host.show_f64 m,
          report,
          rw (traced, unique, covers) refl,
        )
