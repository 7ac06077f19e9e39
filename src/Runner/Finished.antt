-- ===== src/Runner/Finished.antt =====
-- What the manifest of a finished run says: its events are those of the run, and its last event and
-- its status agree.
use jesterky.Runner.Trace.{build_trace, NodeIos}
use jesterky.Ledger.{snapshot_json}
use jesterky.Clock.Stream.{event_of}
use jesterky.Runner.Run.{goal_unmet_text, final_payload, goal_failure, verdict}
use jesterky.Clock.{Emission, emit, LogicalClock, emit_all}
use jesterky.Runner.Manifest.{conclude_with, build_manifest, with_reports}
use jesterky.Json.{null, Value}
use jesterky.Goal.{should_fail, GoalSnapshot}
use jesterky.Event.{EventKind, workflow_failed, workflow_completed, Event}
use jesterky.Topology.{WorkflowSpec}
use jesterky.Runner.Seam.{out_of_fuel, hangs, returns, Host}
use jesterky.Runner.Monad.{emits, and_then_run, RunWorld, Exec, Answer}
use jesterky.Artifact.{
  compute_invariants, goal_unmet, node_failed, RunStopReason, RunStatus, RunManifest,
}
use jesterky.Prelude.{
  inr, inl, ap, Bool-cases, subst, [], ◌∷◌, true, none, refl, some, err, false, String, ◌≡◌, Bool,
  ok, Option,
}
use jesterky.Runner.Monad.{◌>>=◌}
use mathlib.Core.List.{◌++◌ as ◌⧺◌}

module _ {S A B : Type 0} where
  pub bind_ok :
      (o : Answer S A) (f : A → Exec S B) (b : B) (w' : RunWorld S)
      → and_then_run o f ≡ returns (ok b, w')
      → (a : A) × (w : RunWorld S) × (o ≡ returns (ok a, w)) × (f a w ≡ returns (ok b, w'))
  bind_ok (returns (ok a, w)) f b w' e = (a, w, refl, e)
  bind_ok (returns (err x, w)) f b w' e = absurd (cc e)
  bind_ok hangs f b w' e = absurd (cc e)
  bind_ok out_of_fuel f b w' e = absurd (cc e)

abbrev manifest_or : {S : Type 0} → RunManifest → Answer S RunManifest → RunManifest
manifest_or d (returns (ok m, w)) = m
manifest_or d _ = d

abbrev goals_fail : Option GoalSnapshot → Bool
goals_fail none = false
goals_fail (some s) = should_fail s

-- The status, its reason and the last event of a run, against its goals.
pub data Agrees (m : RunManifest) (last : Event) : Type 0 where
  fine :
      m.status ≡ RunStatus.completed
      → m.stop_reason ≡ RunStopReason.completed
      → last.kind ≡ workflow_completed
      → goals_fail m.goals ≡ false
      → Agrees m last
  broken :
      m.status ≡ RunStatus.failed
      → m.stop_reason ≡ node_failed
      → last.kind ≡ workflow_failed
      → Agrees m last
  short :
      m.status ≡ RunStatus.failed
      → m.stop_reason ≡ goal_unmet
      → last.kind ≡ workflow_failed
      → goals_fail m.goals ≡ true
      → Agrees m last

-- What `conclude_with` makes of a clock: one more event, which agrees with the status, a trace of
-- what was recorded, and the report of the self-check.
abbrev pub Concluded : {S : Type 0} → Host S → LogicalClock → RunManifest → Type 0
Concluded host clock m =
    (e : Emission) × (last : Event) × (m.events ≡ (emit_all clock (e ∷ [])).sink)
    × (m.events ≡ clock.sink ⧺ last ∷ [])
    × (last.addr.node_path ≡ [])
    × (m.run_id ≡ clock.run_id)
    × Agrees m last
    × ((snap : Value) × (io : NodeIos) × (m.trace
          ≡ build_trace m.run_id m.workflow_name m.args snap m.recorded io m.events))
    × (m.invariants ≡ some (compute_invariants host.show_addr host.show_f64 m))

module _ {S : Type 0} (host : Host S) (spec : WorkflowSpec) (hash : String) (args : Value) where
  abbrev last_event : EventKind → Value → RunWorld S → Event
  last_event kind payload w =
      event_of w.1.clock.run_id w.1.clock.addr_seqs (record {
        lane = ([], 0);
        kind = kind;
        payload = payload;
        now_ms = (host.now_ms w.1.host).0;
      })

  abbrev last_emission : EventKind → Value → RunWorld S → Emission
  last_emission kind payload w = record {
    lane = ([], 0);
    kind = kind;
    payload = payload;
    now_ms = (host.now_ms w.1.host).0;
  }

  abbrev manifest_of : Option String → Option GoalSnapshot → RunWorld S → RunManifest → RunManifest
  manifest_of failure goals w d = manifest_or d (conclude_with host spec hash args failure goals w)

  concluded :
      (failure : Option String) (goals : Option GoalSnapshot) (w : RunWorld S) (d : RunManifest)
      → Concluded host w.1.clock (manifest_of failure goals w d)
  unfolding conclude_with ◌>>=◌ emits emit_all emit with_reports build_manifest verdict goal_failure
  concluded (some reason) goals w d = (
    last_emission workflow_failed (final_payload (some reason)) w,
    last_event workflow_failed (final_payload (some reason)) w,
    refl,
    refl,
    refl,
    refl,
    broken refl refl refl,
    (snapshot_json w.0, w.1.node_io, refl),
    refl,
  )
  concluded none none w d = (
    last_emission workflow_completed null w,
    last_event workflow_completed null w,
    refl,
    refl,
    refl,
    refl,
    fine refl refl refl refl,
    (snapshot_json w.0, w.1.node_io, refl),
    refl,
  )
  concluded none (some s) w d = elim (Bool-cases (should_fail s)) [
    | inl missed ↦ rw missed (
      last_emission workflow_failed (final_payload (some (goal_unmet_text s))) w,
      last_event workflow_failed (final_payload (some (goal_unmet_text s))) w,
      refl,
      refl,
      refl,
      refl,
      short refl refl refl missed,
      (snapshot_json w.0, w.1.node_io, refl),
      refl,
    )
    | inr reached ↦ rw reached (
      last_emission workflow_completed null w,
      last_event workflow_completed null w,
      refl,
      refl,
      refl,
      refl,
      fine refl refl refl reached,
      (snapshot_json w.0, w.1.node_io, refl),
      refl,
    )
  ]

  pub conclude_with_lem :
      (failure : Option String) (goals : Option GoalSnapshot) (w w' : RunWorld S) (m : RunManifest)
      → conclude_with host spec hash args failure goals w ≡ returns (ok m, w')
      → Concluded host w.1.clock m
  conclude_with_lem failure goals w w' m e =
      subst (λ (x : RunManifest). Concluded host w.1.clock x) (ap (manifest_or m) e)
        (concluded failure goals w m)
