-- ===== src/Grounding/Report.antt =====
-- `GroundingReport::compute`, crates/jesterky-contract/src/grounding.rs. The counters are `u64`.
use jesterky.Prelude.{[], ◌||◌, ◌==◌, ◌^◌, ltb, ◌&&◌, ◌∷◌, ◌%◌, if◌then◌else◌, List, ◌+◌, Bool, ℕ}
use jesterky.Artifact.{
  GroundingVerdict, summary_only, source_unread, source_unreadable, trace_access_failed, graded,
  Grounding, GroundingTally, GroundingStatus, degraded, required_trace_unread, GroundingPlan,
  GroundingReport, trace_body_read, RecordedOutput, RunManifest,
}

-- `x += 1` on a `u64`.
abbrev pub bump : ℕ → ℕ
bump n = (n + 1) % 2 ^ 64

abbrev pub empty_tally : GroundingTally
empty_tally = record {
  grounded = 0;
  summary_only = 0;
  source_unread = 0;
  source_unreadable = 0;
  trace_access_failed = 0;
  ungraded = 0;
}

abbrev count_verdict : GroundingTally → GroundingVerdict → GroundingTally
count_verdict t GroundingVerdict.grounded = record t { grounded = bump t.grounded }
count_verdict t summary_only = record t { summary_only = bump t.summary_only }
count_verdict t source_unread = record t { source_unread = bump t.source_unread }
count_verdict t source_unreadable = record t { source_unreadable = bump t.source_unreadable }
count_verdict t trace_access_failed = record t { trace_access_failed = bump t.trace_access_failed }

abbrev pub count_grounding : GroundingTally → Grounding → GroundingTally
count_grounding t Grounding.ungraded = record t { ungraded = bump t.ungraded }
count_grounding t (graded r) = count_verdict t r.verdict

-- The loop over the rows: the tally and `unread`.
unfoldable pub tally_rows : GroundingTally → ℕ → List RecordedOutput → GroundingTally × ℕ
tally_rows t unread [] = (t, unread)
tally_rows t unread (o ∷ os) =
    tally_rows (count_grounding t o.grounding)
      (if trace_body_read o.grounding then unread else bump unread) os

abbrev pub add_u64 : ℕ → ℕ → ℕ
add_u64 a b = (a + b) % 2 ^ 64

unfoldable pub total : GroundingTally → ℕ
total t =
    add_u64
      (add_u64
        (add_u64 (add_u64 (add_u64 t.grounded t.summary_only) t.source_unread) t.source_unreadable)
        t.trace_access_failed)
      t.ungraded

unfoldable pub status_of : Bool → GroundingTally → ℕ → GroundingStatus
unfolding total
status_of trace_required tally unread =
    if trace_required && ltb 0 unread
    then required_trace_unread
    else if total tally == 0 || tally.ungraded == total tally
    then GroundingStatus.ungraded
    else if tally.grounded == total tally && unread == 0
    then GroundingStatus.grounded
    else degraded

unfoldable pub compute_report : RunManifest → GroundingPlan → GroundingReport
unfolding tally_rows status_of
compute_report manifest plan =
    let (tally, unread) = tally_rows empty_tally 0 manifest.recorded in
    record {
      schema_version = "grounding.v1";
      status = status_of plan.trace_required tally unread;
      trace_required = plan.trace_required;
      tally = tally;
    }
