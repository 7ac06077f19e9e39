-- ===== src/Grounding/Closed.antt =====
-- The report fails closed: what each status says of the rows.
use jesterky.Prelude.{
  refl, count_any, count_all, any, ◌&&◌, all, false, true, [], ◌∷◌, arith, ◌≡◌, keep, ◌^◌, ◌<◌,
  length, if◌then◌else◌, ◌+◌, ℕ, not, List, Bool,
}
use jesterky.Artifact.{
  degraded, GroundingPlan, required_trace_unread, RunManifest, GroundingStatus, GroundingVerdict,
  graded, Grounding, trace_body_read, RecordedOutput, GroundingTally,
}
use jesterky.Grounding.Report.{
  empty_tally, status_of, total, bump, compute_report, count_grounding, tally_rows,
}

abbrev pub is_ungraded : RecordedOutput → Bool
is_ungraded o = elim o.grounding [ Grounding.ungraded ↦ true | graded r ↦ false ]

abbrev pub is_grounded : RecordedOutput → Bool
is_grounded o = elim o.grounding [
  | Grounding.ungraded ↦ false
  | graded r ↦ elim r.verdict [ GroundingVerdict.grounded ↦ true | _ ↦ false ]
]

abbrev pub is_unread : RecordedOutput → Bool
is_unread o = not (trace_body_read o.grounding)

abbrev pub count : (RecordedOutput → Bool) → List RecordedOutput → ℕ
count p rows = length (keep p rows)

abbrev pub sum : GroundingTally → ℕ
sum t =
    t.grounded + t.summary_only + t.source_unread + t.source_unreadable + t.trace_access_failed
    + t.ungraded

abbrev one_if : Bool → ℕ
one_if b = if b then 1 else 0

count_step :
    (t : GroundingTally) (o : RecordedOutput)
    → sum t + 1 < 2 ^ 64
    → let t' = count_grounding t o.grounding in
      (t'.grounded ≡ t.grounded + one_if (is_grounded o))
      × (t'.ungraded ≡ t.ungraded + one_if (is_ungraded o))
      × (sum t' ≡ sum t + 1)
count_step t o h = ground arith

tally_rows-count :
    (rows : List RecordedOutput) (t : GroundingTally) (unread : ℕ)
    → sum t + length rows < 2 ^ 64
    → unread + length rows < 2 ^ 64
    → let (t', unread') = tally_rows t unread rows in
      (t'.grounded ≡ t.grounded + count is_grounded rows)
      × (t'.ungraded ≡ t.ungraded + count is_ungraded rows)
      × (unread' ≡ unread + count is_unread rows)
      × (sum t' ≡ sum t + length rows)
unfolding tally_rows
tally_rows-count [] t unread h h' = (omega arith, omega arith, omega arith, omega arith)
tally_rows-count (o ∷ os) t unread h h' =
    let step = count_step t o (omega (arith, h)) in
    let unread' = if trace_body_read o.grounding then unread else bump unread in
    let rest =
      tally_rows-count os (count_grounding t o.grounding) unread' (omega (arith, h, step.2))
        (ground (arith, h')) in
    ground (arith, rest, step, h')

-- What the status is to be, from the rows alone.
abbrev pub status_of_rows : Bool → List RecordedOutput → GroundingStatus
status_of_rows trace_required rows =
    if trace_required && any is_unread rows
    then required_trace_unread
    else if all is_ungraded rows
    then GroundingStatus.ungraded
    else if all (λ (o : RecordedOutput). is_grounded o && not (is_unread o)) rows
    then GroundingStatus.grounded
    else degraded

all-and :
    (p q : RecordedOutput → Bool) (rows : List RecordedOutput)
    → all (λ (o : RecordedOutput). p o && not (q o)) rows ≡ (all p rows && not (any q rows))
all-and p q [] = refl
all-and p q (o ∷ os) = ground (arith, all-and p q os)

total-sum : (t : GroundingTally) → sum t < 2 ^ 64 → total t ≡ sum t
unfolding total
total-sum t h = omega (arith, h)

-- For fewer than 2^64 rows the report tallies each row once, and its status is the one that the
-- rows call for: a required trace that some row has not read, then no row graded, then every row
-- graded as grounded and read, and else degraded.
pub compute_report_status :
    (manifest : RunManifest) (plan : GroundingPlan)
    → length manifest.recorded < 2 ^ 64
    → let report = compute_report manifest plan in
      (total report.tally ≡ length manifest.recorded)
      × (report.status ≡ status_of_rows plan.trace_required manifest.recorded)
unfolding compute_report status_of
compute_report_status manifest plan h =
    let rows = manifest.recorded in
    let counts = tally_rows-count rows empty_tally 0 (omega (arith, h)) (omega (arith, h)) in
    let sums = total-sum (tally_rows empty_tally 0 rows).0 (omega (arith, counts.3, h)) in
    (
      omega (arith, sums, counts.3),
      ground (
        arith,
        sums,
        counts,
        all-and is_grounded is_unread rows,
        count_all is_grounded rows,
        count_all is_ungraded rows,
        count_any is_unread rows,
      ),
    )
