-- ===== src/Artifact/Verdicts.antt =====
-- The evidence that a recorded output carries, crates/jesterky-contract/src/grounding.rs, and the
-- references to stored artifacts of crates/jesterky-contract/src/artifact.rs.
use jesterky.Prelude.{ℕ, Bool, false, List, String}
use jesterky.F64.{F64}

pub record ArtifactRef : Type 0 where
  pub key : String
  pub size_bytes : ℕ
  pub content_type : String

pub data GroundingVerdict : Type 0 where
  grounded summary_only source_unread source_unreadable trace_access_failed : GroundingVerdict

pub data ReviewState : Type 0 where
  unreviewed reviewed disputed : ReviewState

pub data GroundingSourceRef : Type 0 where
  run : String → GroundingSourceRef
  artifact : ArtifactRef → GroundingSourceRef
  external : String → String → GroundingSourceRef

pub record CitedSpan : Type 0 where
  pub source : String
  pub start : ℕ
  pub end : ℕ

pub record GroundingVerdictRecord : Type 0 where
  pub verdict : GroundingVerdict
  pub trace_body_read : Bool
  pub cited_event_ids : List String
  pub cited_spans : List CitedSpan
  pub annotator : String
  pub schema_version : String
  pub confidence : F64
  pub review_state : ReviewState
  pub sources : List GroundingSourceRef

pub data Grounding : Type 0 where
  ungraded : Grounding
  graded : GroundingVerdictRecord → Grounding

abbrev pub trace_body_read : Grounding → Bool
trace_body_read ungraded = false
trace_body_read (graded record_) = record_.trace_body_read

-- `GroundingPlan`
pub record GroundingPlan : Type 0 where
  pub trace_required : Bool

pub data GroundingStatus : Type 0 where
  grounded degraded required_trace_unread ungraded : GroundingStatus

pub record GroundingTally : Type 0 where
  pub grounded : ℕ
  pub summary_only : ℕ
  pub source_unread : ℕ
  pub source_unreadable : ℕ
  pub trace_access_failed : ℕ
  pub ungraded : ℕ

pub record GroundingReport : Type 0 where
  pub schema_version : String
  pub status : GroundingStatus
  pub trace_required : Bool
  pub tally : GroundingTally
