-- ===== src/Domain/Report.antt =====
-- internal/domain/report.go: what a run leaves behind.
use ants.Prelude.{Bool, true, false, not, ◌||◌, List, Option, Text, is_empty, Int64, Time}
use ants.Domain.Errors.{Result, ◌>>◌, refuse_if, invalidf}
use ants.Domain.TaskStatus.{TaskStatus}
use ants.Domain.Task.{FailureInfo}
use ants.Domain.Artifact.{ArtifactKind}
use ants.Domain.Spec.{SpecContent}

pub record Evidence : Type 0 where
  pub criterion : Text
  pub command : List Text
  pub exit_code : Int64
  pub passed : Bool
  pub log_artifact_id : Text
  pub at : Time

pub data Severity : Type 0 where
  blocker warning note : Severity
  other : Text → Severity

pub data Confidence : Type 0 where
  high medium : Confidence

pub record Finding : Type 0 where
  pub category : Text
  pub severity : Severity
  pub confidence : Confidence
  pub location : Text
  pub scenario : Text

abbrev is_known_severity : Severity → Bool
is_known_severity (other s) = false
is_known_severity blocker = true
is_known_severity warning = true
is_known_severity note = true

unfoldable pub validate_finding : Finding → Result (Unit {0})
validate_finding f = do
  refuse_if (not (is_known_severity f.severity)) (invalidf "finding_severity")
  refuse_if (is_empty f.category || is_empty f.scenario) (invalidf "finding_shape")

abbrev is_blocker : Severity → Bool
is_blocker blocker = true
is_blocker _ = false

unfoldable pub is_blocking : Finding → Bool
is_blocking f = is_blocker f.severity

pub record ReportTask : Type 0 where
  pub id : Text
  pub name : Text
  pub branch : Text
  pub commit_sha : Text
  pub status : TaskStatus
  pub attempts : Int64
  pub failure : Option FailureInfo

pub record ReportIntegration : Type 0 where
  pub branch : Text
  pub sha : Text
  pub conflicts : List Text

pub record ReportVerification : Type 0 where
  pub passed : Bool
  pub evidence : List Evidence

pub record ReportArtifactRef : Type 0 where
  pub id : Text
  pub kind : ArtifactKind
  pub digest : Text

pub record BudgetSummary : Type 0 where
  pub tasks_used : Int64
  pub max_tasks : Int64
  pub exec_ops_used : Int64
  pub max_exec_ops : Int64

pub record RunReport : Type 0 where
  pub run_id : Text
  pub thread_id : Text
  pub spec_id : Text
  pub spec : SpecContent
  pub tasks : List ReportTask
  pub integration : ReportIntegration
  pub verification : ReportVerification
  pub findings : List Finding
  pub artifacts : List ReportArtifactRef
  pub budget : BudgetSummary
  pub ready_for_review : Bool
  pub summary : Text
  pub started_at : Time
  pub finished_at : Time
