-- ===== src/Model/Runs.antt =====
-- internal/model/run.go: an evidence run, and a run with the claims and findings of its evaluation.
use route_doc.Common.{ℤ, Text, Option, List}
use route_doc.Model.Ids.{RunId, AssertionId, RuleId, Time}
use route_doc.Model.Enums.{GoalKind, ScopeKind}
use route_doc.Model.Entities.{Entity}
use route_doc.Model.Paths.{ServicePath}
use route_doc.Model.Limitations.{Limitation, Capability}
use route_doc.Model.Visibility.{VantagePoint, VisibilityAssessment}
use route_doc.Model.Claims.{Claim, Finding}
use route_doc.Model.Checks.{SchemaVersion, CheckDefinition, CheckExecution}
use route_doc.Model.Observations.{Observation, Target}
use route_doc.Model.Assertions.{OperatorAssertion}

pub record Producer : Type 0 where
  pub name : Text
  pub version : Text
  pub build : Text

pub record Goal : Type 0 where
  pub kind : GoalKind
  pub expectation_assertion_id : Option AssertionId

pub record RequestedScope : Type 0 where
  pub kind : ScopeKind

pub record Policy : Type 0 where
  pub coherence_window_ns : ℤ

pub record EvidenceRun : Type 0 where
  pub report_schema_version : SchemaVersion
  pub producer : Producer
  pub run_id : RunId
  pub target : Target
  pub goal : Goal
  pub requested_scope : RequestedScope
  pub policy : Policy
  pub started_at : Time
  pub finished_at : Time
  pub vantage_points : List VantagePoint
  pub capabilities : List Capability
  pub operator_assertions : List OperatorAssertion
  pub entities : List Entity
  pub service_path : ServicePath
  pub check_definitions : List CheckDefinition
  pub check_executions : List CheckExecution
  pub observations : List Observation
  pub visibility_assessments : List VisibilityAssessment
  pub limitations : List Limitation

pub record Evaluation : Type 0 where
  pub evaluated_at : Time
  pub ordered_rule_ids : List RuleId

pub record EvaluatedRun : Type 0 where
  pub evidence : EvidenceRun
  pub evaluation : Evaluation
  pub claims : List Claim
  pub findings : List Finding
