-- ===== src/Model/Checks.antt =====
-- internal/model/check.go: check definitions and executions.
use route_doc.Common.{ℕ, ℤ, Text, Bool, Option, List}
use route_doc.Model.Ids.{
  CheckId, CapabilityId, ExecutionId, BranchId, VantageId, ObservationId, VisibilityId, EntityId,
  AssertionId, Time,
}
use route_doc.Model.Enums.{
  CheckKind, CheckLifecycle, CheckVerdict, CheckInputKind, ExpectedConditionKind, AddressFamily,
  MatcherResult, CapabilityState,
}

-- internal/model/version.go
pub record SchemaVersion : Type 0 where
  pub major : ℕ
  pub minor : ℕ
  pub patch : ℕ

pub record CheckInputs : Type 0 where
  pub kind : CheckInputKind
  pub subject_entity_id : EntityId
  pub vantage_id : Option VantageId
  pub assertion_id : Option AssertionId

pub record ExecutionPolicy : Type 0 where
  pub deadline_ns : ℤ
  pub dependency_failure_reason_code : Text
  pub deadline_is_expected_condition : Bool

pub record ExpectedCondition : Type 0 where
  pub kind : ExpectedConditionKind
  pub result : Text
  pub address_family : Option AddressFamily
  pub port : Option ℕ
  pub hostname : Option Text
  pub status_min : Option ℕ
  pub status_max : Option ℕ
  pub matcher_result : Option MatcherResult
  pub capability_state : Option CapabilityState

pub record CheckDefinition : Type 0 where
  pub check_id : CheckId
  pub kind : CheckKind
  pub version : SchemaVersion
  pub inputs : CheckInputs
  pub dependency_check_ids : List CheckId
  pub required_capability_ids : List CapabilityId
  pub execution_policy : ExecutionPolicy
  pub expected_condition : ExpectedCondition

pub record CheckExecution : Type 0 where
  pub execution_id : ExecutionId
  pub check_id : CheckId
  pub branch_id : Option BranchId
  pub vantage_id : Option VantageId
  pub started_at : Option Time
  pub finished_at : Option Time
  pub lifecycle : CheckLifecycle
  pub verdict : CheckVerdict
  pub reason_code : Option Text
  pub observation_ids : List ObservationId
  pub visibility_assessment_ids : List VisibilityId
