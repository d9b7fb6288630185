-- ===== src/Model/Limitations.antt =====
-- `Limitation` and `Capability` of internal/model/run.go.
use route_doc.Common.{Text, Option}
use route_doc.Model.Ids.{
  LimitationId, VantageId, ObservationId, VisibilityId, FindingId, CapabilityId,
}
use route_doc.Model.Enums.{LimitationCode, LimitationScopeKind, CapabilityKind, CapabilityState}

pub record LimitationScope : Type 0 where
  pub kind : LimitationScopeKind
  pub vantage_id : Option VantageId
  pub observation_id : Option ObservationId
  pub visibility_id : Option VisibilityId
  pub finding_id : Option FindingId

pub record Limitation : Type 0 where
  pub limitation_id : LimitationId
  pub code : LimitationCode
  pub scope : LimitationScope

pub record Capability : Type 0 where
  pub capability_id : CapabilityId
  pub kind : CapabilityKind
  pub state : CapabilityState
  pub reason_code : Text
