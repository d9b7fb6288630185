-- ===== src/Model/Claims.antt =====
-- internal/model/derived.go: claims and findings.
use route_doc.Common.{ℕ, Text, Option, List}
use route_doc.Model.Ids.{BranchId, EntityId, VantageId, ClaimId, FindingId, RuleId, Time}
use route_doc.Model.Limitations.{Limitation}
use route_doc.Model.Paths.{EvidenceRef}
use route_doc.Model.Visibility.{VisibilityScope}
use route_doc.Model.Enums.{
  ClaimStatementCode, TrustSource, Transport, AddressFamily, BindSemantics, MissingEvidenceKind,
  ObservationKind, VisibilitySubjectKind, ClaimLevel, FindingKind, FindingTitleCode, Selection,
}

pub record PathPosition : Type 0 where
  pub branch_id : BranchId
  pub position : ℕ

pub record HostnameMismatchClaimParameters : Type 0 where
  pub peer_entity_id : EntityId
  pub hostname : Text
  pub verification_time : Time
  pub trust_source : TrustSource

pub record TcpRefusedClaimParameters : Type 0 where
  pub endpoint_entity_id : EntityId
  pub vantage_id : VantageId
  pub observed_at : Time

pub record ListenerAbsentClaimParameters : Type 0 where
  pub namespace_entity_id : EntityId
  pub vantage_id : VantageId
  pub protocol : Transport
  pub address_family : AddressFamily
  pub bind_semantics : BindSemantics
  pub port : ℕ

pub record ClaimParameters : Type 0 where
  pub kind : ClaimStatementCode
  pub hostname_mismatch : Option HostnameMismatchClaimParameters
  pub tcp_refused : Option TcpRefusedClaimParameters
  pub listener_absent : Option ListenerAbsentClaimParameters

pub record MissingEvidenceRequirement : Type 0 where
  pub kind : MissingEvidenceKind
  pub observation_kind : Option ObservationKind
  pub visibility_subject_kind : Option VisibilitySubjectKind
  pub visibility_scope : Option VisibilityScope
  pub vantage_id : Option VantageId

pub record Claim : Type 0 where
  pub claim_id : ClaimId
  pub statement_code : ClaimStatementCode
  pub level : ClaimLevel
  pub subject_entity_ids : List EntityId
  pub branch_ids : List BranchId
  pub parameters : ClaimParameters
  pub supporting_evidence : List EvidenceRef
  pub contradicting_evidence : List EvidenceRef
  pub required_missing_evidence : List MissingEvidenceRequirement
  pub rule_id : RuleId

pub record Finding : Type 0 where
  pub finding_id : FindingId
  pub kind : FindingKind
  pub title_code : FindingTitleCode
  pub level : ClaimLevel
  pub branch_ids : List BranchId
  pub path_positions : List PathPosition
  pub claim_ids : List ClaimId
  pub rule_id : RuleId
  pub limitations : List Limitation
  pub suggested_experiments : List Text
  pub selection : Selection
