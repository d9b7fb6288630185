-- ===== src/Model/Paths.antt =====
-- internal/model/path.go and evidence_ref.go: the service path, its branches, and evidence.
use route_doc.Common.{Option, List}
use route_doc.Model.Ids.{
  EntityId, EdgeId, BranchId, ObservationId, ClaimId, VisibilityId, AssertionId,
}
use route_doc.Model.Enums.{PathRelation, PathProvenance, EvidenceKind, GoalKind}

pub record EvidenceRef : Type 0 where
  pub kind : EvidenceKind
  pub observation_id : Option ObservationId
  pub claim_id : Option ClaimId
  pub visibility_id : Option VisibilityId
  pub assertion_id : Option AssertionId

pub record PathNode : Type 0 where
  pub entity_id : EntityId

pub record PathEdge : Type 0 where
  pub edge_id : EdgeId
  pub from : EntityId
  pub to : EntityId
  pub relation : PathRelation
  pub provenance : PathProvenance
  pub evidence_refs : List EvidenceRef

pub record Branch : Type 0 where
  pub branch_id : BranchId
  pub parent_branch_id : Option BranchId
  pub ordered_edge_ids : List EdgeId
  pub goal : GoalKind

pub record ServicePath : Type 0 where
  pub nodes : List PathNode
  pub edges : List PathEdge
  pub branches : List Branch
