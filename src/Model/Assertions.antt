-- ===== src/Model/Assertions.antt =====
-- internal/model/assertion.go: what the operator asserts.
use route_doc.Common.{ℕ, Text, Option}
use route_doc.Model.Ids.{AssertionId, EntityId, VantageId, Time}
use route_doc.Model.Enums.{
  AssertionKind, AssertionSource, PathRelation, ExpectationKind, ComponentKind, ConfigSourceKind,
}

pub record LocalOriginParticipation : Type 0 where
  pub url_target_entity_id : EntityId
  pub host_vantage_id : VantageId

pub record ExpectedPathEdge : Type 0 where
  pub from_entity_id : EntityId
  pub to_entity_id : EntityId
  pub relation : PathRelation

pub record HttpExpectation : Type 0 where
  pub expectation_kind : ExpectationKind
  pub status_min : Option ℕ
  pub status_max : Option ℕ
  pub header_name : Option Text

pub record ConfigSourceSelection : Type 0 where
  pub component_kind : ComponentKind
  pub source_kind : ConfigSourceKind

pub record PrivateRedirectTransitionAllowed : Type 0 where
  pub from_address_scope : Text
  pub to_address_scope : Text

pub record AssertionParameters : Type 0 where
  pub kind : AssertionKind
  pub local_origin : Option LocalOriginParticipation
  pub expected_path : Option ExpectedPathEdge
  pub http : Option HttpExpectation
  pub config_source : Option ConfigSourceSelection
  pub private_redirect : Option PrivateRedirectTransitionAllowed

pub record OperatorAssertion : Type 0 where
  pub assertion_id : AssertionId
  pub kind : AssertionKind
  pub parameters : AssertionParameters
  pub established_at : Time
  pub source : AssertionSource
