-- ===== src/Model/Visibility.antt =====
-- internal/model/visibility.go: vantage points and visibility assessments.
use route_doc.Common.{ℕ, Text, Bool, Option, List}
use route_doc.Model.Ids.{VantageId, EntityId, VisibilityId, ObservationId, Time}
use route_doc.Model.Limitations.{Limitation}
use route_doc.Model.Enums.{
  VantageKind, VantageRole, VantageEstablishment, Transport, AddressFamily, BindSemantics,
  VisibilitySubjectKind, VisibilityLevel,
}

pub record ClientNetworkIdentity : Type 0 where
  pub label : Text

pub record HostNamespaceIdentity : Type 0 where
  pub namespace_inode : ℕ

pub record ContainerNamespaceIdentity : Type 0 where
  pub daemon_id : Text
  pub container_id : Text

pub record UnknownNamespaceIdentity : Type 0 where
  pub reason_code : Text

pub record VantageIdentity : Type 0 where
  pub kind : VantageKind
  pub client_network : Option ClientNetworkIdentity
  pub host_namespace : Option HostNamespaceIdentity
  pub container_namespace : Option ContainerNamespaceIdentity
  pub unknown_namespace : Option UnknownNamespaceIdentity

pub record VantagePoint : Type 0 where
  pub vantage_id : VantageId
  pub kind : VantageKind
  pub role : VantageRole
  pub display_label : Text
  pub identity : VantageIdentity
  pub parent_vantage_id : Option VantageId
  pub establishment : VantageEstablishment
  pub limitations : List Limitation

pub record ListenerVisibilityScope : Type 0 where
  pub namespace_entity_id : EntityId
  pub protocol : Transport
  pub address_family : AddressFamily
  pub bind_semantics : BindSemantics
  pub port_start : ℕ
  pub port_end : ℕ
  pub process_ownership_required : Bool

pub record VisibilityScope : Type 0 where
  pub kind : Text
  pub listener : Option ListenerVisibilityScope

pub record VisibilityAssessment : Type 0 where
  pub visibility_id : VisibilityId
  pub subject_kind : VisibilitySubjectKind
  pub vantage_id : VantageId
  pub scope : VisibilityScope
  pub level : VisibilityLevel
  pub basis_observation_ids : List ObservationId
  pub limitations : List Limitation
  pub assessed_at : Time
