-- ===== src/Model/Observations.antt =====
-- internal/model/observation.go: observations and their typed payloads.
use route_doc.Common.{ℕ, ℤ, Text, Bool, true, false, Option, List}
use route_doc.Model.Ids.{ObservationId, EntityId, VantageId, CapabilityId, Time}
use route_doc.Model.Limitations.{Limitation}
use route_doc.Model.Enums.{
  ObservationKind, AcquisitionMethod, SourceComponent, AddressFamily, ResolutionResult, TcpResult,
  TlsTransportResult, SanType, TrustSource, CertificateVerificationResult, HttpResultKind,
  MatcherResult, UpstreamResult, Transport, BindSemantics, OwnershipResult, DockerFactKind,
  RuntimeState, CapabilityState,
}

pub data Sensitivity : Type 0 where
  public sanitized_derived : Sensitivity
  invalid : Text → Sensitivity

unfoldable pub sensitivity_valid : Sensitivity → Bool
sensitivity_valid public = true
sensitivity_valid sanitized_derived = true
sensitivity_valid (invalid s) = false

pub record SystemResolutionResult : Type 0 where
  pub hostname_entity_id : EntityId
  pub address_entity_id : Option EntityId
  pub address_family : AddressFamily
  pub result : ResolutionResult

pub record TcpConnectionResult : Type 0 where
  pub endpoint_entity_id : EntityId
  pub result : TcpResult
  pub duration_ns : ℤ
  pub deadline_part_of_expected_condition : Bool

pub record TlsTransportResultPayload : Type 0 where
  pub endpoint_entity_id : EntityId
  pub peer_entity_id : Option EntityId
  pub result : TlsTransportResult
  pub protocol_version : Text
  pub cipher_suite : Text
  pub negotiated_alpn : Text
  pub sni_sent : Text
  pub alert_code : Option ℕ
  pub duration_ns : ℤ

pub record TlsPeerSummary : Type 0 where
  pub peer_entity_id : EntityId
  pub certificate_count : ℕ
  pub leaf_sha256 : Text
  pub not_before : Time
  pub not_after : Time
  pub san_type : SanType
  pub san_count : ℕ

pub record CertificateVerificationResultPayload : Type 0 where
  pub peer_entity_id : EntityId
  pub verified_hostname : Text
  pub verification_time : Time
  pub trust_source : TrustSource
  pub result : CertificateVerificationResult
  pub failure_reason : Option CertificateVerificationResult

-- `PathSummary` and `Target` of internal/model/run.go
pub record PathSummary : Type 0 where
  pub present : Bool
  pub is_root : Bool
  pub segment_count : ℕ
  pub trailing_slash : Bool
  pub query_present : Bool

pub record Target : Type 0 where
  pub scheme : Text
  pub hostname : Text
  pub effective_port : ℕ
  pub path : PathSummary

pub record HttpResult : Type 0 where
  pub exchange_entity_id : EntityId
  pub result_kind : HttpResultKind
  pub status_code : ℕ
  pub redirect_target_entity_id : Option EntityId
  pub redirect_target : Option Target

pub record ProxyRouteSummary : Type 0 where
  pub proxy_route_entity_id : EntityId
  pub upstream_entity_id : Option EntityId
  pub matcher_kind : Text
  pub match_result : MatcherResult

pub record UpstreamSelectionSummary : Type 0 where
  pub proxy_route_entity_id : EntityId
  pub upstream_entity_id : Option EntityId
  pub result : UpstreamResult

pub record ListenerInventoryEntry : Type 0 where
  pub listener_entity_id : EntityId
  pub namespace_entity_id : EntityId
  pub protocol : Transport
  pub address_family : AddressFamily
  pub bind_semantics : BindSemantics
  pub port : ℕ

pub record ListenerInventoryResult : Type 0 where
  pub namespace_entity_id : EntityId
  pub protocol : Transport
  pub address_family : AddressFamily
  pub bind_semantics : BindSemantics
  pub port_start : ℕ
  pub port_end : ℕ
  pub matching_listener_count : ℕ

pub record ProcessOwnershipEntry : Type 0 where
  pub listener_entity_id : EntityId
  pub process_entity_id : Option EntityId
  pub result : OwnershipResult

pub record DockerRuntimeSummary : Type 0 where
  pub fact_kind : DockerFactKind
  pub container_entity_id : EntityId
  pub namespace_entity_id : Option EntityId
  pub endpoint_entity_id : Option EntityId
  pub runtime_state : RuntimeState

pub record CapabilityPermissionResult : Type 0 where
  pub capability_id : CapabilityId
  pub result : CapabilityState
  pub reason_code : Text

pub record ObservationPayload : Type 0 where
  pub kind : ObservationKind
  pub resolution : Option SystemResolutionResult
  pub tcp : Option TcpConnectionResult
  pub tls_transport : Option TlsTransportResultPayload
  pub tls_peer : Option TlsPeerSummary
  pub certificate_verification : Option CertificateVerificationResultPayload
  pub http : Option HttpResult
  pub active_proxy_route : Option ProxyRouteSummary
  pub configured_proxy_route : Option ProxyRouteSummary
  pub upstream_selection : Option UpstreamSelectionSummary
  pub listener : Option ListenerInventoryEntry
  pub listener_inventory_result : Option ListenerInventoryResult
  pub process_ownership : Option ProcessOwnershipEntry
  pub docker : Option DockerRuntimeSummary
  pub capability : Option CapabilityPermissionResult

pub record Observation : Type 0 where
  pub observation_id : ObservationId
  pub kind : ObservationKind
  pub subject_entity_ids : List EntityId
  pub vantage_id : Option VantageId
  pub observed_at : Time
  pub payload : ObservationPayload
  pub acquisition_method : AcquisitionMethod
  pub source_component : SourceComponent
  pub sensitivity : Sensitivity
  pub limitations : List Limitation
