-- ===== src/Validation/Payloads.antt =====
-- `validatePayload`, `entityExists` and `validateTypedEntityReference` of
-- internal/model/validate_base_remaining.go. The source tests three texts of a TLS payload in the
-- order of a Go map, which varies; the model takes one order, and the issues are sorted later.
use route_doc.Common.{
  Bool, true, false, not, ◌&&◌, ◌||◌, List, [], ◌∷◌, ◌++◌, Option, none, some, Text, codes, Table,
  lookup, length, ltb, ◌==◌, eq_number, is_negative,
}
use route_doc.Model.Ids.{EntityId}
use route_doc.Model.Entities.{Entity}
use route_doc.Model.Issues.{ValidationCode, ValidationIssue}
use route_doc.Model.Limitations.{Limitation}
use route_doc.Model.Observations.{
  Observation, ObservationPayload, SystemResolutionResult, TcpConnectionResult,
  TlsTransportResultPayload, TlsPeerSummary, CertificateVerificationResultPayload, HttpResult,
  Target, ProxyRouteSummary, UpstreamSelectionSummary, ListenerInventoryEntry,
  ListenerInventoryResult, ProcessOwnershipEntry, DockerRuntimeSummary, CapabilityPermissionResult,
}
use route_doc.Model.Enums.{
  ObservationKind, EntityKind, eq_entity_kind, address_family_valid, resolution_result_valid,
  tcp_result_valid, tls_transport_result_valid, certificate_verification_result_valid,
  trust_source_valid, http_result_kind_valid, matcher_result_valid, upstream_result_valid,
  transport_valid, bind_semantics_valid, ownership_result_valid, docker_fact_kind_valid,
  runtime_state_valid, capability_state_valid,
}
use route_doc.Listener.{entity_id_valid}
use route_doc.Validation.Shared.{issue_if, issue_of}
use route_doc.Validation.Texts.{
  TextLibrary, validate_hostname, validate_safe_token, validate_fingerprint, validate_reason_code,
}

abbrev pub Entities : Type 0
Entities = Table Entity

unfoldable pub entity_exists : Entities → EntityId → Bool
entity_exists entities id = elim (lookup id entities) [ none ↦ false | some e ↦ true ]

-- `id != nil && !entityExists(entities, *id)`
abbrev is_absent : Entities → Option EntityId → Bool
is_absent entities none = false
is_absent entities (some id) = not (entity_exists entities id)

unfoldable pub entity_issue : Entities → EntityId → Text → Text → List ValidationIssue
unfolding issue_if
entity_issue entities id p m =
    issue_if (not (entity_exists entities id)) ValidationCode.reference_missing p m

unfoldable pub optional_entity_issue :
    Entities → Option EntityId → Text → Text → List ValidationIssue
unfolding issue_if
optional_entity_issue entities id p m =
    issue_if (is_absent entities id) ValidationCode.reference_missing p m

unfoldable pub validate_typed_entity_reference :
    Entities → EntityId → EntityKind → Text → List ValidationIssue
unfolding issue_if
validate_typed_entity_reference entities id want p = elim (lookup id entities) [
  | none ↦ issue_if true ValidationCode.reference_missing p (codes "entity missing")
  | some e ↦
      issue_if (not (e.kind == want)) ValidationCode.reference_kind_mismatch p
        (codes "entity kind mismatch")
]

resolution_issues : Entities → SystemResolutionResult → Text → List ValidationIssue
unfolding issue_if entity_issue optional_entity_issue
resolution_issues entities v p =
    issue_if (not (address_family_valid v.address_family) || not (resolution_result_valid v.result))
      ValidationCode.unknown_enum_value (p ++ codes "/payload") (codes "invalid resolution enum")
    ++ entity_issue entities v.hostname_entity_id (p ++ codes "/payload/hostname_entity_id")
        (codes "entity missing")
    ++ optional_entity_issue entities v.address_entity_id (p ++ codes "/payload/address_entity_id")
        (codes "entity missing")

tcp_issues : Entities → TcpConnectionResult → Text → List ValidationIssue
unfolding issue_if entity_issue
tcp_issues entities v p =
    issue_if (not (tcp_result_valid v.result)) ValidationCode.unknown_enum_value
      (p ++ codes "/payload/result") (codes "unknown TCP result")
    ++ issue_if (is_negative v.duration_ns) ValidationCode.invalid_value
        (p ++ codes "/payload/duration_ns") (codes "duration must be non-negative")
    ++ entity_issue entities v.endpoint_entity_id (p ++ codes "/payload/endpoint_entity_id")
        (codes "entity missing")

-- `if value != "" { if err := check(value); err != nil { ... } }`
abbrev nonempty_issue : Text → (Text → Option Text) → Text → List ValidationIssue
nonempty_issue [] check p = []
nonempty_issue (b ∷ s) check p =
    issue_of (check (b ∷ s)) ValidationCode.sensitive_disallowed_field p

tls_transport_issues :
    TextLibrary → Entities → TlsTransportResultPayload → Text → List ValidationIssue
unfolding issue_if issue_of validate_typed_entity_reference
tls_transport_issues lib entities v p =
    let token : Text → Option Text = λ s. validate_safe_token lib s 128 in
    issue_if (not (tls_transport_result_valid v.result)) ValidationCode.unknown_enum_value
      (p ++ codes "/payload/result") (codes "unknown TLS result")
    ++ issue_if (is_negative v.duration_ns) ValidationCode.invalid_value
        (p ++ codes "/payload/duration_ns") (codes "duration must be non-negative")
    ++ nonempty_issue v.protocol_version token (p ++ codes "/payload/protocol_version")
    ++ nonempty_issue v.cipher_suite token (p ++ codes "/payload/cipher_suite")
    ++ nonempty_issue v.negotiated_alpn token (p ++ codes "/payload/negotiated_alpn")
    ++ nonempty_issue v.sni_sent (validate_hostname lib) (p ++ codes "/payload/sni_sent")
    ++ validate_typed_entity_reference entities v.endpoint_entity_id EntityKind.socket_endpoint
        (p ++ codes "/payload/endpoint_entity_id")
    ++ elim v.peer_entity_id [
      | none ↦ []
      | some id ↦
          validate_typed_entity_reference entities id EntityKind.tls_peer
            (p ++ codes "/payload/peer_entity_id")
    ]

tls_peer_issues : Entities → TlsPeerSummary → Text → List ValidationIssue
unfolding issue_if issue_of entity_issue
tls_peer_issues entities v p =
    entity_issue entities v.peer_entity_id (p ++ codes "/payload/peer_entity_id")
      (codes "entity missing")
    ++ issue_if (v.certificate_count == 0) ValidationCode.invalid_value
        (p ++ codes "/payload/certificate_count") (codes "certificate required")
    ++ issue_of (validate_fingerprint v.leaf_sha256) ValidationCode.sensitive_disallowed_field
        (p ++ codes "/payload/leaf_sha256")

certificate_issues :
    TextLibrary → Entities → CertificateVerificationResultPayload → Text → List ValidationIssue
unfolding issue_if issue_of entity_issue
certificate_issues lib entities v p =
    issue_if (not (certificate_verification_result_valid v.result))
      ValidationCode.unknown_enum_value (p ++ codes "/payload/result")
      (codes "unknown certificate result")
    ++ issue_if (not (trust_source_valid v.trust_source)) ValidationCode.unknown_enum_value
        (p ++ codes "/payload/trust_source") (codes "unknown trust source")
    ++ entity_issue entities v.peer_entity_id (p ++ codes "/payload/peer_entity_id")
        (codes "entity missing")
    ++ issue_of (validate_hostname lib v.verified_hostname)
        ValidationCode.sensitive_disallowed_field (p ++ codes "/payload/verified_hostname")

-- `v.RedirectTarget != nil && !v.RedirectTarget.Path.Present && v.RedirectTarget.Path.IsRoot`
abbrev is_rootless : Option Target → Bool
is_rootless none = false
is_rootless (some t) = not t.path.present && t.path.is_root

http_issues : Entities → HttpResult → Text → List ValidationIssue
unfolding issue_if entity_issue
http_issues entities v p =
    issue_if (not (http_result_kind_valid v.result_kind)) ValidationCode.unknown_enum_value
      (p ++ codes "/payload/result_kind") (codes "unknown HTTP result")
    ++ entity_issue entities v.exchange_entity_id (p ++ codes "/payload/exchange_entity_id")
        (codes "entity missing")
    ++ issue_if (is_rootless v.redirect_target) ValidationCode.sensitive_disallowed_field
        (p ++ codes "/payload/redirect_target") (codes "invalid path summary")

route_issues : TextLibrary → Entities → ProxyRouteSummary → Text → List ValidationIssue
unfolding issue_if issue_of entity_issue optional_entity_issue
route_issues lib entities v p =
    issue_if (not (matcher_result_valid v.match_result)) ValidationCode.unknown_enum_value
      (p ++ codes "/payload/match_result") (codes "unknown matcher result")
    ++ entity_issue entities v.proxy_route_entity_id (p ++ codes "/payload/proxy_route_entity_id")
        (codes "entity missing")
    ++ optional_entity_issue entities v.upstream_entity_id
        (p ++ codes "/payload/upstream_entity_id") (codes "entity missing")
    ++ issue_of (validate_safe_token lib v.matcher_kind 64)
        ValidationCode.sensitive_disallowed_field (p ++ codes "/payload/matcher_kind")

upstream_issues : Entities → UpstreamSelectionSummary → Text → List ValidationIssue
unfolding issue_if entity_issue optional_entity_issue
upstream_issues entities v p =
    issue_if (not (upstream_result_valid v.result)) ValidationCode.unknown_enum_value
      (p ++ codes "/payload/result") (codes "unknown upstream result")
    ++ entity_issue entities v.proxy_route_entity_id (p ++ codes "/payload/proxy_route_entity_id")
        (codes "entity missing")
    ++ optional_entity_issue entities v.upstream_entity_id
        (p ++ codes "/payload/upstream_entity_id") (codes "entity missing")

listener_entry_issues : Entities → ListenerInventoryEntry → Text → List ValidationIssue
unfolding issue_if entity_exists
listener_entry_issues entities v p =
    issue_if
      (not (transport_valid v.protocol)
        || (not (address_family_valid v.address_family)
            || not (bind_semantics_valid v.bind_semantics)))
      ValidationCode.unknown_enum_value (p ++ codes "/payload") (codes "invalid listener enum")
    ++ issue_if
        (not (entity_exists entities v.listener_entity_id)
          || not (entity_exists entities v.namespace_entity_id))
        ValidationCode.reference_missing (p ++ codes "/payload")
        (codes "listener or namespace missing")

inventory_result_issues :
    Entities → ListenerInventoryResult → List Limitation → Text → List ValidationIssue
unfolding issue_if entity_issue
inventory_result_issues entities v limitations p =
    issue_if (not (length limitations == 0)) ValidationCode.invalid_value
      (p ++ codes "/limitations")
      (codes "completed listener inventory result cannot carry limitations")
    ++ issue_if (not (entity_id_valid v.namespace_entity_id)) ValidationCode.invalid_value
        (p ++ codes "/payload/namespace_entity_id") (codes "invalid namespace entity ID")
    ++ issue_if
        (not (transport_valid v.protocol)
          || (not (address_family_valid v.address_family)
              || not (bind_semantics_valid v.bind_semantics)))
        ValidationCode.unknown_enum_value (p ++ codes "/payload")
        (codes "invalid listener inventory result enum")
    ++ issue_if (ltb v.port_end v.port_start) ValidationCode.invalid_value
        (p ++ codes "/payload/port_start") (codes "listener inventory result port range is invalid")
    ++ entity_issue entities v.namespace_entity_id (p ++ codes "/payload/namespace_entity_id")
        (codes "namespace missing")

ownership_issues : Entities → ProcessOwnershipEntry → Text → List ValidationIssue
unfolding issue_if entity_issue optional_entity_issue
ownership_issues entities v p =
    issue_if (not (ownership_result_valid v.result)) ValidationCode.unknown_enum_value
      (p ++ codes "/payload/result") (codes "unknown ownership result")
    ++ entity_issue entities v.listener_entity_id (p ++ codes "/payload/listener_entity_id")
        (codes "listener missing")
    ++ optional_entity_issue entities v.process_entity_id (p ++ codes "/payload/process_entity_id")
        (codes "process missing")

docker_issues : Entities → DockerRuntimeSummary → Text → List ValidationIssue
unfolding issue_if entity_issue
docker_issues entities v p =
    issue_if (not (docker_fact_kind_valid v.fact_kind) || not (runtime_state_valid v.runtime_state))
      ValidationCode.unknown_enum_value (p ++ codes "/payload")
      (codes "invalid Docker summary enum")
    ++ entity_issue entities v.container_entity_id (p ++ codes "/payload/container_entity_id")
        (codes "container missing")

capability_issues : CapabilityPermissionResult → Text → List ValidationIssue
unfolding issue_if issue_of
capability_issues v p =
    issue_if (not (capability_state_valid v.result)) ValidationCode.unknown_enum_value
      (p ++ codes "/payload/result") (codes "unknown capability result")
    ++ issue_of (validate_reason_code v.reason_code) ValidationCode.sensitive_disallowed_field
        (p ++ codes "/payload/reason_code")

-- The issues of the payload's case, where it is there.
abbrev when_there {ℓ} : {A : Type ℓ} → Option A → (A → List ValidationIssue) → List ValidationIssue
when_there none f = []
when_there (some a) f = f a

payload_issues :
    TextLibrary
    → ObservationKind
    → ObservationPayload
    → List Limitation
    → Entities
    → Text
    → List ValidationIssue
unfolding resolution_issues tcp_issues tls_transport_issues tls_peer_issues certificate_issues
    http_issues route_issues upstream_issues listener_entry_issues inventory_result_issues
    ownership_issues docker_issues capability_issues
payload_issues lib ObservationKind.system_resolution_result o ls es p =
    when_there o.resolution (λ v. resolution_issues es v p)
payload_issues lib ObservationKind.tcp_connection_result o ls es p =
    when_there o.tcp (λ v. tcp_issues es v p)
payload_issues lib ObservationKind.tls_transport_result o ls es p =
    when_there o.tls_transport (λ v. tls_transport_issues lib es v p)
payload_issues lib ObservationKind.tls_peer_summary o ls es p =
    when_there o.tls_peer (λ v. tls_peer_issues es v p)
payload_issues lib ObservationKind.certificate_verification_result o ls es p =
    when_there o.certificate_verification (λ v. certificate_issues lib es v p)
payload_issues lib ObservationKind.http_result o ls es p =
    when_there o.http (λ v. http_issues es v p)
payload_issues lib ObservationKind.active_proxy_route_summary o ls es p =
    when_there o.active_proxy_route (λ v. route_issues lib es v p)
payload_issues lib ObservationKind.configured_proxy_route_summary o ls es p =
    when_there o.configured_proxy_route (λ v. route_issues lib es v p)
payload_issues lib ObservationKind.upstream_selection_summary o ls es p =
    when_there o.upstream_selection (λ v. upstream_issues es v p)
payload_issues lib ObservationKind.listener_inventory_entry o ls es p =
    when_there o.listener (λ v. listener_entry_issues es v p)
payload_issues lib ObservationKind.listener_inventory_result o ls es p =
    when_there o.listener_inventory_result (λ v. inventory_result_issues es v ls p)
payload_issues lib ObservationKind.process_ownership_entry o ls es p =
    when_there o.process_ownership (λ v. ownership_issues es v p)
payload_issues lib ObservationKind.docker_runtime_summary o ls es p =
    when_there o.docker (λ v. docker_issues es v p)
payload_issues lib ObservationKind.capability_permission_result o ls es p =
    when_there o.capability (λ v. capability_issues v p)
payload_issues lib (ObservationKind.invalid s) o ls es p = []

unfoldable pub validate_payload : TextLibrary → Observation → Text → Entities → List ValidationIssue
unfolding payload_issues
validate_payload lib o p entities = payload_issues lib o.kind o.payload o.limitations entities p
