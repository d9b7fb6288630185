-- ===== src/Validation/Entities.antt =====
-- `unionEntityCount`, `validateEntity` and `validateEndpoint` of
-- internal/model/validate_evidence.go, and `validateLimitation` of validate_base_remaining.go.
use route_doc.Common.{
  ℕ, ◌+◌, Bool, true, false, not, ◌||◌, List, [], ◌++◌, none, some, Text, codes, ◌==◌, eq_number,
}
use route_doc.Model.Issues.{ValidationCode, ValidationIssue}
use route_doc.Model.Entities.{Addr, no_addr, v4, v6, Entity, EntityIdentity, EndpointIdentity}
use route_doc.Model.Limitations.{Limitation}
use route_doc.Model.Enums.{
  EntityKind, eq_entity_kind, entity_kind_valid, transport_valid, limitation_code_valid,
  limitation_scope_kind_valid,
}
use route_doc.Validation.Shared.{issue_if, issue_of}
use route_doc.Validation.Shapes.{one_if}
use route_doc.Validation.Texts.{
  TextLibrary, validate_hostname, validate_display_label, validate_safe_identifier,
  validate_fingerprint,
}

unfoldable pub union_entity_count : EntityIdentity → ℕ
union_entity_count e =
    one_if e.url_target
    + (one_if e.hostname
        + (one_if e.ip_address
            + (one_if e.endpoint
                + (one_if e.tls_peer
                    + (one_if e.http_exchange
                        + (one_if e.opaque
                            + (one_if e.listener
                                + (one_if e.process
                                    + (one_if e.container + one_if e.namespace)))))))))

-- `netip.Addr.IsValid`
unfoldable pub addr_valid : Addr → Bool
addr_valid no_addr = false
addr_valid (v4 n) = true
addr_valid (v6 n zone) = true

unfoldable pub validate_endpoint : EndpointIdentity → Text → List ValidationIssue
unfolding issue_if addr_valid
validate_endpoint e p =
    issue_if (not (addr_valid e.address)) ValidationCode.invalid_value (p ++ codes "/address")
      (codes "invalid address")
    ++ issue_if (e.port == 0) ValidationCode.invalid_value (p ++ codes "/port")
        (codes "port required")
    ++ issue_if (not (transport_valid e.transport)) ValidationCode.unknown_enum_value
        (p ++ codes "/transport") (codes "unknown transport")

endpoint_issues : EntityIdentity → Text → List ValidationIssue
unfolding validate_endpoint
endpoint_issues i p = elim i.endpoint [
  | none ↦ []
  | some e ↦ validate_endpoint e (p ++ codes "/identity/endpoint")
]

opaque_issues : EntityIdentity → Text → List ValidationIssue
unfolding issue_of
opaque_issues i p = elim i.opaque [
  | none ↦ []
  | some o ↦
      issue_of (validate_safe_identifier o.synthetic_id) ValidationCode.sensitive_disallowed_field
        (p ++ codes "/identity/synthetic_id")
]

-- The tests of `validateEntity` on the identity of the entity's kind, where it is there.
unfoldable pub entity_identity_issues :
    TextLibrary → EntityKind → EntityIdentity → Text → List ValidationIssue
unfolding issue_if issue_of validate_endpoint endpoint_issues opaque_issues
entity_identity_issues lib EntityKind.ip_address i p = elim i.ip_address [
  | none ↦ []
  | some a ↦
      issue_if (not (addr_valid a.address)) ValidationCode.invalid_value
        (p ++ codes "/identity/address") (codes "invalid IP address")
]
entity_identity_issues lib EntityKind.socket_endpoint i p = endpoint_issues i p
entity_identity_issues lib EntityKind.upstream_endpoint i p = endpoint_issues i p
entity_identity_issues lib EntityKind.listener i p = elim i.listener [
  | none ↦ []
  | some l ↦ validate_endpoint l.endpoint (p ++ codes "/identity/endpoint")
]
entity_identity_issues lib EntityKind.hostname i p = elim i.hostname [
  | none ↦ []
  | some h ↦
      issue_of (validate_hostname lib h.hostname) ValidationCode.sensitive_disallowed_field
        (p ++ codes "/identity/hostname")
]
entity_identity_issues lib EntityKind.tls_peer i p = elim i.tls_peer [
  | none ↦ []
  | some t ↦
      issue_of (validate_fingerprint t.fingerprint) ValidationCode.sensitive_disallowed_field
        (p ++ codes "/identity/fingerprint")
]
entity_identity_issues lib EntityKind.proxy_instance i p = opaque_issues i p
entity_identity_issues lib EntityKind.proxy_route i p = opaque_issues i p
entity_identity_issues lib EntityKind.container i p = elim i.container [
  | none ↦ []
  | some c ↦
      issue_of (validate_safe_identifier c.runtime_id) ValidationCode.sensitive_disallowed_field
        (p ++ codes "/identity/runtime_id")
      ++ issue_of (validate_safe_identifier c.container_id)
          ValidationCode.sensitive_disallowed_field (p ++ codes "/identity/container_id")
]
entity_identity_issues lib k i p = []

unfoldable pub validate_entity : TextLibrary → Entity → Text → List ValidationIssue
unfolding issue_if issue_of
validate_entity lib e p =
    issue_if (not (entity_kind_valid e.kind)) ValidationCode.unknown_union_kind (p ++ codes "/kind")
      (codes "unknown entity kind")
    ++ issue_of (validate_display_label lib e.display_label)
        ValidationCode.sensitive_disallowed_field (p ++ codes "/display_label")
    ++ issue_if (not (union_entity_count e.identity == 1) || not (e.identity.kind == e.kind))
        ValidationCode.invalid_value (p ++ codes "/identity")
        (codes "entity identity discriminant mismatch")
    ++ entity_identity_issues lib e.kind e.identity p

unfoldable pub validate_limitation : Limitation → Text → List ValidationIssue
unfolding issue_if
validate_limitation l p =
    issue_if (not (limitation_code_valid l.code)) ValidationCode.unknown_enum_value
      (p ++ codes "/code") (codes "unknown limitation")
    ++ issue_if (not (limitation_scope_kind_valid l.scope.kind)) ValidationCode.invalid_value
        (p ++ codes "/scope/kind") (codes "unknown limitation scope")
