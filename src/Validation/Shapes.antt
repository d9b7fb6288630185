-- ===== src/Validation/Shapes.antt =====
-- `validateTimes`, `validateTarget`, `validateVantage` and `validateAssertion` of
-- internal/model/validate_evidence.go, and its tests on a capability.
use route_doc.Common.{
  ℕ, ◌+◌, Bool, true, not, ◌&&◌, ◌||◌, List, [], ◌++◌, Option, none, some, Text, codes, ltb, ◌==◌,
  eq_number, eq_text, if◌then◌else◌,
}
use route_doc.Model.Ids.{Time}
use route_doc.Model.Issues.{ValidationCode, ValidationIssue}
use route_doc.Model.Limitations.{Capability}
use route_doc.Model.Observations.{Target}
use route_doc.Model.Visibility.{VantagePoint, VantageIdentity}
use route_doc.Model.Assertions.{OperatorAssertion, AssertionParameters, HttpExpectation}
use route_doc.Model.Enums.{
  VantageKind, AssertionKind, ExpectationKind, eq_vantage_kind, eq_assertion_kind,
  eq_expectation_kind, vantage_kind_valid, vantage_role_valid, vantage_establishment_valid,
  assertion_kind_valid, assertion_source_valid, path_relation_valid, expectation_kind_valid,
  component_kind_valid, config_source_kind_valid, capability_kind_valid, capability_state_valid,
}
use route_doc.Ids.Kinds.{vantage_id_valid, capability_id_valid}
use route_doc.Listener.{entity_id_valid}
use route_doc.Validation.Shared.{issue_if, issue_of, identifier_issues}
use route_doc.Validation.Texts.{
  TextLibrary, validate_hostname, validate_display_label, validate_safe_identifier,
  validate_reason_code, validate_header_name, validate_safe_token,
}

-- `finish.Before(start)` and `IsZero` on the model's times
unfoldable pub validate_times : Time → Time → Text → Text → List ValidationIssue
unfolding issue_if
validate_times start finish sp fp =
    issue_if (start == 0) ValidationCode.missing_required_field sp (codes "time is required")
    ++ issue_if (finish == 0) ValidationCode.missing_required_field fp (codes "time is required")
    ++ issue_if (not (start == 0) && (not (finish == 0) && ltb finish start))
        ValidationCode.invalid_value fp (codes "finished time precedes started time")

unfoldable pub validate_target : TextLibrary → Target → Option Text
validate_target lib t =
    if not (t.scheme == codes "http") && not (t.scheme == codes "https")
    then some (codes "invalid scheme")
    else elim (validate_hostname lib t.hostname) [
      | some m ↦ some m
      | none ↦
          if t.effective_port == 0
          then some (codes "effective port required")
          else if not t.path.present && t.path.is_root
          then some (codes "root path must be present")
          else if t.path.is_root && not (t.path.segment_count == 0)
          then some (codes "root path has segments")
          else if not t.path.present
              && (not (t.path.segment_count == 0)
                  || (t.path.trailing_slash || t.path.query_present))
          then some (codes "absent path has details")
          else none
    ]

-- `if p != nil { n++ }`
abbrev pub one_if {ℓ} : {A : Type ℓ} → Option A → ℕ
one_if none = 0
one_if (some a) = 1

unfoldable pub vantage_identity_count : VantageIdentity → ℕ
vantage_identity_count i =
    one_if i.client_network
    + (one_if i.host_namespace + (one_if i.container_namespace + one_if i.unknown_namespace))

-- The tests on the identity of the vantage's kind, where it is there.
unfoldable pub vantage_identity_issues :
    TextLibrary → VantageKind → VantageIdentity → Text → List ValidationIssue
unfolding issue_if issue_of
vantage_identity_issues lib VantageKind.client_network i p = elim i.client_network [
  | none ↦ []
  | some c ↦
      issue_of (validate_display_label lib c.label) ValidationCode.sensitive_disallowed_field
        (p ++ codes "/identity/label")
]
vantage_identity_issues lib VantageKind.host_namespace i p = elim i.host_namespace [
  | none ↦ []
  | some h ↦
      issue_if (h.namespace_inode == 0) ValidationCode.invalid_value
        (p ++ codes "/identity/namespace_inode") (codes "inode required")
]
vantage_identity_issues lib VantageKind.container_namespace i p = elim i.container_namespace [
  | none ↦ []
  | some c ↦
      issue_of (validate_safe_identifier c.daemon_id) ValidationCode.sensitive_disallowed_field
        (p ++ codes "/identity/daemon_id")
      ++ issue_of (validate_safe_identifier c.container_id)
          ValidationCode.sensitive_disallowed_field (p ++ codes "/identity/container_id")
]
vantage_identity_issues lib VantageKind.unknown_namespace i p = elim i.unknown_namespace [
  | none ↦ []
  | some u ↦
      issue_of (validate_reason_code u.reason_code) ValidationCode.sensitive_disallowed_field
        (p ++ codes "/identity/reason_code")
]
vantage_identity_issues lib (VantageKind.invalid s) i p = []

unfoldable pub validate_vantage : TextLibrary → VantagePoint → Text → List ValidationIssue
unfolding issue_if issue_of
validate_vantage lib v p =
    issue_if (not (vantage_kind_valid v.kind)) ValidationCode.unknown_enum_value
      (p ++ codes "/kind") (codes "unknown vantage kind")
    ++ issue_if (not (vantage_role_valid v.role)) ValidationCode.unknown_enum_value
        (p ++ codes "/role") (codes "unknown vantage role")
    ++ issue_if (not (vantage_establishment_valid v.establishment))
        ValidationCode.unknown_enum_value (p ++ codes "/establishment")
        (codes "unknown establishment")
    ++ issue_of (validate_display_label lib v.display_label)
        ValidationCode.sensitive_disallowed_field (p ++ codes "/display_label")
    ++ issue_if (not (vantage_identity_count v.identity == 1) || not (v.identity.kind == v.kind))
        ValidationCode.invalid_value (p ++ codes "/identity")
        (codes "identity discriminant does not match vantage")
    ++ vantage_identity_issues lib v.kind v.identity p

-- One round of the loop over the capabilities; `seen` is `capIDs`.
unfoldable pub validate_capability : List Text → Capability → Text → List ValidationIssue
unfolding issue_if issue_of identifier_issues
validate_capability seen c p =
    identifier_issues (capability_id_valid c.capability_id) seen c.capability_id
      (p ++ codes "/capability_id") (codes "invalid capability ID")
      (codes "duplicate capability ID")
    ++ issue_if (not (capability_kind_valid c.kind)) ValidationCode.invalid_value
        (p ++ codes "/kind") (codes "unknown capability")
    ++ issue_if (not (capability_state_valid c.state)) ValidationCode.unknown_enum_value
        (p ++ codes "/state") (codes "unknown capability state")
    ++ issue_of (validate_reason_code c.reason_code) ValidationCode.sensitive_disallowed_field
        (p ++ codes "/reason_code")

unfoldable pub assertion_count : AssertionParameters → ℕ
assertion_count a =
    one_if a.local_origin
    + (one_if a.expected_path
        + (one_if a.http + (one_if a.config_source + one_if a.private_redirect)))

-- `h.StatusMin == nil || h.StatusMax == nil || *h.StatusMin > *h.StatusMax`
abbrev bad_range : Option ℕ → Option ℕ → Bool
bad_range (some lo) (some hi) = ltb hi lo
bad_range _ _ = true

abbrev absent_or_empty : Option Text → Bool
absent_or_empty none = true
absent_or_empty (some s) = s == []

unfoldable pub expectation_issues : HttpExpectation → Text → List ValidationIssue
unfolding issue_if issue_of
expectation_issues h p =
    issue_if (not (expectation_kind_valid h.expectation_kind)) ValidationCode.unknown_enum_value
      (p ++ codes "/parameters/expectation_kind") (codes "unknown expectation")
    ++ issue_if
        ((h.expectation_kind == ExpectationKind.status_range)
          && bad_range h.status_min h.status_max)
        ValidationCode.invalid_value (p ++ codes "/parameters") (codes "invalid status range")
    ++ issue_if
        ((h.expectation_kind == ExpectationKind.header_present) && absent_or_empty h.header_name)
        ValidationCode.invalid_value (p ++ codes "/parameters/header_name")
        (codes "header name required")
    ++ elim h.header_name [
      | none ↦ []
      | some n ↦
          issue_of (validate_header_name n) ValidationCode.sensitive_disallowed_field
            (p ++ codes "/parameters/header_name")
    ]

-- The switch of `validateAssertion` on the kind.
unfoldable pub assertion_kind_issues :
    TextLibrary → AssertionKind → AssertionParameters → Text → List ValidationIssue
unfolding issue_if issue_of expectation_issues
assertion_kind_issues lib AssertionKind.local_origin_participation a p = elim a.local_origin [
  | none ↦ []
  | some l ↦
      issue_if
        (not (entity_id_valid l.url_target_entity_id) || not (vantage_id_valid l.host_vantage_id))
        ValidationCode.invalid_value (p ++ codes "/parameters")
        (codes "invalid local origin payload")
]
assertion_kind_issues lib AssertionKind.expected_path_edge a p =
    let bad : Bool = elim a.expected_path [
      | none ↦ true
      | some e ↦ not (path_relation_valid e.relation)
    ] in
    issue_if bad ValidationCode.invalid_value (p ++ codes "/parameters/relation")
      (codes "invalid edge relation")
assertion_kind_issues lib AssertionKind.http_expectation a p = elim a.http [
  | none ↦ []
  | some h ↦ expectation_issues h p
]
assertion_kind_issues lib AssertionKind.config_source_selection a p =
    let bad : Bool = elim a.config_source [
      | none ↦ true
      | some c ↦
          not (component_kind_valid c.component_kind)
          || not (config_source_kind_valid c.source_kind)
    ] in
    issue_if bad ValidationCode.invalid_value (p ++ codes "/parameters")
      (codes "invalid config source")
assertion_kind_issues lib AssertionKind.private_redirect_transition_allowed a p =
    elim a.private_redirect [
      | none ↦ []
      | some r ↦
          issue_of (validate_safe_token lib r.from_address_scope 32)
            ValidationCode.sensitive_disallowed_field (p ++ codes "/parameters/from_address_scope")
          ++ issue_of (validate_safe_token lib r.to_address_scope 32)
              ValidationCode.sensitive_disallowed_field (p ++ codes "/parameters/to_address_scope")
    ]
assertion_kind_issues lib (AssertionKind.invalid s) a p = []

unfoldable pub validate_assertion : TextLibrary → OperatorAssertion → Text → List ValidationIssue
unfolding issue_if
validate_assertion lib a p =
    issue_if (not (assertion_kind_valid a.kind)) ValidationCode.unknown_union_kind
      (p ++ codes "/kind") (codes "unknown assertion kind")
    ++ issue_if (not (assertion_source_valid a.source)) ValidationCode.invalid_assertion_source
        (p ++ codes "/source") (codes "invalid assertion source")
    ++ issue_if (a.established_at == 0) ValidationCode.invalid_value (p ++ codes "/established_at")
        (codes "assertion time must be UTC")
    ++ issue_if (not (assertion_count a.parameters == 1) || not (a.parameters.kind == a.kind))
        ValidationCode.invalid_value (p ++ codes "/parameters")
        (codes "assertion payload discriminant mismatch")
    ++ assertion_kind_issues lib a.kind a.parameters p
