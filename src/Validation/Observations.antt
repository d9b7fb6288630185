-- ===== src/Validation/Observations.antt =====
-- `validateObservation` and `validateVisibility` of internal/model/validate_base_remaining.go, and
-- the test of internal/model/validate_evidence.go that the namespace of an inventory is that of its
-- vantage.
use route_doc.Common.{
  ℕ, ◌+◌, Bool, true, false, not, ◌&&◌, ◌||◌, List, [], ◌∷◌, ◌++◌, Option, none, some, Text, codes,
  lookup, contains, length, ltb, ◌==◌, eq_number, eq_text, if◌then◌else◌,
}
use route_doc.Model.Ids.{EntityId, VantageId, ObservationId}
use route_doc.Model.Entities.{NamespaceIdentity}
use route_doc.Model.Issues.{ValidationCode, ValidationIssue}
use route_doc.Model.Observations.{
  Observation, ObservationPayload, ListenerInventoryResult, sensitivity_valid,
}
use route_doc.Model.Visibility.{VantagePoint, VisibilityAssessment, ListenerVisibilityScope}
use route_doc.Model.Runs.{EvidenceRun}
use route_doc.Model.Enums.{
  ObservationKind, EntityKind, VantageKind, VisibilityLevel, eq_observation_kind, eq_entity_kind,
  eq_vantage_kind, eq_visibility_level, observation_kind_valid, acquisition_method_valid,
  source_component_valid, visibility_subject_kind_valid, visibility_level_valid,
}
use route_doc.Ids.Kinds.{vantage_id_valid}
use route_doc.Listener.Complete.{listener_visibility_complete, basis_issue_code}
use route_doc.Validation.Shapes.{one_if}
use route_doc.Validation.Shared.{issue_if, each}
use route_doc.Validation.Texts.{TextLibrary}
use route_doc.Validation.Payloads.{Entities, entity_exists, validate_payload}

unfoldable pub observation_needs_vantage : ObservationKind → Bool
observation_needs_vantage k = not (k == ObservationKind.capability_permission_result)

unfoldable pub payload_count : ObservationPayload → ℕ
payload_count p =
    one_if p.resolution
    + (one_if p.tcp
        + (one_if p.tls_transport
            + (one_if p.tls_peer
                + (one_if p.certificate_verification
                    + (one_if p.http
                        + (one_if p.active_proxy_route
                            + (one_if p.configured_proxy_route
                                + (one_if p.upstream_selection
                                    + (one_if p.listener
                                        + (one_if p.listener_inventory_result
                                            + (one_if p.process_ownership
                                                + (one_if p.docker + one_if p.capability))))))))))))

-- The two issues about the vantage of an observation.
unfoldable pub observed_from_issues :
    ObservationKind → Option VantageId → List VantageId → Text → List ValidationIssue
unfolding issue_if
observed_from_issues k none vantages p =
    issue_if (observation_needs_vantage k) ValidationCode.vantage_required
      (p ++ codes "/vantage_id") (codes "network observation requires one vantage")
observed_from_issues k (some id) vantages p =
    issue_if (observation_needs_vantage k && not (contains vantages id))
      ValidationCode.reference_missing (p ++ codes "/vantage_id") (codes "vantage missing")

unfoldable pub validate_observation :
    TextLibrary → Observation → Text → Entities → List VantageId → List ValidationIssue
unfolding issue_if each entity_exists
validate_observation lib o p entities vantages =
    issue_if (not (observation_kind_valid o.kind)) ValidationCode.unknown_union_kind
      (p ++ codes "/kind") (codes "unknown observation kind")
    ++ each
        (λ i id.
          issue_if (not (entity_exists entities id)) ValidationCode.reference_missing
            (p ++ codes "/subject_entity_ids") (codes "entity missing"))
        0 o.subject_entity_ids
    ++ observed_from_issues o.kind o.vantage_id vantages p
    ++ issue_if (o.observed_at == 0) ValidationCode.invalid_value (p ++ codes "/observed_at")
        (codes "observation time must be UTC")
    ++ issue_if (not (acquisition_method_valid o.acquisition_method))
        ValidationCode.unknown_enum_value (p ++ codes "/acquisition_method")
        (codes "unknown acquisition method")
    ++ issue_if (not (source_component_valid o.source_component)) ValidationCode.unknown_enum_value
        (p ++ codes "/source_component") (codes "unknown source component")
    ++ issue_if (not (sensitivity_valid o.sensitivity)) ValidationCode.unknown_enum_value
        (p ++ codes "/sensitivity") (codes "unknown sensitivity")
    ++ issue_if (not (o.payload.kind == o.kind)) ValidationCode.unknown_union_kind
        (p ++ codes "/payload/kind") (codes "payload kind mismatch")
    ++ issue_if (not (payload_count o.payload == 1)) ValidationCode.invalid_value
        (p ++ codes "/payload") (codes "exactly one payload case required")
    ++ validate_payload lib o p entities

-- The namespace of an entity that is a network namespace.
namespace_of : Entities → EntityId → Option NamespaceIdentity
namespace_of entities id = elim (lookup id entities) [
  | none ↦ none
  | some e ↦ if not (e.kind == EntityKind.network_namespace) then none else e.identity.namespace
]

-- Whether the first vantage point with the identifier is a host namespace with that inode.
is_host_of : List VantagePoint → VantageId → NamespaceIdentity → Bool
is_host_of [] id n = false
is_host_of (v ∷ vs) id n =
    if v.vantage_id == id
    then (v.kind == VantageKind.host_namespace) && elim v.identity.host_namespace [
      | none ↦ false
      | some h ↦ h.namespace_inode == n.namespace_inode
    ]
    else is_host_of vs id n

unfoldable pub inventory_namespace_issues :
    Entities
    → List VantagePoint
    → Option VantageId
    → ListenerInventoryResult
    → Text
    → List ValidationIssue
unfolding issue_if namespace_of is_host_of
inventory_namespace_issues entities vantages vantage_id result p =
    elim (namespace_of entities result.namespace_entity_id) [
      | none ↦
          issue_if true ValidationCode.reference_missing (p ++ codes "/payload/namespace_entity_id")
            (codes "listener inventory result namespace must be a network namespace")
      | some n ↦ elim vantage_id [
        | none ↦ []
        | some id ↦
            issue_if (not (is_host_of vantages id n)) ValidationCode.vantage_mismatch
              (p ++ codes "/payload/namespace_entity_id")
              (codes "listener inventory result namespace does not correspond to vantage")
      ]
    ]

-- The round of the loop over the observations after `validateObservation`.
unfoldable pub inventory_issues :
    Entities → List VantagePoint → Observation → Text → List ValidationIssue
unfolding inventory_namespace_issues
inventory_issues entities vantages o p =
    if not (o.kind == ObservationKind.listener_inventory_result)
    then []
    else elim o.payload.listener_inventory_result [
      | none ↦ []
      | some result ↦ inventory_namespace_issues entities vantages o.vantage_id result p
    ]

-- `o.VantageID != nil && *o.VantageID != v.VantageID`
abbrev is_elsewhere : Option VantageId → VantageId → Bool
is_elsewhere none id = false
is_elsewhere (some v) id = not (v == id)

-- One round of the loop over the basis of an assessment.
unfoldable pub basis_issues :
    VisibilityAssessment
    → List ObservationId
    → List Observation
    → Text
    → ObservationId
    → List ValidationIssue
unfolding issue_if each
basis_issues v known all_of_run p id =
    issue_if (not (contains known id)) ValidationCode.reference_missing
      (p ++ codes "/basis_observation_ids") (codes "basis observation missing")
    ++ each
        (λ i o.
          issue_if ((o.observation_id == id) && is_elsewhere o.vantage_id v.vantage_id)
            ValidationCode.vantage_mismatch (p ++ codes "/basis_observation_ids")
            (codes "basis vantage mismatch"))
        0 all_of_run

-- The issue of a basis that claims to be complete, unless it is that of an incomplete inventory.
abbrev basis_code_issue : Option ValidationCode → Bool → Text → List ValidationIssue
basis_code_issue none complete p =
    issue_if (not complete) ValidationCode.visibility_insufficient_for_absence (p ++ codes "/level")
      (codes "complete visibility requires a qualifying completed inventory result")
basis_code_issue (some ValidationCode.visibility_insufficient_for_absence) complete p =
    issue_if (not complete) ValidationCode.visibility_insufficient_for_absence (p ++ codes "/level")
      (codes "complete visibility requires a qualifying completed inventory result")
basis_code_issue (some c) complete p =
    issue_if true c (p ++ codes "/basis_observation_ids")
      (codes "complete visibility basis does not match listener scope")

unfoldable pub completeness_issues :
    EvidenceRun → VisibilityAssessment → Text → List ValidationIssue
unfolding issue_if
completeness_issues run v p =
    if not (v.level == VisibilityLevel.complete_for_scope)
    then []
    else if length v.basis_observation_ids == 0
    then issue_if true ValidationCode.visibility_insufficient_for_absence (p ++ codes "/level")
        (codes "complete visibility needs basis observations")
    else basis_code_issue (basis_issue_code run v) (listener_visibility_complete run v) p

unfoldable pub scope_issues :
    EvidenceRun
    → VisibilityAssessment
    → ListenerVisibilityScope
    → Text
    → List EntityId
    → List ObservationId
    → List ValidationIssue
unfolding issue_if each basis_issues completeness_issues
scope_issues run v s p entities known =
    issue_if (ltb s.port_end s.port_start) ValidationCode.visibility_scope_mismatch
      (p ++ codes "/scope/port_start") (codes "invalid port range")
    ++ issue_if (not (contains entities s.namespace_entity_id)) ValidationCode.reference_missing
        (p ++ codes "/scope/namespace_entity_id") (codes "namespace missing")
    ++ each (λ i id. basis_issues v known run.observations p id) 0 v.basis_observation_ids
    ++ completeness_issues run v p

-- `v.Scope.Kind != "LISTENER" || v.Scope.Listener == nil`, or the scope
abbrev scope_or_issue :
    EvidenceRun
    → VisibilityAssessment
    → Text
    → List EntityId
    → List ObservationId
    → Option ListenerVisibilityScope
    → Bool
    → List ValidationIssue
scope_or_issue run v p entities known (some s) true = scope_issues run v s p entities known
scope_or_issue run v p entities known _ _ =
    issue_if true ValidationCode.visibility_scope_mismatch (p ++ codes "/scope")
      (codes "listener scope required")

unfoldable pub validate_visibility :
    EvidenceRun
    → VisibilityAssessment
    → Text
    → List EntityId
    → List VantageId
    → List ObservationId
    → List ValidationIssue
unfolding issue_if scope_issues
validate_visibility run v p entities vantages known =
    issue_if (not (visibility_subject_kind_valid v.subject_kind)) ValidationCode.unknown_union_kind
      (p ++ codes "/subject_kind") (codes "unknown visibility subject")
    ++ issue_if (not (vantage_id_valid v.vantage_id) || not (contains vantages v.vantage_id))
        ValidationCode.reference_missing (p ++ codes "/vantage_id") (codes "vantage missing")
    ++ issue_if (not (visibility_level_valid v.level)) ValidationCode.unknown_enum_value
        (p ++ codes "/level") (codes "unknown visibility level")
    ++ scope_or_issue run v p entities known v.scope.listener (v.scope.kind == codes "LISTENER")
