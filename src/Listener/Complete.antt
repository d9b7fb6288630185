-- ===== src/Listener/Complete.antt =====
-- `ListenerVisibilityComplete` and `listenerVisibilityBasisIssueCode` of
-- internal/model/listener_absence.go.
use route_doc.Common.{
  Bool, true, false, not, ◌&&◌, ◌||◌, List, [], ◌∷◌, Option, none, some, codes, lookup, all,
  contains, length, ltb, leb, ◌==◌, eq_number, eq_text, if◌then◌else◌,
}
use route_doc.Model.Ids.{EntityId, ObservationId}
use route_doc.Model.Visibility.{ListenerVisibilityScope, VisibilityAssessment}
use route_doc.Model.Observations.{
  Observation, ListenerInventoryEntry, ListenerInventoryResult, ProcessOwnershipEntry,
}
use route_doc.Model.Runs.{EvidenceRun}
use route_doc.Model.Issues.{ValidationCode}
use route_doc.Model.Enums.{
  ObservationKind, OwnershipResult, VisibilitySubjectKind, VisibilityLevel, eq_observation_kind,
  eq_ownership_result, eq_visibility_subject_kind, eq_visibility_level, eq_transport,
  eq_address_family, eq_bind_semantics,
}
use route_doc.Listener.{
  scope_valid, result_matches, observations_by_id, namespace_matches_vantage, concrete_listener_key,
  vantage_is, Basis, collect_basis,
}
use route_doc.Listener.Times.{time_coherent}

-- `==` on two results, field by field
unfoldable pub same_result : ListenerInventoryResult → ListenerInventoryResult → Bool
same_result p q =
    (p.namespace_entity_id == q.namespace_entity_id)
    && ((p.protocol == q.protocol)
        && ((p.address_family == q.address_family)
            && ((p.bind_semantics == q.bind_semantics)
                && ((p.port_start == q.port_start)
                    && ((p.port_end == q.port_end)
                        && (p.matching_listener_count == q.matching_listener_count))))))

-- `set[key] = true`, for the keys of a map
unfoldable pub add_key : EntityId → List EntityId → List EntityId
add_key key set = if contains set key then set else key ∷ set

-- `listenerKeys` from `set` on; `none` is `return false`.
unfoldable pub listener_keys :
    EvidenceRun → List ListenerInventoryEntry → List EntityId → Option (List EntityId)
listener_keys r [] set = some set
listener_keys r (e ∷ es) set = elim (concrete_listener_key r e.listener_entity_id) [
  | none ↦ none
  | some key ↦ listener_keys r es (add_key key set)
]

-- The loop that fills `owned`.
unfoldable pub owned_keys :
    EvidenceRun
    → List EntityId
    → List ProcessOwnershipEntry
    → List EntityId
    → Option (List EntityId)
owned_keys r listeners [] set = some set
owned_keys r listeners (i ∷ is) set = elim i.process_entity_id [
  | none ↦ none
  | some process ↦
      if not (i.result == OwnershipResult.owned)
      then none
      else elim (concrete_listener_key r i.listener_entity_id) [
        | none ↦ none
        | some key ↦
            if not (contains listeners key)
            then none
            else owned_keys r listeners is (add_key key set)
      ]
]

-- What is asked of the listeners and their owners.
unfoldable pub owners_complete : EvidenceRun → ListenerInventoryResult → Basis → Bool
owners_complete r result b = elim (listener_keys r b.entries []) [
  | none ↦ false
  | some listeners ↦
      if not (length listeners == result.matching_listener_count)
      then false
      else elim (owned_keys r listeners b.ownership []) [
        | none ↦ false
        | some owned ↦
            if not (length owned == length listeners) then false else all (contains owned) listeners
      ]
]

-- What follows the loop over the basis.
unfoldable pub basis_complete : EvidenceRun → ListenerVisibilityScope → Basis → Bool
basis_complete r s b = elim b.results [
  | [] ↦ false
  | result ∷ others ↦
      if not (all (λ c. same_result c result) others)
      then false
      else if not s.process_ownership_required
      then true
      else if result.matching_listener_count == 0
      then leb (length b.ownership) 0
      else if not (result.port_start == s.port_start) || not (result.port_end == s.port_end)
      then false
      else owners_complete r result b
]

-- The first guard, for an assessment with a listener scope.
unfoldable pub is_listener_assessment : VisibilityAssessment → Bool
is_listener_assessment v =
    (v.subject_kind == VisibilitySubjectKind.listener)
    && ((v.level == VisibilityLevel.complete_for_scope)
        && ((v.scope.kind == codes "LISTENER")
            && (not (v.vantage_id == [])
                && (ltb 0 (length v.basis_observation_ids) && leb (length v.limitations) 0))))

abbrev pub empty_basis : Basis
empty_basis = record { seen = []; results = []; entries = []; ownership = [] }

-- `ListenerVisibilityComplete` for the listener scope `s`.
unfoldable pub complete_for : EvidenceRun → VisibilityAssessment → ListenerVisibilityScope → Bool
complete_for r v s =
    if not (is_listener_assessment v)
    then false
    else if not (scope_valid s)
    then false
    else if not (namespace_matches_vantage r s.namespace_entity_id v.vantage_id)
    then false
    else elim (collect_basis r v s v.basis_observation_ids empty_basis) [
      | none ↦ false
      | some b ↦ basis_complete r s b
    ]

unfoldable pub listener_visibility_complete : EvidenceRun → VisibilityAssessment → Bool
listener_visibility_complete r v = elim v.scope.listener [
  | none ↦ false
  | some s ↦ complete_for r v s
]

-- The round of `listenerVisibilityBasisIssueCode` for a result of the assessment's vantage; `none`
-- is no return.
unfoldable pub basis_result_issue :
    EvidenceRun → VisibilityAssessment → Observation → Option ValidationCode
basis_result_issue r v o = elim o.payload.listener_inventory_result [
  | none ↦ some ValidationCode.visibility_insufficient_for_absence
  | some p ↦ elim v.scope.listener [
    | none ↦ some ValidationCode.visibility_scope_mismatch
    | some s ↦
        if not (result_matches p s)
        then some ValidationCode.visibility_scope_mismatch
        else if not (leb (length o.limitations) 0)
            || not (time_coherent r.policy o.observed_at v.assessed_at)
        then some ValidationCode.visibility_insufficient_for_absence
        else none
  ]
]

-- The loop and what follows it; the arguments before the basis are `hasResult` and
-- `hasSameVantage`.
unfoldable pub basis_loop_issue :
    EvidenceRun → VisibilityAssessment → Bool → Bool → List ObservationId → Option ValidationCode
basis_loop_issue r v has_result same_vantage [] =
    if has_result && not same_vantage
    then some ValidationCode.vantage_mismatch
    else if not has_result
    then some ValidationCode.visibility_insufficient_for_absence
    else none
basis_loop_issue r v has_result same_vantage (id ∷ ids) =
    elim (lookup id (observations_by_id r.observations)) [
      | none ↦ basis_loop_issue r v has_result same_vantage ids
      | some o ↦ elim (o.kind == ObservationKind.listener_inventory_result) [
        | false ↦ basis_loop_issue r v has_result same_vantage ids
        | true ↦ elim (vantage_is o.vantage_id v.vantage_id) [
          | false ↦ basis_loop_issue r v true same_vantage ids
          | true ↦ elim (basis_result_issue r v o) [
            | some code ↦ some code
            | none ↦ basis_loop_issue r v true true ids
          ]
        ]
      ]
    ]

unfoldable pub basis_issue_code : EvidenceRun → VisibilityAssessment → Option ValidationCode
basis_issue_code r v =
    if leb (length v.basis_observation_ids) 0
    then some ValidationCode.visibility_insufficient_for_absence
    else basis_loop_issue r v false false v.basis_observation_ids
