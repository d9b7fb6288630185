-- ===== src/Listener/Absence.antt =====
-- `ListenerAbsenceEvidenceValid` and `ListenerAbsenceEvidenceIssueCode` of
-- internal/model/listener_absence.go.
use route_doc.Common.{
  ℕ, Bool, true, false, not, ◌&&◌, ◌||◌, List, [], ◌∷◌, Option, none, some, codes, lookup, any, ltb,
  leb, ◌==◌, eq_number, eq_text, if◌then◌else◌,
}
use route_doc.Model.Ids.{ObservationId}
use route_doc.Model.Visibility.{ListenerVisibilityScope, VisibilityAssessment}
use route_doc.Model.Observations.{Observation}
use route_doc.Model.Runs.{EvidenceRun}
use route_doc.Model.Issues.{ValidationCode}
use route_doc.Model.Enums.{ObservationKind, eq_observation_kind}
use route_doc.Listener.{result_class, entry_class, observations_by_id, vantage_is}
use route_doc.Listener.Times.{time_coherent}
use route_doc.Listener.Complete.{listener_visibility_complete, basis_issue_code}

-- The loop over the basis that both functions have; the first argument is `hasZeroResult`, and
-- `none` is its early return on a result that counts a listener.
unfoldable pub zero_results : EvidenceRun → Bool → List ObservationId → Option Bool
zero_results r has_zero [] = some has_zero
zero_results r has_zero (id ∷ ids) = elim (lookup id (observations_by_id r.observations)) [
  | none ↦ zero_results r has_zero ids
  | some o ↦ elim (o.kind == ObservationKind.listener_inventory_result) [
    | false ↦ zero_results r has_zero ids
    | true ↦ elim o.payload.listener_inventory_result [
      | none ↦ zero_results r has_zero ids
      | some p ↦ elim (p.matching_listener_count == 0) [
        | false ↦ none
        | true ↦ zero_results r true ids
      ]
    ]
  ]
]

unfoldable pub has_only_zero_results : EvidenceRun → VisibilityAssessment → Bool
has_only_zero_results r v = elim (zero_results r false v.basis_observation_ids) [
  | none ↦ false
  | some has_zero ↦ has_zero
]

-- The switch on the kind of an observation: whether it tells of a listener on the port.
unfoldable pub tells_of_listener : ListenerVisibilityScope → ℕ → Observation → Bool
tells_of_listener s target_port o =
    if o.kind == ObservationKind.listener_inventory_entry
    then elim o.payload.listener [
      | none ↦ false
      | some p ↦ entry_class p s && (p.port == target_port)
    ]
    else if o.kind == ObservationKind.listener_inventory_result
    then elim o.payload.listener_inventory_result [
      | none ↦ false
      | some p ↦
          not (p.matching_listener_count == 0)
          && (result_class p s && (leb target_port p.port_start && leb p.port_end target_port))
    ]
    else false

-- One round of the last loop.
unfoldable pub contradicts :
    EvidenceRun → VisibilityAssessment → ListenerVisibilityScope → ℕ → Observation → Bool
contradicts r v s target_port o =
    vantage_is o.vantage_id v.vantage_id
    && (time_coherent r.policy o.observed_at v.assessed_at && tells_of_listener s target_port o)

unfoldable pub outside_scope : ListenerVisibilityScope → ℕ → Bool
outside_scope s target_port = ltb target_port s.port_start || ltb s.port_end target_port

-- `ListenerAbsenceEvidenceValid`
unfoldable pub absence_evidence_valid : EvidenceRun → VisibilityAssessment → ℕ → Bool
absence_evidence_valid r v target_port =
    if not (listener_visibility_complete r v) then false else elim v.scope.listener [
      | none ↦ false
      | some s ↦
          if outside_scope s target_port
          then false
          else if not (has_only_zero_results r v)
          then false
          else not (any (contradicts r v s target_port) r.observations)
    ]

-- Whether the basis issue is one that is reported at once.
unfoldable pub is_mismatch : Option ValidationCode → Bool
is_mismatch (some ValidationCode.vantage_mismatch) = true
is_mismatch (some ValidationCode.visibility_scope_mismatch) = true
is_mismatch _ = false

-- `ListenerAbsenceEvidenceIssueCode`; `none` is the empty code.
unfoldable pub absence_evidence_issue_code :
    EvidenceRun → VisibilityAssessment → ℕ → Option ValidationCode
absence_evidence_issue_code r v target_port = elim v.scope.listener [
  | none ↦ some ValidationCode.visibility_insufficient_for_absence
  | some s ↦
      if not (v.scope.kind == codes "LISTENER")
      then some ValidationCode.visibility_insufficient_for_absence
      else if outside_scope s target_port
      then some ValidationCode.visibility_scope_mismatch
      else if is_mismatch (basis_issue_code r v)
      then basis_issue_code r v
      else if not (listener_visibility_complete r v)
      then some ValidationCode.visibility_insufficient_for_absence
      else if not (has_only_zero_results r v)
      then some ValidationCode.visibility_insufficient_for_absence
      else if not (absence_evidence_valid r v target_port)
      then some ValidationCode.visibility_insufficient_for_absence
      else none
]
