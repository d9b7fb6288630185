-- ===== src/Validation/AbsenceClaims.antt =====
-- `validateListenerAbsenceClaim` of internal/model/validate_evaluated.go.
use route_doc.Common.{
  ℕ, Bool, true, not, ◌||◌, List, [], ◌∷◌, ◌++◌, Option, none, some, Text, codes, contains, ◌==◌,
  eq_number, eq_text, if◌then◌else◌,
}
use route_doc.Model.Ids.{VisibilityId, ObservationId}
use route_doc.Model.Issues.{ValidationCode, ValidationIssue}
use route_doc.Model.Claims.{Claim, ListenerAbsentClaimParameters}
use route_doc.Model.Paths.{EvidenceRef}
use route_doc.Model.Runs.{EvaluatedRun, EvidenceRun}
use route_doc.Model.Visibility.{VisibilityAssessment}
use route_doc.Model.Enums.{
  ClaimLevel, EvidenceKind, eq_claim_level, eq_evidence_kind, eq_transport, eq_address_family,
  eq_bind_semantics,
}
use route_doc.Listener.Absence.{absence_evidence_issue_code}
use route_doc.Validation.Shared.{issue_if, indexed, each}

-- What the loop over the supporting evidence has collected.
pub record Cited : Type 0 where
  pub issues : List ValidationIssue
  pub visibility : Option VisibilityAssessment
  pub observations : List ObservationId

-- An assessment with the identifier that is cited.
unfoldable pub cite : VisibilityAssessment → Text → Cited → Cited
unfolding issue_if
cite v prefix s = elim s.visibility [
  | none ↦ record s { visibility = some v }
  | some w ↦ record s {
    issues =
        s.issues
        ++ issue_if true ValidationCode.visibility_scope_mismatch
            (prefix ++ codes "/supporting_evidence")
            (codes "listener absence requires one visibility assessment");
  }
]

unfoldable pub cite_all : List VisibilityAssessment → VisibilityId → Text → Cited → Cited
unfolding cite
cite_all [] id prefix s = s
cite_all (v ∷ vs) id prefix s =
    cite_all vs id prefix (if v.visibility_id == id then cite v prefix s else s)

-- One round of the loop over the supporting evidence.
unfoldable pub cite_ref : EvidenceRun → EvidenceRef → Text → Cited → Cited
unfolding cite_all
cite_ref r x prefix s =
    if x.kind == EvidenceKind.visibility
    then elim x.visibility_id [ none ↦ s | some id ↦ cite_all r.visibility_assessments id prefix s ]
    else if x.kind == EvidenceKind.observation
    then elim x.observation_id [
      | none ↦ s
      | some id ↦ record s { observations = id ∷ s.observations }
    ]
    else s

unfoldable pub cite_refs : EvidenceRun → List EvidenceRef → Text → Cited → Cited
unfolding cite_ref
cite_refs r [] prefix s = s
cite_refs r (x ∷ xs) prefix s = cite_refs r xs prefix (cite_ref r x prefix s)

unfoldable pub differs_from_scope : ListenerAbsentClaimParameters → VisibilityAssessment → Bool
differs_from_scope v assessment = elim assessment.scope.listener [
  | none ↦ true
  | some s ↦
      not (v.namespace_entity_id == s.namespace_entity_id)
      || (not (v.vantage_id == assessment.vantage_id)
          || (not (v.protocol == s.protocol)
              || (not (v.address_family == s.address_family)
                  || not (v.bind_semantics == s.bind_semantics))))
]

-- The tests on the one assessment that is cited.
unfoldable pub cited_issues :
    EvidenceRun
    → ListenerAbsentClaimParameters
    → VisibilityAssessment
    → List ObservationId
    → Text
    → List ValidationIssue
unfolding issue_if each differs_from_scope
cited_issues r v assessment observations prefix =
    issue_if (differs_from_scope v assessment) ValidationCode.visibility_scope_mismatch
      (prefix ++ codes "/parameters")
      (codes "listener absence parameters do not match visibility scope")
    ++ elim (absence_evidence_issue_code r assessment v.port) [
      | none ↦ []
      | some code ↦
          issue_if true code (prefix ++ codes "/supporting_evidence")
            (codes "listener absence evidence does not prove completed scoped inventory")
    ]
    ++ each
        (λ i id.
          issue_if (not (contains observations id)) ValidationCode.justification_missing
            (prefix ++ codes "/supporting_evidence")
            (codes "listener absence must cite every visibility basis observation"))
        0 assessment.basis_observation_ids

unfoldable pub absent_parameters_issues :
    EvaluatedRun → Claim → ListenerAbsentClaimParameters → Text → List ValidationIssue
unfolding issue_if cite_refs cited_issues
absent_parameters_issues r c v prefix =
    let s =
      cite_refs r.evidence c.supporting_evidence prefix
        (record { issues = []; visibility = none; observations = [] }) in
    issue_if (not (c.level == ClaimLevel.inferred)) ValidationCode.claim_invalid_support_level
      (prefix ++ codes "/level") (codes "listener absence must be inferred")
    ++ issue_if (not (v.port == r.evidence.target.effective_port))
        ValidationCode.visibility_scope_mismatch (prefix ++ codes "/parameters/port")
        (codes "listener absence port must match target port")
    ++ s.issues
    ++ elim s.visibility [
      | none ↦
          issue_if true ValidationCode.visibility_insufficient_for_absence
            (prefix ++ codes "/supporting_evidence")
            (codes "listener absence requires a visibility assessment")
      | some assessment ↦ cited_issues r.evidence v assessment s.observations prefix
    ]

unfoldable pub validate_listener_absence_claim : EvaluatedRun → ℕ → Claim → List ValidationIssue
unfolding absent_parameters_issues indexed
validate_listener_absence_claim r index c = elim c.parameters.listener_absent [
  | none ↦ []
  | some v ↦ absent_parameters_issues r c v (indexed (codes "/claims/") index)
]
