-- ===== src/Rules/Listener.antt =====
-- internal/rules/listener/no_matching_listener.go. `netip.ParseAddr` is a parameter.
pub mod Returned
pub mod Citing
pub mod Accepted
pub mod Unplaced
use route_doc.Common.{
  ℕ, Bool, true, false, not, ◌&&◌, ◌||◌, List, [], ◌∷◌, ◌++◌, Option, none, some, Text, codes,
  Table, lookup, index_into, any, length, map, ◌==◌, eq_number, eq_text, by_discrete, Comparable,
  Text-discrete, if◌then◌else◌,
}
use native.Mathlib.Decide.{ℕ_discrete}
use route_doc.Model.Ids.{BranchId, VisibilityId, ObservationId}
use route_doc.Model.Entities.{Addr, no_addr, v4, v6, Entity, EndpointIdentity}
use route_doc.Model.Paths.{EvidenceRef}
use route_doc.Model.Visibility.{ListenerVisibilityScope, VisibilityAssessment}
use route_doc.Model.Observations.{Observation, ListenerInventoryEntry}
use route_doc.Model.Runs.{EvidenceRun}
use route_doc.Model.Enums.{
  ObservationKind, EntityKind, EvidenceKind, ScopeKind, Transport, AddressFamily, BindSemantics,
  ClaimStatementCode, ClaimLevel, FindingKind, FindingTitleCode, Selection, eq_observation_kind,
  eq_entity_kind, eq_evidence_kind, eq_scope_kind, eq_transport, eq_address_family,
}
use route_doc.Listener.Absence.{absence_evidence_valid}
use route_doc.Rules.Templates.{
  EvidenceTemplate, ClaimTemplate, FindingTemplate, RuleCandidate, Rule,
}
use route_doc.Rules.Positions.{branches_for}
use route_doc.Rules.Coverage.{has_compatible_listener, scope_applies_to_target}

-- `x.Kind == model.EvidenceKindVisibility && x.VisibilityID != nil && *x.VisibilityID == id`
unfoldable pub is_visibility_ref : VisibilityId → EvidenceRef → Bool
is_visibility_ref id x =
    (x.kind == EvidenceKind.visibility) && elim x.visibility_id [ none ↦ false | some v ↦ v == id ]

abbrev pub basis_evidence : ObservationId → EvidenceTemplate
basis_evidence id = record {
  kind = EvidenceKind.observation;
  observation_id = id;
  claim_local_key = [];
  visibility_id = [];
  assertion_id = [];
}

abbrev pub assessment_evidence : VisibilityId → EvidenceTemplate
assessment_evidence id = record {
  kind = EvidenceKind.visibility;
  observation_id = [];
  claim_local_key = [];
  visibility_id = id;
  assertion_id = [];
}

-- The claim for an assessment with the scope `s`.
unfoldable pub absence_claim :
    EvidenceRun → VisibilityAssessment → ListenerVisibilityScope → List BranchId → ClaimTemplate
absence_claim r v s branches = record {
  local_key = codes "absence";
  statement_code = ClaimStatementCode.no_matching_listener_visible;
  level = ClaimLevel.inferred;
  subject_entity_ids = s.namespace_entity_id ∷ [];
  branch_ids = branches;
  parameters = record {
    kind = ClaimStatementCode.no_matching_listener_visible;
    hostname_mismatch = none;
    tcp_refused = none;
    listener_absent = some (record {
      namespace_entity_id = s.namespace_entity_id;
      vantage_id = v.vantage_id;
      protocol = s.protocol;
      address_family = s.address_family;
      bind_semantics = s.bind_semantics;
      port = r.target.effective_port;
    });
  };
  supporting_evidence =
      assessment_evidence v.visibility_id ∷ map basis_evidence v.basis_observation_ids;
  contradicting_evidence = [];
  required_missing_evidence = [];
}

unfoldable pub absence_candidate :
    EvidenceRun → VisibilityAssessment → ListenerVisibilityScope → RuleCandidate
unfolding absence_claim
absence_candidate r v s =
    let (branches, positions) = branches_for (is_visibility_ref v.visibility_id) r.service_path in
    let finding : FindingTemplate = record {
      kind = FindingKind.blocker;
      title_code = FindingTitleCode.no_matching_listener_visible;
      level = ClaimLevel.inferred;
      branch_ids = branches;
      path_positions = positions;
      claim_local_keys = codes "absence" ∷ [];
      limitations = [];
      suggested_experiments = codes "inspect the listener in the matching namespace" ∷ [];
      selection = Selection.none;
    } in
    record {
      candidate_key = codes "listener-" ++ v.visibility_id;
      claims = absence_claim r v s branches ∷ [];
      findings = finding ∷ [];
    }

module _ (parse_addr : Text → Option Addr) where
  -- `localDiagnosis` and one of the two tests on it.
  unfoldable pub is_left_out : EvidenceRun → ListenerVisibilityScope → Bool
  unfolding scope_applies_to_target has_compatible_listener
  is_left_out r s =
      (r.requested_scope.kind == ScopeKind.local_origin)
      && (not (scope_applies_to_target parse_addr r s.address_family)
          || has_compatible_listener parse_addr r s)

  -- One round of the loop over the assessments.
  unfoldable pub absent_at : EvidenceRun → VisibilityAssessment → List RuleCandidate
  unfolding is_left_out
  absent_at r v = elim v.scope.listener [
    | none ↦ []
    | some s ↦
        if absence_evidence_valid r v r.target.effective_port && not (is_left_out r s)
        then absence_candidate r v s ∷ []
        else []
  ]

  unfoldable pub absent_rounds : EvidenceRun → List VisibilityAssessment → List RuleCandidate
  unfolding absent_at
  absent_rounds r [] = []
  absent_rounds r (v ∷ vs) = absent_at r v ++ absent_rounds r vs

  unfoldable pub no_matching_listener_visible : Rule
  unfolding absent_rounds
  no_matching_listener_visible = record {
    id = codes "listener.no_matching_listener_visible/v1";
    evaluate = λ r. absent_rounds r r.visibility_assessments;
  }
