-- ===== src/Validation/Claims.antt =====
-- The tests of internal/model/validate_evaluated.go on single claims: `generatedID`,
-- `validateClaimParameters`, `validateMissingEvidenceRequirement`, `validateClaimRefs` and
-- `validateListenerAbsenceClaim`.
pub mod References
use route_doc.Common.{
  ℕ, zero, suc, ◌+◌, Bool, true, false, not, ◌&&◌, ◌||◌, List, [], ◌∷◌, ◌++◌, Option, none, some,
  Text, codes, Table, lookup, contains, get_elem?, length, ltb, leb, any, ◌==◌, eq_number, eq_text,
  if◌then◌else◌,
}
use route_doc.Model.Ids.{RuleId, VisibilityId, ObservationId}
use route_doc.Model.Issues.{ValidationCode, ValidationIssue}
use route_doc.Model.Claims.{Claim, ClaimParameters, MissingEvidenceRequirement}
use route_doc.Model.Claims.{ListenerAbsentClaimParameters}
use route_doc.Model.Paths.{EvidenceRef}
use route_doc.Model.Runs.{EvaluatedRun, EvidenceRun}
use route_doc.Model.Visibility.{VisibilityAssessment, ListenerVisibilityScope, VisibilityScope}
use route_doc.Model.Enums.{
  ClaimStatementCode, ClaimLevel, EvidenceKind, MissingEvidenceKind, eq_claim_statement_code,
  eq_claim_level, eq_evidence_kind, eq_transport, eq_address_family, eq_bind_semantics,
  trust_source_valid, transport_valid, address_family_valid, bind_semantics_valid,
  observation_kind_valid, visibility_subject_kind_valid, evidence_kind_valid,
}
use route_doc.Decimal.{itoa}
use route_doc.Ids.Kinds.{vantage_id_valid}
use route_doc.Listener.{entity_id_valid}
use route_doc.Listener.Absence.{absence_evidence_issue_code}
use route_doc.Validation.Shared.{issue_if, indexed, each}
use route_doc.Validation.Shapes.{one_if}
use route_doc.Validation.Paths.{ref_target_count}
use route_doc.Validation.Texts.{TextLibrary, validate_hostname}

-- `for len(v) < 6 { v = "0" + v }`, with at most `fuel` rounds
unfoldable pub pad_six : ℕ → Text → Text
pad_six zero v = v
pad_six (suc fuel) v = if ltb (length v) 6 then pad_six fuel (b'0' ∷ v) else v

unfoldable pub generated_id : Text → ℕ → Text
unfolding pad_six
generated_id prefix n = prefix ++ pad_six 6 (itoa n)

unfoldable pub parameter_count : ClaimParameters → ℕ
parameter_count p = one_if p.hostname_mismatch + (one_if p.tcp_refused + one_if p.listener_absent)

-- Whether the parameters of the claim's statement are there and not valid.
unfoldable pub bad_parameters : TextLibrary → ClaimStatementCode → ClaimParameters → Bool
bad_parameters lib ClaimStatementCode.tls_certificate_hostname_mismatch p =
    elim p.hostname_mismatch [
      | none ↦ false
      | some v ↦
          let bad_name : Bool = elim (validate_hostname lib v.hostname) [
            | none ↦ false
            | some m ↦ true
          ] in
          bad_name || not (trust_source_valid v.trust_source)
    ]
bad_parameters lib ClaimStatementCode.tcp_connection_refused p = elim p.tcp_refused [
  | none ↦ false
  | some v ↦ not (vantage_id_valid v.vantage_id)
]
bad_parameters lib ClaimStatementCode.no_matching_listener_visible p = elim p.listener_absent [
  | none ↦ false
  | some v ↦
      not (vantage_id_valid v.vantage_id)
      || (not (transport_valid v.protocol)
          || (not (address_family_valid v.address_family)
              || not (bind_semantics_valid v.bind_semantics)))
]
bad_parameters lib (ClaimStatementCode.invalid s) p = false

parameters_message : ClaimStatementCode → Text
parameters_message ClaimStatementCode.tls_certificate_hostname_mismatch =
    codes "invalid hostname mismatch parameters"
parameters_message ClaimStatementCode.tcp_connection_refused =
    codes "invalid TCP refusal parameters"
parameters_message ClaimStatementCode.no_matching_listener_visible =
    codes "invalid listener absence parameters"
parameters_message (ClaimStatementCode.invalid s) = []

unfoldable pub validate_claim_parameters : TextLibrary → Claim → Text → List ValidationIssue
unfolding issue_if parameters_message
validate_claim_parameters lib c p =
    issue_if
      (not (parameter_count c.parameters == 1) || not (c.parameters.kind == c.statement_code))
      ValidationCode.unknown_union_kind (p ++ codes "/parameters")
      (codes "claim parameter discriminant mismatch")
    ++ issue_if (bad_parameters lib c.statement_code c.parameters) ValidationCode.invalid_value
        (p ++ codes "/parameters") (parameters_message c.statement_code)

abbrev is_there {ℓ} : {A : Type ℓ} → Option A → Bool
is_there none = false
is_there (some a) = true

abbrev is_bad {ℓ} : {A : Type ℓ} → (A → Bool) → Option A → Bool
is_bad valid none = true
is_bad valid (some a) = not (valid a)

-- The two issues of a field that has to be there and valid.
abbrev required_issues {ℓ} :
    {A : Type ℓ}
    → Option A
    → (A → Bool)
    → ValidationCode
    → Text
    → Text
    → Text
    → List ValidationIssue
required_issues none valid c p absent malformed =
    issue_if true ValidationCode.unknown_union_kind p absent
required_issues (some a) valid c p absent malformed = issue_if (not (valid a)) c p malformed

unfoldable pub bad_listener_scope : ListenerVisibilityScope → Bool
bad_listener_scope s =
    not (entity_id_valid s.namespace_entity_id)
    || (not (transport_valid s.protocol)
        || (not (address_family_valid s.address_family)
            || (not (bind_semantics_valid s.bind_semantics) || ltb s.port_end s.port_start)))

-- The listener of a scope of kind LISTENER.
listener_scope : Option VisibilityScope → Option ListenerVisibilityScope
listener_scope none = none
listener_scope (some s) = if s.kind == codes "LISTENER" then s.listener else none

extra_issue : Bool → Text → List ValidationIssue
unfolding issue_if
extra_issue condition p =
    issue_if condition ValidationCode.invalid_value p
      (codes "missing-evidence fields do not match its kind")

-- The switch of `validateMissingEvidenceRequirement` on the kind.
requirement_issues : MissingEvidenceKind → MissingEvidenceRequirement → Text → List ValidationIssue
unfolding issue_if listener_scope extra_issue
requirement_issues MissingEvidenceKind.observation_required m p =
    required_issues m.observation_kind observation_kind_valid ValidationCode.unknown_enum_value
      (p ++ codes "/observation_kind") (codes "observation kind is required")
      (codes "unknown observation kind")
    ++ extra_issue
        (is_there m.visibility_subject_kind
          || (is_there m.visibility_scope || is_there m.vantage_id))
        p
requirement_issues MissingEvidenceKind.visibility_required m p =
    issue_if (is_bad visibility_subject_kind_valid m.visibility_subject_kind)
      ValidationCode.unknown_enum_value (p ++ codes "/visibility_subject_kind")
      (codes "listener visibility subject is required")
    ++ elim (listener_scope m.visibility_scope) [
      | none ↦
          issue_if true ValidationCode.unknown_union_kind (p ++ codes "/visibility_scope")
            (codes "listener visibility scope is required")
      | some s ↦
          issue_if (bad_listener_scope s) ValidationCode.invalid_value
            (p ++ codes "/visibility_scope") (codes "invalid listener visibility scope")
    ]
    ++ extra_issue (is_there m.observation_kind || is_there m.vantage_id) p
requirement_issues MissingEvidenceKind.vantage_required m p =
    required_issues m.vantage_id vantage_id_valid ValidationCode.invalid_value
      (p ++ codes "/vantage_id") (codes "vantage ID is required") (codes "invalid vantage ID")
    ++ extra_issue
        (is_there m.observation_kind
          || (is_there m.visibility_subject_kind || is_there m.visibility_scope))
        p
requirement_issues (MissingEvidenceKind.invalid s) m p =
    issue_if true ValidationCode.unknown_union_kind (p ++ codes "/kind")
      (codes "unknown missing-evidence kind")

unfoldable pub validate_missing_evidence_requirement :
    MissingEvidenceRequirement → Text → List ValidationIssue
unfolding requirement_issues
validate_missing_evidence_requirement m p = requirement_issues m.kind m p

-- `x.ObservationID == nil || !containsObservation(...)`, and likewise for the other lists
unfoldable pub names_none {ℓ} : {A : Type ℓ} → (A → Text) → List A → Option Text → Bool
names_none key xs none = true
names_none key xs (some id) = not (any (λ x. key x == id) xs)

-- The rule of the claim with an index that is in range.
unfoldable pub rule_at : List Claim → ℕ → Option RuleId
rule_at claims i = elim (get_elem? claims i) [ none ↦ none | some c ↦ some c.rule_id ]

abbrev is_rule : Option RuleId → RuleId → Bool
is_rule none rule = false
is_rule (some r) rule = r == rule

unfoldable pub claim_ref_issues :
    List Claim → Table ℕ → ℕ → RuleId → EvidenceRef → Text → List ValidationIssue
unfolding issue_if
claim_ref_issues claims by index rule x p = elim x.claim_id [
  | none ↦ issue_if true ValidationCode.reference_kind_mismatch p (codes "claim target missing")
  | some id ↦ elim (lookup id by) [
    | none ↦ issue_if true ValidationCode.reference_missing p (codes "claim reference missing")
    | some target ↦
        issue_if (leb index target) ValidationCode.reference_forward_claim p
          (codes "claim reference must point backward")
        ++ issue_if (not (is_rule (rule_at claims target) rule))
            ValidationCode.reference_cross_rule_claim p (codes "claim reference crosses rule")
  ]
]

-- The switch of `validateClaimRefs` on the kind of a reference.
unfoldable pub ref_kind_issues :
    EvaluatedRun → Table ℕ → ℕ → RuleId → EvidenceKind → EvidenceRef → Text → List ValidationIssue
unfolding issue_if names_none claim_ref_issues
ref_kind_issues r by index rule EvidenceKind.observation x p =
    issue_if (names_none (λ o. o.observation_id) r.evidence.observations x.observation_id)
      ValidationCode.reference_missing p (codes "observation reference missing")
ref_kind_issues r by index rule EvidenceKind.visibility x p =
    issue_if (names_none (λ v. v.visibility_id) r.evidence.visibility_assessments x.visibility_id)
      ValidationCode.reference_missing p (codes "visibility reference missing")
ref_kind_issues r by index rule EvidenceKind.assertion x p =
    issue_if (names_none (λ a. a.assertion_id) r.evidence.operator_assertions x.assertion_id)
      ValidationCode.reference_missing p (codes "assertion reference missing")
ref_kind_issues r by index rule EvidenceKind.claim x p = claim_ref_issues r.claims by index rule x p
ref_kind_issues r by index rule (EvidenceKind.invalid s) x p = []

-- One round of the loop of `validateClaimRefs`.
unfoldable pub ref_issues :
    EvaluatedRun → Table ℕ → ℕ → RuleId → EvidenceRef → Text → List ValidationIssue
unfolding issue_if ref_kind_issues
ref_issues r by index rule x p =
    if not (evidence_kind_valid x.kind) || not (ref_target_count x == 1)
    then issue_if true ValidationCode.reference_kind_mismatch p
        (codes "reference must have one target")
    else ref_kind_issues r by index rule x.kind x p

unfoldable pub validate_claim_refs : EvaluatedRun → Table ℕ → ℕ → Claim → List ValidationIssue
unfolding each ref_issues indexed
validate_claim_refs r by index c =
    let p = indexed (codes "/claims/") index in
    each (λ j x. ref_issues r by index c.rule_id x (indexed (p ++ codes "/supporting_evidence/") j))
      0 c.supporting_evidence
    ++ each
        (λ j x.
          ref_issues r by index c.rule_id x (indexed (p ++ codes "/contradicting_evidence/") j))
        0 c.contradicting_evidence
