-- ===== src/Rules/Listener/Accepted.antt =====
-- The candidates of internal/rules/listener/no_matching_listener.go meet
-- `validateListenerAbsenceClaim` of internal/model/validate_evaluated.go.
use route_doc.Common.{
  ℕ, ◌≡◌, refl, sym, ◌∙◌, true, false, List, [], ◌∷◌, Option, none, some, Text, codes, Table, arith,
  All, Exists, Exists-witness, contains, map, ==_iff, eq_text, eq_number,
}
use mathlib.Core.Path.{subst}
use route_doc.Model.Ids.{ClaimId, RuleId, BranchId, ObservationId}
use route_doc.Model.Entities.{Addr}
use route_doc.Model.Visibility.{ListenerVisibilityScope, VisibilityAssessment}
use route_doc.Model.Runs.{EvidenceRun, EvaluatedRun}
use route_doc.Model.Enums.{
  ClaimLevel, eq_evidence_kind, eq_claim_level, eq_transport, eq_address_family, eq_bind_semantics,
}
use route_doc.Model.Claims.{Claim, ListenerAbsentClaimParameters}
use route_doc.Listener.Absence.{absence_evidence_valid}
use route_doc.Listener.Agreement.{absence_evidence_issue_code_iff}
use route_doc.Rules.Templates.{RuleCandidate, evidence_from_template}
use route_doc.Rules.Compile.{claim_from}
use route_doc.Rules.Positions.{branches_for}
use route_doc.Rules.Listener.{
  is_visibility_ref, basis_evidence, assessment_evidence, absence_claim, absence_candidate,
  no_matching_listener_visible,
}
use route_doc.Rules.Listener.Returned.{no_matching_listener_iff}
use route_doc.Validation.Shared.{indexed, each-nil, append-nil, issue_if-nil, unknown-nil}
use route_doc.Validation.Shared.Loops.{NoRepeat}
use route_doc.Validation.AbsenceClaims.{
  Cited, cite_refs, differs_from_scope, cited_issues, absent_parameters_issues,
  validate_listener_absence_claim,
}
use route_doc.Rules.Listener.Citing.{Enters, cite_basis, cite_ref-visibility, cite_all-once}

-- An assessment agrees with the parameters that the rule takes from it.
agrees_with_scope :
    (v : VisibilityAssessment) (s : ListenerVisibilityScope) (port : ℕ)
    → v.scope.listener ≡ some s
    → differs_from_scope
        (record {
          namespace_entity_id = s.namespace_entity_id;
          vantage_id = v.vantage_id;
          protocol = s.protocol;
          address_family = s.address_family;
          bind_semantics = s.bind_semantics;
          port = port;
        })
        v
      ≡ false
unfolding differs_from_scope
agrees_with_scope v s port n =
    let a = (==_iff s.namespace_entity_id _).1 refl in
    let b = (==_iff v.vantage_id _).1 refl in
    let c = (==_iff s.protocol _).1 refl in
    let d = (==_iff s.address_family _).1 refl in
    let e = (==_iff s.bind_semantics _).1 refl in rw (n, a, b, c, d, e) refl

-- Valid evidence that cites its whole basis is not reported.
cited_issues-quiet :
    (r : EvidenceRun) (p : ListenerAbsentClaimParameters) (v : VisibilityAssessment)
    → (observations : List ObservationId) (prefix : Text) → differs_from_scope p v ≡ false
    → absence_evidence_valid r v p.port ≡ true
    → All (λ o. contains observations o ≡ true) v.basis_observation_ids
    → cited_issues r p v observations prefix ≡ []
unfolding cited_issues
cited_issues-quiet r p v observations prefix agrees valid all_cited =
    let code = (absence_evidence_issue_code_iff r v p.port).1 valid in
    (append-nil _ _).1 (
      (append-nil _ _).1 ((issue_if-nil _ _ _ _).1 agrees, rw code refl),
      (each-nil _ (λ o. contains observations o ≡ true) (λ i o. unknown-nil observations o _ _ _) 0
            v.basis_observation_ids).1
          all_cited,
    )

abbrev none_cited : Cited
none_cited = record { issues = []; visibility = none; observations = [] }

-- A claim of the right level and port is not reported when its one assessment is not.
absent_parameters-quiet :
    (r : EvaluatedRun) (c : Claim) (p : ListenerAbsentClaimParameters) (v : VisibilityAssessment)
    → (prefix : Text) → c.level ≡ ClaimLevel.inferred
    → p.port ≡ r.evidence.target.effective_port
    → (cite_refs r.evidence c.supporting_evidence prefix none_cited).issues ≡ []
    → (cite_refs r.evidence c.supporting_evidence prefix none_cited).visibility ≡ some v
    → cited_issues r.evidence p v
        (cite_refs r.evidence c.supporting_evidence prefix none_cited).observations
        prefix
      ≡ []
    → absent_parameters_issues r c p prefix ≡ []
unfolding absent_parameters_issues
absent_parameters-quiet r c p v prefix level port none_reported one quiet =
    let a = (==_iff c.level ClaimLevel.inferred).1 level in
    let b = (==_iff p.port r.evidence.target.effective_port).1 port in
    rw (none_reported, one)
      ((append-nil _ _).1 (
        (append-nil _ _).1 (
          (append-nil _ _).1
              ((issue_if-nil _ _ _ _).1 (ground arith), (issue_if-nil _ _ _ _).1 (ground arith)),
          refl,
        ),
        quiet,
      ))

absence_claim-quiet :
    (r : EvaluatedRun) (v : VisibilityAssessment) (s : ListenerVisibilityScope)
    → (branches : List BranchId) → NoRepeat (λ w. w.visibility_id) r.evidence.visibility_assessments
    → Exists (λ w. v ≡ w) r.evidence.visibility_assessments
    → v.scope.listener ≡ some s
    → absence_evidence_valid r.evidence v r.evidence.target.effective_port ≡ true
    → (rule : RuleId) (id : ClaimId) (local : Table ClaimId) (i : ℕ)
    → validate_listener_absence_claim r i
        (claim_from rule id local (absence_claim r.evidence v s branches))
      ≡ []
unfolding absence_claim claim_from validate_listener_absence_claim cite_refs
absence_claim-quiet r v s branches distinct of_run scoped valid rule id local i =
    let prefix = indexed (codes "/claims/") i in
    let ids = v.basis_observation_ids in
    let refs = map (evidence_from_template local) (map basis_evidence ids) in
    let first : Cited = record none_cited { visibility = some v } in
    let all_refs = evidence_from_template local (assessment_evidence v.visibility_id) ∷ refs in
    let once =
      cite_ref-visibility r.evidence local v.visibility_id prefix none_cited
      ∙ cite_all-once r.evidence.visibility_assessments v prefix none_cited distinct of_run refl in
    let basis : Enters first (cite_refs r.evidence all_refs prefix none_cited) ids =
      subst (λ t. Enters first (cite_refs r.evidence refs prefix t) ids) (sym once)
        (cite_basis r.evidence local prefix ids first) in
    absent_parameters-quiet r (claim_from rule id local (absence_claim r.evidence v s branches)) _ v
      prefix refl refl basis.issues basis.visibility
      (cited_issues-quiet r.evidence _ v _ prefix
        (agrees_with_scope v s r.evidence.target.effective_port scoped) valid basis.entered)

-- For evidence in which no two assessments share an identifier, the claim that the evaluation makes
-- of any claim template of the listener rule passes `validateListenerAbsenceClaim` in every run with
-- the evidence, at every index, whatever identifiers and local keys it is given.
pub no_matching_listener-accepted :
    (parse_addr : Text → Option Addr) (r : EvidenceRun) (c : RuleCandidate)
    → NoRepeat (λ v. v.visibility_id) r.visibility_assessments
    → Exists (λ d. c ≡ d) ((no_matching_listener_visible parse_addr).evaluate r)
    → All
        (λ t.
          (rule : RuleId) (id : ClaimId) (local : Table ClaimId) (run : EvaluatedRun) (i : ℕ)
          → run.evidence ≡ r
          → validate_listener_absence_claim run i (claim_from rule id local t) ≡ [])
        c.claims
unfolding absence_candidate
no_matching_listener-accepted parse_addr r c distinct returned =
    let (v, of_run, k) = Exists-witness ((no_matching_listener_iff parse_addr r c).0 returned) in
    let branches = (branches_for (is_visibility_ref v.visibility_id) r.service_path).0 in
    subst
      (λ d.
        All
          (λ t.
            (rule : RuleId) (id : ClaimId) (local : Table ClaimId) (run : EvaluatedRun) (i : ℕ)
            → run.evidence ≡ r
            → validate_listener_absence_claim run i (claim_from rule id local t) ≡ [])
          d.claims)
      (sym k.candidate)
      (
        λ rule id local run i same.
            subst
              (λ x.
                NoRepeat (λ w. w.visibility_id) x.visibility_assessments
                → Exists (λ w. v ≡ w) x.visibility_assessments
                → absence_evidence_valid x v x.target.effective_port ≡ true
                → validate_listener_absence_claim run i
                    (claim_from rule id local (absence_claim x v k.scope branches))
                  ≡ [])
              same
              (λ d m e. absence_claim-quiet run v k.scope branches d m k.scoped e rule id local i)
              distinct of_run k.valid,
        tt,
      )
