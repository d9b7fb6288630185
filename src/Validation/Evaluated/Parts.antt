-- ===== src/Validation/Evaluated/Parts.antt =====
-- What it means that `ValidatePersistedEvaluatedRun` of internal/model/validate_evaluated.go accepts
-- a run: none of its parts reports an issue.
use route_doc.Common.{
  ◌≡◌, ◌≢◌, refl, false, List, [], ◌∷◌, ◌++◌, inl, inr, none, some, arith, Option-cases, ltb, ◌==◌,
  eq_number, ◌∙◌, sym,
}
use route_doc.Common.{ap, sort, insert_sorted-ne-nil}
use route_doc.Model.Issues.{ValidationIssue, sort_validation_issues, less_issue}
use route_doc.Model.Runs.{EvidenceRun, EvaluatedRun}
use route_doc.GlobalPrimary.{validate_selection}
use route_doc.Validation.Shared.{issue_if-nil, append-nil, each, each_seen}
use route_doc.Validation.Texts.{TextLibrary}
use route_doc.Validation.Support.Justified.{positions_of}
use route_doc.Validation.Grounds.{validate_claim_graphs}
use route_doc.Validation.Grounds.Walk.{validate_claim_graphs-ne-none}
use route_doc.Validation.Evidence.{
  Validated, accepted, refused, accept_or_refuse, evidence_issues, validate_evidence_run,
}
use route_doc.Validation.Evidence.Parts.{
  accept_or_refuse-accepted, validate_evidence_run-ne-none, validate_evidence_run-Parts,
}
use route_doc.Validation.Findings.{finding_issues}
use route_doc.Validation.Evaluated.{
  rules_issues, claim_issues, claim_reference_issues, count_globals, order_issues, issues_of,
  evaluation_issues, evaluated_issues, validate_persisted_evaluated_run,
}

pub record EvaluatedParts (lib : TextLibrary) (r : EvaluatedRun) : Type 0 where
  pub evidence : validate_evidence_run lib r.evidence ≡ some (accepted r.evidence)
  pub evaluated_at : (r.evaluation.evaluated_at == 0) ≡ false
  pub rules : rules_issues none 0 r.evaluation.ordered_rule_ids ≡ []
  pub claims : each_seen (λ c. c.claim_id) (claim_issues lib r) [] 0 r.claims ≡ []
  pub references : each (claim_reference_issues r (positions_of r.claims)) 0 r.claims ≡ []
  pub graphs : validate_claim_graphs r.claims (positions_of r.claims) ≡ some []
  pub findings :
      each_seen (λ f. f.finding_id) (finding_issues r (positions_of r.claims)) [] 0 r.findings ≡ []
  pub globals : ltb 1 (count_globals r.findings) ≡ false
  pub selection : validate_selection r ≡ []
  pub order : order_issues r ≡ []

sort_validation_issues-ne-nil :
    (j : ValidationIssue) (js : List ValidationIssue) → sort_validation_issues (j ∷ js) ≢ []
unfolding sort_validation_issues sort
sort_validation_issues-ne-nil j js h = insert_sorted-ne-nil less_issue j (sort less_issue js) h

refused-ne-nil :
    (lib : TextLibrary) (r : EvidenceRun) (is : List ValidationIssue)
    → validate_evidence_run lib r ≡ some (refused is)
    → is ≢ []
unfolding validate_evidence_run accept_or_refuse
refused-ne-nil lib r is h e = elim (Option-cases (evidence_issues lib r)) [
  | inl n ↦ absurd (ground (arith, rw (n, validate_evidence_run) at h))
  | inr ([], n) ↦ absurd (ground (arith, rw (n, validate_evidence_run) at h))
  | inr (j ∷ js, n) ↦
      let k : sort_validation_issues (j ∷ js) ≡ is =
        ground (arith, rw (n, validate_evidence_run) at h) in
      sort_validation_issues-ne-nil j js (k ∙ e)
]

-- A refused run has issues, so an evidence run without issues was accepted.
accepted_when_quiet :
    (lib : TextLibrary) (r : EvidenceRun) (v : Validated EvidenceRun)
    → validate_evidence_run lib r ≡ some v
    → issues_of v ≡ []
    → validate_evidence_run lib r ≡ some (accepted r)
accepted_when_quiet lib r (accepted s) h e =
    let same = (validate_evidence_run-Parts lib r s h).0 in
    h ∙ ap (λ x. some (accepted x)) (sym same)
accepted_when_quiet lib r (refused is) h e = absurd (refused-ne-nil lib r is h e)

evaluated_issues-Parts :
    (lib : TextLibrary) (r : EvaluatedRun) → evaluated_issues lib r ≡ some [] → EvaluatedParts lib r
unfolding evaluated_issues evaluation_issues
evaluated_issues-Parts lib r h = elim (Option-cases (validate_evidence_run lib r.evidence)) [
  | inl n ↦ absurd (ground (arith, rw (n, evaluated_issues) at h))
  | inr (base, n) ↦ elim (Option-cases (validate_claim_graphs r.claims (positions_of r.claims))) [
    | inl m ↦ absurd (ground (arith, rw (n, m, evaluated_issues) at h))
    | inr (graphs, m) ↦
        let e : issues_of base ++ evaluation_issues lib r graphs ≡ [] =
          ground (arith, rw (n, m, evaluated_issues) at h) in
        let (e0, e) = (append-nil (issues_of base) _).0 e in
        let (e, e9) = (append-nil _ _).0 e in
        let (e, e8) = (append-nil _ _).0 e in
        let (e, e7) = (append-nil _ _).0 e in
        let (e, e6) = (append-nil _ _).0 e in
        let (e, e5) = (append-nil _ _).0 e in
        let (e, e4) = (append-nil _ _).0 e in
        let (e, e3) = (append-nil _ _).0 e in
        let (e1, e2) = (append-nil _ _).0 e in
        record {
          evidence = accepted_when_quiet lib r.evidence base n e0;
          evaluated_at = (issue_if-nil (r.evaluation.evaluated_at == 0) _ _ _).0 e1;
          rules = e2;
          claims = e3;
          references = e4;
          graphs = m ∙ ap some e5;
          findings = e6;
          globals = (issue_if-nil (ltb 1 (count_globals r.findings)) _ _ _).0 e7;
          selection = e8;
          order = e9;
        }
  ]
]

-- A run that is accepted is the run that was validated, and no part of it reports an issue.
pub validate_persisted-Parts :
    (lib : TextLibrary) (r v : EvaluatedRun)
    → validate_persisted_evaluated_run lib r ≡ some (accepted v)
    → (r ≡ v) × EvaluatedParts lib r
unfolding validate_persisted_evaluated_run
validate_persisted-Parts lib r v h = elim (Option-cases (evaluated_issues lib r)) [
  | inl n ↦ absurd (ground (arith, rw (n, validate_persisted_evaluated_run) at h))
  | inr (is, n) ↦
      let k : accept_or_refuse r is ≡ accepted v =
        ground (arith, rw (n, validate_persisted_evaluated_run) at h) in
      let (e, same) = accept_or_refuse-accepted r v is k in
      (same, evaluated_issues-Parts lib r (ground arith))
]

evaluated_issues-ne-none : (lib : TextLibrary) (r : EvaluatedRun) → evaluated_issues lib r ≢ none
unfolding evaluated_issues
evaluated_issues-ne-none lib r e = elim (Option-cases (validate_evidence_run lib r.evidence)) [
  | inl n ↦ validate_evidence_run-ne-none lib r.evidence n
  | inr (base, n) ↦ elim (Option-cases (validate_claim_graphs r.claims (positions_of r.claims))) [
    | inl m ↦ validate_claim_graphs-ne-none r.claims m
    | inr (graphs, m) ↦ absurd (ground (arith, rw (n, m, evaluated_issues) at e))
  ]
]

-- The validation of an evaluated run returns for every run: it accepts it or refuses it with
-- issues, and no search in it runs out of fuel.
pub validate_persisted_evaluated_run-returns :
    (lib : TextLibrary) (r : EvaluatedRun)
    → (v : Validated EvaluatedRun) × (validate_persisted_evaluated_run lib r ≡ some v)
unfolding validate_persisted_evaluated_run
validate_persisted_evaluated_run-returns lib r = elim (Option-cases (evaluated_issues lib r)) [
  | inl n ↦ absurd (evaluated_issues-ne-none lib r n)
  | inr (is, n) ↦ (accept_or_refuse r is, rw (n, validate_persisted_evaluated_run) refl)
]
