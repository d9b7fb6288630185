-- ===== src/Validation/Evidence/Parts.antt =====
-- What it means that `ValidateEvidenceRun` of internal/model/validate_evidence.go accepts a run:
-- none of its parts reports an issue.
use route_doc.Common.{
  ◌≡◌, ◌≢◌, refl, ap, ◌∙◌, List, [], ◌∷◌, ◌++◌, inl, inr, none, some, arith, Option-cases, codes,
}
use route_doc.Model.Issues.{ValidationIssue}
use route_doc.Model.Runs.{EvidenceRun}
use route_doc.Validation.Shared.{append-nil}
use route_doc.Validation.Texts.{TextLibrary}
use route_doc.Validation.Paths.{validate_path}
use route_doc.Validation.Checks.{validate_check_dag}
use route_doc.Validation.Checks.Acyclic.{validate_check_dag-ne-none}
use route_doc.Validation.Evidence.{
  accepted, header_issues, vantages_issues, capabilities_issues, assertions_issues, entities_issues,
  definitions_issues, executions_issues, observations_issues, visibilities_issues,
  limitations_issues, known_ids, evidence_issues, accept_or_refuse, validate_evidence_run,
}

pub record EvidenceParts (lib : TextLibrary) (r : EvidenceRun) : Type 0 where
  pub header : header_issues lib r ≡ []
  pub vantages : vantages_issues lib r ≡ []
  pub capabilities : capabilities_issues r ≡ []
  pub assertions : assertions_issues lib r ≡ []
  pub entities : entities_issues lib r ≡ []
  pub path :
      validate_path r.service_path
        (known_ids r).entities
        (known_ids r).assertions
        r.observations
        (codes "/service_path")
      ≡ []
  pub definitions : definitions_issues lib r ≡ []
  pub dependencies : validate_check_dag r.check_definitions ≡ some []
  pub executions : executions_issues r ≡ []
  pub observations : observations_issues lib r ≡ []
  pub visibilities : visibilities_issues r ≡ []
  pub limitations : limitations_issues r ≡ []

evidence_issues-Parts :
    (lib : TextLibrary) (r : EvidenceRun) → evidence_issues lib r ≡ some [] → EvidenceParts lib r
unfolding evidence_issues
evidence_issues-Parts lib r h = elim (Option-cases (validate_check_dag r.check_definitions)) [
  | inl n ↦ absurd (ground (arith, rw (n, evidence_issues) at h))
  | inr (cycles, n) ↦
      let e : header_issues lib r
            ++ vantages_issues lib r
            ++ capabilities_issues r
            ++ assertions_issues lib r
            ++ entities_issues lib r
            ++ validate_path r.service_path (known_ids r).entities (known_ids r).assertions
                r.observations (codes "/service_path")
            ++ definitions_issues lib r
            ++ cycles
            ++ executions_issues r
            ++ observations_issues lib r
            ++ visibilities_issues r
            ++ limitations_issues r
          ≡ [] =
        ground (arith, rw (n, evidence_issues) at h) in
      let (e, e12) = (append-nil _ _).0 e in
      let (e, e11) = (append-nil _ _).0 e in
      let (e, e10) = (append-nil _ _).0 e in
      let (e, e9) = (append-nil _ _).0 e in
      let (e, e8) = (append-nil _ _).0 e in
      let (e, e7) = (append-nil _ _).0 e in
      let (e, e6) = (append-nil _ _).0 e in
      let (e, e5) = (append-nil _ _).0 e in
      let (e, e4) = (append-nil _ _).0 e in
      let (e, e3) = (append-nil _ _).0 e in
      let (e1, e2) = (append-nil _ _).0 e in
      record {
        header = e1;
        vantages = e2;
        capabilities = e3;
        assertions = e4;
        entities = e5;
        path = e6;
        definitions = e7;
        dependencies = n ∙ ap some e8;
        executions = e9;
        observations = e10;
        visibilities = e11;
        limitations = e12;
      }
]

pub accept_or_refuse-accepted {ℓ} :
    {A : Type ℓ} (r s : A) (is : List ValidationIssue)
    → accept_or_refuse r is ≡ accepted s
    → (is ≡ []) × (r ≡ s)
unfolding accept_or_refuse
accept_or_refuse-accepted r s [] h = (refl, ground arith)
accept_or_refuse-accepted r s (i ∷ is) h = absurd (ground arith)

-- A run that is accepted is the run that was validated, and no part of it reports an issue.
pub validate_evidence_run-Parts :
    (lib : TextLibrary) (r v : EvidenceRun)
    → validate_evidence_run lib r ≡ some (accepted v)
    → (r ≡ v) × EvidenceParts lib r
unfolding validate_evidence_run
validate_evidence_run-Parts lib r v h = elim (Option-cases (evidence_issues lib r)) [
  | inl n ↦ absurd (ground (arith, rw (n, validate_evidence_run) at h))
  | inr (is, n) ↦
      let k : accept_or_refuse r is ≡ accepted v =
        ground (arith, rw (n, validate_evidence_run) at h) in
      let (e, same) = accept_or_refuse-accepted r v is k in
      (same, evidence_issues-Parts lib r (ground arith))
]

evidence_issues-ne-none : (lib : TextLibrary) (r : EvidenceRun) → evidence_issues lib r ≢ none
unfolding evidence_issues
evidence_issues-ne-none lib r e = elim (Option-cases (validate_check_dag r.check_definitions)) [
  | inl n ↦ validate_check_dag-ne-none r.check_definitions n
  | inr (cycles, n) ↦ absurd (ground (arith, rw (n, evidence_issues) at e))
]

-- The validation of an evidence run returns.
pub validate_evidence_run-ne-none :
    (lib : TextLibrary) (r : EvidenceRun) → validate_evidence_run lib r ≢ none
unfolding validate_evidence_run
validate_evidence_run-ne-none lib r e = elim (Option-cases (evidence_issues lib r)) [
  | inl n ↦ evidence_issues-ne-none lib r n
  | inr (is, n) ↦ absurd (ground (arith, rw (n, validate_evidence_run) at e))
]
