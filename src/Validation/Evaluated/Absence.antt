-- ===== src/Validation/Evaluated/Absence.antt =====
-- The claims of an absent listener, `validateListenerAbsenceClaim` of
-- internal/model/validate_evaluated.go: in an accepted run they have valid evidence.
use route_doc.Common.{
  ℕ, ◌+◌, ◌≡◌, refl, true, false, not, List, [], ◌∷◌, inl, inr, none, some, arith, Text, get_elem?,
  Option-cases, Bool-cases, ◌==◌, ==_iff, eq_text, eq_number, if◌then◌else◌, codes, Exists, now,
  later,
}
use mathlib.Core.Path.{subst}
use route_doc.Model.Ids.{VisibilityId, ObservationId}
use route_doc.Model.Claims.{Claim, ListenerAbsentClaimParameters}
use route_doc.Model.Paths.{EvidenceRef}
use route_doc.Model.Runs.{EvaluatedRun, EvidenceRun}
use route_doc.Model.Visibility.{VisibilityAssessment}
use route_doc.Model.Enums.{
  ClaimStatementCode, ClaimLevel, EvidenceKind, eq_claim_statement_code, eq_claim_level,
  eq_evidence_kind,
}
use route_doc.Listener.Absence.{absence_evidence_valid, absence_evidence_issue_code}
use route_doc.Listener.Agreement.{absence_evidence_issue_code_iff}
use route_doc.Validation.Shared.{issue_if, issue_if-nil, append-nil, indexed}
use route_doc.Validation.Shared.Loops.{AllFrom-at, each-AllFrom}
use route_doc.Validation.Texts.{TextLibrary}
use route_doc.Validation.Evidence.{accepted}
use route_doc.Validation.Support.Justified.{positions_of}
use route_doc.Validation.Claims.{validate_claim_refs}
use route_doc.Validation.AbsenceClaims.{
  Cited, cite, cite_all, cite_ref, cite_refs, differs_from_scope, cited_issues,
  absent_parameters_issues, validate_listener_absence_claim,
}
use route_doc.Validation.Evaluated.{claim_reference_issues, validate_persisted_evaluated_run}
use route_doc.Validation.Evaluated.Parts.{validate_persisted-Parts}

module _ (r : EvidenceRun) where
  -- The assessment that is cited is one of the run.
  abbrev FromRun : Cited → Type 0
  FromRun s =
      (w : VisibilityAssessment)
      → s.visibility ≡ some w
      → Exists (λ v. v ≡ w) r.visibility_assessments

  cite-FromRun :
      (v : VisibilityAssessment) (prefix : Text) (s : Cited)
      → Exists (λ x. x ≡ v) r.visibility_assessments
      → FromRun s
      → FromRun (cite v prefix s)
  unfolding cite
  cite-FromRun v prefix s x h w e = elim (Option-cases s.visibility) [
    | inl n ↦
        let same : v ≡ w = ground (arith, rw (n, cite) at e) in
        subst (λ y. Exists (λ z. z ≡ y) r.visibility_assessments) same x
    | inr (u, n) ↦ h w (rw (n, cite) at e)
  ]

  cite_all-FromRun :
      (vs : List VisibilityAssessment) (id : VisibilityId) (prefix : Text) (s : Cited)
      → ((v : VisibilityAssessment)
          → Exists (λ x. x ≡ v) vs
          → Exists (λ x. x ≡ v) r.visibility_assessments)
      → FromRun s
      → FromRun (cite_all vs id prefix s)
  unfolding cite_all
  cite_all-FromRun [] id prefix s k h = h
  cite_all-FromRun (v ∷ vs) id prefix s k h = elim (Bool-cases (v.visibility_id == id)) [
    | inl e ↦
        rw (e, cite_all)
          (cite_all-FromRun vs id prefix (cite v prefix s) (λ u x. k u (later x))
            (cite-FromRun v prefix s (k v (now refl)) h))
    | inr e ↦ rw (e, cite_all) (cite_all-FromRun vs id prefix s (λ u x. k u (later x)) h)
  ]

  cite_ref-FromRun :
      (x : EvidenceRef) (prefix : Text) (s : Cited) → FromRun s → FromRun (cite_ref r x prefix s)
  unfolding cite_ref
  cite_ref-FromRun x prefix s h = elim (Bool-cases (x.kind == EvidenceKind.visibility)) [
    | inl e ↦ elim (Option-cases x.visibility_id) [
      | inl n ↦ rw (e, n, cite_ref) h
      | inr (id, n) ↦
          rw (e, n, cite_ref) (cite_all-FromRun r.visibility_assessments id prefix s (λ v y. y) h)
    ]
    | inr e ↦ elim (Bool-cases (x.kind == EvidenceKind.observation)) [
      | inr k ↦ rw (e, k, cite_ref) h
      | inl k ↦ elim (Option-cases x.observation_id) [
        | inl n ↦ rw (e, k, n, cite_ref) h
        | inr (id, n) ↦ rw (e, k, n, cite_ref) h
      ]
    ]
  ]

  cite_refs-FromRun :
      (xs : List EvidenceRef) (prefix : Text) (s : Cited)
      → FromRun s
      → FromRun (cite_refs r xs prefix s)
  unfolding cite_refs
  cite_refs-FromRun [] prefix s h = h
  cite_refs-FromRun (x ∷ xs) prefix s h =
      cite_refs-FromRun xs prefix (cite_ref r x prefix s) (cite_ref-FromRun x prefix s h)

  -- An assessment of the run agrees with the parameters and is valid evidence for their port.
  pub record HasAbsenceEvidence (p : ListenerAbsentClaimParameters) : Type 0 where
    pub assessment : VisibilityAssessment
    pub of_run : Exists (λ v. v ≡ assessment) r.visibility_assessments
    pub agrees : differs_from_scope p assessment ≡ false
    pub valid : absence_evidence_valid r assessment p.port ≡ true

  cited_issues-valid :
      (p : ListenerAbsentClaimParameters) (w : VisibilityAssessment) (ids : List ObservationId)
      → (prefix : Text) → cited_issues r p w ids prefix ≡ []
      → (differs_from_scope p w ≡ false) × (absence_evidence_valid r w p.port ≡ true)
  unfolding cited_issues issue_if
  cited_issues-valid p w ids prefix h =
      let (a, b) = (append-nil _ _).0 h in
      let (c, d) = (append-nil _ _).0 a in
      let code = absence_evidence_issue_code_iff r w p.port in
      (
        (issue_if-nil (differs_from_scope p w) _ _ _).0 c,
        elim (Option-cases (absence_evidence_issue_code r w p.port)) [
          | inl n ↦ code.0 n
          | inr (k, n) ↦ absurd (ground (arith, rw n at d))
        ],
      )

-- A claim of an absent listener that is not reported is inferred, is about the target's port, and
-- has evidence.
absent_parameters_sound :
    (r : EvaluatedRun) (c : Claim) (p : ListenerAbsentClaimParameters) (prefix : Text)
    → absent_parameters_issues r c p prefix ≡ []
    → (c.level ≡ ClaimLevel.inferred)
      × (p.port ≡ r.evidence.target.effective_port)
      × HasAbsenceEvidence r.evidence p
unfolding absent_parameters_issues issue_if
absent_parameters_sound r c p prefix h =
    let empty : Cited = record { issues = []; visibility = none; observations = [] } in
    let cited = cite_refs r.evidence c.supporting_evidence prefix empty in
    let (h3, last) = (append-nil _ _).0 h in
    let (h2, more) = (append-nil _ _).0 h3 in
    let (level, port) = (append-nil _ _).0 h2 in
    let level' = (issue_if-nil (not (c.level == ClaimLevel.inferred)) _ _ _).0 level in
    let port' = (issue_if-nil (not (p.port == r.evidence.target.effective_port)) _ _ _).0 port in
    let from_run =
      cite_refs-FromRun r.evidence c.supporting_evidence prefix empty
        (λ w e. absurd (ground arith)) in
    (
      (==_iff c.level ClaimLevel.inferred).0 (ground arith),
      (==_iff p.port r.evidence.target.effective_port).0 (ground arith),
      elim (Option-cases cited.visibility) [
        | inl n ↦ absurd (ground (arith, rw n at last))
        | inr (w, n) ↦
            let (agrees, valid) =
              cited_issues-valid r.evidence p w cited.observations prefix (rw n at last) in
            record { assessment = w; of_run = from_run w n; agrees = agrees; valid = valid }
      ],
    )

-- In a run that the validation accepts, a claim that no listener is visible and that carries the
-- parameters of an absent listener is an inferred one and about the port of the target, and an
-- assessment of the run that has the claim's scope is valid evidence that no listener is there.
pub absence_claims-accepted :
    (lib : TextLibrary) (r v : EvaluatedRun)
    → validate_persisted_evaluated_run lib r ≡ some (accepted v)
    → (i : ℕ) (c : Claim) (p : ListenerAbsentClaimParameters) → get_elem? r.claims i ≡ some c
    → c.statement_code ≡ ClaimStatementCode.no_matching_listener_visible
    → c.parameters.listener_absent ≡ some p
    → (c.level ≡ ClaimLevel.inferred)
      × (p.port ≡ r.evidence.target.effective_port)
      × HasAbsenceEvidence r.evidence p
unfolding claim_reference_issues validate_listener_absence_claim
absence_claims-accepted lib r v h i c p at code there =
    let (same, parts) = validate_persisted-Parts lib r v h in
    let quiet =
      AllFrom-at _ 0 i r.claims c
        (each-AllFrom (claim_reference_issues r (positions_of r.claims))
          (λ j x. claim_reference_issues r (positions_of r.claims) j x ≡ []) (λ j x e. e) 0 r.claims
          parts.references)
        at in
    let k = (==_iff c.statement_code ClaimStatementCode.no_matching_listener_visible).1 code in
    let tail : (if c.statement_code == ClaimStatementCode.no_matching_listener_visible
          then validate_listener_absence_claim r (i + 0) c
          else [])
        ≡ [] =
      ((append-nil (validate_claim_refs r (positions_of r.claims) (i + 0) c) _).0 quiet).1 in
    let reported : absent_parameters_issues r c p (indexed (codes "/claims/") (i + 0)) ≡ [] =
      rw (k, there, validate_listener_absence_claim) at tail in
    absent_parameters_sound r c p (indexed (codes "/claims/") (i + 0)) reported
