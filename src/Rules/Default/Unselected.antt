-- ===== src/Rules/Default/Unselected.antt =====
-- The findings that no listener is visible in what `Evaluate` makes with the registry of
-- internal/rules/default_registry.go, against the validation of evidence and the selection.
use route_doc.Common.{
  ◌≡◌, ◌≢◌, List, [], ◌∷◌, Option, some, Text, All, All-append, All-map, All-sort, All-members, any,
  Bool-cases, Option-cases, inl, inr, ◌==◌, ==_iff,
}
use route_doc.Model.Ids.{Time, BranchId}
use route_doc.Model.Entities.{Addr}
use route_doc.Model.Claims.{Finding, PathPosition}
use route_doc.Model.Observations.{Observation}
use route_doc.Model.Runs.{EvidenceRun, EvaluatedRun}
use route_doc.Model.Enums.{FindingTitleCode, TcpResult, Selection, eq_selection}
use route_doc.Rules.Evaluate.{Evaluated, evaluate}
use route_doc.Rules.Provenance.{Returns}
use route_doc.Rules.Provenance.Findings.{TitledCandidate, evaluate-Titled, evaluate-IsEligible}
use route_doc.Rules.Registry.{less_rule, new_registry}
use route_doc.Rules.Default.{default_registry}
use route_doc.Rules.Listener.{no_matching_listener_visible}
use route_doc.Rules.Listener.Unplaced.{no_matching_listener-unplaced}
use route_doc.Rules.Tcp.{
  tcp_with, accepts, refused_candidate, refused_at, refused_rounds, connection_refused,
}
use route_doc.Rules.Tls.{
  verification_of, is_mismatch_claim, mismatch_candidate, mismatch_at, mismatch_rounds,
  hostname_mismatch,
}
use route_doc.Selection.Invariant.{IsEligible}
use route_doc.Validation.Texts.{TextLibrary}
use route_doc.Validation.Evidence.{accepted, validate_evidence_run}

-- A finding that no listener is visible stands on no branch.
abbrev Nowhere : FindingTitleCode → List BranchId → List PathPosition → Type 0
Nowhere title branches positions =
    title ≡ FindingTitleCode.no_matching_listener_visible → branches ≡ []

module _ (r : EvidenceRun) where
  refused_at-Nowhere :
      (o : Observation) → All (TitledCandidate Nowhere connection_refused.id) (refused_at r o)
  unfolding refused_at refused_candidate
  refused_at-Nowhere o = elim (Option-cases (tcp_with TcpResult.refused o)) [
    | inl n ↦ rw (n, refused_at) tt
    | inr ((p, v), n) ↦ elim (Bool-cases (any (accepts p.endpoint_entity_id v) r.observations)) [
      | inl e ↦ rw (n, e, refused_at) tt
      | inr e ↦ rw (n, e, refused_at) ((λ title. cc, tt), tt)
    ]
  ]

  refused_rounds-Nowhere :
      (os : List Observation)
      → All (TitledCandidate Nowhere connection_refused.id) (refused_rounds r os)
  unfolding refused_rounds
  refused_rounds-Nowhere [] = tt
  refused_rounds-Nowhere (o ∷ os) =
      All-append _ _ _ (refused_at-Nowhere o) (refused_rounds-Nowhere os)

  mismatch_at-Nowhere :
      (o : Observation) → All (TitledCandidate Nowhere hostname_mismatch.id) (mismatch_at r o)
  unfolding mismatch_at mismatch_candidate
  mismatch_at-Nowhere o = elim (Option-cases (verification_of o)) [
    | inl n ↦ rw (n, mismatch_at) tt
    | inr (p, n) ↦ elim (Bool-cases (is_mismatch_claim p)) [
      | inl e ↦ rw (n, e, mismatch_at) ((λ title. cc, tt), tt)
      | inr e ↦ rw (n, e, mismatch_at) tt
    ]
  ]

  mismatch_rounds-Nowhere :
      (os : List Observation)
      → All (TitledCandidate Nowhere hostname_mismatch.id) (mismatch_rounds r os)
  unfolding mismatch_rounds
  mismatch_rounds-Nowhere [] = tt
  mismatch_rounds-Nowhere (o ∷ os) =
      All-append _ _ _ (mismatch_at-Nowhere o) (mismatch_rounds-Nowhere os)

default_registry-Nowhere :
    (parse_addr : Text → Option Addr) (lib : TextLibrary) (r v : EvidenceRun)
    → validate_evidence_run lib r ≡ some (accepted v)
    → All (Returns (TitledCandidate Nowhere) r) (default_registry parse_addr)
unfolding default_registry new_registry
default_registry-Nowhere parse_addr lib r v valid =
    let listener : Returns (TitledCandidate Nowhere) r (no_matching_listener_visible parse_addr) =
      All-members _ _ (λ c m.
        All-map _ _ c.findings (λ t p title. p.0)
          (no_matching_listener-unplaced parse_addr lib r v c valid m).1) in
    let tcp : Returns (TitledCandidate Nowhere) r connection_refused =
      unfold connection_refused in (refused_rounds-Nowhere r r.observations) in
    let tls : Returns (TitledCandidate Nowhere) r hostname_mismatch =
      unfold hostname_mismatch in (mismatch_rounds-Nowhere r r.observations) in
    All-sort _ less_rule _ (listener, (tcp, (tls, tt)))

-- Both at once, and that what stands on no branch is not selected.
All-unselected :
    (fs : List Finding)
    → All (λ f. Nowhere f.title_code f.branch_ids f.path_positions) fs
    → All (λ f. f.selection ≢ Selection.none → IsEligible f) fs
    → All
        (λ f.
          f.title_code ≡ FindingTitleCode.no_matching_listener_visible
          → (f.branch_ids ≡ []) × (f.selection ≡ Selection.none))
        fs
All-unselected [] h k = tt
All-unselected (f ∷ fs) (n, h) (eligible, k) = (
  λ title.
      let iff = ==_iff f.selection Selection.none in
      elim (Bool-cases (f.selection == Selection.none)) [
        | inl e ↦ (n title, iff.0 e)
        | inr e ↦ absurd ((eligible (λ s. let t = iff.1 s in cc)).1 (n title))
      ],
  All-unselected fs h k,
)

-- For evidence that the validation accepts, no finding that no listener is visible of the run that
-- `Evaluate` hands over with the default registry stands on a branch, and none is selected.
pub evaluate-absence_unselected :
    (parse_addr : Text → Option Addr) (lib : TextLibrary) (r v : EvidenceRun) (clock : Time)
    → (e : EvaluatedRun) → validate_evidence_run lib r ≡ some (accepted v)
    → evaluate (default_registry parse_addr) r clock ≡ Evaluated.handed_over e
    → All
        (λ f.
          f.title_code ≡ FindingTitleCode.no_matching_listener_visible
          → (f.branch_ids ≡ []) × (f.selection ≡ Selection.none))
        e.findings
evaluate-absence_unselected parse_addr lib r v clock e valid made =
    All-unselected e.findings
      (evaluate-Titled Nowhere (default_registry parse_addr) r clock e made
        (default_registry-Nowhere parse_addr lib r v valid))
      (evaluate-IsEligible (default_registry parse_addr) r clock e made)
