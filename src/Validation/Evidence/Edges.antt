-- ===== src/Validation/Evidence/Edges.antt =====
-- What the edges of a path rest on that `validatePath` of internal/model/validate_evidence.go accepts.
use route_doc.Common.{
  ◌≡◌, ◌≢◌, List, [], some, arith, Text, All, Bool-cases, inl, inr, ◌==◌, ==_iff, eq_number,
}
use route_doc.Model.Ids.{AssertionId, ObservationId}
use route_doc.Model.Paths.{EvidenceRef}
use route_doc.Model.Runs.{EvidenceRun}
use route_doc.Model.Enums.{EvidenceKind, PathProvenance, eq_evidence_kind, eq_path_provenance}
use route_doc.Validation.Shared.{issue_if, append-nil}
use route_doc.Validation.Shared.Loops.{All-values, each-AllFrom, each_seen-AllFrom}
use route_doc.Validation.Texts.{TextLibrary}
use route_doc.Validation.Paths.{edge_evidence_issues, edge_issues, validate_path}
use route_doc.Validation.Evidence.{accepted, validate_evidence_run}
use route_doc.Validation.Evidence.Parts.{validate_evidence_run-Parts}

-- A reference of an edge that is not reported is to no assessment.
edge_evidence-quiet :
    (assertions : List AssertionId) (observations : List ObservationId)
    → (provenance : PathProvenance) (x : EvidenceRef) (p : Text)
    → edge_evidence_issues assertions observations provenance x p ≡ []
    → x.kind ≢ EvidenceKind.visibility
unfolding edge_evidence_issues issue_if
edge_evidence-quiet assertions observations provenance x p h e =
    let a = (==_iff x.kind EvidenceKind.assertion).0 in
    let o = (==_iff x.kind EvidenceKind.observation).0 in
    elim (Bool-cases (x.kind == EvidenceKind.assertion)) [
      | inl k ↦ cc (a k, e)
      | inr k ↦ elim (Bool-cases (x.kind == EvidenceKind.observation)) [
        | inl l ↦ cc (o l, e)
        | inr l ↦ absurd (ground arith)
      ]
    ]

-- In a run that the validation accepts, no edge of the path rests on an assessment.
pub accepted_edges :
    (lib : TextLibrary) (r v : EvidenceRun)
    → validate_evidence_run lib r ≡ some (accepted v)
    → All (λ e. All (λ x. x.kind ≢ EvidenceKind.visibility) e.evidence_refs) r.service_path.edges
unfolding validate_path edge_issues
accepted_edges lib r v h =
    let (_, parts) = validate_evidence_run-Parts lib r v h in
    let (rest, _) = (append-nil _ _).0 parts.path in
    let (rest, _) = (append-nil _ _).0 rest in
    let (_, edges) = (append-nil _ _).0 rest in
    All-values (λ e. All (λ x. x.kind ≢ EvidenceKind.visibility) e.evidence_refs) 0
      r.service_path.edges
      (each_seen-AllFrom _ _ (λ i e. All (λ x. x.kind ≢ EvidenceKind.visibility) e.evidence_refs)
        (λ seen i e k.
          let (_, round) = (append-nil _ _).0 k in
          let (_, refs) = (append-nil _ _).0 round in
          All-values (λ x. x.kind ≢ EvidenceKind.visibility) 0 e.evidence_refs
            (each-AllFrom _ (λ j x. x.kind ≢ EvidenceKind.visibility)
              (λ j x q. edge_evidence-quiet _ _ _ x _ q) 0 e.evidence_refs refs))
        [] 0 r.service_path.edges edges)
