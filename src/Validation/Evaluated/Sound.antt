-- ===== src/Validation/Evaluated/Sound.antt =====
-- What holds of a run that `ValidatePersistedEvaluatedRun` of internal/model/validate_evaluated.go
-- accepts: its claims and its findings.
use route_doc.Common.{
  ◌<◌, ◌≡◌, false, List, [], inl, inr, arith, All, All-map_both, eq_text, eq_number,
}
use route_doc.Model.Claims.{Finding, PathPosition}
use route_doc.Model.Runs.{EvaluatedRun}
use route_doc.Model.Enums.{eq_evidence_kind, eq_claim_statement_code}
use route_doc.Selection.Leaf.{branch_edge_count}
use route_doc.Selection.Issues.{IsInRange}
use route_doc.Validation.Shared.{issue_if-nil, append-nil, each-nil}
use route_doc.Validation.Shared.Loops.{AllFrom, All-values, each-AllFrom, each_seen-AllFrom}
use route_doc.Validation.Texts.{TextLibrary}
use route_doc.Validation.Support.Justified.{positions_of}
use route_doc.Validation.Claims.References.{IsResolved, validate_claim_refs_iff}
use route_doc.Validation.Findings.{bad_position, validate_finding_refs, finding_issues}
use route_doc.Validation.Findings.Positions.{bad_position_iff}
use route_doc.Validation.Evaluated.{claim_reference_issues}
use route_doc.Validation.Evaluated.Parts.{EvaluatedParts}

-- The positions of a finding are below 2^63.
abbrev pub FitsInt : Finding → Type 0
FitsInt f = All (λ p. p.position < 0x8000000000000000) f.path_positions

module _ (lib : TextLibrary) (r : EvaluatedRun) (parts : EvaluatedParts lib r) where
  -- All references of each claim are resolved.
  pub references-IsResolved :
      AllFrom
        (λ i c.
          All (IsResolved r (positions_of r.claims) i c.rule_id) c.supporting_evidence
          × All (IsResolved r (positions_of r.claims) i c.rule_id) c.contradicting_evidence)
        0
        r.claims
  unfolding claim_reference_issues
  references-IsResolved =
      each-AllFrom (claim_reference_issues r (positions_of r.claims)) _
        (λ i c e.
          let (a, b) = (append-nil _ _).0 e in
          (validate_claim_refs_iff r (positions_of r.claims) i c).0 a)
        0 r.claims parts.references

  -- Positions that pass the test and are below 2^63 are below the number of edges of their branch.
  in_range_positions :
      (ps : List PathPosition)
      → All (λ p. p.position < 0x8000000000000000) ps
      → All (λ p. bad_position r.evidence.service_path.branches p ≡ false) ps
      → All (λ p. p.position < branch_edge_count r.evidence.service_path.branches p.branch_id) ps
  in_range_positions ps fit h =
      All-map_both _ _ _ ps
        (λ p (l : p.position < 0x8000000000000000) e.
          elim ((bad_position_iff r.evidence.service_path.branches p).0 e).1 [
            | inl k ↦ k
            | inr k ↦ absurd (omega arith)
          ])
        fit h

  -- The positions of each finding pass the test.
  positions_pass :
      All
        (λ f. All (λ p. bad_position r.evidence.service_path.branches p ≡ false) f.path_positions)
        r.findings
  unfolding finding_issues validate_finding_refs
  positions_pass = All-values _ 0 r.findings (
      each_seen-AllFrom (λ f. f.finding_id) (finding_issues r (positions_of r.claims)) _
        (λ seen i f e.
          let (a, b) = (append-nil _ _).0 e in
          let (c, d) = (append-nil _ _).0 b in
          let (g, k) = (append-nil _ _).0 c in
          (each-nil _ (λ p. bad_position r.evidence.service_path.branches p ≡ false)
              (λ j p. issue_if-nil (bad_position r.evidence.service_path.branches p) _ _ _) 0
              f.path_positions).0
            k)
        [] 0 r.findings parts.findings)

  -- Every position of each finding that is below 2^63 is below the number of edges of its branch.
  pub findings-IsInRange :
      All FitsInt r.findings → All (IsInRange r.evidence.service_path.branches) r.findings
  findings-IsInRange fit =
      All-map_both _ _ _ r.findings (λ f a b. in_range_positions f.path_positions a b) fit
        positions_pass
