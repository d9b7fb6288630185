-- ===== src/Rules/Listener/Unplaced.antt =====
-- Where internal/rules/listener/no_matching_listener.go places its claims and findings: `branchesFor`
-- against `validatePath` of internal/model/validate_evidence.go.
use route_doc.Common.{
  ℕ, ◌+◌, ◌≡◌, ◌≢◌, refl, sym, ap, false, Bool, List, [], ◌∷◌, some, arith, Text, Option, All,
  All-map, Bool-cases, inl, inr, ◌==◌, ==_iff, eq_text, map, Exists, Exists-witness,
}
use mathlib.Core.Path.{subst}
use route_doc.Model.Ids.{BranchId, EdgeId, VisibilityId}
use route_doc.Model.Entities.{Addr}
use route_doc.Model.Paths.{EvidenceRef, PathEdge, Branch}
use route_doc.Model.Claims.{PathPosition}
use route_doc.Model.Runs.{EvidenceRun}
use route_doc.Model.Enums.{EvidenceKind, eq_evidence_kind}
use route_doc.Rules.Templates.{RuleCandidate}
use route_doc.Rules.Positions.{
  positions_of, edge_positions, branch_positions, positions_for, branches_for,
}
use route_doc.Rules.Listener.{
  is_visibility_ref, absence_claim, absence_candidate, no_matching_listener_visible,
}
use route_doc.Rules.Listener.Returned.{no_matching_listener_iff}
use route_doc.Validation.Texts.{TextLibrary}
use route_doc.Validation.Evidence.{accepted, validate_evidence_run}
use route_doc.Validation.Evidence.Edges.{accepted_edges}

module _ (test : EvidenceRef → Bool) where
  -- No reference of an edge passes the test.
  abbrev AllFail : List PathEdge → Type 0
  AllFail edges = All (λ e. All (λ x. test x ≡ false) e.evidence_refs) edges

  positions_of-none :
      (p : PathPosition) (xs : List EvidenceRef)
      → All (λ x. test x ≡ false) xs
      → positions_of test p xs ≡ []
  unfolding positions_of
  positions_of-none p [] h = refl
  positions_of-none p (x ∷ xs) (e, h) = rw (e, positions_of) (positions_of-none p xs h)

  edge_positions-none :
      (p : PathPosition) (id : EdgeId) (es : List PathEdge)
      → AllFail es
      → edge_positions test p id es ≡ []
  unfolding edge_positions
  edge_positions-none p id [] h = refl
  edge_positions-none p id (e ∷ es) (f, h) = elim (Bool-cases (e.edge_id == id)) [
    | inl k ↦
        rw (k, positions_of-none p e.evidence_refs f, edge_positions)
          (edge_positions-none p id es h)
    | inr k ↦ rw (k, edge_positions) (edge_positions-none p id es h)
  ]

  branch_positions-none :
      (edges : List PathEdge) (branch : BranchId) (pos : ℕ) (ids : List EdgeId)
      → AllFail edges
      → branch_positions test edges branch pos ids ≡ []
  unfolding branch_positions
  branch_positions-none edges branch pos [] h = refl
  branch_positions-none edges branch pos (id ∷ ids) h =
      rw (edge_positions-none (record { branch_id = branch; position = pos }) id edges h)
        (branch_positions-none edges branch (pos + 1) ids h)

  positions_for-none :
      (edges : List PathEdge) (bs : List Branch) → AllFail edges → positions_for test edges bs ≡ []
  unfolding positions_for
  positions_for-none edges [] h = refl
  positions_for-none edges (b ∷ bs) h =
      rw (branch_positions-none edges b.branch_id 0 b.ordered_edge_ids h)
        (positions_for-none edges bs h)

visibility_fails :
    (id : VisibilityId) (x : EvidenceRef)
    → x.kind ≢ EvidenceKind.visibility
    → is_visibility_ref id x ≡ false
unfolding is_visibility_ref
visibility_fails id x n = ground (arith, (==_iff x.kind EvidenceKind.visibility).0)

-- For evidence that the validation accepts, the listener rule finds no branch: none of its claims
-- and none of its findings stands on a branch or has a position.
pub no_matching_listener-unplaced :
    (parse_addr : Text → Option Addr) (lib : TextLibrary) (r v : EvidenceRun) (c : RuleCandidate)
    → validate_evidence_run lib r ≡ some (accepted v)
    → Exists (λ d. c ≡ d) ((no_matching_listener_visible parse_addr).evaluate r)
    → All (λ t. t.branch_ids ≡ []) c.claims
      × All (λ t. (t.branch_ids ≡ []) × (t.path_positions ≡ [])) c.findings
unfolding absence_candidate absence_claim branches_for
no_matching_listener-unplaced parse_addr lib r v c valid returned =
    let (w, _, k) = Exists-witness ((no_matching_listener_iff parse_addr r c).0 returned) in
    let nowhere : positions_for (is_visibility_ref w.visibility_id) r.service_path.edges
          r.service_path.branches
        ≡ [] =
      positions_for-none (is_visibility_ref w.visibility_id) r.service_path.edges
        r.service_path.branches
        (All-map _ _ r.service_path.edges
          (λ e. All-map _ _ e.evidence_refs (visibility_fails w.visibility_id))
          (accepted_edges lib r v valid)) in
    let no_branch = ap (map (λ p. p.branch_id)) nowhere in
    subst
      (λ d.
        All (λ t. t.branch_ids ≡ []) d.claims
        × All (λ t. (t.branch_ids ≡ []) × (t.path_positions ≡ [])) d.findings)
      (sym k.candidate) ((no_branch, tt), ((no_branch, nowhere), tt))
