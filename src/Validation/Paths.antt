-- ===== src/Validation/Paths.antt =====
-- `validatePath` of internal/model/validate_evidence.go and `refTargetCount` of
-- validate_evaluated.go: nodes, edges with their evidence, and branches.
use route_doc.Common.{
  ℕ, ◌+◌, Bool, true, not, ◌||◌, List, [], ◌++◌, Option, none, some, Text, codes, contains, ◌==◌,
  eq_number, if◌then◌else◌,
}
use route_doc.Model.Ids.{EntityId, AssertionId, ObservationId, EdgeId, BranchId}
use route_doc.Model.Issues.{ValidationCode, ValidationIssue}
use route_doc.Model.Observations.{Observation}
use route_doc.Model.Paths.{EvidenceRef, PathNode, PathEdge, Branch, ServicePath}
use route_doc.Model.Enums.{
  EvidenceKind, PathProvenance, eq_evidence_kind, eq_path_provenance, evidence_kind_valid,
  path_relation_valid, path_provenance_valid,
}
use route_doc.Ids.Kinds.{edge_id_valid, branch_id_valid}
use route_doc.Validation.Shapes.{one_if}
use route_doc.Validation.Shared.{issue_if, identifier_issues, indexed, each, each_seen, ids_of_all}

unfoldable pub ref_target_count : EvidenceRef → ℕ
ref_target_count r =
    one_if r.observation_id + (one_if r.claim_id + (one_if r.visibility_id + one_if r.assertion_id))

-- `p == nil || !known[*p]`
unfoldable pub is_missing : List Text → Option Text → Bool
is_missing known none = true
is_missing known (some id) = not (contains known id)

-- One round of the loop over the evidence of an edge.
unfoldable pub edge_evidence_issues :
    List AssertionId
    → List ObservationId
    → PathProvenance
    → EvidenceRef
    → Text
    → List ValidationIssue
unfolding issue_if is_missing
edge_evidence_issues assertions observations provenance r p =
    if not (evidence_kind_valid r.kind) || not (ref_target_count r == 1)
    then issue_if true ValidationCode.reference_kind_mismatch p
        (codes "reference must have exactly one target")
    else if provenance == PathProvenance.operator_asserted
    then (if not (r.kind == EvidenceKind.assertion)
        then issue_if true ValidationCode.reference_kind_mismatch p
            (codes "operator edge requires assertion")
        else issue_if (is_missing assertions r.assertion_id) ValidationCode.reference_missing p
            (codes "assertion missing"))
    else if not (r.kind == EvidenceKind.observation)
    then issue_if true ValidationCode.reference_kind_mismatch p
        (codes "base path edge requires observation")
    else issue_if (is_missing observations r.observation_id) ValidationCode.reference_missing p
        (codes "observation missing")

-- The round of the loop over the edges for the edge at `q`, after its identifier has been entered.
unfoldable pub edge_issues :
    List EntityId → List AssertionId → List ObservationId → PathEdge → Text → List ValidationIssue
unfolding issue_if each edge_evidence_issues
edge_issues entities assertions observations e q =
    issue_if (not (contains entities e.from)) ValidationCode.reference_missing (q ++ codes "/from")
      (codes "from entity missing")
    ++ issue_if (not (contains entities e.to)) ValidationCode.reference_missing (q ++ codes "/to")
        (codes "to entity missing")
    ++ issue_if (not (path_relation_valid e.relation)) ValidationCode.unknown_enum_value
        (q ++ codes "/relation") (codes "unknown relation")
    ++ issue_if (not (path_provenance_valid e.provenance)) ValidationCode.unknown_enum_value
        (q ++ codes "/provenance") (codes "unknown provenance")
    ++ each
        (λ j r.
          edge_evidence_issues assertions observations e.provenance r
            (indexed (q ++ codes "/evidence_refs/") j))
        0 e.evidence_refs

unfoldable pub node_issues : List EntityId → Text → ℕ → PathNode → List ValidationIssue
unfolding issue_if indexed
node_issues entities base i n =
    issue_if (not (contains entities n.entity_id)) ValidationCode.reference_missing
      (indexed (base ++ codes "/nodes/") i ++ codes "/entity_id") (codes "entity missing")

unfoldable pub branch_issues :
    List EdgeId → Text → List BranchId → ℕ → Branch → List ValidationIssue
unfolding issue_if indexed each identifier_issues
branch_issues edges base seen i b =
    let q = indexed (base ++ codes "/branches/") i in
    identifier_issues (branch_id_valid b.branch_id) seen b.branch_id (q ++ codes "/branch_id")
      (codes "invalid branch ID") (codes "duplicate branch ID")
    ++ each
        (λ j id.
          issue_if (not (contains edges id)) ValidationCode.reference_missing
            (q ++ codes "/ordered_edge_ids") (codes "edge missing"))
        0 b.ordered_edge_ids

unfoldable pub parent_issues : List BranchId → ℕ → Branch → List ValidationIssue
unfolding issue_if
parent_issues branches i b = elim b.parent_branch_id [
  | none ↦ []
  | some parent ↦
      issue_if (not (contains branches parent)) ValidationCode.reference_missing
        (codes "/service_path/branches") (codes "parent branch missing")
]

unfoldable pub validate_path :
    ServicePath → List EntityId → List AssertionId → List Observation → Text → List ValidationIssue
unfolding each each_seen ids_of_all edge_issues node_issues branch_issues parent_issues indexed
    identifier_issues
validate_path p entities assertions observed base =
    let observations = ids_of_all (λ o. o.observation_id) observed in
    let edges = ids_of_all (λ e. e.edge_id) p.edges in
    let branches = ids_of_all (λ b. b.branch_id) p.branches in
    each (node_issues entities base) 0 p.nodes
    ++ each_seen (λ e. e.edge_id)
        (λ seen i e.
          let q = indexed (base ++ codes "/edges/") i in
          identifier_issues (edge_id_valid e.edge_id) seen e.edge_id (q ++ codes "/edge_id")
            (codes "invalid edge ID") (codes "duplicate edge ID")
          ++ edge_issues entities assertions observations e q)
        [] 0 p.edges
    ++ each_seen (λ b. b.branch_id) (branch_issues edges base) [] 0 p.branches
    ++ each (parent_issues branches) 0 p.branches
