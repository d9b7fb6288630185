-- ===== src/Canonical/Runs.antt =====
-- `CanonicalizeEvidence` and `CanonicalizeEvaluated` of internal/model/canonicalize.go. The clones that
-- they make of slices have no counterpart: lists are values here.
use Prim.Native.Nat.{Ordering}
use route_doc.Common.{
  Bool, true, false, List, [], ◌∷◌, Text, codes, sort, text_lt, ltb, map, if◌then◌else◌,
}
use route_doc.Model.Ids.{BranchId}
use route_doc.Model.Paths.{PathEdge, Branch, ServicePath}
use route_doc.Model.Visibility.{VantagePoint, VisibilityAssessment}
use route_doc.Model.Checks.{CheckDefinition, CheckExecution}
use route_doc.Model.Observations.{Observation}
use route_doc.Model.Claims.{Claim, Finding}
use route_doc.Model.Runs.{EvidenceRun, EvaluatedRun}
use route_doc.Model.Issues.{ValidationCode, ValidationIssue}
use route_doc.Ids.{compare_claim_id, compare_finding_id}
use route_doc.Canonical.Compare.{compare_missing_evidence, sort_evidence_refs, sort_limitations}
use route_doc.Canonical.Tree.{canonical_branches, branch_index}

-- `a.ID < b.ID`
unfoldable pub less_by : {A : Type 0} → (A → Text) → A → A → Bool
less_by key a b = text_lt (key a) (key b)

unfoldable pub sort_by : {A : Type 0} → (A → Text) → List A → List A
sort_by key = sort (less_by key)

unfoldable pub sort_ids : List Text → List Text
sort_ids = sort text_lt

abbrev pub is_less : Ordering → Bool
is_less Ordering.lt = true
is_less Ordering.eq = false
is_less Ordering.gt = false

unfoldable pub canonical_vantage : VantagePoint → VantagePoint
canonical_vantage v = record v { limitations = sort_limitations v.limitations }

unfoldable pub canonical_edge : PathEdge → PathEdge
canonical_edge e = record e { evidence_refs = sort_evidence_refs e.evidence_refs }

unfoldable pub canonical_definition : CheckDefinition → CheckDefinition
canonical_definition d = record d {
  dependency_check_ids = sort_ids d.dependency_check_ids;
  required_capability_ids = sort_ids d.required_capability_ids;
}

unfoldable pub canonical_execution : CheckExecution → CheckExecution
canonical_execution e = record e {
  observation_ids = sort_ids e.observation_ids;
  visibility_assessment_ids = sort_ids e.visibility_assessment_ids;
}

unfoldable pub canonical_observation : Observation → Observation
canonical_observation o = record o {
  subject_entity_ids = sort_ids o.subject_entity_ids;
  limitations = sort_limitations o.limitations;
}

unfoldable pub canonical_assessment : VisibilityAssessment → VisibilityAssessment
canonical_assessment v = record v {
  basis_observation_ids = sort_ids v.basis_observation_ids;
  limitations = sort_limitations v.limitations;
}

unfoldable pub branch_cycle : ValidationIssue
branch_cycle = record {
  code = ValidationCode.justification_cycle;
  pointer = codes "/service_path/branches";
  message = codes "branch parent cycle or missing parent";
}

unfoldable pub canonical_path : ServicePath → ServicePath
canonical_path p = record {
  nodes = sort_by (λ n. n.entity_id) p.nodes;
  edges = map canonical_edge (sort_by (λ e. e.edge_id) p.edges);
  branches = (canonical_branches p.branches).0;
}

unfoldable pub canonicalize_evidence : EvidenceRun → EvidenceRun × List ValidationIssue
canonicalize_evidence r = (
  record r {
    vantage_points = map canonical_vantage (sort_by (λ v. v.vantage_id) r.vantage_points);
    capabilities = sort_by (λ c. c.capability_id) r.capabilities;
    operator_assertions = sort_by (λ a. a.assertion_id) r.operator_assertions;
    entities = sort_by (λ e. e.entity_id) r.entities;
    service_path = canonical_path r.service_path;
    check_definitions = map canonical_definition (sort_by (λ d. d.check_id) r.check_definitions);
    check_executions = map canonical_execution (sort_by (λ e. e.execution_id) r.check_executions);
    observations = map canonical_observation (sort_by (λ o. o.observation_id) r.observations);
    visibility_assessments =
        map canonical_assessment (sort_by (λ v. v.visibility_id) r.visibility_assessments);
    limitations = sort_limitations r.limitations;
  },
  if (canonical_branches r.service_path.branches).1 then [] else branch_cycle ∷ [],
)

-- `branchIndex(branches, a) < branchIndex(branches, b)`
unfoldable pub less_branch_index : List Branch → BranchId → BranchId → Bool
less_branch_index branches a b = ltb (branch_index branches a) (branch_index branches b)

unfoldable pub canonical_claim : List Branch → Claim → Claim
canonical_claim branches c = record c {
  subject_entity_ids = sort_ids c.subject_entity_ids;
  branch_ids = sort (less_branch_index branches) c.branch_ids;
  supporting_evidence = sort_evidence_refs c.supporting_evidence;
  contradicting_evidence = sort_evidence_refs c.contradicting_evidence;
  required_missing_evidence =
      sort (λ a b. is_less (compare_missing_evidence a b)) c.required_missing_evidence;
}

unfoldable pub canonical_finding : List Branch → Finding → Finding
canonical_finding branches f = record f {
  branch_ids = sort (less_branch_index branches) f.branch_ids;
  path_positions =
      sort (λ a b. less_branch_index branches a.branch_id b.branch_id) f.path_positions;
  claim_ids = sort (λ a b. is_less (compare_claim_id a b)) f.claim_ids;
  limitations = sort_limitations f.limitations;
}

unfoldable pub canonicalize_evaluated : EvaluatedRun → EvaluatedRun × List ValidationIssue
canonicalize_evaluated r =
    let (evidence, issues) = canonicalize_evidence r.evidence in
    let branches = evidence.service_path.branches in
    (
      record r {
        evidence = record evidence { limitations = sort_limitations evidence.limitations };
        claims =
            map (canonical_claim branches)
              (sort (λ a b. is_less (compare_claim_id a.claim_id b.claim_id)) r.claims);
        findings =
            map (canonical_finding branches)
              (sort (λ a b. is_less (compare_finding_id a.finding_id b.finding_id)) r.findings);
      },
      issues,
    )
