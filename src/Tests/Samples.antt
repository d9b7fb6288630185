-- ===== src/Tests/Samples.antt =====
-- A small run: a root branch with one edge, two leaves below it, and findings on the root and on a
-- leaf.
use route_doc.Common.{List, [], ◌∷◌, Option, none, some, Text, codes, true, false, pos}
use route_doc.Model.Paths.{Branch}
use route_doc.Model.Claims.{Finding}
use route_doc.Model.Runs.{EvidenceRun, EvaluatedRun}
use route_doc.Model.Enums.{
  GoalKind, ScopeKind, FindingKind, FindingTitleCode, ClaimLevel, Selection,
}

abbrev pub root : Text
root = codes "branch-1"

abbrev pub left : Text
left = codes "branch-2"

abbrev pub right : Text
right = codes "branch-3"

abbrev pub branch : Text → Option Text → Branch
branch id parent = record {
  branch_id = id;
  parent_branch_id = parent;
  ordered_edge_ids = codes "edge-1" ∷ [];
  goal = GoalKind.http_response;
}

abbrev pub tree : List Branch
tree = branch root none ∷ branch left (some root) ∷ branch right (some root) ∷ []

-- Two branches that name one another as parents, and a leaf below them.
abbrev pub cyclic_tree : List Branch
cyclic_tree = branch root (some left) ∷ branch left (some root) ∷ branch right (some root) ∷ []

abbrev pub blocker_on : Text → Text → Finding
blocker_on id at = record {
  finding_id = id;
  kind = FindingKind.blocker;
  title_code = FindingTitleCode.tcp_connection_refused;
  level = ClaimLevel.observed;
  branch_ids = at ∷ [];
  path_positions = record { branch_id = at; position = 0 } ∷ [];
  claim_ids = [];
  rule_id = codes "tcp.connection_refused/v1";
  limitations = [];
  suggested_experiments = [];
  selection = Selection.none;
}

abbrev pub on_root : Finding
on_root = blocker_on (codes "finding-000001") root

abbrev pub on_left : Finding
on_left = blocker_on (codes "finding-000002") left

abbrev pub evidence : EvidenceRun
evidence = record {
  report_schema_version = record { major = 1; minor = 0; patch = 0 };
  producer = record { name = codes "routedoc"; version = codes "0.2.0"; build = [] };
  run_id = codes "run-1";
  target = record {
    scheme = codes "http";
    hostname = codes "example.com";
    effective_port = 80;
    path = record {
      present = true;
      is_root = true;
      segment_count = 0;
      trailing_slash = false;
      query_present = false;
    };
  };
  goal = record { kind = GoalKind.http_response; expectation_assertion_id = none };
  requested_scope = record { kind = ScopeKind.client_only };
  policy = record { coherence_window_ns = pos 60_000_000_000 };
  started_at = 1;
  finished_at = 2;
  vantage_points = [];
  capabilities = [];
  operator_assertions = [];
  entities = [];
  service_path = record { nodes = []; edges = []; branches = tree };
  check_definitions = [];
  check_executions = [];
  observations = [];
  visibility_assessments = [];
  limitations = [];
}

abbrev pub run : EvaluatedRun
run = record {
  evidence = evidence;
  evaluation = record { evaluated_at = 3; ordered_rule_ids = [] };
  claims = [];
  findings = on_left ∷ on_root ∷ [];
}
