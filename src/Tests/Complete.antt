-- ===== src/Tests/Complete.antt =====
-- A run that passes the whole validation: an inventory of a host's namespace that found no
-- listener, two checks, and two claims and a finding about the port of the target.
use route_doc.Common.{false, ◌&&◌, ◌||◌, List, [], ◌∷◌, none, some, Text, codes, pos, leb}
use route_doc.Model.Entities.{Entity}
use route_doc.Model.Paths.{PathEdge, EvidenceRef}
use route_doc.Model.Visibility.{VantagePoint}
use route_doc.Model.Checks.{CheckDefinition, CheckExecution}
use route_doc.Model.Claims.{Claim, Finding, ListenerAbsentClaimParameters}
use route_doc.Model.Runs.{EvidenceRun, EvaluatedRun}
use route_doc.Model.Enums.{
  GoalKind, ScopeKind, EvidenceKind, PathRelation, PathProvenance, CheckKind, CheckInputKind,
  CheckLifecycle, CheckVerdict, ExpectedConditionKind, ClaimStatementCode, ClaimLevel, FindingKind,
  FindingTitleCode, Selection, Transport, AddressFamily, BindSemantics,
}
use route_doc.Validation.Texts.{TextLibrary}
use route_doc.Tests.Samples.{evidence, root}
use route_doc.Tests.Listening.{host, host_vantage, inventory, assessment, namespace_id, vantage_id}

-- The library on ASCII texts without spaces around them and without addresses.
abbrev pub ascii : TextLibrary
ascii = record {
  is_letter = λ r. (leb b'a' r && leb r b'z') || (leb b'A' r && leb r b'Z');
  is_digit = λ r. leb b'0' r && leb r b'9';
  trim_space = λ s. s;
  to_lower = λ s. s;
  reparse_addr = λ s. none;
}

abbrev named_host : Entity
named_host = record host { display_label = codes "host" }

abbrev named_vantage : VantagePoint
named_vantage = record host_vantage { display_label = codes "host" }

abbrev pub seen_inventory : EvidenceRef
seen_inventory = record {
  kind = EvidenceKind.observation;
  observation_id = some (codes "observation-1");
  claim_id = none;
  visibility_id = none;
  assertion_id = none;
}

abbrev pub complete_inventory : EvidenceRef
complete_inventory = record {
  kind = EvidenceKind.visibility;
  observation_id = none;
  claim_id = none;
  visibility_id = some (codes "visibility-1");
  assertion_id = none;
}

abbrev first_claim : EvidenceRef
first_claim = record {
  kind = EvidenceKind.claim;
  observation_id = none;
  claim_id = some (codes "claim-000001");
  visibility_id = none;
  assertion_id = none;
}

abbrev edge : PathEdge
edge = record {
  edge_id = codes "edge-1";
  from = namespace_id;
  to = namespace_id;
  relation = PathRelation.resolves_to;
  provenance = PathProvenance.directly_observed;
  evidence_refs = seen_inventory ∷ [];
}

abbrev check : Text → List Text → CheckDefinition
check id deps = record {
  check_id = id;
  kind = CheckKind.listener_inventory;
  version = record { major = 1; minor = 0; patch = 0 };
  inputs = record {
    kind = CheckInputKind.network;
    subject_entity_id = namespace_id;
    vantage_id = some vantage_id;
    assertion_id = none;
  };
  dependency_check_ids = deps;
  required_capability_ids = [];
  execution_policy = record {
    deadline_ns = pos 5;
    dependency_failure_reason_code = codes "dependency_failed";
    deadline_is_expected_condition = false;
  };
  expected_condition = record {
    kind = ExpectedConditionKind.result;
    result = codes "COMPLETED";
    address_family = none;
    port = none;
    hostname = none;
    status_min = none;
    status_max = none;
    matcher_result = none;
    capability_state = none;
  };
}

abbrev pub checks : List CheckDefinition
checks = check (codes "check-1") [] ∷ check (codes "check-2") (codes "check-1" ∷ []) ∷ []

-- Two checks that depend on one another, and a third that depends on one of them.
abbrev pub cyclic_checks : List CheckDefinition
cyclic_checks =
    check (codes "check-1") (codes "check-2" ∷ [])
    ∷ check (codes "check-2") (codes "check-1" ∷ [])
    ∷ check (codes "check-3") (codes "check-1" ∷ [])
    ∷ []

abbrev execution : CheckExecution
execution = record {
  execution_id = codes "execution-1";
  check_id = codes "check-2";
  branch_id = some root;
  vantage_id = some vantage_id;
  started_at = some 90;
  finished_at = some 100;
  lifecycle = CheckLifecycle.completed;
  verdict = CheckVerdict.pass;
  reason_code = none;
  observation_ids = codes "observation-1" ∷ [];
  visibility_assessment_ids = codes "visibility-1" ∷ [];
}

abbrev pub complete_evidence : EvidenceRun
complete_evidence = record evidence {
  requested_scope = record { kind = ScopeKind.local_origin };
  target = record evidence.target { effective_port = 8080 };
  started_at = 90;
  finished_at = 120;
  entities = named_host ∷ [];
  vantage_points = named_vantage ∷ [];
  observations = record inventory { subject_entity_ids = namespace_id ∷ [] } ∷ [];
  visibility_assessments = assessment ∷ [];
  service_path = record {
    nodes = record { entity_id = namespace_id } ∷ [];
    edges = edge ∷ [];
    branches =
        record {
          branch_id = root;
          parent_branch_id = none;
          ordered_edge_ids = codes "edge-1" ∷ [];
          goal = GoalKind.http_response;
        }
        ∷ [];
  };
  check_definitions = checks;
  check_executions = execution ∷ [];
}

abbrev absent_rule : Text
absent_rule = codes "listener.no_matching_listener/v1"

abbrev pub absence_parameters : ListenerAbsentClaimParameters
absence_parameters = record {
  namespace_entity_id = namespace_id;
  vantage_id = vantage_id;
  protocol = Transport.tcp;
  address_family = AddressFamily.ipv4;
  bind_semantics = BindSemantics.wildcard;
  port = 8080;
}

abbrev pub sample_claim : Text → List EvidenceRef → Claim
sample_claim id support = record {
  claim_id = id;
  statement_code = ClaimStatementCode.no_matching_listener_visible;
  level = ClaimLevel.inferred;
  subject_entity_ids = namespace_id ∷ [];
  branch_ids = root ∷ [];
  parameters = record {
    kind = ClaimStatementCode.no_matching_listener_visible;
    hostname_mismatch = none;
    tcp_refused = none;
    listener_absent = some absence_parameters;
  };
  supporting_evidence = support;
  contradicting_evidence = [];
  required_missing_evidence = [];
  rule_id = absent_rule;
}

-- A claim that cites the first one and what the first one rests on.
abbrev pub second_claim : Claim
second_claim =
    sample_claim (codes "claim-000002") (seen_inventory ∷ first_claim ∷ complete_inventory ∷ [])

abbrev pub absence_claims : List Claim
absence_claims =
    sample_claim (codes "claim-000001") (seen_inventory ∷ complete_inventory ∷ [])
    ∷ second_claim
    ∷ []

-- Two claims that support one another.
abbrev pub circular_claims : List Claim
circular_claims =
    sample_claim (codes "claim-000001")
      (record first_claim { claim_id = some (codes "claim-000002") } ∷ [])
    ∷ sample_claim (codes "claim-000002") (first_claim ∷ [])
    ∷ []

abbrev absent_listener : Finding
absent_listener = record {
  finding_id = codes "finding-000001";
  kind = FindingKind.blocker;
  title_code = FindingTitleCode.no_matching_listener_visible;
  level = ClaimLevel.inferred;
  branch_ids = root ∷ [];
  path_positions = record { branch_id = root; position = 0 } ∷ [];
  claim_ids = codes "claim-000001" ∷ [];
  rule_id = absent_rule;
  limitations = [];
  suggested_experiments = [];
  selection = Selection.global_primary;
}

abbrev pub complete_run : EvaluatedRun
complete_run = record {
  evidence = complete_evidence;
  evaluation = record { evaluated_at = 130; ordered_rule_ids = absent_rule ∷ [] };
  claims = absence_claims;
  findings = absent_listener ∷ [];
}
