-- ===== src/Tests/Ruling.antt =====
-- The rules and their evaluation at concrete inputs: a run with one refused connection.
use route_doc.Common.{
  ◌≡◌, ◌↔◌, refl, [], ◌∷◌, List, none, some, codes, pos, false, Exists, All, text_eq,
}
use route_doc.Model.Observations.{Observation, TcpConnectionResult}
use route_doc.Model.Runs.{EvidenceRun, EvaluatedRun}
use route_doc.Model.Paths.{PathEdge}
use route_doc.Model.Claims.{Claim, Finding, PathPosition}
use route_doc.Model.Enums.{
  ObservationKind, TcpResult, PathRelation, PathProvenance, EvidenceKind, ClaimStatementCode,
  ClaimLevel, FindingKind, FindingTitleCode, Selection,
}
use route_doc.Selection.Apply.{apply}
use route_doc.Rules.Templates.{Rule, RuleCandidate}
use route_doc.Rules.Tcp.{connection_refused, refused_candidate}
use route_doc.Rules.Refused.{connection_refused_iff, Refuses}
use route_doc.Rules.Positions.{branches_for, branches_for-OnBranch, OnBranch, is_observation_ref}
use route_doc.Rules.Evaluate.{Evaluated, evaluate}
use route_doc.Rules.Laws.{evaluate-IsEvaluation, IsEvaluation}
use route_doc.Tests.Samples.{evidence, root, left, right}
use route_doc.Tests.Listening.{inventory}

abbrev refusal : Observation
refusal = record inventory {
  observation_id = codes "observation-2";
  kind = ObservationKind.tcp_connection_result;
  payload = record inventory.payload {
    kind = ObservationKind.tcp_connection_result;
    listener_inventory_result = none;
    tcp = some (record {
      endpoint_entity_id = codes "entity-2";
      result = TcpResult.refused;
      duration_ns = pos 1;
      deadline_part_of_expected_condition = false;
    });
  };
}

abbrev refused_edge : PathEdge
refused_edge = record {
  edge_id = codes "edge-1";
  from = codes "entity-1";
  to = codes "entity-2";
  relation = PathRelation.connects_to;
  provenance = PathProvenance.directly_observed;
  evidence_refs =
      record {
        kind = EvidenceKind.observation;
        observation_id = some (codes "observation-2");
        claim_id = none;
        visibility_id = none;
        assertion_id = none;
      }
      ∷ [];
}

abbrev refused_run : EvidenceRun
refused_run = record evidence {
  service_path = record evidence.service_path { edges = refused_edge ∷ [] };
  observations = refusal ∷ [];
}

abbrev result : TcpConnectionResult
result = record {
  endpoint_entity_id = codes "entity-2";
  result = TcpResult.refused;
  duration_ns = pos 1;
  deadline_part_of_expected_condition = false;
}

abbrev positions : List PathPosition
positions =
    record { branch_id = root; position = 0 }
    ∷ record { branch_id = left; position = 0 }
    ∷ record { branch_id = right; position = 0 }
    ∷ []

abbrev refused_claim : Claim
refused_claim = record {
  claim_id = codes "claim-000001";
  statement_code = ClaimStatementCode.tcp_connection_refused;
  level = ClaimLevel.observed;
  subject_entity_ids = codes "entity-2" ∷ [];
  branch_ids = root ∷ left ∷ right ∷ [];
  parameters = record {
    kind = ClaimStatementCode.tcp_connection_refused;
    hostname_mismatch = none;
    tcp_refused = some (record {
      endpoint_entity_id = codes "entity-2";
      vantage_id = codes "vantage-1";
      observed_at = 100;
    });
    listener_absent = none;
  };
  supporting_evidence =
      record {
        kind = EvidenceKind.observation;
        observation_id = some (codes "observation-2");
        claim_id = none;
        visibility_id = none;
        assertion_id = none;
      }
      ∷ [];
  contradicting_evidence = [];
  required_missing_evidence = [];
  rule_id = codes "tcp.connection_refused/v1";
}

abbrev refused_finding : Finding
refused_finding = record {
  finding_id = codes "finding-000001";
  kind = FindingKind.blocker;
  title_code = FindingTitleCode.tcp_connection_refused;
  level = ClaimLevel.observed;
  branch_ids = root ∷ left ∷ right ∷ [];
  path_positions = positions;
  claim_ids = codes "claim-000001" ∷ [];
  rule_id = codes "tcp.connection_refused/v1";
  limitations = [];
  suggested_experiments = codes "compare the endpoint from the same vantage" ∷ [];
  selection = Selection.global_primary;
}

abbrev evaluated_run : EvaluatedRun
evaluated_run = record {
  evidence = refused_run;
  evaluation = record {
    evaluated_at = 3;
    ordered_rule_ids = codes "tcp.connection_refused/v1" ∷ [];
  };
  claims = refused_claim ∷ [];
  findings = refused_finding ∷ [];
}

connection_refused_iff_example :
    Exists
      (λ d. refused_candidate refused_run refusal result (codes "vantage-1") ≡ d)
      (connection_refused.evaluate refused_run)
    ↔ Exists
        (Refuses refused_run (refused_candidate refused_run refusal result (codes "vantage-1")))
        refused_run.observations
connection_refused_iff_example =
    connection_refused_iff refused_run
      (refused_candidate refused_run refusal result (codes "vantage-1"))

-- The refused connection lies on the root branch, and so on the way to every leaf: the finding is
-- the primary one of the run.
evaluated_ok :
    evaluate (connection_refused ∷ []) refused_run 3 ≡ Evaluated.handed_over evaluated_run
unfolding route_doc.Common.same route_doc.Common.any route_doc.Common.all route_doc.Common.keep
    route_doc.Common.insert_sorted route_doc.Common.sort route_doc.Common.Text-discrete
    route_doc.Common.text_eq route_doc.Common.text_lt route_doc.Common.starts_with
    route_doc.Common.contains route_doc.Common.lookup route_doc.Common.insert
    route_doc.Common.index_into route_doc.Common.keys route_doc.Common.climb
    route_doc.Common.is_negative route_doc.Branches.index_branches route_doc.Branches.parent_ids
    route_doc.Branches.leaf_ids route_doc.Branches.parent_in
    route_doc.GlobalPrimary.finding_has_position route_doc.GlobalPrimary.position_for_branch
    route_doc.GlobalPrimary.is_ancestor_of route_doc.GlobalPrimary.is_ancestor_of_all
    route_doc.GlobalPrimary.is_strong_blocker route_doc.GlobalPrimary.proves_global
    route_doc.GlobalPrimary.global_primary_proof route_doc.GlobalPrimary.validate_selection
    route_doc.Selection.Statements.claim_by_id route_doc.Selection.Statements.same_claim_proposition
    route_doc.Selection.Statements.same_statement route_doc.Selection.Statements.less_finding
    route_doc.Selection.Leaf.contains_branch route_doc.Selection.Leaf.position
    route_doc.Selection.Leaf.attachment route_doc.Selection.Leaf.finding_branch_position
    route_doc.Selection.Leaf.branch_edge_count route_doc.Selection.Leaf.outside_branch
    route_doc.Selection.Leaf.leaf_candidates route_doc.Selection.Leaf.min_pos
    route_doc.Selection.Leaf.mark route_doc.Selection.Leaf.test_at route_doc.Selection.Leaf.less_at
    route_doc.Selection.Leaf.same_at route_doc.Selection.Leaf.observed_at
    route_doc.Selection.Leaf.select_loop route_doc.Selection.Leaf.nearest_candidates
    route_doc.Selection.Leaf.select_leaf route_doc.Selection.Apply.reset
    route_doc.Selection.Apply.leaves_loop route_doc.Selection.Apply.global_candidates
    route_doc.Selection.Apply.less_global route_doc.Selection.Apply.mark_all
    route_doc.Selection.Apply.mark_global route_doc.Selection.Apply.apply
    route_doc.Rules.Templates.valid_candidate_key route_doc.Rules.Templates.local_id
    route_doc.Rules.Templates.evidence_from_template route_doc.Rules.Positions.is_observation_ref
    route_doc.Rules.Positions.positions_of route_doc.Rules.Positions.edge_positions
    route_doc.Rules.Positions.branch_positions route_doc.Rules.Positions.positions_for
    route_doc.Rules.Positions.branches_for route_doc.Rules.Tcp.tcp_with route_doc.Rules.Tcp.accepts
    route_doc.Rules.Tcp.refused_candidate route_doc.Rules.Tcp.refused_at
    route_doc.Rules.Tcp.refused_rounds route_doc.Rules.Tcp.connection_refused
    route_doc.Rules.Registry.less_rule route_doc.Rules.Registry.duplicate_rule
    route_doc.Rules.Registry.duplicate_rules route_doc.Rules.Registry.new_registry
    route_doc.Rules.Registry.rule_ids route_doc.Rules.Compile.collect_raw
    route_doc.Rules.Compile.collect_candidates route_doc.Rules.Compile.less_candidate
    route_doc.Rules.Compile.forward_issues route_doc.Rules.Compile.claim_from
    route_doc.Rules.Compile.add_claim route_doc.Rules.Compile.key_taken
    route_doc.Rules.Compile.make_claims route_doc.Rules.Compile.make_all_claims
    route_doc.Rules.Compile.missing_issues route_doc.Rules.Compile.add_finding
    route_doc.Rules.Compile.make_findings route_doc.Rules.Compile.make_all_findings
    route_doc.Rules.Evaluate.exact_version route_doc.Rules.Evaluate.claims_made
    route_doc.Rules.Evaluate.findings_made route_doc.Rules.Evaluate.select_or_reject
    route_doc.Rules.Evaluate.compiled route_doc.Rules.Evaluate.evaluate route_doc.Ids.is_digit
    route_doc.Ids.is_bad_rune route_doc.Ids.parse_uint route_doc.Ids.valid_id
    route_doc.Ids.generated_number route_doc.Ids.text_compare route_doc.Ids.compare_uint_ids
    route_doc.Ids.compare_claim_id route_doc.Ids.compare_finding_id route_doc.Ids.padded
    route_doc.Ids.claim_id route_doc.Ids.finding_id route_doc.Utf8.utf8_step
    route_doc.Utf8.utf8_from route_doc.Utf8.valid_string route_doc.Decimal.digits
    route_doc.Decimal.itoa route_doc.Model.Enums.VantageKind-discrete
    route_doc.Model.Enums.EntityKind-discrete route_doc.Model.Enums.ScopeKind-discrete
    route_doc.Model.Enums.GoalKind-discrete route_doc.Model.Enums.AddressFamily-discrete
    route_doc.Model.Enums.Transport-discrete route_doc.Model.Enums.BindSemantics-discrete
    route_doc.Model.Enums.CheckLifecycle-discrete route_doc.Model.Enums.CheckVerdict-discrete
    route_doc.Model.Enums.ObservationKind-discrete route_doc.Model.Enums.TcpResult-discrete
    route_doc.Model.Enums.CertificateVerificationResult-discrete
    route_doc.Model.Enums.OwnershipResult-discrete route_doc.Model.Enums.TrustSource-discrete
    route_doc.Model.Enums.EvidenceKind-discrete route_doc.Model.Enums.ClaimLevel-discrete
    route_doc.Model.Enums.FindingKind-discrete route_doc.Model.Enums.Selection-discrete
    route_doc.Model.Enums.ClaimStatementCode-discrete
    route_doc.Model.Enums.FindingTitleCode-discrete route_doc.Model.Enums.LimitationCode-discrete
    route_doc.Model.Enums.LimitationScopeKind-discrete
    route_doc.Model.Enums.VisibilitySubjectKind-discrete
    route_doc.Model.Enums.VisibilityLevel-discrete native.Mathlib.Decide.ℕ_discrete
evaluated_ok = refl

evaluate-IsEvaluation_example : IsEvaluation (connection_refused ∷ []) refused_run 3 evaluated_run
evaluate-IsEvaluation_example =
    evaluate-IsEvaluation (connection_refused ∷ []) refused_run 3 evaluated_run evaluated_ok
