-- ===== src/Tests/Concluding.antt =====
-- The registry of internal/rules/default_registry.go on evidence of an empty inventory, for a local
-- diagnosis, at concrete inputs.
use route_doc.Common.{
  ◌≡◌, ◌↔◌, refl, true, false, [], ◌∷◌, List, none, some, codes, ℕ, Text, Option, Exists, All,
}
use route_doc.Model.Entities.{Addr}
use route_doc.Model.Visibility.{ListenerVisibilityScope}
use route_doc.Model.Claims.{Claim, Finding}
use route_doc.Model.Runs.{EvaluatedRun}
use route_doc.Model.Enums.{
  ClaimStatementCode, ClaimLevel, FindingKind, FindingTitleCode, Selection, EvidenceKind, Transport,
  AddressFamily, BindSemantics,
}
use route_doc.Rules.Evaluate.{Evaluated, evaluate}
use route_doc.Rules.Coverage.{has_compatible_listener}
use route_doc.Rules.Listener.{absence_candidate, no_matching_listener_visible}
use route_doc.Rules.Coverage.Covers.{Covers, has_compatible_listener_iff}
use route_doc.Rules.Listener.Returned.{Concludes, no_matching_listener_iff}
use route_doc.Rules.Default.{default_registry}
use route_doc.Rules.Default.Absence.{evaluate-absence_accepted}
use route_doc.Rules.Default.HandsOver.{evaluate-hands_over}
use route_doc.Rules.Default.Unselected.{evaluate-absence_unselected}
use route_doc.Validation.AbsenceClaims.{validate_listener_absence_claim}
use route_doc.Tests.Listening.{assessment, namespace_id}
use route_doc.Tests.Complete.{
  ascii, complete_evidence, sample_claim, seen_inventory, complete_inventory,
}
use route_doc.Tests.Validating.{evidence_accepted}

-- No host name of these tests spells an address.
abbrev no_address : Text → Option Addr
no_address s = none

abbrev scope : ListenerVisibilityScope
scope = record {
  namespace_entity_id = namespace_id;
  protocol = Transport.tcp;
  address_family = AddressFamily.ipv4;
  bind_semantics = BindSemantics.wildcard;
  port_start = 8080;
  port_end = 8080;
  process_ownership_required = false;
}

abbrev concluded_claim : Claim
concluded_claim =
    record (sample_claim (codes "claim-000001") (complete_inventory ∷ seen_inventory ∷ [])) {
      branch_ids = [];
      rule_id = codes "listener.no_matching_listener_visible/v1";
    }

abbrev concluded_finding : Finding
concluded_finding = record {
  finding_id = codes "finding-000001";
  kind = FindingKind.blocker;
  title_code = FindingTitleCode.no_matching_listener_visible;
  level = ClaimLevel.inferred;
  branch_ids = [];
  path_positions = [];
  claim_ids = codes "claim-000001" ∷ [];
  rule_id = codes "listener.no_matching_listener_visible/v1";
  limitations = [];
  suggested_experiments = codes "inspect the listener in the matching namespace" ∷ [];
  selection = Selection.none;
}

abbrev concluded : EvaluatedRun
concluded = record {
  evidence = complete_evidence;
  evaluation = record {
    evaluated_at = 130;
    ordered_rule_ids =
        codes "listener.no_matching_listener_visible/v1"
        ∷ codes "tcp.connection_refused/v1"
        ∷ codes "tls.certificate_hostname_mismatch/v1"
        ∷ [];
  };
  claims = concluded_claim ∷ [];
  findings = concluded_finding ∷ [];
}

-- The empty inventory gives a claim and a finding, which stands on no branch.
concludes :
    evaluate (default_registry no_address) complete_evidence 130 ≡ Evaluated.handed_over concluded
unfolding route_doc.Rules.Coverage.endpoint_address route_doc.Rules.Listener.is_visibility_ref
    route_doc.Rules.Listener.absence_candidate route_doc.Rules.Listener.no_matching_listener_visible
    route_doc.Rules.Default.default_registry route_doc.Listener.Absence.zero_results
    route_doc.Listener.Absence.has_only_zero_results route_doc.Listener.Absence.tells_of_listener
    route_doc.Listener.Absence.contradicts route_doc.Listener.Absence.outside_scope
    route_doc.Listener.Absence.absence_evidence_valid route_doc.Rules.Tls.verification_of
    route_doc.Rules.Tls.mismatch_at route_doc.Rules.Tls.mismatch_rounds
    route_doc.Rules.Tls.hostname_mismatch route_doc.Listener.entity_id_valid
    route_doc.Listener.scope_valid route_doc.Listener.result_class route_doc.Listener.result_matches
    route_doc.Listener.observations_by_id route_doc.Listener.namespace_matches_vantage
    route_doc.Listener.vantage_is route_doc.Listener.collect route_doc.Listener.usable
    route_doc.Listener.collect_basis route_doc.Listener.Times.time_sub
    route_doc.Listener.Times.negate route_doc.Listener.Times.duration_le
    route_doc.Listener.Times.time_coherent route_doc.Listener.Complete.basis_complete
    route_doc.Listener.Complete.is_listener_assessment route_doc.Listener.Complete.complete_for
    route_doc.Listener.Complete.listener_visibility_complete route_doc.Common.same
    route_doc.Common.any route_doc.Common.all route_doc.Common.sort route_doc.Common.text_eq
    route_doc.Common.text_lt route_doc.Common.starts_with route_doc.Common.contains
    route_doc.Common.lookup route_doc.Common.insert route_doc.Common.index_into
    route_doc.Common.climb route_doc.Common.is_negative route_doc.Branches.index_branches
    route_doc.Branches.parent_ids route_doc.Branches.leaf_ids route_doc.Branches.parent_in
    route_doc.GlobalPrimary.is_strong_blocker route_doc.GlobalPrimary.global_primary_proof
    route_doc.Selection.Leaf.contains_branch route_doc.Selection.Leaf.attachment
    route_doc.Selection.Leaf.finding_branch_position route_doc.Selection.Leaf.leaf_candidates
    route_doc.Selection.Leaf.select_loop route_doc.Selection.Leaf.nearest_candidates
    route_doc.Selection.Leaf.select_leaf route_doc.Selection.Apply.reset
    route_doc.Selection.Apply.leaves_loop route_doc.Selection.Apply.global_candidates
    route_doc.Selection.Apply.mark_global route_doc.Selection.Apply.apply
    route_doc.Rules.Templates.valid_candidate_key route_doc.Rules.Templates.local_id
    route_doc.Rules.Templates.evidence_from_template route_doc.Rules.Positions.positions_of
    route_doc.Rules.Positions.edge_positions route_doc.Rules.Positions.branch_positions
    route_doc.Rules.Positions.positions_for route_doc.Rules.Positions.branches_for
    route_doc.Rules.Tcp.tcp_with route_doc.Rules.Tcp.refused_at route_doc.Rules.Tcp.refused_rounds
    route_doc.Rules.Tcp.connection_refused route_doc.Rules.Registry.less_rule
    route_doc.Rules.Registry.rule_ids route_doc.Rules.Compile.collect_raw
    route_doc.Rules.Compile.collect_candidates route_doc.Rules.Compile.forward_issues
    route_doc.Rules.Compile.claim_from route_doc.Rules.Compile.add_claim
    route_doc.Rules.Compile.key_taken route_doc.Rules.Compile.make_claims
    route_doc.Rules.Compile.make_all_claims route_doc.Rules.Compile.missing_issues
    route_doc.Rules.Compile.add_finding route_doc.Rules.Compile.make_findings
    route_doc.Rules.Compile.make_all_findings route_doc.Rules.Evaluate.exact_version
    route_doc.Rules.Evaluate.claims_made route_doc.Rules.Evaluate.findings_made
    route_doc.Rules.Evaluate.select_or_reject route_doc.Rules.Evaluate.compiled
    route_doc.Rules.Evaluate.evaluate route_doc.Ids.valid_id route_doc.Ids.claim_id
    route_doc.Ids.finding_id route_doc.Utf8.utf8_from route_doc.Utf8.valid_string
    route_doc.Decimal.digits route_doc.Decimal.itoa route_doc.Model.Enums.VantageKind-discrete
    route_doc.Model.Enums.EntityKind-discrete route_doc.Model.Enums.ScopeKind-discrete
    route_doc.Model.Enums.AddressFamily-discrete route_doc.Model.Enums.Transport-discrete
    route_doc.Model.Enums.BindSemantics-discrete route_doc.Model.Enums.ObservationKind-discrete
    route_doc.Model.Enums.EvidenceKind-discrete route_doc.Model.Enums.ClaimLevel-discrete
    route_doc.Model.Enums.FindingKind-discrete route_doc.Model.Enums.VisibilitySubjectKind-discrete
    route_doc.Model.Enums.VisibilityLevel-discrete route_doc.Model.Enums.address_family_valid
    route_doc.Model.Enums.transport_valid route_doc.Model.Enums.bind_semantics_valid
concludes = refl

evaluate-absence_accepted_example :
    All
      (λ c.
        c.statement_code ≡ ClaimStatementCode.no_matching_listener_visible
        → (i : ℕ) → validate_listener_absence_claim concluded i c ≡ [])
      concluded.claims
evaluate-absence_accepted_example =
    evaluate-absence_accepted no_address ascii complete_evidence complete_evidence 130 concluded
      evidence_accepted concludes

evaluate-absence_unselected_example :
    All
      (λ f.
        f.title_code ≡ FindingTitleCode.no_matching_listener_visible
        → (f.branch_ids ≡ []) × (f.selection ≡ Selection.none))
      concluded.findings
evaluate-absence_unselected_example =
    evaluate-absence_unselected no_address ascii complete_evidence complete_evidence 130 concluded
      evidence_accepted concludes

evaluate-hands_over_example :
    (e : EvaluatedRun) × (evaluate (default_registry no_address) complete_evidence 130
      ≡ Evaluated.handed_over e)
unfolding route_doc.Rules.Evaluate.exact_version
evaluate-hands_over_example =
    evaluate-hands_over no_address ascii complete_evidence complete_evidence 130 evidence_accepted
      refl

no_matching_listener_iff_example :
    Exists
      (λ d. absence_candidate complete_evidence assessment scope ≡ d)
      ((no_matching_listener_visible no_address).evaluate complete_evidence)
    ↔ Exists
        (Concludes no_address complete_evidence
          (absence_candidate complete_evidence assessment scope))
        complete_evidence.visibility_assessments
no_matching_listener_iff_example =
    no_matching_listener_iff no_address complete_evidence
      (absence_candidate complete_evidence assessment scope)

has_compatible_listener_iff_example :
    (has_compatible_listener no_address complete_evidence scope ≡ true)
    ↔ Exists (Covers no_address complete_evidence scope) complete_evidence.observations
has_compatible_listener_iff_example = has_compatible_listener_iff no_address complete_evidence scope
