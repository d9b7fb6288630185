-- ===== src/Tests/Validating.antt =====
-- The validation at concrete inputs.
use route_doc.Common.{
  ℕ, ◌≡◌, ◌≢◌, ◌↔◌, refl, ap, Option, none, some, [], ◌∷◌, List, codes, true, false, get_elem?, All,
  arith, inr,
}
use route_doc.Model.Runs.{EvaluatedRun}
use route_doc.Model.Claims.{Claim, PathPosition}
use route_doc.Model.Issues.{ValidationCode}
use route_doc.Model.Enums.{ClaimLevel}
use route_doc.Model.Equality.{deep_equal, deep_equal_iff}
use route_doc.Ids.{claim_id, finding_id}
use route_doc.Selection.Apply.{apply}
use route_doc.Canonical.Runs.{canonicalize_evaluated}
use route_doc.Rules.Numbers.{Numbered}
use route_doc.Validation.Shared.{ids_of_all}
use route_doc.Validation.Graph.{Ends}
use route_doc.Validation.Checks.{validate_check_dag, dependencies}
use route_doc.Validation.Checks.Acyclic.{DependenciesKnown, validate_check_dag_iff}
use route_doc.Validation.Support.{index_claims, supporters, claim_graph_has_cycle}
use route_doc.Validation.Support.Justified.{positions_of, claim_graph_has_cycle_iff}
use route_doc.Validation.Grounds.Rests.{Rests}
use route_doc.Validation.Claims.{validate_claim_refs}
use route_doc.Validation.Claims.References.{IsResolved, validate_claim_refs_iff}
use route_doc.Validation.Findings.{has_branch, bad_position}
use route_doc.Validation.Findings.Positions.{bad_position_iff}
use route_doc.Validation.Texts.{TextLibrary}
use route_doc.Validation.Grounds.{validate_claim_graphs}
use route_doc.Validation.Evidence.{
  Validated, accept_or_refuse, accepted, refused, validate_evidence_run,
}
use route_doc.Validation.Evidence.Sound.{IsSoundEvidence, accepted_evidence-IsSoundEvidence}
use route_doc.Validation.Evaluated.{
  order_issues, evaluation_issues, evaluated_issues, validate_persisted_evaluated_run,
  canonicalize_and_validate_evaluated_run,
}
use route_doc.Validation.Evaluated.Parts.{validate_persisted_evaluated_run-returns}
use route_doc.Validation.Evaluated.Fixed.{apply-accepted}
use route_doc.Validation.Evaluated.Absence.{HasAbsenceEvidence, absence_claims-accepted}
use route_doc.Validation.Evaluated.Based.{accepted-Rests}
use route_doc.Canonical.Ordered.{IsOrderedRun}
use route_doc.Validation.Evaluated.Ordered.{accepted-IsOrderedRun}
use route_doc.Validation.Evaluated.Numbers.{accepted-Numbered}
use route_doc.Tests.Complete.{
  ascii, complete_evidence, complete_run, checks, cyclic_checks, absence_claims, second_claim,
  absence_parameters, circular_claims,
}

pub evidence_accepted :
    validate_evidence_run ascii complete_evidence ≡ some (accepted complete_evidence)
unfolding route_doc.Common.is_negative route_doc.Common.any route_doc.Common.all
    route_doc.Common.lookup route_doc.Common.insert route_doc.Common.index_into
    route_doc.Common.same route_doc.Common.text_eq route_doc.Common.starts_with
    route_doc.Common.contains route_doc.Ids.valid_id route_doc.Ids.Kinds.run_id_valid
    route_doc.Ids.Kinds.vantage_id_valid route_doc.Ids.Kinds.edge_id_valid
    route_doc.Ids.Kinds.branch_id_valid route_doc.Ids.Kinds.check_id_valid
    route_doc.Ids.Kinds.execution_id_valid route_doc.Ids.Kinds.observation_id_valid
    route_doc.Ids.Kinds.visibility_id_valid route_doc.Listener.entity_id_valid
    route_doc.Listener.scope_valid route_doc.Listener.result_class route_doc.Listener.result_matches
    route_doc.Listener.observations_by_id route_doc.Listener.namespace_matches_vantage
    route_doc.Listener.vantage_is route_doc.Listener.collect route_doc.Listener.usable
    route_doc.Listener.collect_basis route_doc.Listener.Complete.basis_complete
    route_doc.Listener.Complete.is_listener_assessment route_doc.Listener.Complete.complete_for
    route_doc.Listener.Complete.listener_visibility_complete
    route_doc.Listener.Complete.basis_result_issue route_doc.Listener.Complete.basis_loop_issue
    route_doc.Listener.Complete.basis_issue_code route_doc.Listener.Times.time_sub
    route_doc.Listener.Times.negate route_doc.Listener.Times.duration_le
    route_doc.Listener.Times.time_coherent route_doc.Model.Enums.check_verdict_valid
    route_doc.Model.Enums.CheckVerdict-discrete route_doc.Model.Enums.check_kind_valid
    route_doc.Model.Enums.check_input_kind_valid route_doc.Model.Enums.expected_condition_kind_valid
    route_doc.Model.Enums.observation_kind_valid route_doc.Model.Enums.ObservationKind-discrete
    route_doc.Model.Enums.acquisition_method_valid route_doc.Model.Enums.source_component_valid
    route_doc.Model.Enums.vantage_kind_valid route_doc.Model.Enums.VantageKind-discrete
    route_doc.Model.Enums.vantage_role_valid route_doc.Model.Enums.vantage_establishment_valid
    route_doc.Model.Enums.scope_kind_valid route_doc.Model.Enums.goal_kind_valid
    route_doc.Model.Enums.evidence_kind_valid route_doc.Model.Enums.EvidenceKind-discrete
    route_doc.Model.Enums.visibility_subject_kind_valid
    route_doc.Model.Enums.VisibilitySubjectKind-discrete
    route_doc.Model.Enums.visibility_level_valid route_doc.Model.Enums.VisibilityLevel-discrete
    route_doc.Model.Enums.entity_kind_valid route_doc.Model.Enums.EntityKind-discrete
    route_doc.Model.Enums.path_provenance_valid route_doc.Model.Enums.PathProvenance-discrete
    route_doc.Model.Enums.path_relation_valid route_doc.Model.Enums.address_family_valid
    route_doc.Model.Enums.AddressFamily-discrete route_doc.Model.Enums.transport_valid
    route_doc.Model.Enums.Transport-discrete route_doc.Model.Enums.bind_semantics_valid
    route_doc.Model.Enums.BindSemantics-discrete route_doc.Model.Observations.sensitivity_valid
    route_doc.Utf8.utf8_from route_doc.Utf8.valid_string
    route_doc.Validation.Checks.validate_check_definition
    route_doc.Validation.Checks.validate_check_dag route_doc.Validation.Checks.validate_execution
    route_doc.Validation.Entities.union_entity_count
    route_doc.Validation.Entities.entity_identity_issues
    route_doc.Validation.Entities.validate_entity
    route_doc.Validation.Evidence.canonicalize_and_validate_evidence_run
    route_doc.Validation.Graph.set_mark route_doc.Validation.Observations.observation_needs_vantage
    route_doc.Validation.Observations.payload_count
    route_doc.Validation.Observations.observed_from_issues
    route_doc.Validation.Observations.validate_observation
    route_doc.Validation.Observations.inventory_issues
    route_doc.Validation.Observations.validate_visibility
    route_doc.Validation.Paths.ref_target_count route_doc.Validation.Paths.validate_path
    route_doc.Validation.Payloads.validate_payload route_doc.Validation.Runes.runes_after
    route_doc.Validation.Runes.runes route_doc.Validation.Shapes.validate_target
    route_doc.Validation.Shapes.vantage_identity_count
    route_doc.Validation.Shapes.vantage_identity_issues route_doc.Validation.Shapes.validate_vantage
    route_doc.Validation.Texts.validate_scalar route_doc.Validation.Texts.validate_reason_code
    route_doc.Validation.Texts.validate_display_label route_doc.Validation.Texts.validate_safe_token
    route_doc.Validation.Texts.validate_hostname
evidence_accepted = refl

in_order : deep_equal (canonicalize_evaluated complete_run).0 complete_run ≡ true
unfolding route_doc.Canonical.Compare.evidence_kind_order
    route_doc.Canonical.Compare.less_evidence_ref route_doc.Canonical.Compare.sort_evidence_refs
    route_doc.Canonical.Compare.sort_limitations route_doc.Canonical.Runs.less_by
    route_doc.Canonical.Runs.sort_by route_doc.Canonical.Runs.sort_ids
    route_doc.Canonical.Runs.canonical_vantage route_doc.Canonical.Runs.canonical_edge
    route_doc.Canonical.Runs.canonical_definition route_doc.Canonical.Runs.canonical_execution
    route_doc.Canonical.Runs.canonical_observation route_doc.Canonical.Runs.canonical_assessment
    route_doc.Canonical.Runs.canonical_path route_doc.Canonical.Runs.canonicalize_evidence
    route_doc.Canonical.Runs.canonical_claim route_doc.Canonical.Runs.canonical_finding
    route_doc.Canonical.Runs.canonicalize_evaluated route_doc.Canonical.Tree.ready
    route_doc.Canonical.Tree.is_candidate route_doc.Canonical.Tree.branch_rounds
    route_doc.Canonical.Tree.canonical_branches route_doc.Common.any route_doc.Common.all
    route_doc.Common.keep route_doc.Common.sort route_doc.Common.text_lt
    route_doc.Common.starts_with route_doc.Common.contains route_doc.Decimal.Value.value
    route_doc.Ids.valid_id route_doc.Ids.generated_number route_doc.Ids.compare_uint_ids
    route_doc.Ids.compare_claim_id route_doc.Utf8.utf8_from route_doc.Utf8.valid_string
in_order = (deep_equal_iff (canonicalize_evaluated complete_run).0 complete_run).1 refl

order_quiet : order_issues complete_run ≡ []
unfolding route_doc.Validation.Evaluated.order_issues route_doc.Validation.Shared.issue_if
    route_doc.Canonical.Compare.evidence_kind_order route_doc.Canonical.Compare.less_evidence_ref
    route_doc.Canonical.Compare.sort_evidence_refs route_doc.Canonical.Compare.sort_limitations
    route_doc.Canonical.Runs.less_by route_doc.Canonical.Runs.sort_by
    route_doc.Canonical.Runs.sort_ids route_doc.Canonical.Runs.canonical_vantage
    route_doc.Canonical.Runs.canonical_edge route_doc.Canonical.Runs.canonical_definition
    route_doc.Canonical.Runs.canonical_execution route_doc.Canonical.Runs.canonical_observation
    route_doc.Canonical.Runs.canonical_assessment route_doc.Canonical.Runs.canonical_path
    route_doc.Canonical.Runs.canonicalize_evidence route_doc.Canonical.Runs.canonical_claim
    route_doc.Canonical.Runs.canonical_finding route_doc.Canonical.Runs.canonicalize_evaluated
    route_doc.Canonical.Tree.ready route_doc.Canonical.Tree.is_candidate
    route_doc.Canonical.Tree.branch_rounds route_doc.Canonical.Tree.canonical_branches
    route_doc.Common.any route_doc.Common.all route_doc.Common.keep route_doc.Common.sort
    route_doc.Common.text_lt route_doc.Common.starts_with route_doc.Common.contains
    route_doc.Decimal.Value.value route_doc.Ids.valid_id route_doc.Ids.generated_number
    route_doc.Ids.compare_uint_ids route_doc.Ids.compare_claim_id route_doc.Utf8.utf8_from
    route_doc.Utf8.valid_string
order_quiet = rw in_order refl

accepted_by_parts :
    (lib : TextLibrary) (r : EvaluatedRun)
    → validate_evidence_run lib r.evidence ≡ some (accepted r.evidence)
    → validate_claim_graphs r.claims (index_claims 0 r.claims []) ≡ some []
    → evaluation_issues lib r [] ≡ []
    → validate_persisted_evaluated_run lib r ≡ some (accepted r)
unfolding validate_persisted_evaluated_run evaluated_issues accept_or_refuse
accepted_by_parts lib r a g e =
    rw (a, g, e, validate_persisted_evaluated_run, evaluated_issues) refl

graphs_quiet :
    validate_claim_graphs complete_run.claims (index_claims 0 complete_run.claims []) ≡ some []
unfolding route_doc.Common.any route_doc.Common.lookup route_doc.Common.insert route_doc.Common.same
    route_doc.Common.text_eq route_doc.Model.Enums.EvidenceKind-discrete
    route_doc.Model.Enums.ClaimLevel-discrete route_doc.Validation.Graph.set_mark
    route_doc.Validation.Grounds.validate_claim_graphs route_doc.Validation.Support.index_claims
    route_doc.Validation.Support.claim_graph_has_cycle
graphs_quiet = refl

checks_quiet : evaluation_issues ascii complete_run [] ≡ []
unfolding route_doc.Branches.index_branches route_doc.Branches.parent_ids
    route_doc.Branches.leaf_ids route_doc.Common.climb route_doc.Common.is_negative
    route_doc.Common.any route_doc.Common.all route_doc.Common.lookup route_doc.Common.insert
    route_doc.Common.index_into route_doc.Common.same route_doc.Common.text_eq
    route_doc.Common.starts_with route_doc.Common.contains route_doc.Decimal.digits
    route_doc.Decimal.itoa route_doc.Decimal.Value.value
    route_doc.GlobalPrimary.finding_has_position route_doc.GlobalPrimary.position_for_branch
    route_doc.GlobalPrimary.is_ancestor_of route_doc.GlobalPrimary.is_ancestor_of_all
    route_doc.GlobalPrimary.is_strong_blocker route_doc.GlobalPrimary.proves_global
    route_doc.GlobalPrimary.global_primary_proof route_doc.GlobalPrimary.validate_selection
    route_doc.Ids.valid_id route_doc.Ids.Kinds.vantage_id_valid route_doc.Ids.Kinds.claim_id_valid
    route_doc.Ids.Kinds.finding_id_valid route_doc.Listener.entity_id_valid
    route_doc.Listener.scope_valid route_doc.Listener.result_class route_doc.Listener.result_matches
    route_doc.Listener.observations_by_id route_doc.Listener.namespace_matches_vantage
    route_doc.Listener.vantage_is route_doc.Listener.collect route_doc.Listener.usable
    route_doc.Listener.collect_basis route_doc.Listener.Absence.zero_results
    route_doc.Listener.Absence.has_only_zero_results route_doc.Listener.Absence.tells_of_listener
    route_doc.Listener.Absence.contradicts route_doc.Listener.Absence.outside_scope
    route_doc.Listener.Absence.absence_evidence_valid route_doc.Listener.Absence.is_mismatch
    route_doc.Listener.Absence.absence_evidence_issue_code
    route_doc.Listener.Complete.basis_complete route_doc.Listener.Complete.is_listener_assessment
    route_doc.Listener.Complete.complete_for
    route_doc.Listener.Complete.listener_visibility_complete
    route_doc.Listener.Complete.basis_result_issue route_doc.Listener.Complete.basis_loop_issue
    route_doc.Listener.Complete.basis_issue_code route_doc.Listener.Times.time_sub
    route_doc.Listener.Times.negate route_doc.Listener.Times.duration_le
    route_doc.Listener.Times.time_coherent route_doc.Model.Enums.ObservationKind-discrete
    route_doc.Model.Enums.VantageKind-discrete route_doc.Model.Enums.evidence_kind_valid
    route_doc.Model.Enums.EvidenceKind-discrete route_doc.Model.Enums.claim_level_valid
    route_doc.Model.Enums.ClaimLevel-discrete route_doc.Model.Enums.finding_kind_valid
    route_doc.Model.Enums.FindingKind-discrete route_doc.Model.Enums.selection_valid
    route_doc.Model.Enums.Selection-discrete route_doc.Model.Enums.claim_statement_code_valid
    route_doc.Model.Enums.ClaimStatementCode-discrete route_doc.Model.Enums.finding_title_code_valid
    route_doc.Model.Enums.VisibilitySubjectKind-discrete
    route_doc.Model.Enums.VisibilityLevel-discrete route_doc.Model.Enums.EntityKind-discrete
    route_doc.Model.Enums.address_family_valid route_doc.Model.Enums.AddressFamily-discrete
    route_doc.Model.Enums.transport_valid route_doc.Model.Enums.Transport-discrete
    route_doc.Model.Enums.bind_semantics_valid route_doc.Model.Enums.BindSemantics-discrete
    route_doc.Utf8.utf8_from route_doc.Utf8.valid_string route_doc.Validation.Claims.generated_id
    route_doc.Validation.Claims.parameter_count route_doc.Validation.Claims.bad_parameters
    route_doc.Validation.Claims.validate_claim_parameters route_doc.Validation.Claims.names_none
    route_doc.Validation.Claims.rule_at route_doc.Validation.Evaluated.evaluation_issues
    route_doc.Validation.Findings.has_branch route_doc.Validation.Paths.ref_target_count
    route_doc.Validation.Paths.is_missing route_doc.Validation.Runes.decode_rune
    route_doc.Validation.Runes.runes_after route_doc.Validation.Runes.runes
    route_doc.Validation.Shapes.validate_times route_doc.Validation.Texts.rule_id_valid
    native.Mathlib.Decide.ℕ_discrete route_doc.Selection.Leaf.branch_edge_count
checks_quiet = rw (order_quiet, evaluation_issues) refl

run_accepted : validate_persisted_evaluated_run ascii complete_run ≡ some (accepted complete_run)
run_accepted = accepted_by_parts ascii complete_run evidence_accepted graphs_quiet checks_quiet

cycle_reported :
    validate_check_dag cyclic_checks
    ≡ some (
        record {
          code = ValidationCode.invalid_value;
          pointer = codes "/check_definitions";
          message = codes "dependency cycle";
        }
        ∷ record {
          code = ValidationCode.invalid_value;
          pointer = codes "/check_definitions";
          message = codes "dependency cycle";
        }
        ∷ record {
          code = ValidationCode.invalid_value;
          pointer = codes "/check_definitions";
          message = codes "dependency cycle";
        }
        ∷ [])
unfolding route_doc.Common.any route_doc.Common.lookup route_doc.Common.insert
    route_doc.Common.index_into route_doc.Common.text_eq route_doc.Common.contains
    route_doc.Validation.Checks.validate_check_dag route_doc.Validation.Graph.set_mark
cycle_reported = refl

circle_found : claim_graph_has_cycle circular_claims (positions_of circular_claims) ≡ some true
unfolding route_doc.Common.lookup route_doc.Common.insert route_doc.Common.same
    route_doc.Common.text_eq route_doc.Model.Enums.EvidenceKind-discrete
    route_doc.Validation.Graph.set_mark route_doc.Validation.Support.index_claims
    route_doc.Validation.Support.claim_graph_has_cycle
circle_found = refl

validate_check_dag_iff_example : (validate_check_dag checks ≡ some []) ↔ (
    DependenciesKnown (ids_of_all (λ d. d.check_id) checks) checks
    × All (λ d. Ends (dependencies checks) d.check_id) checks)
validate_check_dag_iff_example = validate_check_dag_iff checks

claim_graph_has_cycle_iff_example :
    ((claim_graph_has_cycle circular_claims (positions_of circular_claims) ≡ some false)
      ↔ ((i : ℕ) → Ends (supporters circular_claims (positions_of circular_claims)) i))
    × ((claim_graph_has_cycle circular_claims (positions_of circular_claims) ≡ some true)
        ↔ (¬ ((i : ℕ) → Ends (supporters circular_claims (positions_of circular_claims)) i)))
    × (claim_graph_has_cycle circular_claims (positions_of circular_claims) ≢ none)
claim_graph_has_cycle_iff_example = claim_graph_has_cycle_iff circular_claims

validate_claim_refs_iff_example :
    (validate_claim_refs complete_run (positions_of absence_claims) 1 second_claim ≡ []) ↔ (
      All
        (IsResolved complete_run (positions_of absence_claims) 1 second_claim.rule_id)
        second_claim.supporting_evidence
      × All
          (IsResolved complete_run (positions_of absence_claims) 1 second_claim.rule_id)
          second_claim.contradicting_evidence)
validate_claim_refs_iff_example =
    validate_claim_refs_iff complete_run (positions_of absence_claims) 1 second_claim

branch_there : has_branch complete_evidence.service_path.branches (codes "branch-1") ≡ true
unfolding has_branch route_doc.Common.any route_doc.Common.text_eq route_doc.Common.same
branch_there = refl

-- The first position that `int` makes negative.
abbrev far_position : PathPosition
far_position = record { branch_id = codes "branch-1"; position = 0x8000000000000000 }

bad_position_iff_example : bad_position complete_evidence.service_path.branches far_position ≡ false
bad_position_iff_example =
    (bad_position_iff complete_evidence.service_path.branches far_position).1
      (branch_there, inr (omega arith))

accepted_evidence-IsSoundEvidence_example : IsSoundEvidence complete_evidence
accepted_evidence-IsSoundEvidence_example =
    accepted_evidence-IsSoundEvidence ascii complete_evidence complete_evidence evidence_accepted

validate_persisted_evaluated_run-returns_example :
    (v : Validated EvaluatedRun) × (validate_persisted_evaluated_run ascii complete_run ≡ some v)
validate_persisted_evaluated_run-returns_example =
    validate_persisted_evaluated_run-returns ascii complete_run

accepted-IsOrderedRun_example : IsOrderedRun complete_run
accepted-IsOrderedRun_example = accepted-IsOrderedRun ascii complete_run complete_run run_accepted

apply-accepted_example : (apply complete_run).1 ≡ []
apply-accepted_example =
    apply-accepted ascii complete_run complete_run run_accepted ((omega arith, tt), tt)

absence_claims-accepted_example :
    (second_claim.level ≡ ClaimLevel.inferred)
    × (absence_parameters.port ≡ complete_evidence.target.effective_port)
    × HasAbsenceEvidence complete_evidence absence_parameters
absence_claims-accepted_example =
    absence_claims-accepted ascii complete_run complete_run run_accepted 1 second_claim
      absence_parameters refl refl refl

accepted-Rests_example :
    ((i : ℕ) → Ends (supporters absence_claims (positions_of absence_claims)) i)
    × ((i : ℕ) (c : Claim)
        → get_elem? absence_claims i ≡ some c
        → c.supporting_evidence ≢ []
        → Rests absence_claims (positions_of absence_claims) i)
accepted-Rests_example = accepted-Rests ascii complete_run complete_run run_accepted

accepted-Numbered_example :
    Numbered (λ c. c.claim_id) claim_id 1 complete_run.claims
    × Numbered (λ f. f.finding_id) finding_id 1 complete_run.findings
accepted-Numbered_example = accepted-Numbered ascii complete_run complete_run run_accepted
