-- ===== src/Tests/Reporting.antt =====
-- The status of a report at concrete inputs.
use route_doc.Common.{
  arith, ◌≡◌, ◌≢◌, ◌↔◌, refl, [], ◌∷◌, true, false, contains, any, text_eq, Exists,
}
use route_doc.Common.{now, later}
use route_doc.Model.Ids.{BranchId}
use route_doc.Selection.Apply.{apply}
use route_doc.Status.Explained.{IsSilent, status-apply}
use route_doc.Status.Answers.{Answers}
use route_doc.Status.HttpLeaves.{IsHttpLeaf}
use route_doc.Branches.{index_branches}
use route_doc.Status.{ReportStatus, status, leaf_branches, reaches_http, is_run_partial, covered}
use route_doc.Status.Verdict.{status_satisfied_iff, status_blocked_iff, IsBlockedLeaf, IsRunPartial}
use route_doc.Model.Enums.{Selection}
use route_doc.Tests.Samples.{left, tree, run}

status_satisfied_iff_example :
    (status run ≡ ReportStatus.satisfied)
    ↔ ((leaf : BranchId) × IsHttpLeaf tree leaf × Answers run.evidence leaf)
status_satisfied_iff_example = status_satisfied_iff run

status_blocked_iff_example : (status run ≡ ReportStatus.blocked) ↔ (
    ((leaf : BranchId) × IsHttpLeaf tree leaf)
    × (¬ (Exists IsRunPartial run.evidence.limitations))
    × ((leaf : BranchId) → IsHttpLeaf tree leaf → IsBlockedLeaf run leaf))
status_blocked_iff_example = status_blocked_iff run

-- The finding on the root branch explains both leaves.
run_is_blocked : status (apply run).0 ≡ ReportStatus.blocked
unfolding route_doc.Common.same route_doc.Common.any route_doc.Common.all route_doc.Common.keep
    route_doc.Common.insert_sorted route_doc.Common.sort route_doc.Common.Text-discrete
    route_doc.Common.text_eq route_doc.Common.text_lt route_doc.Common.starts_with
    route_doc.Common.contains route_doc.Common.lookup route_doc.Common.insert
    route_doc.Common.index_into route_doc.Common.keys route_doc.Common.climb
    route_doc.Branches.index_branches route_doc.Branches.parent_ids route_doc.Branches.leaf_ids
    route_doc.Branches.parent_in route_doc.GlobalPrimary.finding_has_position
    route_doc.GlobalPrimary.position_for_branch route_doc.GlobalPrimary.is_ancestor_of
    route_doc.GlobalPrimary.is_ancestor_of_all route_doc.GlobalPrimary.is_strong_blocker
    route_doc.GlobalPrimary.proves_global route_doc.GlobalPrimary.global_primary_proof
    route_doc.GlobalPrimary.validate_selection route_doc.Selection.Statements.claim_by_id
    route_doc.Selection.Statements.same_claim_proposition
    route_doc.Selection.Statements.same_statement route_doc.Selection.Statements.less_finding
    route_doc.Selection.Leaf.contains_branch route_doc.Selection.Leaf.position
    route_doc.Selection.Leaf.attachment route_doc.Selection.Leaf.finding_branch_position
    route_doc.Selection.Leaf.branch_edge_count route_doc.Selection.Leaf.outside_branch
    route_doc.Selection.Leaf.leaf_candidates route_doc.Selection.Leaf.min_pos
    route_doc.Selection.Leaf.mark route_doc.Selection.Leaf.test_at route_doc.Selection.Leaf.less_at
    route_doc.Selection.Leaf.same_at route_doc.Selection.Leaf.observed_at
    route_doc.Selection.Leaf.select_loop route_doc.Selection.Leaf.nearest_candidates
    route_doc.Selection.Leaf.select_leaf route_doc.Selection.Apply.reset
    route_doc.Selection.Apply.leaves_loop route_doc.Selection.Apply.global_candidates
    route_doc.Selection.Apply.less_global route_doc.Selection.Apply.mark_all
    route_doc.Selection.Apply.mark_global route_doc.Selection.Apply.apply
    route_doc.Status.leaf_branches route_doc.Status.parent_is route_doc.Status.is_ancestor
    route_doc.Status.check_kinds route_doc.Status.is_verified route_doc.Status.is_http_response
    route_doc.Status.scan_execution route_doc.Status.scan_executions route_doc.Status.passes
    route_doc.Status.is_run_partial route_doc.Status.covered_from route_doc.Status.covered_by
    route_doc.Status.covered route_doc.Status.reaches_http route_doc.Status.status
    route_doc.Model.Enums.VantageKind-discrete route_doc.Model.Enums.EntityKind-discrete
    route_doc.Model.Enums.ScopeKind-discrete route_doc.Model.Enums.GoalKind-discrete
    route_doc.Model.Enums.AddressFamily-discrete route_doc.Model.Enums.Transport-discrete
    route_doc.Model.Enums.BindSemantics-discrete route_doc.Model.Enums.CheckLifecycle-discrete
    route_doc.Model.Enums.CheckVerdict-discrete route_doc.Model.Enums.ObservationKind-discrete
    route_doc.Model.Enums.TcpResult-discrete
    route_doc.Model.Enums.CertificateVerificationResult-discrete
    route_doc.Model.Enums.OwnershipResult-discrete route_doc.Model.Enums.TrustSource-discrete
    route_doc.Model.Enums.EvidenceKind-discrete route_doc.Model.Enums.ClaimLevel-discrete
    route_doc.Model.Enums.FindingKind-discrete route_doc.Model.Enums.Selection-discrete
    route_doc.Model.Enums.ClaimStatementCode-discrete
    route_doc.Model.Enums.FindingTitleCode-discrete route_doc.Model.Enums.LimitationCode-discrete
    route_doc.Model.Enums.LimitationScopeKind-discrete
    route_doc.Model.Enums.VisibilitySubjectKind-discrete
    route_doc.Model.Enums.VisibilityLevel-discrete native.Mathlib.Decide.ℕ_discrete
    route_doc.Ids.compare_finding_id route_doc.Ids.compare_uint_ids route_doc.Ids.generated_number
    route_doc.Ids.valid_id route_doc.Utf8.valid_string route_doc.Utf8.utf8_from
    route_doc.Decimal.Value.value
run_is_blocked = refl

left_is_leaf : IsHttpLeaf tree left
left_is_leaf =
    (later (now (refl, refl)), (λ e. ground arith, (λ e. ground arith, (λ e. ground arith, tt))))

global_chosen : Exists (λ f. f.selection ≡ Selection.global_primary) (apply run).0.findings
unfolding route_doc.Common.same route_doc.Common.any route_doc.Common.all route_doc.Common.keep
    route_doc.Common.insert_sorted route_doc.Common.sort route_doc.Common.Text-discrete
    route_doc.Common.text_eq route_doc.Common.text_lt route_doc.Common.starts_with
    route_doc.Common.contains route_doc.Common.lookup route_doc.Common.insert
    route_doc.Common.index_into route_doc.Common.keys route_doc.Common.climb
    route_doc.Branches.index_branches route_doc.Branches.parent_ids route_doc.Branches.leaf_ids
    route_doc.Branches.parent_in route_doc.GlobalPrimary.finding_has_position
    route_doc.GlobalPrimary.position_for_branch route_doc.GlobalPrimary.is_ancestor_of
    route_doc.GlobalPrimary.is_ancestor_of_all route_doc.GlobalPrimary.is_strong_blocker
    route_doc.GlobalPrimary.proves_global route_doc.GlobalPrimary.global_primary_proof
    route_doc.GlobalPrimary.validate_selection route_doc.Selection.Statements.claim_by_id
    route_doc.Selection.Statements.same_claim_proposition
    route_doc.Selection.Statements.same_statement route_doc.Selection.Statements.less_finding
    route_doc.Selection.Leaf.contains_branch route_doc.Selection.Leaf.position
    route_doc.Selection.Leaf.attachment route_doc.Selection.Leaf.finding_branch_position
    route_doc.Selection.Leaf.branch_edge_count route_doc.Selection.Leaf.outside_branch
    route_doc.Selection.Leaf.leaf_candidates route_doc.Selection.Leaf.min_pos
    route_doc.Selection.Leaf.mark route_doc.Selection.Leaf.test_at route_doc.Selection.Leaf.less_at
    route_doc.Selection.Leaf.same_at route_doc.Selection.Leaf.observed_at
    route_doc.Selection.Leaf.select_loop route_doc.Selection.Leaf.nearest_candidates
    route_doc.Selection.Leaf.select_leaf route_doc.Selection.Apply.reset
    route_doc.Selection.Apply.leaves_loop route_doc.Selection.Apply.global_candidates
    route_doc.Selection.Apply.less_global route_doc.Selection.Apply.mark_all
    route_doc.Selection.Apply.mark_global route_doc.Selection.Apply.apply
    route_doc.Model.Enums.VantageKind-discrete route_doc.Model.Enums.EntityKind-discrete
    route_doc.Model.Enums.ScopeKind-discrete route_doc.Model.Enums.GoalKind-discrete
    route_doc.Model.Enums.AddressFamily-discrete route_doc.Model.Enums.Transport-discrete
    route_doc.Model.Enums.BindSemantics-discrete route_doc.Model.Enums.CheckLifecycle-discrete
    route_doc.Model.Enums.CheckVerdict-discrete route_doc.Model.Enums.ObservationKind-discrete
    route_doc.Model.Enums.TcpResult-discrete
    route_doc.Model.Enums.CertificateVerificationResult-discrete
    route_doc.Model.Enums.OwnershipResult-discrete route_doc.Model.Enums.TrustSource-discrete
    route_doc.Model.Enums.EvidenceKind-discrete route_doc.Model.Enums.ClaimLevel-discrete
    route_doc.Model.Enums.FindingKind-discrete route_doc.Model.Enums.Selection-discrete
    route_doc.Model.Enums.ClaimStatementCode-discrete
    route_doc.Model.Enums.FindingTitleCode-discrete route_doc.Model.Enums.LimitationCode-discrete
    route_doc.Model.Enums.LimitationScopeKind-discrete
    route_doc.Model.Enums.VisibilitySubjectKind-discrete
    route_doc.Model.Enums.VisibilityLevel-discrete native.Mathlib.Decide.ℕ_discrete
    route_doc.Ids.compare_finding_id route_doc.Ids.compare_uint_ids route_doc.Ids.generated_number
    route_doc.Ids.valid_id route_doc.Utf8.valid_string route_doc.Utf8.utf8_from
    route_doc.Decimal.Value.value
global_chosen = later (now refl)

no_execution : (leaf : BranchId) → IsHttpLeaf tree leaf → IsSilent run leaf
no_execution leaf l = record { silent = λ (a, b). elim a [ ]; finished = λ c. elim c [ ] }

status-apply_example : status (apply run).0 ≡ ReportStatus.blocked
status-apply_example =
    status-apply run (left, left_is_leaf) (λ l. elim l [ ]) no_execution global_chosen
