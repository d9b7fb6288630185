-- ===== src/Validation/Findings.antt =====
-- `validateFindingRefs`, `containsBranch` and `branchEdgeCount` of
-- internal/model/validate_evaluated.go, and its loop over the findings.
pub mod Positions
use route_doc.Common.{
  ℕ, zero, suc, ◌+◌, ◌-◌, ℤ, Bool, true, false, not, ◌&&◌, ◌||◌, List, [], ◌∷◌, ◌++◌, Option, none,
  some, Text, codes, Table, lookup, contains, get_elem?, count, length, leb, ltb, any, ◌==◌,
  eq_number, eq_text, if◌then◌else◌,
}
use route_doc.Model.Ids.{BranchId, RuleId}
use route_doc.Model.Issues.{ValidationCode, ValidationIssue}
use route_doc.Model.Claims.{Claim, Finding, PathPosition}
use route_doc.Model.Paths.{Branch}
use route_doc.Model.Runs.{EvaluatedRun}
use route_doc.Model.Enums.{
  ClaimLevel, Selection, eq_claim_level, eq_selection, finding_kind_valid, finding_title_code_valid,
  claim_level_valid, selection_valid,
}
use route_doc.Ids.{finding_prefix}
use route_doc.Ids.Kinds.{finding_id_valid}
use route_doc.Selection.Leaf.{branch_edge_count}
use route_doc.Validation.Shared.{issue_if, indexed, each, each_seen}
use route_doc.Validation.Claims.{generated_id}

unfoldable pub has_branch : List Branch → BranchId → Bool
has_branch bs id = any (λ b. b.branch_id == id) bs

-- `int(p.Position)`: a number of 64 bits whose first bit is set becomes negative.
unfoldable pub int_of : ℕ → ℤ
int_of p = if ltb p 0x8000000000000000 then ℤ.pos p else ℤ.negsuc (0xffffffffffffffff - p)

-- `n >= count`, where the count is not negative
unfoldable pub int_at_least : ℤ → ℕ → Bool
int_at_least (ℤ.pos n) count = leb count n
int_at_least (ℤ.negsuc n) count = false

-- The test on one position of a finding.
unfoldable pub bad_position : List Branch → PathPosition → Bool
unfolding has_branch int_of int_at_least
bad_position bs p =
    not (has_branch bs p.branch_id)
    || int_at_least (int_of p.position) (branch_edge_count bs p.branch_id)

-- The round of the loop over the claims of a finding.
unfoldable pub finding_claim_issues :
    List Claim → Table ℕ → Finding → ℕ → ℕ → Text → List ValidationIssue
unfolding issue_if indexed
finding_claim_issues claims by f index i id =
    let p = indexed (codes "/findings/") index in
    let q = indexed (p ++ codes "/claim_ids/") i in
    elim (lookup id by) [
      | none ↦ issue_if true ValidationCode.reference_missing q (codes "claim missing")
      | some ci ↦ elim (get_elem? claims ci) [
        | none ↦ []
        | some c ↦
            issue_if (not (c.rule_id == f.rule_id)) ValidationCode.finding_rule_mismatch q
              (codes "finding claim has a different rule")
            ++ issue_if
                ((c.level == ClaimLevel.suspected)
                  && (not (f.selection == Selection.none)
                      && not (f.selection == Selection.additional)))
                ValidationCode.finding_invalid_global_primary (p ++ codes "/selection")
                (codes "suspected claim cannot support selected confirmed finding")
      ]
    ]

unfoldable pub validate_finding_refs : EvaluatedRun → Table ℕ → ℕ → Finding → List ValidationIssue
unfolding issue_if indexed each each_seen bad_position finding_claim_issues
validate_finding_refs r by index f =
    let bs = r.evidence.service_path.branches in
    let p = indexed (codes "/findings/") index in
    each_seen (λ id. id)
      (λ seen i id.
        let q = indexed (p ++ codes "/branch_ids/") i in
        issue_if (contains seen id) ValidationCode.duplicate_id q (codes "duplicate branch")
        ++ issue_if (not (has_branch bs id)) ValidationCode.reference_missing q
            (codes "branch missing"))
      [] 0 f.branch_ids
    ++ each
        (λ i pos.
          issue_if (bad_position bs pos) ValidationCode.invalid_value
            (indexed (p ++ codes "/path_positions/") i) (codes "invalid branch position"))
        0 f.path_positions
    ++ each (λ i id. finding_claim_issues r.claims by f index i id) 0 f.claim_ids

-- The two issues about the rule of a claim or a finding; `rules[id] != 1` counts the listed rules.
unfoldable pub rule_issues :
    List RuleId → RuleId → ValidationCode → Text → Text → Text → List ValidationIssue
unfolding issue_if
rule_issues rules [] required p missing unlisted = issue_if true required p missing
rule_issues rules (b ∷ s) required p missing unlisted =
    issue_if (not (count (λ x. x == (b ∷ s)) rules == 1)) ValidationCode.unlisted_provenance p
      unlisted

-- The round of the loop over the findings; `seen` is the keys of `findingByID`.
unfoldable pub finding_issues :
    EvaluatedRun → Table ℕ → List Text → ℕ → Finding → List ValidationIssue
unfolding issue_if indexed generated_id rule_issues validate_finding_refs
finding_issues r by seen i f =
    let p = indexed (codes "/findings/") i in
    issue_if (not (finding_id_valid f.finding_id)) ValidationCode.invalid_generated_sequence
      (p ++ codes "/finding_id") (codes "invalid generated finding ID")
    ++ issue_if (contains seen f.finding_id) ValidationCode.duplicate_id (p ++ codes "/finding_id")
        (codes "duplicate finding ID")
    ++ issue_if (not (f.finding_id == generated_id finding_prefix (i + 1)))
        ValidationCode.invalid_generated_sequence (p ++ codes "/finding_id")
        (codes "finding IDs must be sequential")
    ++ issue_if (not (finding_kind_valid f.kind)) ValidationCode.unknown_enum_value
        (p ++ codes "/kind") (codes "unknown finding kind")
    ++ issue_if (not (finding_title_code_valid f.title_code)) ValidationCode.unknown_union_kind
        (p ++ codes "/title_code") (codes "unknown finding title")
    ++ issue_if (not (claim_level_valid f.level)) ValidationCode.unknown_enum_value
        (p ++ codes "/level") (codes "unknown finding level")
    ++ rule_issues r.evaluation.ordered_rule_ids f.rule_id ValidationCode.finding_rule_required
        (p ++ codes "/rule_id") (codes "finding rule is required")
        (codes "finding rule is not listed exactly once")
    ++ issue_if (length f.claim_ids == 0) ValidationCode.finding_claim_required
        (p ++ codes "/claim_ids") (codes "finding must cite a claim")
    ++ issue_if (not (selection_valid f.selection)) ValidationCode.unknown_enum_value
        (p ++ codes "/selection") (codes "unknown selection")
    ++ issue_if ((f.selection == Selection.global_primary) && (f.level == ClaimLevel.suspected))
        ValidationCode.finding_invalid_global_primary (p ++ codes "/selection")
        (codes "suspected finding cannot be global primary")
    ++ validate_finding_refs r by i f
