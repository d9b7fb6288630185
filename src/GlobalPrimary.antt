-- ===== src/GlobalPrimary.antt =====
-- internal/model/validate_selection.go: which finding may be the primary one of the whole run.
pub mod Proof
pub mod Validation
use route_doc.Common.{
  ℕ, suc, ◌+◌, Bool, true, false, not, ◌&&◌, ◌||◌, List, [], ◌∷◌, ◌++◌, Option, none, some, Text,
  codes, Table, lookup, keys, climb, is_hit, is_at, any, all, length, leb, ltb, ◌==◌, eq_text,
  if◌then◌else◌,
}
use route_doc.Model.Ids.{BranchId}
use route_doc.Model.Paths.{Branch}
use route_doc.Model.Claims.{Finding, PathPosition}
use route_doc.Model.Runs.{EvaluatedRun}
use route_doc.Model.Issues.{ValidationCode, ValidationIssue}
use route_doc.Model.Enums.{
  FindingKind, ClaimLevel, Selection, eq_finding_kind, eq_claim_level, eq_selection,
}
use route_doc.Branches.{index_branches, leaf_ids, parent_in}
use route_doc.Decimal.{itoa}

unfoldable pub finding_has_position : Finding → BranchId → Bool
finding_has_position f id = any (λ p. p.branch_id == id) f.path_positions

first_position : List PathPosition → BranchId → ℕ
first_position [] id = 0
first_position (p ∷ ps) id = if p.branch_id == id then p.position else first_position ps id

unfoldable pub position_for_branch : Finding → BranchId → ℕ
unfolding first_position
position_for_branch f id = first_position f.path_positions id

-- The inner loop of `isAncestorOfAll`: from `leaf` up to `candidate`. A cycle and a top that is not
-- `candidate` both refuse; the fuel never runs out.
unfoldable pub is_ancestor_of : BranchId → Table Branch → BranchId → Bool
is_ancestor_of candidate by_id leaf =
    is_hit (climb (parent_in by_id) (is_at candidate) (suc (length (keys by_id))) [] leaf)

unfoldable pub is_ancestor_of_all : BranchId → List BranchId → Table Branch → Bool
is_ancestor_of_all candidate leaves by_id = all (is_ancestor_of candidate by_id) leaves

-- `f.Kind != FindingBlocker || (f.Level != ClaimLevelObserved && f.Level != ClaimLevelInferred)`
-- is the negation; `selection.Apply` and `clientprobe.Status` make the same test.
unfoldable pub is_strong_blocker : Finding → Bool
is_strong_blocker f =
    (f.kind == FindingKind.blocker)
    && ((f.level == ClaimLevel.observed) || (f.level == ClaimLevel.inferred))

-- One round of the loop over `f.BranchIDs`.
unfoldable pub proves_global : Finding → Table Branch → List BranchId → BranchId → Bool
proves_global f by_id leaves candidate = elim (lookup candidate by_id) [
  | none ↦ false
  | some b ↦
      finding_has_position f candidate
      && (is_ancestor_of_all candidate leaves by_id
          && not (leb (length b.ordered_edge_ids) (position_for_branch f candidate)))
]

unfoldable pub global_primary_proof : Finding → List Branch → Bool
global_primary_proof f bs =
    let leaves = leaf_ids bs in
    if not (is_strong_blocker f)
    then false
    else if leb (length leaves) 0
    then false
    else any (proves_global f (index_branches bs) leaves) f.branch_ids

global_missing : ℕ → ValidationIssue
global_missing i = record {
  code = ValidationCode.finding_invalid_global_primary;
  pointer = codes "/findings/" ++ (itoa i ++ codes "/selection");
  message = codes "global primary lacks a pre-split proof for every leaf branch";
}

many_globals : ValidationIssue
many_globals = record {
  code = ValidationCode.finding_invalid_global_primary;
  pointer = codes "/findings";
  message = codes "multiple global primary findings";
}

-- The loop over the findings from index `i`, with the issues so far and the count `global`.
global_loop : List Branch → ℕ → List Finding → ℕ → List ValidationIssue → List ValidationIssue × ℕ
unfolding global_missing
global_loop bs i [] global is = (is, global)
global_loop bs i (f ∷ fs) global is = elim (f.selection == Selection.global_primary) [
  | false ↦ global_loop bs (i + 1) fs global is
  | true ↦
      global_loop bs (i + 1) fs (global + 1)
        (if global_primary_proof f bs then is else is ++ global_missing i ∷ [])
]

unfoldable pub validate_selection : EvaluatedRun → List ValidationIssue
unfolding global_loop many_globals
validate_selection r =
    let (is, global) = global_loop r.evidence.service_path.branches 0 r.findings 0 [] in
    if ltb 1 global then is ++ many_globals ∷ [] else is
