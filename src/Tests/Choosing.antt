-- ===== src/Tests/Choosing.antt =====
-- The branch tree and the selection of findings at concrete inputs.
use route_doc.Common.{arith, ◌≡◌, ◌≢◌, ◌↔◌, refl, [], ◌∷◌, some, true, contains, any, text_eq, All}
use route_doc.Model.Ids.{BranchId}
use route_doc.Branches.{leaf_ids, parent_ids, parent_in, index_branches}
use route_doc.GlobalPrimary.{validate_selection, global_primary_proof}
use route_doc.GlobalPrimary.Proof.{global_primary_proof_iff, IsStrongBlocker, Covers}
use route_doc.Selection.Leaf.{
  leaf_candidates, select_leaf, same_at, attachment, finding_branch_position,
}
use route_doc.Selection.Apply.{apply}
use route_doc.Selection.Issues.{apply-quiet}
use route_doc.Selection.Leaf.{branch_edge_count}
use route_doc.Selection.Marks.{unselected_all}
use route_doc.Selection.Invariant.{IsEligible}
use route_doc.Selection.Laws.{validate_selection-apply, apply_keeps, apply_selects_strong}
use route_doc.Selection.Nearest.{select_leaf_primaries, IsLeast}
use route_doc.Selection.Marked.{IsPrimaryIn}
use route_doc.Selection.Primaries.{Distinct}
use route_doc.Selection.Attachment.{finding_branch_position_iff}
use route_doc.Common.{Exists, Nearest, climb, exhausted, is_at, keys, length, suc}
use route_doc.Model.Enums.{Selection}
use route_doc.Tests.Samples.{root, left, right, tree, cyclic_tree, on_root, run}

leaves_of_tree : leaf_ids tree ≡ left ∷ right ∷ []
unfolding leaf_ids parent_ids contains any text_eq
leaves_of_tree = refl

global_primary_proof_iff_example :
    ((global_primary_proof on_root tree ≡ true) ↔ (
      IsStrongBlocker on_root
      × (leaf_ids tree ≢ [])
      × ((candidate : BranchId) × (contains on_root.branch_ids candidate ≡ true)
          × Covers on_root tree candidate)))
    × ((candidate leaf : BranchId)
        → climb
            (parent_in (index_branches tree))
            (is_at candidate)
            (suc (length (keys (index_branches tree))))
            []
            leaf
          ≢ exhausted)
global_primary_proof_iff_example = global_primary_proof_iff on_root tree

validate_selection-apply_example : validate_selection (apply run).0 ≡ []
validate_selection-apply_example = validate_selection-apply run

apply_keeps_example :
    (unselected_all (apply run).0.findings ≡ unselected_all run.findings)
    × ((apply run).0.evidence ≡ run.evidence)
    × ((apply run).0.evaluation ≡ run.evaluation)
    × ((apply run).0.claims ≡ run.claims)
apply_keeps_example = apply_keeps run

apply_selects_strong_example :
    All (λ f. f.selection ≢ Selection.none → IsEligible f) (apply run).0.findings
apply_selects_strong_example = apply_selects_strong run

select_leaf_primaries_example :
    ((leaf_candidates tree left 0 run.findings).0 ≢ []
      → (select_leaf tree [] left run.findings).1 ≢ [])
    × All
        (λ c. Exists (λ d. d ≡ c) (leaf_candidates tree left 0 run.findings).0)
        (select_leaf tree [] left run.findings).1
    × All
        (IsLeast (leaf_candidates tree left 0 run.findings).0)
        (select_leaf tree [] left run.findings).1
    × Distinct (same_at run.findings []) (select_leaf tree [] left run.findings).1
    × All
        (IsPrimaryIn (select_leaf tree [] left run.findings).0)
        (select_leaf tree [] left run.findings).1
select_leaf_primaries_example = select_leaf_primaries tree [] left run.findings

finding_branch_position_iff_example :
    ((finding_branch_position on_root left (index_branches cyclic_tree) ≡ some (root, 0))
      ↔ Nearest (parent_in (index_branches cyclic_tree)) (attachment on_root) (root, 0) left)
    × (climb
          (parent_in (index_branches cyclic_tree))
          (attachment on_root)
          (suc (length (keys (index_branches cyclic_tree))))
          []
          left
        ≢ exhausted)
finding_branch_position_iff_example =
    finding_branch_position_iff on_root left (index_branches cyclic_tree) (root, 0)

apply-quiet_example : (apply run).1 ≡ []
unfolding branch_edge_count contains any text_eq
apply-quiet_example = apply-quiet run ((omega arith, tt), ((omega arith, tt), tt))
