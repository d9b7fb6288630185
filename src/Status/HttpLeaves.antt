-- ===== src/Status/HttpLeaves.antt =====
-- The leaves that `leafBranches` of internal/clientprobe/status.go collects, in terms of the branches
-- alone.
use route_doc.Common.{
  ◌≡◌, ◌≢◌, ◌↔◌, true, false, List, [], ◌∷◌, inl, inr, arith, contains, contains-nil,
  contains_first, any, text_eq, text_eq_iff, Exists, now, later, Bool-cases, ==_iff, ap, refl, sym,
}
use mathlib.Core.Path.{subst}
use route_doc.Model.Ids.{BranchId}
use route_doc.Model.Paths.{Branch}
use route_doc.Model.Enums.{GoalKind, eq_goal_kind}
use route_doc.Branches.{parent_ids}
use route_doc.Branches.Leaves.{IsChildless, parent_ids-IsChildless}
use route_doc.Status.{leaves_for_http, leaf_branches}

-- A branch of the list has the identifier and should answer over HTTP, and no branch names it as its
-- parent.
abbrev pub IsHttpLeaf : List Branch → BranchId → Type 0
IsHttpLeaf bs leaf =
    Exists (λ b. (b.branch_id ≡ leaf) × (b.goal ≡ GoalKind.http_response)) bs × IsChildless leaf bs

leaves_for_http_iff :
    (leaf : BranchId) (children : List BranchId) (bs : List Branch)
    → (contains (leaves_for_http children bs) leaf ≡ true) ↔ (
        Exists (λ b. (b.branch_id ≡ leaf) × (b.goal ≡ GoalKind.http_response)) bs
        × (contains children leaf ≡ false))
unfolding leaves_for_http contains any
leaves_for_http_iff leaf children [] = (λ h. cc, λ (x, y). elim x [ ])
leaves_for_http_iff leaf children (b ∷ bs) =
    let rest = leaves_for_http_iff leaf children bs in
    let same = text_eq_iff b.branch_id leaf in
    let goal = ==_iff b.goal GoalKind.http_response in
    (
      λ h. elim (Bool-cases (contains (leaves_for_http children bs) leaf)) [
        | inl r ↦ let (x, y) = rest.0 r in (later x, y)
        | inr r ↦
            let alike : text_eq b.branch_id leaf ≡ true = ground arith in
            let i = same.0 alike in
            let free : contains children b.branch_id ≡ false = ground arith in
            (now (i, goal.0 (ground arith)), subst (λ x. contains children x ≡ false) i free)
      ],
      λ (x, y). elim x [
        | now (i, g) ↦
            let free : contains children b.branch_id ≡ false =
              subst (λ x. contains children x ≡ false) (sym i) y in
            let here = same.1 i in let asks = goal.1 g in ground arith
        | later z ↦ let k = rest.1 (z, y) in ground arith
      ],
    )

pub leaf_branches_iff :
    (bs : List Branch) (leaf : BranchId)
    → (contains (leaf_branches bs) leaf ≡ true) ↔ IsHttpLeaf bs leaf
unfolding leaf_branches
leaf_branches_iff bs leaf =
    let iff = leaves_for_http_iff leaf (parent_ids bs) bs in
    let free = parent_ids-IsChildless leaf bs in
    (λ h. let (x, y) = iff.0 h in (x, free.0 y), λ (x, y). iff.1 (x, free.1 y))

-- There is a leaf that should answer over HTTP unless the list is empty.
pub leaf_branches_ne_nil :
    (bs : List Branch) → (leaf_branches bs ≢ []) ↔ ((leaf : BranchId) × IsHttpLeaf bs leaf)
leaf_branches_ne_nil bs = (
  λ n. some_leaf (leaf_branches bs) n refl,
  λ (leaf, h) e.
      cc ((leaf_branches_iff bs leaf).1 h, ap (λ x. contains x leaf) e, contains-nil leaf),
)
  where
    some_leaf :
        (ls : List BranchId)
        → ls ≢ []
        → ls ≡ leaf_branches bs
        → (leaf : BranchId) × IsHttpLeaf bs leaf
    some_leaf [] n e = absurd (n refl)
    some_leaf (l ∷ ls) n e =
        (l, (leaf_branches_iff bs l).0 (subst (λ x. contains x l ≡ true) e (contains_first l ls)))
