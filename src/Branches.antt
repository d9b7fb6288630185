-- ===== src/Branches.antt =====
-- The tree of branches of a service path: the maps `byID` and `children` and the list of leaves that
-- `GlobalPrimaryProof` (internal/model/validate_selection.go) and `selection.Apply`
-- (internal/selection/selection.go) build, and the parent that their walks follow.
pub mod Leaves
use route_doc.Common.{
  ◌≡◌, Bool, true, List, [], ◌∷◌, Option, none, some, Text, Table, index_into, lookup, contains,
  contains-keys, keys, Option-cases, inl, inr, arith, false,
}
use route_doc.Model.Ids.{BranchId}
use route_doc.Model.Paths.{Branch}

-- `byID[b.BranchID] = b` over all branches: the last of several branches with one ID stays.
unfoldable pub index_branches : List Branch → Table Branch
index_branches bs = index_into (λ b. b.branch_id) bs []

-- The keys of `children`: every parent that a branch names.
unfoldable pub parent_ids : List Branch → List BranchId
parent_ids [] = []
parent_ids (b ∷ bs) = elim b.parent_branch_id [ none ↦ parent_ids bs | some p ↦ p ∷ parent_ids bs ]

leaves_among : List BranchId → List Branch → List BranchId
leaves_among parents [] = []
leaves_among parents (b ∷ bs) = elim (contains parents b.branch_id) [
  | true ↦ leaves_among parents bs
  | false ↦ b.branch_id ∷ leaves_among parents bs
]

-- The IDs of the branches that no branch names as its parent, in the order of the branches.
unfoldable pub leaf_ids : List Branch → List BranchId
unfolding leaves_among
leaf_ids bs = leaves_among (parent_ids bs) bs

-- `b, ok := byID[c]`, and its parent if it has one.
unfoldable pub parent_in : Table Branch → BranchId → Option BranchId
parent_in by_id c = elim (lookup c by_id) [ none ↦ none | some b ↦ b.parent_branch_id ]

-- A branch with a parent is in the table, so a walk over the table is bounded by its keys.
pub parent_in-keys :
    (by_id : Table Branch) (c p : BranchId)
    → parent_in by_id c ≡ some p
    → contains (keys by_id) c ≡ true
unfolding parent_in
parent_in-keys by_id c p h = elim (Option-cases (lookup c by_id)) [
  | inl e ↦ absurd (ground arith)
  | inr (b, e) ↦ contains-keys c by_id b e
]
