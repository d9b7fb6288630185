-- ===== src/Canonical/Tree.antt =====
-- `canonicalBranches` and `branchIndex` of internal/model/canonicalize.go: branches in rounds, each
-- round those whose parent has been placed before.
use route_doc.Common.{
  ℕ, zero, suc, ◌+◌, Bool, true, false, not, ◌&&◌, List, [], ◌∷◌, ◌++◌, Option, none, some,
  contains, keep, sort, length, leb, text_lt, ◌==◌, eq_text, if◌then◌else◌,
}
use route_doc.Model.Ids.{BranchId}
use route_doc.Model.Paths.{Branch}

-- `b.ParentBranchID == nil || done[*b.ParentBranchID]`
unfoldable pub ready : List BranchId → Branch → Bool
ready done b = elim b.parent_branch_id [ none ↦ true | some p ↦ contains done p ]

unfoldable pub is_candidate : List BranchId → Branch → Bool
is_candidate done b = not (contains done b.branch_id) && ready done b

unfoldable pub less_branch : Branch → Branch → Bool
less_branch a b = text_lt a.branch_id b.branch_id

-- The loop that sets `done` for the candidates of a round.
unfoldable pub mark_done : List BranchId → List Branch → List BranchId
mark_done done [] = done
mark_done done (b ∷ bs) = mark_done (b.branch_id ∷ done) bs

-- The rounds; `none` if the fuel runs out.
unfoldable pub branch_rounds :
    ℕ → List Branch → List BranchId → List Branch → Option (List Branch × Bool)
branch_rounds zero bs done out = if leb (length bs) (length out) then some (out, true) else none
branch_rounds (suc fuel) bs done out =
    let next = sort less_branch (keep (is_candidate done) bs) in
    let rest = branch_rounds fuel bs (mark_done done next) (out ++ next) in
    if leb (length bs) (length out)
    then some (out, true)
    else if leb (length (keep (is_candidate done) bs)) 0
    then some (bs, false)
    else rest

-- `canonicalBranches`; a round places a branch, so that the fuel never runs out.
unfoldable pub canonical_branches : List Branch → List Branch × Bool
canonical_branches bs = elim (branch_rounds (length bs) bs [] []) [
  | none ↦ (bs, false)
  | some result ↦ result
]

index_from : ℕ → List Branch → BranchId → Option ℕ
index_from i [] id = none
index_from i (b ∷ bs) id = if b.branch_id == id then some i else index_from (i + 1) bs id

unfoldable pub branch_index : List Branch → BranchId → ℕ
unfolding index_from
branch_index bs id = elim (index_from 0 bs id) [ none ↦ length bs + 1 | some i ↦ i ]
