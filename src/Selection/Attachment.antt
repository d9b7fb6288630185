-- ===== src/Selection/Attachment.antt =====
-- What the walk of `findingBranchPosition` finds.
use route_doc.Common.{
  ◌≡◌, ◌↔◌, [], Option, none, some, Table, keys, suc, length, climb, hit, top, cycle, exhausted,
  Walk, Nearest, climb_iff, climb_total, ◌≢◌, ℕ,
}
use route_doc.Model.Ids.{BranchId}
use route_doc.Model.Paths.{Branch}
use route_doc.Model.Claims.{Finding}
use route_doc.Branches.{parent_in, parent_in-keys}
use route_doc.Selection.Leaf.{attachment, finding_branch_position}

abbrev hit_of : Walk (BranchId × ℕ) → Option (BranchId × ℕ)
hit_of (hit a) = some a
hit_of top = none
hit_of cycle = none
hit_of exhausted = none

hit_of_iff : (w : Walk (BranchId × ℕ)) (a : BranchId × ℕ) → (hit_of w ≡ some a) ↔ (w ≡ hit a)
hit_of_iff (hit b) a = (λ h. cc, λ h. cc)
hit_of_iff top a = (λ h. cc, λ h. cc)
hit_of_iff cycle a = (λ h. cc, λ h. cc)
hit_of_iff exhausted a = (λ h. cc, λ h. cc)

Nearest-iff :
    (f : Finding) (leaf : BranchId) (branches : Table Branch) (a : BranchId × ℕ)
    → (finding_branch_position f leaf branches ≡ some a)
      ↔ Nearest (parent_in branches) (attachment f) a leaf
unfolding finding_branch_position
Nearest-iff f leaf branches a =
    let walk = climb (parent_in branches) (attachment f) (suc (length (keys branches))) [] leaf in
    let iff = hit_of_iff walk a in
    let near =
      climb_iff (parent_in branches) (attachment f) (keys branches) (parent_in-keys branches) leaf
        a in
    (λ h. near.0 (iff.0 h), λ r. iff.1 (near.1 r))

-- `findingBranchPosition` returns exactly the branch and position at which the nearest branch on the
-- way up from a leaf carries the finding: the leaf itself comes first, and cyclic or missing parents
-- are included. Its walk never runs out of fuel.
pub finding_branch_position_iff :
    (f : Finding) (leaf : BranchId) (branches : Table Branch) (a : BranchId × ℕ)
    → ((finding_branch_position f leaf branches ≡ some a)
        ↔ Nearest (parent_in branches) (attachment f) a leaf)
      × (climb (parent_in branches) (attachment f) (suc (length (keys branches))) [] leaf
          ≢ exhausted)
finding_branch_position_iff f leaf branches a = (
  Nearest-iff f leaf branches a,
  climb_total (parent_in branches) (attachment f) (keys branches) (parent_in-keys branches) leaf,
)
