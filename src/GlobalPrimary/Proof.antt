-- ===== src/GlobalPrimary/Proof.antt =====
-- What a positive answer of `global_primary_proof` means, in terms of the branch tree alone.
use route_doc.Common.{
  is_hit_iff, ◌<◌, ◌≡◌, ◌≢◌, ◌↔◌, ◌⊎◌, true, List, [], some, inl, inr, arith, lookup, keys,
  contains, Reaches, climb-Reaches, all-contains, any-contains, Option-cases, length, ==_iff, climb,
  is_at, suc, Table, exhausted, climb_total,
}
use route_doc.Model.Ids.{BranchId}
use route_doc.Model.Paths.{Branch}
use route_doc.Model.Claims.{Finding}
use route_doc.Model.Enums.{FindingKind, ClaimLevel, eq_finding_kind, eq_claim_level}
use route_doc.Branches.{index_branches, leaf_ids, parent_in, parent_in-keys}
use route_doc.GlobalPrimary.{
  finding_has_position, position_for_branch, is_ancestor_of, is_ancestor_of_all, is_strong_blocker,
  proves_global, global_primary_proof,
}

-- The inner loop of `isAncestorOfAll` answers whether `candidate` is `leaf` or above it, for any
-- parents, cyclic ones and missing ones included.
pub is_ancestor_of_iff :
    (candidate leaf : BranchId) (by_id : Table Branch)
    → (is_ancestor_of candidate by_id leaf ≡ true) ↔ Reaches (parent_in by_id) candidate leaf
unfolding is_ancestor_of
is_ancestor_of_iff candidate leaf by_id =
    let walk = climb (parent_in by_id) (is_at candidate) (suc (length (keys by_id))) [] leaf in
    let iff = is_hit_iff walk in
    let reach =
      climb-Reaches (parent_in by_id) (keys by_id) (parent_in-keys by_id) candidate leaf in
    (λ h. reach.0 (iff.0 h), λ r. iff.1 (reach.1 r))

abbrev pub IsStrongBlocker : Finding → Type 0
IsStrongBlocker f =
    (f.kind ≡ FindingKind.blocker)
    × ((f.level ≡ ClaimLevel.observed) ⊎ (f.level ≡ ClaimLevel.inferred))

pub is_strong_blocker_iff : (f : Finding) → (is_strong_blocker f ≡ true) ↔ IsStrongBlocker f
unfolding is_strong_blocker
is_strong_blocker_iff f =
    let k = ==_iff f.kind FindingKind.blocker in
    let o = ==_iff f.level ClaimLevel.observed in
    let i = ==_iff f.level ClaimLevel.inferred in ground arith

-- `candidate` is a branch on which the finding has a valid position and from which every leaf hangs.
pub record Covers (f : Finding) (bs : List Branch) (candidate : BranchId) : Type 0 where
  pub branch : Branch
  pub known : lookup candidate (index_branches bs) ≡ some branch
  pub positioned : finding_has_position f candidate ≡ true
  pub in_range : position_for_branch f candidate < length branch.ordered_edge_ids
  pub above_leaves :
      (leaf : BranchId)
      → contains (leaf_ids bs) leaf ≡ true
      → Reaches (parent_in (index_branches bs)) candidate leaf

above_leaves_iff :
    (candidate : BranchId) (leaves : List BranchId) (by_id : Table Branch)
    → (is_ancestor_of_all candidate leaves by_id ≡ true)
      ↔ ((leaf : BranchId) → contains leaves leaf ≡ true → Reaches (parent_in by_id) candidate leaf)
unfolding is_ancestor_of_all
above_leaves_iff candidate leaves by_id =
    let iff = all-contains (is_ancestor_of candidate by_id) leaves in
    (
      λ h leaf k. (is_ancestor_of_iff candidate leaf by_id).0 (iff.0 h leaf k),
      λ h. iff.1 (λ leaf k. (is_ancestor_of_iff candidate leaf by_id).1 (h leaf k)),
    )

proves_global_iff :
    (f : Finding) (bs : List Branch) (candidate : BranchId)
    → (proves_global f (index_branches bs) (leaf_ids bs) candidate ≡ true) ↔ Covers f bs candidate
unfolding proves_global
proves_global_iff f bs candidate =
    let above = above_leaves_iff candidate (leaf_ids bs) (index_branches bs) in
    (
      λ h. elim (Option-cases (lookup candidate (index_branches bs))) [
        | inl e ↦ absurd (ground arith)
        | inr (b, e) ↦ record {
          branch = b;
          known = e;
          positioned = ground arith;
          in_range = ground arith;
          above_leaves = above.0 (ground arith);
        }
      ],
      λ c.
          let e = c.known in
          let k = above.1 c.above_leaves in
          let p = c.positioned in let r = c.in_range in ground arith,
    )

proof_iff :
    (f : Finding) (bs : List Branch)
    → (global_primary_proof f bs ≡ true) ↔ (
        IsStrongBlocker f
        × (leaf_ids bs ≢ [])
        × ((candidate : BranchId) × (contains f.branch_ids candidate ≡ true)
            × Covers f bs candidate))
unfolding global_primary_proof
proof_iff f bs =
    let strong = is_strong_blocker_iff f in
    let some_branch =
      any-contains (proves_global f (index_branches bs) (leaf_ids bs)) f.branch_ids in
    (
      λ h.
          let (c, k, p) = some_branch.0 (ground arith) in
          (strong.0 (ground arith), ground arith, (c, k, (proves_global_iff f bs c).0 p)),
      λ (s, n, (c, k, p)).
          let e = strong.1 s in
          let a = some_branch.1 (c, k, (proves_global_iff f bs c).1 p) in ground arith,
    )

-- A finding may be the primary one of the run exactly when it is a blocker that is observed or
-- inferred, the branches have a leaf, and one of the finding's branches carries it at a valid
-- position and is every leaf or above it. Cyclic and missing parents are included: no walk from a
-- leaf up to a branch runs out of fuel.
pub global_primary_proof_iff :
    (f : Finding) (bs : List Branch)
    → ((global_primary_proof f bs ≡ true) ↔ (
        IsStrongBlocker f
        × (leaf_ids bs ≢ [])
        × ((candidate : BranchId) × (contains f.branch_ids candidate ≡ true)
            × Covers f bs candidate)))
      × ((candidate leaf : BranchId)
          → climb
              (parent_in (index_branches bs))
              (is_at candidate)
              (suc (length (keys (index_branches bs))))
              []
              leaf
            ≢ exhausted)
global_primary_proof_iff f bs =
    let by_id = index_branches bs in
    (
      proof_iff f bs,
      λ candidate leaf.
          climb_total (parent_in by_id) (is_at candidate) (keys by_id) (parent_in-keys by_id) leaf,
    )
