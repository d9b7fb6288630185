-- ===== src/Selection/Issues.antt =====
-- When `Apply` of internal/selection/selection.go reports no issue.
use route_doc.Common.{
  ℕ, zero, suc, ◌+◌, ◌<◌, ◌≡◌, inl, inr, refl, false, List, [], ◌∷◌, some, arith, All, Bool-cases,
  Option-cases, leb, ◌==◌, ==_iff, eq_text, sort, text_lt, Nearest, found, up, Table,
}
use mathlib.Core.Path.{subst}
use route_doc.Model.Ids.{BranchId}
use route_doc.Model.Paths.{Branch}
use route_doc.Model.Claims.{Finding, Claim, PathPosition}
use route_doc.Model.Runs.{EvaluatedRun}
use route_doc.Model.Enums.{Selection}
use route_doc.Branches.{index_branches, parent_in, leaf_ids}
use route_doc.GlobalPrimary.{is_strong_blocker}
use route_doc.Selection.Leaf.{
  Candidate, mark, position, attachment, finding_branch_position, branch_edge_count,
  contains_branch, leaf_candidates, nearest_candidates, select_leaf,
}
use route_doc.Selection.Apply.{reset, leaves_loop, apply}
use route_doc.Selection.Invariant.{select_loop-keeps}
use route_doc.Selection.Attachment.{finding_branch_position_iff}

-- Every position of the finding is below the number of edges of its branch.
abbrev pub IsInRange : List Branch → Finding → Type 0
IsInRange bs f = All (λ p. p.position < branch_edge_count bs p.branch_id) f.path_positions

module _ (bs : List Branch) where
  first_in_range :
      (ps : List PathPosition) (f : Finding) (c : BranchId) (pos : ℕ)
      → All (λ p. p.position < branch_edge_count bs p.branch_id) ps
      → position (record f { path_positions = ps }) c ≡ some pos
      → pos < branch_edge_count bs c
  unfolding position
  first_in_range [] f c pos h e = absurd (ground arith)
  first_in_range (p ∷ ps) f c pos (h, hs) e =
      let same = ==_iff p.branch_id c in
      elim (Bool-cases (p.branch_id == c)) [
        | inl k ↦
            subst (λ b. pos < branch_edge_count bs b) (same.0 k)
              (subst (λ n. n < branch_edge_count bs p.branch_id) (ground arith) h)
        | inr k ↦ first_in_range ps f c pos hs (ground arith)
      ]

  attachment_in_range :
      (f : Finding) (c a : BranchId) (pos : ℕ)
      → IsInRange bs f
      → attachment f c ≡ some (a, pos)
      → pos < branch_edge_count bs a
  unfolding attachment
  attachment_in_range f c a pos h e = elim (Bool-cases (contains_branch f.branch_ids c)) [
    | inr k ↦ absurd (ground arith)
    | inl k ↦ elim (Option-cases (position f c)) [
      | inl n ↦ absurd (ground arith)
      | inr (q, n) ↦
          let same_branch : c ≡ a = ground arith in
          let same_pos : q ≡ pos = ground arith in
          subst (λ b. pos < branch_edge_count bs b) same_branch
            (subst (λ m. m < branch_edge_count bs c) same_pos
              (first_in_range f.path_positions f c q h n))
    ]
  ]

  Nearest-in_range :
      (f : Finding) (a : BranchId) (pos : ℕ) (by_id : Table Branch) (c : BranchId)
      → IsInRange bs f
      → Nearest (parent_in by_id) (attachment f) (a, pos) c
      → pos < branch_edge_count bs a
  Nearest-in_range f a pos by_id c h (found e) = attachment_in_range f c a pos h e
  Nearest-in_range f a pos by_id c h (up e n r) = Nearest-in_range f a pos by_id _ h r

  leaf_candidates-quiet :
      (leaf : BranchId) (i : ℕ) (fs : List Finding)
      → All (IsInRange bs) fs
      → (leaf_candidates bs leaf i fs).1 ≡ []
  unfolding leaf_candidates
  leaf_candidates-quiet leaf i [] h = refl
  leaf_candidates-quiet leaf i (f ∷ fs) (h, hs) =
      let rest = leaf_candidates-quiet leaf (i + 1) fs hs in
      elim (Bool-cases (is_strong_blocker f)) [
        | inr e ↦ rw (e, leaf_candidates) rest
        | inl e ↦ elim (Option-cases (finding_branch_position f leaf (index_branches bs))) [
          | inl n ↦ rw (e, n, leaf_candidates) rest
          | inr (a, n) ↦
              let near = (finding_branch_position_iff f leaf (index_branches bs) a).0.0 n in
              let below : a.1 < branch_edge_count bs a.0 =
                Nearest-in_range f a.0 a.1 (index_branches bs) leaf h near in
              let fits : leb (branch_edge_count bs a.0) a.1 ≡ false = ground arith in
              rw (e, n, fits, leaf_candidates) rest
        ]
      ]

  mark-IsInRange :
      (fs : List Finding) (i : ℕ) (s : Selection)
      → All (IsInRange bs) fs
      → All (IsInRange bs) (mark fs i s)
  unfolding mark
  mark-IsInRange [] i s h = tt
  mark-IsInRange (f ∷ fs) zero s h = h
  mark-IsInRange (f ∷ fs) (suc i) s (h, hs) = (h, mark-IsInRange fs i s hs)

  reset-IsInRange : (fs : List Finding) → All (IsInRange bs) fs → All (IsInRange bs) (reset fs)
  unfolding reset
  reset-IsInRange [] h = tt
  reset-IsInRange (f ∷ fs) (h, hs) = (h, reset-IsInRange fs hs)

  any_candidates : (cs : List Candidate) → All (λ c. Unit {0}) cs
  any_candidates [] = tt
  any_candidates (c ∷ cs) = (tt, any_candidates cs)

  select_leaf-IsInRange :
      (claims : List Claim) (leaf : BranchId) (fs : List Finding)
      → All (IsInRange bs) fs
      → All (IsInRange bs) (select_leaf bs claims leaf fs).0
  unfolding select_leaf
  select_leaf-IsInRange claims leaf fs h =
      let near = nearest_candidates fs (leaf_candidates bs leaf 0 fs).0 in
      select_loop-keeps (All (IsInRange bs)) (λ c. Unit {0})
        (λ gs c s g n k. mark-IsInRange gs c.index s k) claims near near fs [] (any_candidates near)
        h

  leaves_loop-quiet :
      (claims : List Claim) (leaves : List BranchId) (fs : List Finding)
      → All (IsInRange bs) fs
      → (leaves_loop bs claims leaves fs []).1 ≡ []
  unfolding leaves_loop select_leaf
  leaves_loop-quiet claims [] fs h = refl
  leaves_loop-quiet claims (leaf ∷ leaves) fs h =
      rw (leaf_candidates-quiet leaf 0 fs h, leaves_loop)
        (leaves_loop-quiet claims leaves _ (select_leaf-IsInRange claims leaf fs h))

-- The selection reports no issue for a run in which every position of a finding is below the
-- number of edges of its branch.
pub apply-quiet :
    (r : EvaluatedRun)
    → All (IsInRange r.evidence.service_path.branches) r.findings
    → (apply r).1 ≡ []
unfolding apply
apply-quiet r h =
    let bs = r.evidence.service_path.branches in
    leaves_loop-quiet bs r.claims (sort text_lt (leaf_ids bs)) (reset r.findings)
      (reset-IsInRange bs r.findings h)
