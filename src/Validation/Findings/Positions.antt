-- ===== src/Validation/Findings/Positions.antt =====
-- Which positions `validateFindingRefs` of internal/model/validate_evaluated.go lets pass.
use route_doc.Common.{
  ℕ, ◌≡◌, refl, ◌<◌, ◌≤◌, ◌⊎◌, inl, inr, ◌↔◌, true, false, List, ltb, leb, arith, Bool-cases,
}
use route_doc.Model.Claims.{PathPosition}
use route_doc.Model.Paths.{Branch}
use route_doc.Selection.Leaf.{branch_edge_count}
use route_doc.Validation.Findings.{has_branch, int_of, int_at_least, bad_position}

-- Which positions fail `int(p.Position) >= count`.
int_at_least_iff :
    (p count : ℕ)
    → (int_at_least (int_of p) count ≡ false) ↔ ((p < count) ⊎ (0x8000000000000000 ≤ p))
unfolding int_of int_at_least
int_at_least_iff p count = elim (Bool-cases (ltb p 0x8000000000000000)) [
  | inl k ↦ rw k (
    (λ (h : leb count p ≡ false). inl (ground arith)),
    (λ h. elim h [ inl l ↦ ground arith | inr l ↦ absurd (ground arith) ]),
  )
  | inr k ↦ rw k ((λ h. inr (ground arith)), (λ h. refl))
]

-- The test on a position of a finding passes exactly when its branch exists and the position is
-- below the number of edges of the branch, or is 2^63 or more.
pub bad_position_iff :
    (bs : List Branch) (p : PathPosition)
    → (bad_position bs p ≡ false) ↔ (
        (has_branch bs p.branch_id ≡ true)
        × ((p.position < branch_edge_count bs p.branch_id) ⊎ (0x8000000000000000 ≤ p.position)))
unfolding bad_position
bad_position_iff bs p =
    let (to, from) = int_at_least_iff p.position (branch_edge_count bs p.branch_id) in
    elim (Bool-cases (has_branch bs p.branch_id)) [
      | inl k ↦ rw k ((λ h. (refl, to h)), (λ (e, h). from h))
      | inr k ↦ rw k ((λ h. ground arith), (λ (e, h). ground arith))
    ]
