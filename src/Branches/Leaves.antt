-- ===== src/Branches/Leaves.antt =====
-- What `leaf_ids` computes, without reference to the set of parents that it builds.
use route_doc.Common.{
  ◌≡◌, ◌≢◌, ◌↔◌, refl, sym, true, false, List, [], ◌∷◌, some, inl, inr, arith, text_eq, text_eq_iff,
  text_eq_sound, contains, any, All, Bool-cases, Option-cases, map, ap, ◌∙◌,
}
use route_doc.Model.Ids.{BranchId}
use route_doc.Model.Paths.{Branch}
use route_doc.Branches.{parent_ids, leaves_among, leaf_ids}

abbrev pub ids_of : List Branch → List BranchId
ids_of bs = map (λ b. b.branch_id) bs

-- No branch of the list names `l` as its parent.
abbrev pub IsChildless : BranchId → List Branch → Type 0
IsChildless l bs = All (λ b. b.parent_branch_id ≢ some l) bs

pub parent_ids-IsChildless :
    (l : BranchId) (bs : List Branch) → (contains (parent_ids bs) l ≡ false) ↔ IsChildless l bs
unfolding parent_ids contains any
parent_ids-IsChildless l [] = (λ h. tt, λ h. refl)
parent_ids-IsChildless l (b ∷ bs) =
    let rest = parent_ids-IsChildless l bs in
    elim (Option-cases b.parent_branch_id) [
      | inl e ↦
          (λ h. (ground arith, rest.0 (ground arith)), λ h. let k = rest.1 h.1 in ground arith)
      | inr (p, e) ↦ (
        λ h. (λ k. ground (arith, text_eq_iff p l), rest.0 (ground arith)),
        λ h. let k = rest.1 h.1 in ground (arith, text_eq_iff p l, h.0),
      )
    ]

leaves_among_iff :
    (l : BranchId) (parents : List BranchId) (bs : List Branch)
    → (contains (leaves_among parents bs) l ≡ true)
      ↔ ((contains (ids_of bs) l ≡ true) × (contains parents l ≡ false))
unfolding leaves_among contains any
leaves_among_iff l parents [] = (λ h. cc, λ h. cc (h.0))
leaves_among_iff l parents (b ∷ bs) =
    let rest = leaves_among_iff l parents bs in
    elim (Bool-cases (text_eq b.branch_id l)) [
      | inl e ↦
          let same = text_eq_sound b.branch_id l e in
          let alike : contains parents b.branch_id ≡ contains parents l =
            ap (contains parents) same in
          elim (Bool-cases (contains parents b.branch_id)) [
            | inl p ↦ (
              λ h. absurd (let k = rest.0 (ground arith) in cc (k.1, alike, p)),
              λ h. absurd (cc (h.1, alike, p)),
            )
            | inr p ↦ (λ h. (ground arith, sym alike ∙ p), λ h. ground arith)
          ]
      | inr e ↦ elim (Bool-cases (contains parents b.branch_id)) [
        | inl p ↦ (
          λ h. let k = rest.0 (ground arith) in (ground arith, k.1),
          λ h. let k = rest.1 (ground arith, h.1) in ground arith,
        )
        | inr p ↦ (
          λ h. let k = rest.0 (ground arith) in (ground arith, k.1),
          λ h. let k = rest.1 (ground arith, h.1) in ground arith,
        )
      ]
    ]

-- A leaf is the ID of a branch that no branch names as its parent.
pub leaf_ids_iff :
    (l : BranchId) (bs : List Branch)
    → (contains (leaf_ids bs) l ≡ true) ↔ ((contains (ids_of bs) l ≡ true) × IsChildless l bs)
unfolding leaf_ids
leaf_ids_iff l bs =
    let iff = leaves_among_iff l (parent_ids bs) bs in
    let free = parent_ids-IsChildless l bs in
    (λ h. ((iff.0 h).0, free.0 (iff.0 h).1), λ h. iff.1 (h.0, free.1 h.1))
