-- ===== src/Selection/Invariant.antt =====
-- What a round for one leaf keeps, and that its candidates are strong blockers on a branch.
use mathlib.Core.Path.{subst}
use route_doc.Common.{
  ℕ, suc, ◌+◌, ◌≡◌, ◌≢◌, inl, inr, refl, sym, ◌∙◌, true, List, [], ◌∷◌, arith, All, All-keep,
  All-sort, any, not, ◌&&◌, leb, Bool-cases, Option-cases, ◌==◌, eq_number, eq_text, ◌++◌, none,
  Table, Nearest, found, up,
}
use route_doc.Model.Ids.{BranchId}
use route_doc.Model.Paths.{Branch}
use route_doc.Model.Claims.{Finding, Claim}
use route_doc.Model.Enums.{Selection}
use route_doc.Branches.{index_branches, parent_in}
use route_doc.GlobalPrimary.{is_strong_blocker}
use route_doc.Selection.Leaf.{
  Candidate, mark, attachment, contains_branch, leaf_candidates, finding_branch_position,
  branch_edge_count, same_at, observed_at, select_loop, nearest_candidates, less_at, min_pos,
}
use route_doc.Selection.Marks.{unselected, At}
use route_doc.Selection.Attachment.{finding_branch_position_iff}

-- The finding is a blocker that is observed or inferred, on some branch.
abbrev pub IsEligible : Finding → Type 0
IsEligible f = (is_strong_blocker f ≡ true) × (f.branch_ids ≢ [])

-- The finding at a candidate's index is eligible.
abbrev pub EligibleAt : List Finding → Candidate → Type 0
EligibleAt fs c = At (λ f. IsEligible (unselected f)) fs c.index

strong-unselected : (f : Finding) → is_strong_blocker f ≡ is_strong_blocker (unselected f)
unfolding is_strong_blocker
strong-unselected f = refl

attachment_none : (f : Finding) (c : BranchId) → f.branch_ids ≡ [] → attachment f c ≡ none
unfolding attachment contains_branch any
attachment_none f c h = rw (h, attachment, contains_branch, any) refl

Nearest-placed :
    (by_id : Table Branch) (f : Finding) (a : BranchId × ℕ) (c : BranchId)
    → Nearest (parent_in by_id) (attachment f) a c
    → f.branch_ids ≢ []
Nearest-placed by_id f a c (found s) h = let t = attachment_none f c h in cc
Nearest-placed by_id f a c (up s n r) h = Nearest-placed by_id f a _ r h

module _ (bs : List Branch) (leaf : BranchId) (all_fs : List Finding) where
  leaf_candidates_from :
      (i : ℕ) (fs : List Finding)
      → ((j : ℕ)
          → At (λ f. IsEligible (unselected f)) fs j
          → At (λ f. IsEligible (unselected f)) all_fs (i + j))
      → All (EligibleAt all_fs) (leaf_candidates bs leaf i fs).0
  unfolding leaf_candidates
  leaf_candidates_from i [] link = tt
  leaf_candidates_from i (f ∷ fs) link =
      let rest : All (EligibleAt all_fs) (leaf_candidates bs leaf (i + 1) fs).0 =
        leaf_candidates_from (i + 1) fs (λ j h.
          subst (At (λ f. IsEligible (unselected f)) all_fs) (omega arith) (link (suc j) h)) in
      elim (Bool-cases (is_strong_blocker f)) [
        | inr e ↦ rw (e, leaf_candidates) rest
        | inl e ↦ elim (Option-cases (finding_branch_position f leaf (index_branches bs))) [
          | inl n ↦ rw (e, n, leaf_candidates) rest
          | inr (a, n) ↦
              let near = (finding_branch_position_iff f leaf (index_branches bs) a).0.0 n in
              let placed = Nearest-placed (index_branches bs) f a leaf near in
              let first : EligibleAt all_fs (record { index = i; pos = 0 }) =
                subst (At (λ f. IsEligible (unselected f)) all_fs) (omega arith)
                  (link 0 (sym (strong-unselected f) ∙ e, placed)) in
              elim (Bool-cases (leb (branch_edge_count bs a.0) a.1)) [
                | inl out ↦ rw (e, n, out, leaf_candidates) rest
                | inr fits ↦ rw (e, n, fits, leaf_candidates) (first, rest)
              ]
        ]
      ]

pub leaf_candidates-EligibleAt :
    (bs : List Branch) (leaf : BranchId) (fs : List Finding)
    → All (EligibleAt fs) (leaf_candidates bs leaf 0 fs).0
leaf_candidates-EligibleAt bs leaf fs =
    leaf_candidates_from bs leaf fs 0 fs
      (λ j h. subst (At (λ f. IsEligible (unselected f)) fs) (omega arith) h)

pub nearest-All :
    (P : Candidate → Type 0) (fs : List Finding) (cs : List Candidate)
    → All P cs
    → All P (nearest_candidates fs cs)
unfolding nearest_candidates
nearest-All P fs [] h = tt
nearest-All P fs (c ∷ cs) h =
    All-sort P (less_at fs) _ (All-keep P (λ x. x.pos == min_pos c.pos cs) (c ∷ cs) h)

-- A property of the findings that every mark at a good candidate keeps is kept by the whole loop.
module _ (P : List Finding → Type 0) (Good : Candidate → Type 0)
    (step : (fs : List Finding) (c : Candidate) (s : Selection)
      → Good c
      → s ≢ Selection.global_primary
      → P fs
      → P (mark fs c.index s)) where
  pub select_loop-keeps :
      (claims : List Claim) (all_at cs : List Candidate) (fs : List Finding)
      (selected : List Candidate)
      → All Good cs
      → P fs
      → P (select_loop claims all_at cs fs selected).0
  unfolding select_loop
  select_loop-keeps claims all_at [] fs selected g h = h
  select_loop-keeps claims all_at (c ∷ cs) fs selected (g, gs) h =
      let added = λ (x : List Candidate).
        select_loop-keeps claims all_at cs (mark fs c.index Selection.additional) x gs
          (step fs c Selection.additional g (λ e. cc e) h) in
      let primary = λ (x : List Candidate).
        select_loop-keeps claims all_at cs (mark fs c.index Selection.branch_primary) x gs
          (step fs c Selection.branch_primary g (λ e. cc e) h) in
      elim (Bool-cases
        (any (λ o. observed_at fs o && same_at fs claims c o) all_at && not (observed_at fs c))) [
          | inl e ↦ rw (e, select_loop) (added selected)
          | inr e ↦ elim (Bool-cases (any (λ p. same_at fs claims c p) selected)) [
            | inl d ↦ rw (e, d, select_loop) (added selected)
            | inr d ↦ rw (e, d, select_loop) (primary (selected ++ c ∷ []))
          ]
        ]
