-- ===== src/Rules/Positions.antt =====
-- `branchesFor` of the rules: the branches, and the positions on them, whose edges rest on a piece of
-- evidence.
use route_doc.Common.{
  ℕ, ◌+◌, ◌<◌, ◌≡◌, refl, Bool, ◌&&◌, List, [], ◌∷◌, ◌++◌, none, some, false, if◌then◌else◌, length,
  ◌==◌, eq_text, map, arith, All, All-append, All-map, Exists, now, later, Bool-cases, inl, inr,
}
use route_doc.Model.Ids.{BranchId, EdgeId, ObservationId}
use route_doc.Model.Paths.{Branch, PathEdge, EvidenceRef, ServicePath}
use route_doc.Model.Claims.{PathPosition}
use route_doc.Model.Enums.{EvidenceKind, eq_evidence_kind}

-- `x.Kind == model.EvidenceKindObservation && x.ObservationID != nil && *x.ObservationID == id`
unfoldable pub is_observation_ref : ObservationId → EvidenceRef → Bool
is_observation_ref id x =
    (x.kind == EvidenceKind.observation)
    && elim x.observation_id [ none ↦ false | some o ↦ o == id ]

-- One position for each reference among `refs` that passes.
unfoldable pub positions_of :
    (EvidenceRef → Bool) → PathPosition → List EvidenceRef → List PathPosition
positions_of test p [] = []
positions_of test p (x ∷ xs) =
    let rest = positions_of test p xs in if test x then p ∷ rest else rest

unfoldable pub edge_positions :
    (EvidenceRef → Bool) → PathPosition → EdgeId → List PathEdge → List PathPosition
edge_positions test p id [] = []
edge_positions test p id (e ∷ es) =
    let rest = edge_positions test p id es in
    if e.edge_id == id then positions_of test p e.evidence_refs ++ rest else rest

-- The round over the edges of a branch, from position `pos` on.
unfoldable pub branch_positions :
    (EvidenceRef → Bool) → List PathEdge → BranchId → ℕ → List EdgeId → List PathPosition
branch_positions test edges branch pos [] = []
branch_positions test edges branch pos (id ∷ ids) =
    edge_positions test (record { branch_id = branch; position = pos }) id edges
    ++ branch_positions test edges branch (pos + 1) ids

unfoldable pub positions_for :
    (EvidenceRef → Bool) → List PathEdge → List Branch → List PathPosition
positions_for test edges [] = []
positions_for test edges (b ∷ bs) =
    branch_positions test edges b.branch_id 0 b.ordered_edge_ids ++ positions_for test edges bs

-- `branchesFor`: both of its lists, which have an entry for the same references.
unfoldable pub branches_for : (EvidenceRef → Bool) → ServicePath → List BranchId × List PathPosition
branches_for test path =
    let positions = positions_for test path.edges path.branches in
    (map (λ p. p.branch_id) positions, positions)

-- The position is that of an edge of a branch.
abbrev pub OnBranch : List Branch → PathPosition → Type 0
OnBranch bs p =
    Exists (λ b. (b.branch_id ≡ p.branch_id) × (p.position < length b.ordered_edge_ids)) bs

positions_of-All :
    (P : PathPosition → Type 0) (test : EvidenceRef → Bool) (p : PathPosition)
    → (xs : List EvidenceRef) → P p
    → All P (positions_of test p xs)
unfolding positions_of
positions_of-All P test p [] h = tt
positions_of-All P test p (x ∷ xs) h = elim (Bool-cases (test x)) [
  | inl e ↦ rw (e, positions_of) (h, positions_of-All P test p xs h)
  | inr e ↦ rw (e, positions_of) (positions_of-All P test p xs h)
]

edge_positions-All :
    (P : PathPosition → Type 0) (test : EvidenceRef → Bool) (p : PathPosition) (id : EdgeId)
    → (es : List PathEdge) → P p
    → All P (edge_positions test p id es)
unfolding edge_positions
edge_positions-All P test p id [] h = tt
edge_positions-All P test p id (e ∷ es) h = elim (Bool-cases (e.edge_id == id)) [
  | inl k ↦
      rw (k, edge_positions)
        (All-append P _ _ (positions_of-All P test p e.evidence_refs h)
          (edge_positions-All P test p id es h))
  | inr k ↦ rw (k, edge_positions) (edge_positions-All P test p id es h)
]

abbrev OfBranch : BranchId → ℕ → PathPosition → Type 0
OfBranch branch limit p = (branch ≡ p.branch_id) × (p.position < limit)

branch_positions-All :
    (test : EvidenceRef → Bool) (edges : List PathEdge) (branch : BranchId) (limit pos : ℕ)
    → (ids : List EdgeId) → pos + length ids ≡ limit
    → All (OfBranch branch limit) (branch_positions test edges branch pos ids)
unfolding branch_positions
branch_positions-All test edges branch limit pos [] h = tt
branch_positions-All test edges branch limit pos (id ∷ ids) h =
    All-append (OfBranch branch limit) _ _
      (edge_positions-All (OfBranch branch limit) test _ id edges (refl, omega arith))
      (branch_positions-All test edges branch limit (pos + 1) ids (omega arith))

positions_for-OnBranch :
    (test : EvidenceRef → Bool) (edges : List PathEdge) (bs : List Branch)
    → All (OnBranch bs) (positions_for test edges bs)
unfolding positions_for
positions_for-OnBranch test edges [] = tt
positions_for-OnBranch test edges (b ∷ bs) =
    All-append (OnBranch (b ∷ bs)) _ _
      (All-map (OfBranch b.branch_id (length b.ordered_edge_ids)) (OnBranch (b ∷ bs)) _
        (λ p h. now h)
        (branch_positions-All test edges b.branch_id (length b.ordered_edge_ids) 0
          b.ordered_edge_ids (omega arith)))
      (All-map (OnBranch bs) (OnBranch (b ∷ bs)) _ (λ p h. later h)
        (positions_for-OnBranch test edges bs))

-- Every position that a rule gives a finding is that of an edge of a branch of the path.
pub branches_for-OnBranch :
    (test : EvidenceRef → Bool) (path : ServicePath)
    → All (OnBranch path.branches) (branches_for test path).1
unfolding branches_for
branches_for-OnBranch test path = positions_for-OnBranch test path.edges path.branches
