-- ===== src/Validation/Support.antt =====
-- `claimGraphHasCycle` of internal/model/validate_evaluated.go: the search for a cycle in the
-- claims that support one another, with a stack of frames.
pub mod Stacks
pub mod Cycles
pub mod Chains
pub mod Searches
pub mod Justified
use route_doc.Common.{
  ℕ, zero, suc, ◌+◌, ◌*◌, Bool, true, false, not, List, [], ◌∷◌, Option, none, some, Table, lookup,
  insert, get_elem?, length, ◌==◌, eq_number, if◌then◌else◌,
}
use route_doc.Model.Claims.{Claim}
use route_doc.Model.Paths.{EvidenceRef}
use route_doc.Model.Enums.{EvidenceKind, eq_evidence_kind}
use route_doc.Validation.Graph.{Mark, fresh, active, done, set_mark}

-- `claimByID[c.ClaimID] = i` for every claim, from index `i` on
unfoldable pub index_claims : ℕ → List Claim → Table ℕ → Table ℕ
index_claims i [] by = by
index_claims i (c ∷ cs) by = index_claims (i + 1) cs (insert c.claim_id i by)

-- `r.Claims[i].SupportingEvidence`, where the index is never out of range
unfoldable pub support_of : List Claim → ℕ → List EvidenceRef
support_of claims i = elim (get_elem? claims i) [ none ↦ [] | some c ↦ c.supporting_evidence ]

-- The claims that the loop over the references does not skip, in its order.
unfoldable pub claim_targets : Table ℕ → List EvidenceRef → List ℕ
claim_targets by [] = []
claim_targets by (x ∷ xs) =
    let rest = claim_targets by xs in
    if not (x.kind == EvidenceKind.claim) then rest else elim x.claim_id [
      | none ↦ rest
      | some id ↦ elim (lookup id by) [ none ↦ rest | some n ↦ n ∷ rest ]
    ]

unfoldable pub supporters : List Claim → Table ℕ → ℕ → List ℕ
unfolding support_of claim_targets
supporters claims by i = claim_targets by (support_of claims i)

abbrev pub States : Type 0
States = ℕ → Mark

-- A claim and those of its targets that the frame's `next` has not passed.
abbrev pub Frame : Type 0
Frame = ℕ × List ℕ

-- How the inner loop of a frame ends: by `return true`, with a node to visit, or with no target
-- left.
pub data Advance : Type 0 where
  closes_cycle : Advance
  descends : ℕ → List ℕ → Advance
  is_finished : Advance

unfoldable pub advance : States → List ℕ → Advance
advance st [] = is_finished
advance st (n ∷ rest) = elim (st n) [
  | active ↦ closes_cycle
  | fresh ↦ descends n rest
  | done ↦ advance st rest
]

-- `for len(stack) > 0`, with at most `fuel` rounds; `none` says that they ran out.
unfoldable pub search_stack : (ℕ → List ℕ) → ℕ → States → List Frame → Option (Bool × States)
unfolding advance
search_stack next zero st stack = none
search_stack next (suc fuel) st [] = some (false, st)
search_stack next (suc fuel) st ((i, rest) ∷ frames) = elim (advance st rest) [
  | closes_cycle ↦ some (true, st)
  | descends n rest' ↦
      search_stack next fuel (set_mark st n active) ((n, next n) ∷ (i, rest') ∷ frames)
  | is_finished ↦ search_stack next fuel (set_mark st i done) frames
]

-- `for start := range r.Claims`, from the claim `start` on
unfoldable pub search_from : (ℕ → List ℕ) → ℕ → ℕ → List Claim → States → Option Bool
unfolding search_stack
search_from next fuel start [] st = some false
search_from next fuel start (c ∷ cs) st = elim (st start) [
  | fresh ↦ elim (search_stack next fuel (set_mark st start active) ((start, next start) ∷ [])) [
    | none ↦ none
    | some (ok, st') ↦ elim ok [
      | true ↦ some true
      | false ↦ search_from next fuel (start + 1) cs st'
    ]
  ]
  | active ↦ search_from next fuel (start + 1) cs st
  | done ↦ search_from next fuel (start + 1) cs st
]

-- A claim is pushed once and popped once.
unfoldable pub claim_graph_has_cycle : List Claim → Table ℕ → Option Bool
unfolding search_from supporters
claim_graph_has_cycle claims by =
    search_from (supporters claims by) (2 * length claims + 2) 0 claims (λ n. fresh)
