-- ===== src/Validation/Grounds.antt =====
-- `claimPathReachesBase` and `validateClaimGraphs` of internal/model/validate_evaluated.go.
pub mod Walk
pub mod Rests
use route_doc.Common.{
  ℕ, zero, suc, ◌+◌, Bool, true, false, not, ◌&&◌, List, [], ◌∷◌, ◌++◌, Option, none, some, Text,
  codes, Table, lookup, any, length, ◌==◌, eq_number, if◌then◌else◌,
}
use route_doc.Model.Issues.{ValidationCode, ValidationIssue}
use route_doc.Model.Claims.{Claim}
use route_doc.Model.Paths.{EvidenceRef}
use route_doc.Model.Enums.{EvidenceKind, ClaimLevel, eq_evidence_kind, eq_claim_level}
use route_doc.Validation.Graph.{Mark, fresh, active, done, set_mark}
use route_doc.Validation.Shared.{issue_if, indexed}
use route_doc.Validation.Support.{States, support_of, claim_graph_has_cycle}

-- The loop over the references of a claim: whether one is no claim, and the stack with the claims
-- pushed; `none` is `return false`.
unfoldable pub push_refs :
    Table ℕ → States → List EvidenceRef → Bool → List ℕ → Option (Bool × List ℕ)
push_refs by st [] found stack = some (found, stack)
push_refs by st (x ∷ xs) found stack = elim (x.kind == EvidenceKind.claim) [
  | false ↦ push_refs by st xs true stack
  | true ↦ elim x.claim_id [
    | none ↦ none
    | some id ↦ elim (lookup id by) [
      | none ↦ none
      | some n ↦ elim (st n) [
        | active ↦ none
        | fresh ↦ push_refs by st xs found (n ∷ stack)
        | done ↦ push_refs by st xs found stack
      ]
    ]
  ]
]

-- `for len(stack) > 0`, with at most `fuel` rounds; `none` says that they ran out.
unfoldable pub climb_to_base : List Claim → Table ℕ → ℕ → States → List ℕ → Option Bool
unfolding push_refs
climb_to_base claims by zero st stack = none
climb_to_base claims by (suc fuel) st [] = some false
climb_to_base claims by (suc fuel) st (n ∷ stack) = elim (st n) [
  | active ↦ some false
  | done ↦ climb_to_base claims by fuel st stack
  | fresh ↦ elim (push_refs by (set_mark st n active) (support_of claims n) false stack) [
    | none ↦ some false
    | some (found, stack') ↦ elim found [
      | true ↦ some true
      | false ↦ climb_to_base claims by fuel (set_mark (set_mark st n active) n done) stack'
    ]
  ]
]

-- `len(c.SupportingEvidence)`, summed over the claims
unfoldable pub count_refs : List Claim → ℕ
count_refs [] = 0
count_refs (c ∷ cs) = length c.supporting_evidence + count_refs cs

-- The claim `start` is pushed, and each reference pushes one claim at most.
unfoldable pub claim_path_reaches_base : List Claim → Table ℕ → ℕ → Option Bool
unfolding climb_to_base count_refs
claim_path_reaches_base claims by start =
    climb_to_base claims by (count_refs claims + 2) (λ n. fresh) (start ∷ [])

unfoldable pub has_base : List EvidenceRef → Bool
has_base refs = any (λ x. not (x.kind == EvidenceKind.claim)) refs

-- The tests on a claim with supporting evidence; `reached` is what the walk to the base gave.
unfoldable pub support_issues : ℕ → Claim → Bool → List ValidationIssue
unfolding issue_if indexed has_base
support_issues i c reached =
    let p = indexed (codes "/claims/") i in
    let base = has_base c.supporting_evidence in
    issue_if (not base && (c.level == ClaimLevel.observed))
      ValidationCode.claim_invalid_support_level (p ++ codes "/level")
      (codes "observed claim cannot rely only on another claim")
    ++ issue_if ((c.level == ClaimLevel.suspected) && (length c.required_missing_evidence == 0))
        ValidationCode.justification_missing (p ++ codes "/required_missing_evidence")
        (codes "suspected claim must name missing evidence")
    ++ issue_if (not base && not reached) ValidationCode.justification_missing
        (p ++ codes "/supporting_evidence") (codes "claim has no admissible base support")

-- The loop over the claims, from index `i` on; `none` says that the fuel ran out.
unfoldable pub graph_loop : List Claim → Table ℕ → ℕ → List Claim → Option (List ValidationIssue)
unfolding claim_path_reaches_base support_issues
graph_loop claims by i [] = some []
graph_loop claims by i (c ∷ cs) = elim (graph_loop claims by (i + 1) cs) [
  | none ↦ none
  | some later ↦ elim (length c.supporting_evidence == 0) [
    | true ↦ some later
    | false ↦ elim (claim_path_reaches_base claims by i) [
      | none ↦ none
      | some reached ↦ some (support_issues i c reached ++ later)
    ]
  ]
]

unfoldable pub validate_claim_graphs : List Claim → Table ℕ → Option (List ValidationIssue)
unfolding issue_if graph_loop
validate_claim_graphs claims by = elim (claim_graph_has_cycle claims by) [
  | none ↦ none
  | some cycle ↦ elim (graph_loop claims by 0 claims) [
    | none ↦ none
    | some later ↦ some (
        issue_if cycle ValidationCode.justification_cycle (codes "/claims")
          (codes "claim support graph contains a cycle")
        ++ later)
  ]
]
