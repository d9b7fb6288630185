-- ===== src/Selection/Leaf.antt =====
-- One round of the loop over the leaves in `Apply` of internal/selection/selection.go: the blockers
-- that lie on the way up from a leaf, and which of them become its primary findings.
use route_doc.Common.{
  ℕ, zero, suc, ◌+◌, Bool, true, false, not, ◌&&◌, List, [], ◌∷◌, ◌++◌, Option, none, some, codes,
  Table, keys, climb, hit, top, cycle, exhausted, any, keep, sort, length, leb, ltb, ◌==◌,
  eq_number, eq_text, if◌then◌else◌, get_elem?,
}
use route_doc.Model.Ids.{BranchId}
use route_doc.Model.Paths.{Branch}
use route_doc.Model.Claims.{Finding, PathPosition, Claim}
use route_doc.Model.Issues.{ValidationCode, ValidationIssue}
use route_doc.Model.Enums.{ClaimLevel, Selection, eq_claim_level}
use route_doc.Branches.{index_branches, parent_in}
use route_doc.GlobalPrimary.{is_strong_blocker}
use route_doc.Selection.Statements.{same_statement, less_finding}

pub record Candidate : Type 0 where
  pub index : ℕ
  pub pos : ℕ

unfoldable pub contains_branch : List BranchId → BranchId → Bool
contains_branch v id = any (λ x. x == id) v

first_position : List PathPosition → BranchId → Option ℕ
first_position [] id = none
first_position (p ∷ ps) id = if p.branch_id == id then some p.position else first_position ps id

unfoldable pub position : Finding → BranchId → Option ℕ
unfolding first_position
position f id = first_position f.path_positions id

-- What one round of the walk of `findingBranchPosition` returns, if it returns.
unfoldable pub attachment : Finding → BranchId → Option (BranchId × ℕ)
attachment f current =
    if contains_branch f.branch_ids current
    then elim (position f current) [ none ↦ none | some pos ↦ some (current, pos) ]
    else none

-- `none` is `"", 0, false`; the fuel never runs out.
unfoldable pub finding_branch_position : Finding → BranchId → Table Branch → Option (BranchId × ℕ)
finding_branch_position f leaf branches =
    elim (climb (parent_in branches) (attachment f) (suc (length (keys branches))) [] leaf) [
      | hit a ↦ some a
      | top ↦ none
      | cycle ↦ none
      | exhausted ↦ none
    ]

unfoldable pub branch_edge_count : List Branch → BranchId → ℕ
branch_edge_count [] id = 0
branch_edge_count (b ∷ bs) id =
    if b.branch_id == id then length b.ordered_edge_ids else branch_edge_count bs id

unfoldable pub outside_branch : ValidationIssue
outside_branch = record {
  code = ValidationCode.finding_invalid_global_primary;
  pointer = codes "/findings";
  message = codes "finding path position is outside branch";
}

-- The candidates of a leaf among the findings from index `i`, and the issues found on the way.
unfoldable pub leaf_candidates :
    List Branch → BranchId → ℕ → List Finding → List Candidate × List ValidationIssue
leaf_candidates bs leaf i [] = ([], [])
leaf_candidates bs leaf i (f ∷ fs) =
    let (cs, is) = leaf_candidates bs leaf (i + 1) fs in
    if not (is_strong_blocker f)
    then (cs, is)
    else elim (finding_branch_position f leaf (index_branches bs)) [
      | none ↦ (cs, is)
      | some (attached, pos) ↦
          if leb (branch_edge_count bs attached) pos
          then (cs, outside_branch ∷ is)
          else (record { index = i; pos = pos } ∷ cs, is)
    ]

unfoldable pub min_pos : ℕ → List Candidate → ℕ
min_pos m [] = m
min_pos m (c ∷ cs) = min_pos (if ltb c.pos m then c.pos else m) cs

-- `out.Findings[i].Selection = s`
unfoldable pub mark : List Finding → ℕ → Selection → List Finding
mark [] i s = []
mark (f ∷ fs) zero s = record f { selection = s } ∷ fs
mark (f ∷ fs) (suc i) s = f ∷ mark fs i s

-- A test on `out.Findings[c.index]`, which is there for every candidate.
unfoldable pub test_at : List Finding → (Finding → Bool) → Candidate → Bool
test_at fs p c = elim (get_elem? fs c.index) [ none ↦ false | some f ↦ p f ]

unfoldable pub less_at : List Finding → Candidate → Candidate → Bool
less_at fs a b = test_at fs (λ f. test_at fs (less_finding f) b) a

unfoldable pub same_at : List Finding → List Claim → Candidate → Candidate → Bool
same_at fs claims a b = test_at fs (λ f. test_at fs (λ g. same_statement f g claims) b) a

unfoldable pub observed_at : List Finding → Candidate → Bool
observed_at fs c = test_at fs (λ f. f.level == ClaimLevel.observed) c

-- The loop over `at`, all of whose candidates are in `all_at`; the second result is `selected`.
unfoldable pub select_loop :
    List Claim
    → List Candidate
    → List Candidate
    → List Finding
    → List Candidate
    → List Finding × List Candidate
select_loop claims all_at [] fs selected = (fs, selected)
select_loop claims all_at (c ∷ cs) fs selected =
    elim (any (λ o. observed_at fs o && same_at fs claims c o) all_at && not (observed_at fs c)) [
      | true ↦ select_loop claims all_at cs (mark fs c.index Selection.additional) selected
      | false ↦ elim (any (λ p. same_at fs claims c p) selected) [
        | true ↦ select_loop claims all_at cs (mark fs c.index Selection.additional) selected
        | false ↦
            select_loop claims all_at cs (mark fs c.index Selection.branch_primary)
              (selected ++ c ∷ [])
      ]
    ]

-- The candidates with the least position, in the order of their findings.
unfoldable pub nearest_candidates : List Finding → List Candidate → List Candidate
nearest_candidates fs [] = []
nearest_candidates fs (c ∷ cs) = sort (less_at fs) (keep (λ x. x.pos == min_pos c.pos cs) (c ∷ cs))

-- The findings after the round, the candidates that it selected and the issues that it found.
unfoldable pub select_leaf :
    List Branch
    → List Claim
    → BranchId
    → List Finding
    → List Finding × List Candidate × List ValidationIssue
select_leaf bs claims leaf fs =
    let (cs, is) = leaf_candidates bs leaf 0 fs in
    let near = nearest_candidates fs cs in
    let (fs', selected) = select_loop claims near near fs [] in (fs', selected, is)
