-- ===== src/Selection/Apply.antt =====
-- `Apply` of internal/selection/selection.go.
use route_doc.Common.{
  ℕ, ◌+◌, Bool, not, ◌||◌, List, [], ◌∷◌, ◌++◌, sort, length, leb, ◌==◌, text_lt, if◌then◌else◌,
}
use route_doc.Model.Ids.{BranchId}
use route_doc.Model.Paths.{Branch}
use route_doc.Model.Claims.{Finding, Claim}
use route_doc.Model.Runs.{EvaluatedRun}
use route_doc.Model.Issues.{ValidationIssue}
use route_doc.Model.Enums.{Selection, eq_claim_level}
use route_doc.Branches.{leaf_ids}
use route_doc.GlobalPrimary.{is_strong_blocker, global_primary_proof}
use route_doc.Selection.Leaf.{Candidate, mark, test_at, select_leaf, observed_at, less_at}

unfoldable pub reset : List Finding → List Finding
reset [] = []
reset (f ∷ fs) = record f { selection = Selection.none } ∷ reset fs

-- The loop over the sorted leaves.
unfoldable pub leaves_loop :
    List Branch
    → List Claim
    → List BranchId
    → List Finding
    → List ValidationIssue
    → List Finding × List ValidationIssue
leaves_loop bs claims [] fs is = (fs, is)
leaves_loop bs claims (leaf ∷ leaves) fs is =
    let r = select_leaf bs claims leaf fs in leaves_loop bs claims leaves r.0 (is ++ r.2)

-- `globalCandidates`, from index `i`; a candidate's position plays no part.
unfoldable pub global_candidates : List Branch → List BranchId → ℕ → List Finding → List Candidate
global_candidates bs leaves i [] = []
global_candidates bs leaves i (f ∷ fs) =
    let rest = global_candidates bs leaves (i + 1) fs in
    if not (is_strong_blocker f) || leb (length leaves) 0
    then rest
    else if global_primary_proof f bs
    then record { index = i; pos = 0 } ∷ rest
    else rest

-- Observed findings come first, then `lessFinding` decides.
unfoldable pub less_global : List Finding → Candidate → Candidate → Bool
less_global fs a b =
    if test_at fs (λ f. test_at fs (λ g. not (f.level == g.level)) b) a
    then observed_at fs a
    else less_at fs a b

unfoldable pub mark_all : List Candidate → Selection → List Finding → List Finding
mark_all [] s fs = fs
mark_all (c ∷ cs) s fs = mark_all cs s (mark fs c.index s)

-- The first candidate becomes the primary finding of the run, the others additional ones.
unfoldable pub mark_global : List Candidate → List Finding → List Finding
unfolding mark_all
mark_global [] fs = fs
mark_global (c ∷ cs) fs =
    mark_all cs Selection.additional (mark fs c.index Selection.global_primary)

unfoldable pub apply : EvaluatedRun → EvaluatedRun × List ValidationIssue
apply r =
    let bs = r.evidence.service_path.branches in
    let leaves = sort text_lt (leaf_ids bs) in
    let (fs, is) = leaves_loop bs r.claims leaves (reset r.findings) [] in
    let globals = sort (less_global fs) (global_candidates bs leaves 0 fs) in
    (record r { findings = mark_global globals fs }, is)
