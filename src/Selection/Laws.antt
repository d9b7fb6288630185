-- ===== src/Selection/Laws.antt =====
-- What holds of the whole of `Apply`.
use route_doc.Common.{◌≡◌, ◌≢◌, refl, sym, ◌∙◌, List, [], All, All-sort, sort, text_lt, arith}
use mathlib.Core.Path.{subst}
use route_doc.Model.Paths.{Branch}
use route_doc.Model.Runs.{EvaluatedRun}
use route_doc.Model.Enums.{Selection}
use route_doc.Branches.{leaf_ids}
use route_doc.GlobalPrimary.{validate_selection}
use route_doc.GlobalPrimary.Validation.{validate_selection_iff, IsProved}
use route_doc.Selection.Apply.{
  reset, leaves_loop, global_candidates, less_global, mark_global, apply,
}
use route_doc.Selection.Marks.{unselected_all, At}
use route_doc.Selection.Invariant.{IsEligible}
use route_doc.Selection.Sound.{IsMarking, IsMarking-reset, IsMarking-leaves_loop}
use route_doc.Selection.Global.{
  IsGlobal, GlobalAt, IsChoice, global_candidates_from, IsChoice-mark_global,
}

abbrev bs_of : EvaluatedRun → List Branch
bs_of r = r.evidence.service_path.branches

IsChoice-apply : (r : EvaluatedRun) → IsChoice (bs_of r) r.findings (apply r).0.findings
unfolding apply
IsChoice-apply r =
    let bs = bs_of r in
    let leaves = sort text_lt (leaf_ids bs) in
    let fs = (leaves_loop bs r.claims leaves (reset r.findings) []).0 in
    let marking : IsMarking r.findings fs =
      IsMarking-leaves_loop bs r.claims leaves r.findings (reset r.findings) []
        (IsMarking-reset r.findings) in
    let found : All (GlobalAt bs fs) (global_candidates bs leaves 0 fs) =
      global_candidates_from bs leaves fs 0 fs
        (λ j h. subst (At (IsGlobal bs) fs) (omega arith) h) in
    -- The marks are relative to the findings that the loop left.
    let choice : IsChoice bs fs
        (mark_global (sort (less_global fs) (global_candidates bs leaves 0 fs)) fs) =
      IsChoice-mark_global bs fs fs _ (All-sort (GlobalAt bs fs) (less_global fs) _ found)
        (record { alike = refl; strong = marking.strong; local = marking.local }) in
    record {
      alike = marking.alike ∙ choice.alike;
      strong = choice.strong;
      proved = choice.proved;
      unique = choice.unique;
    }

-- The selection reports no invalid primary finding for a run whose findings it has selected itself:
-- at most one finding is the primary one of the run, and it has the proof for every leaf. This
-- holds for every run, also one with cyclic or missing parents.
pub validate_selection-apply : (r : EvaluatedRun) → validate_selection (apply r).0 ≡ []
validate_selection-apply r =
    let c = IsChoice-apply r in
    let same : bs_of r ≡ bs_of (apply r).0 = unfold apply in refl in
    (validate_selection_iff (apply r).0).1
      (c.unique, subst (λ b. All (IsProved b) (apply r).0.findings) same c.proved)

-- The selection changes nothing but the selections of the findings: their number, their order and
-- all their other fields stay, and so do the evidence, the evaluation and the claims.
pub apply_keeps :
    (r : EvaluatedRun)
    → (unselected_all (apply r).0.findings ≡ unselected_all r.findings)
      × ((apply r).0.evidence ≡ r.evidence)
      × ((apply r).0.evaluation ≡ r.evaluation)
      × ((apply r).0.claims ≡ r.claims)
apply_keeps r =
    (sym (IsChoice-apply r).alike, unfold apply in refl, unfold apply in refl, unfold apply in refl)

-- Only a blocker that is observed or inferred and stands on some branch is given a selection other
-- than none.
pub apply_selects_strong :
    (r : EvaluatedRun) → All (λ f. f.selection ≢ Selection.none → IsEligible f) (apply r).0.findings
apply_selects_strong r = (IsChoice-apply r).strong
