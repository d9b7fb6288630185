-- ===== src/Selection/Sound.antt =====
-- What the loop of `Apply` over the leaves keeps, whatever the run.
use route_doc.Common.{◌≡◌, ◌≢◌, refl, ap, sym, ◌∙◌, List, [], ◌∷◌, All, All-map, ◌++◌}
use route_doc.Model.Ids.{BranchId}
use route_doc.Model.Paths.{Branch}
use route_doc.Model.Claims.{Finding, Claim}
use route_doc.Model.Issues.{ValidationIssue}
use route_doc.Model.Enums.{Selection, eq_selection}
use route_doc.GlobalPrimary.{is_strong_blocker}
use route_doc.Selection.Leaf.{Candidate, mark, leaf_candidates, nearest_candidates, select_leaf}
use route_doc.Selection.Apply.{reset, leaves_loop}
use route_doc.Selection.Marks.{
  unselected, unselected_all, mark-unselected, At-unselected, At-map, All-mark,
}
use route_doc.Selection.Invariant.{
  IsEligible, EligibleAt, leaf_candidates-EligibleAt, nearest-All, select_loop-keeps,
}

-- `fs` is `fs₀` with other selections, none of them for the whole run, and only strong blockers on
-- a branch are selected.
pub record IsMarking (fs₀ fs : List Finding) : Type 0 where
  pub alike : unselected_all fs₀ ≡ unselected_all fs
  pub strong : All (λ f. f.selection ≢ Selection.none → IsEligible f) fs
  pub local : All (λ f. f.selection ≢ Selection.global_primary) fs

pub IsMarking-mark :
    (fs₀ fs : List Finding) (c : Candidate) (s : Selection)
    → EligibleAt fs₀ c
    → s ≢ Selection.global_primary
    → IsMarking fs₀ fs
    → IsMarking fs₀ (mark fs c.index s)
unfolding is_strong_blocker
IsMarking-mark fs₀ fs c s g n h =
    let here = At-unselected IsEligible fs₀ fs c.index h.alike g in
    record {
      alike = h.alike ∙ sym (mark-unselected fs c.index s);
      strong =
          All-mark (λ f. f.selection ≢ Selection.none → IsEligible f) fs c.index s
            (At-map fs c.index (λ f p _. p) here) h.strong;
      local =
          All-mark (λ f. f.selection ≢ Selection.global_primary) fs c.index s
            (At-map fs c.index (λ f p. n) here) h.local;
    }

pub IsMarking-reset : (fs : List Finding) → IsMarking fs (reset fs)
unfolding reset
IsMarking-reset [] = record { alike = refl; strong = tt; local = tt }
IsMarking-reset (f ∷ fs) =
    let rest = IsMarking-reset fs in
    record {
      alike = ap (◌∷◌ (unselected f)) rest.alike;
      strong = (λ n. absurd (n refl), rest.strong);
      local = (λ e. cc e, rest.local);
    }

IsMarking-select_leaf :
    (bs : List Branch) (claims : List Claim) (leaf : BranchId) (fs₀ fs : List Finding)
    → IsMarking fs₀ fs
    → IsMarking fs₀ (select_leaf bs claims leaf fs).0
unfolding select_leaf
IsMarking-select_leaf bs claims leaf fs₀ fs h =
    let cs = (leaf_candidates bs leaf 0 fs).0 in
    let near = nearest_candidates fs cs in
    let good : All (EligibleAt fs₀) near =
      All-map (EligibleAt fs) (EligibleAt fs₀) near
        (λ c. At-unselected IsEligible fs fs₀ c.index (sym h.alike))
        (nearest-All (EligibleAt fs) fs cs (leaf_candidates-EligibleAt bs leaf fs)) in
    select_loop-keeps (IsMarking fs₀) (EligibleAt fs₀) (IsMarking-mark fs₀) claims near near fs []
      good h

pub IsMarking-leaves_loop :
    (bs : List Branch) (claims : List Claim) (leaves : List BranchId) (fs₀ fs : List Finding)
    (is : List ValidationIssue)
    → IsMarking fs₀ fs
    → IsMarking fs₀ (leaves_loop bs claims leaves fs is).0
unfolding leaves_loop
IsMarking-leaves_loop bs claims [] fs₀ fs is h = h
IsMarking-leaves_loop bs claims (leaf ∷ leaves) fs₀ fs is h =
    let r = select_leaf bs claims leaf fs in
    IsMarking-leaves_loop bs claims leaves fs₀ r.0 (is ++ r.2)
      (IsMarking-select_leaf bs claims leaf fs₀ fs h)
