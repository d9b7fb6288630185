-- ===== src/Rules/Provenance/Findings.antt =====
-- Where the findings come from that `Evaluate` of internal/rules/evaluate.go makes: their titles,
-- branches and positions are those of the templates of the rules.
use mathlib.Core.Path.{subst}
use route_doc.Common.{◌≡◌, ◌≢◌, sym, List, [], ◌∷◌, arith, All, All-append, All-sort, Table, sort}
use route_doc.Model.Ids.{Time, ClaimId, RuleId, BranchId}
use route_doc.Model.Claims.{Finding, PathPosition}
use route_doc.Model.Enums.{FindingTitleCode, Selection}
use route_doc.Model.Runs.{EvidenceRun, EvaluatedRun}
use route_doc.Selection.Apply.{apply}
use route_doc.Selection.Marks.{unselected, unselected_all}
use route_doc.Selection.Invariant.{IsEligible}
use route_doc.Selection.Laws.{apply_keeps, apply_selects_strong}
use route_doc.Rules.Templates.{FindingTemplate, RuleCandidate, Rule}
use route_doc.Rules.Compile.{
  CompiledCandidate, ClaimState, FindingState, collect_candidates, less_candidate, make_all_claims,
  add_finding, make_findings, make_all_findings,
}
use route_doc.Rules.Evaluate.{
  Evaluated, findings_made, claims_made, compiled, select_or_reject, evaluate,
}
use route_doc.Rules.Provenance.{Returns, collect_candidates-All}

make_all_claims-located :
    (Q : CompiledCandidate → Type 0) (cs : List CompiledCandidate) (s : ClaimState)
    → All Q cs
    → All (λ l. Q l.0) (make_all_claims cs s).1
unfolding make_all_claims
make_all_claims-located Q [] s h = tt
make_all_claims-located Q (c ∷ cs) s (p, h) = (p, make_all_claims-located Q cs _ h)

-- `R` of the title, the branches and the positions.
module _ (R : FindingTitleCode → List BranchId → List PathPosition → Type 0) where
  abbrev pub Titled : Finding → Type 0
  Titled f = R f.title_code f.branch_ids f.path_positions

  abbrev pub TitledCandidate : RuleId → RuleCandidate → Type 0
  TitledCandidate rule c = All (λ t. R t.title_code t.branch_ids t.path_positions) c.findings

  make_findings-All :
      (rule : RuleId) (local : Table ClaimId) (ts : List FindingTemplate) (s : FindingState)
      → All (λ t. R t.title_code t.branch_ids t.path_positions) ts
      → All Titled s.findings
      → All Titled (make_findings rule local ts s).findings
  unfolding make_findings add_finding
  make_findings-All rule local [] s h k = k
  make_findings-All rule local (t ∷ ts) s (p, h) k =
      make_findings-All rule local ts (add_finding rule local t s) h
        (All-append Titled s.findings _ k (p, tt))

  make_all_findings-All :
      (ls : List (CompiledCandidate × Table ClaimId)) (s : FindingState)
      → All (λ l. TitledCandidate l.0.rule l.0.candidate) ls
      → All Titled s.findings
      → All Titled (make_all_findings ls s).findings
  unfolding make_all_findings
  make_all_findings-All [] s h k = k
  make_all_findings-All ((c, local) ∷ ls) s (p, h) k =
      make_all_findings-All ls _ h (make_findings-All c.rule local c.candidate.findings s p k)

  Titled-unselected :
      (fs gs : List Finding) → unselected_all fs ≡ unselected_all gs → All Titled fs → All Titled gs
  Titled-unselected fs [] h k = tt
  Titled-unselected [] (g ∷ gs) h k = absurd (cc h)
  Titled-unselected (f ∷ fs) (g ∷ gs) h (p, k) =
      let same : unselected f ≡ unselected g = ground arith in
      (subst Titled same p, Titled-unselected fs gs (ground arith) k)

  pub findings_made-Titled :
      (registry : List Rule) (r : EvidenceRun)
      → All (Returns TitledCandidate r) registry
      → All Titled (findings_made (sort less_candidate (collect_candidates registry r).0)).findings
  unfolding findings_made claims_made
  findings_made-Titled registry r made =
      let cs = sort less_candidate (collect_candidates registry r).0 in
      make_all_findings-All (claims_made cs).1 _
        (make_all_claims-located (λ c. TitledCandidate c.rule c.candidate) cs _
          (All-sort _ less_candidate _ (collect_candidates-All TitledCandidate registry r made)))
        tt

  -- What holds of the title, the branches and the positions of every finding template that the rules
  -- return for the evidence holds of the findings of the run that is handed over.
  pub evaluate-Titled :
      (registry : List Rule) (r : EvidenceRun) (clock : Time) (e : EvaluatedRun)
      → evaluate registry r clock ≡ Evaluated.handed_over e
      → All (Returns TitledCandidate r) registry
      → All Titled e.findings
  unfolding evaluate select_or_reject
  evaluate-Titled registry r clock e h made =
      let cs = sort less_candidate (collect_candidates registry r).0 in
      let run = compiled r clock registry cs in
      let all_made = findings_made-Titled registry r made in
      let same : (apply run).0 ≡ e = ground arith in
      let kept : unselected_all (findings_made cs).findings
          ≡ unselected_all (apply run).0.findings =
        sym (unfold compiled in (apply_keeps run).0) in
      subst (λ x. All Titled x.findings) same
        (Titled-unselected (findings_made cs).findings (apply run).0.findings kept all_made)

-- The selected findings of the run that is handed over are strong blockers on a branch.
pub evaluate-IsEligible :
    (registry : List Rule) (r : EvidenceRun) (clock : Time) (e : EvaluatedRun)
    → evaluate registry r clock ≡ Evaluated.handed_over e
    → All (λ f. f.selection ≢ Selection.none → IsEligible f) e.findings
unfolding evaluate select_or_reject
evaluate-IsEligible registry r clock e h =
    let run = compiled r clock registry (sort less_candidate (collect_candidates registry r).0) in
    let same : (apply run).0 ≡ e = ground arith in
    subst (λ x. All (λ f. f.selection ≢ Selection.none → IsEligible f) x.findings) same
      (apply_selects_strong run)
