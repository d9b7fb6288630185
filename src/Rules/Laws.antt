-- ===== src/Rules/Laws.antt =====
-- What holds of every run that `Evaluate` of internal/rules/evaluate.go hands over for validation.
use mathlib.Core.Path.{subst}
use route_doc.Common.{
  ℕ, ◌+◌, ◌≡◌, refl, sym, ap, true, List, [], ◌∷◌, arith, length, leb, All, Bool-cases, inl, inr,
  sort,
}
use route_doc.Model.Ids.{Time}
use route_doc.Model.Claims.{Finding}
use route_doc.Model.Runs.{EvidenceRun, EvaluatedRun}
use route_doc.Model.Issues.{ValidationIssue}
use route_doc.Ids.{claim_id, finding_id}
use route_doc.GlobalPrimary.{validate_selection}
use route_doc.Selection.Apply.{apply}
use route_doc.Selection.Marks.{unselected, unselected_all}
use route_doc.Selection.Laws.{validate_selection-apply, apply_keeps}
use route_doc.Rules.Templates.{Rule}
use route_doc.Rules.Registry.{rule_ids}
use route_doc.Rules.Compile.{CompiledCandidate, collect_candidates, less_candidate}
use route_doc.Rules.Evaluate.{
  Evaluated, select_or_reject, findings_made, claims_made, compiled, evaluate,
}
use route_doc.Rules.Numbers.{Numbered, claims_made-Numbered, findings_made-Numbered}
use route_doc.Rules.References.{NamesOwnClaims, findings_made-names}

All-unselected :
    (P : Finding → Type 0) (fs : List Finding)
    → All (λ f. P (unselected f)) fs
    → All P (unselected_all fs)
All-unselected P [] h = tt
All-unselected P (f ∷ fs) (p, h) = (p, All-unselected P fs h)

All-selected :
    (P : Finding → Type 0) (fs : List Finding)
    → All P (unselected_all fs)
    → All (λ f. P (unselected f)) fs
All-selected P [] h = tt
All-selected P (f ∷ fs) (p, h) = (p, All-selected P fs h)

Numbered-unselected :
    (k : ℕ) (fs : List Finding)
    → Numbered (λ f. f.finding_id) finding_id k fs
    → Numbered (λ f. f.finding_id) finding_id k (unselected_all fs)
Numbered-unselected k [] h = tt
Numbered-unselected k (f ∷ fs) (p, h) = (p, Numbered-unselected (k + 1) fs h)

Numbered-selected :
    (k : ℕ) (fs : List Finding)
    → Numbered (λ f. f.finding_id) finding_id k (unselected_all fs)
    → Numbered (λ f. f.finding_id) finding_id k fs
Numbered-selected k [] h = tt
Numbered-selected k (f ∷ fs) (p, h) = (p, Numbered-selected (k + 1) fs h)

-- What the evaluation promises of the run `e` that it makes of `r`.
pub record IsEvaluation (registry : List Rule) (r : EvidenceRun) (clock : Time) (e : EvaluatedRun)
    : Type 0 where
  pub evidence : e.evidence ≡ r
  pub at : e.evaluation.evaluated_at ≡ clock
  pub rules : e.evaluation.ordered_rule_ids ≡ rule_ids registry
  pub claims : Numbered (λ c. c.claim_id) claim_id 1 e.claims
  pub findings : Numbered (λ f. f.finding_id) finding_id 1 e.findings
  pub references : All (NamesOwnClaims e.claims) e.findings
  pub selection : validate_selection e ≡ []

selected :
    (registry : List Rule) (r : EvidenceRun) (clock : Time) (cs : List CompiledCandidate)
    → (findings_made cs).issues ≡ []
    → IsEvaluation registry r clock (apply (compiled r clock registry cs)).0
selected registry r clock cs h =
    let run = compiled r clock registry cs in
    let keeps = apply_keeps run in
    let same : (claims_made cs).0.claims ≡ (apply run).0.claims =
      sym (unfold compiled in keeps.3) in
    let alike : unselected_all (findings_made cs).findings ≡ unselected_all (apply run).0.findings =
      sym (unfold compiled in keeps.0) in
    record {
      evidence = unfold compiled in keeps.1;
      at = unfold compiled in (ap (λ e. e.evaluated_at) keeps.2);
      rules = unfold compiled in (ap (λ e. e.ordered_rule_ids) keeps.2);
      claims = subst (Numbered (λ c. c.claim_id) claim_id 1) same (claims_made-Numbered cs);
      findings = Numbered-selected 1 _ (
          subst (Numbered (λ f. f.finding_id) finding_id 1) alike
            (Numbered-unselected 1 _ (findings_made-Numbered cs)));
      references = All-selected (NamesOwnClaims (apply run).0.claims) _ (
          subst (All (NamesOwnClaims (apply run).0.claims)) alike (
            All-unselected (NamesOwnClaims (apply run).0.claims) _ (
              subst (λ c. All (NamesOwnClaims c) (findings_made cs).findings) same
                (findings_made-names cs h))));
      selection = validate_selection-apply run;
    }

no_issues : (is : List ValidationIssue) → leb (length is) 0 ≡ true → is ≡ []
no_issues [] h = refl
no_issues (x ∷ xs) h = absurd (ground arith)

-- A run that the evaluation hands over for validation has the evidence, the clock and the rules that
-- it was given; its claims and findings are numbered from 1 on without gaps; its findings name only
-- claims of the run that come from the finding's own rule; and the selection is valid. This holds
-- for any rules.
pub evaluate-IsEvaluation :
    (registry : List Rule) (r : EvidenceRun) (clock : Time) (e : EvaluatedRun)
    → evaluate registry r clock ≡ Evaluated.handed_over e
    → IsEvaluation registry r clock e
unfolding evaluate select_or_reject
evaluate-IsEvaluation registry r clock e h =
    let cs = sort less_candidate (collect_candidates registry r).0 in
    let run = compiled r clock registry cs in
    elim (Bool-cases (leb (length (findings_made cs).issues) 0)) [
      | inl k ↦
          let same : (apply run).0 ≡ e = ground arith in
          subst (IsEvaluation registry r clock) same (selected registry r clock cs (no_issues _ k))
      | inr k ↦ absurd (ground arith)
    ]
