-- ===== src/Rules/Provenance.antt =====
-- Where the claims come from that `Evaluate` of internal/rules/evaluate.go makes: what holds of the
-- claims made of every template of the rules holds of the claims of the run.
pub mod Findings
use mathlib.Core.Path.{subst}
use route_doc.Common.{
  ◌≡◌, refl, sym, true, false, List, [], ◌∷◌, ◌++◌, arith, All, All-append, All-sort, Table, Text,
  sort, length, leb, contains, Bool-cases, inl, inr,
}
use route_doc.Model.Ids.{Time, ClaimId, RuleId}
use route_doc.Model.Claims.{Claim}
use route_doc.Model.Runs.{EvidenceRun, EvaluatedRun}
use route_doc.Selection.Apply.{apply}
use route_doc.Selection.Laws.{apply_keeps}
use route_doc.Rules.Templates.{ClaimTemplate, RuleCandidate, Rule, valid_candidate_key}
use route_doc.Rules.Compile.{
  CompiledCandidate, ClaimState, collect_raw, collect_candidates, less_candidate, claim_from,
  add_claim, key_taken, make_claims, make_all_claims,
}
use route_doc.Rules.Evaluate.{
  Evaluated, findings_made, claims_made, compiled, select_or_reject, evaluate,
}

-- What holds of every candidate that a rule returns, and of every candidate that is collected.
module _ (Q : RuleId → RuleCandidate → Type 0) where
  abbrev pub Returns : EvidenceRun → Rule → Type 0
  Returns r rule = All (Q rule.id) (rule.evaluate r)

  collect_raw-All :
      (rule : RuleId) (seen : List Text) (cs : List RuleCandidate)
      → All (Q rule) cs
      → All (λ c. Q c.rule c.candidate) (collect_raw rule seen cs).0
  unfolding collect_raw
  collect_raw-All rule seen [] h = tt
  collect_raw-All rule seen (c ∷ cs) (p, h) =
      elim (Bool-cases (valid_candidate_key c.candidate_key)) [
        | inr e ↦ rw (e, collect_raw) (collect_raw-All rule seen cs h)
        | inl e ↦ elim (Bool-cases (contains seen c.candidate_key)) [
          | inl k ↦ rw (e, k, collect_raw) (collect_raw-All rule seen cs h)
          | inr k ↦ rw (e, k, collect_raw) (p, collect_raw-All rule (c.candidate_key ∷ seen) cs h)
        ]
      ]

  pub collect_candidates-All :
      (rules : List Rule) (r : EvidenceRun)
      → All (Returns r) rules
      → All (λ c. Q c.rule c.candidate) (collect_candidates rules r).0
  unfolding collect_candidates
  collect_candidates-All [] r h = tt
  collect_candidates-All (rule ∷ rules) r (p, h) =
      All-append _ _ _ (collect_raw-All rule.id [] (rule.evaluate r) p)
        (collect_candidates-All rules r h)

module _ (P : Claim → Type 0) where
  -- `P` holds of every claim made of a template of the candidate for the rule.
  abbrev pub Makes : RuleId → RuleCandidate → Type 0
  Makes rule c =
      All (λ t. (id : ClaimId) (local : Table ClaimId) → P (claim_from rule id local t)) c.claims

  abbrev pub MakesAll : EvidenceRun → Rule → Type 0
  MakesAll = Returns Makes

  make_claims-All :
      (rule : RuleId) (ts : List ClaimTemplate) (s : ClaimState) (local : Table ClaimId)
      → All (λ t. (id : ClaimId) (local : Table ClaimId) → P (claim_from rule id local t)) ts
      → All P s.claims
      → All P (make_claims rule ts s local).0.claims
  unfolding make_claims add_claim
  make_claims-All rule [] s local h k = k
  make_claims-All rule (t ∷ ts) s local (p, h) k = elim (Bool-cases (key_taken local t.local_key)) [
    | inl e ↦ rw (e, make_claims) (make_claims-All rule ts _ local h k)
    | inr e ↦
        rw (e, make_claims) (make_claims-All rule ts _ _ h (All-append P s.claims _ k (p _ _, tt)))
  ]

  make_all_claims-All :
      (cs : List CompiledCandidate) (s : ClaimState)
      → All (λ c. Makes c.rule c.candidate) cs
      → All P s.claims
      → All P (make_all_claims cs s).0.claims
  unfolding make_all_claims
  make_all_claims-All [] s h k = k
  make_all_claims-All (c ∷ cs) s (p, h) k =
      make_all_claims-All cs _ h (make_claims-All c.rule c.candidate.claims s [] p k)

  -- What holds of the claims made of every template that the rules return for the evidence holds of
  -- the claims of the run that is handed over.
  pub evaluate-All :
      (registry : List Rule) (r : EvidenceRun) (clock : Time) (e : EvaluatedRun)
      → evaluate registry r clock ≡ Evaluated.handed_over e
      → All (MakesAll r) registry
      → All P e.claims
  unfolding evaluate select_or_reject claims_made
  evaluate-All registry r clock e h made =
      let cs = sort less_candidate (collect_candidates registry r).0 in
      let run = compiled r clock registry cs in
      let all_made : All P (claims_made cs).0.claims =
        make_all_claims-All cs _
          (All-sort _ less_candidate _ (collect_candidates-All Makes registry r made)) tt in
      let same : (apply run).0 ≡ e = ground arith in
      let kept : (claims_made cs).0.claims ≡ (apply run).0.claims =
        sym (unfold compiled in (apply_keeps run).3) in
      subst (λ x. All P x.claims) same (subst (All P) kept all_made)
