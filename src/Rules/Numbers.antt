-- ===== src/Rules/Numbers.antt =====
-- The numbers that `Evaluate` of internal/rules/evaluate.go gives claims and findings.
use route_doc.Common.{
  ℕ, suc, ◌+◌, ◌≡◌, refl, List, [], ◌∷◌, ◌++◌, Text, Table, arith, length, length-append,
  Bool-cases, inl, inr,
}
use mathlib.Core.Path.{subst}
use route_doc.Model.Ids.{RuleId, ClaimId}
use route_doc.Ids.{claim_id, finding_id}
use route_doc.Rules.Templates.{ClaimTemplate, FindingTemplate}
use route_doc.Rules.Compile.{
  CompiledCandidate, ClaimState, FindingState, key_taken, add_claim, make_claims, make_all_claims,
  claim_from, add_finding, make_findings, make_all_findings,
}
use route_doc.Rules.Evaluate.{claims_made, findings_made}

-- The elements carry `name k`, `name (k + 1)` and so on.
abbrev pub Numbered : {A : Type 0} → (A → Text) → (ℕ → Text) → ℕ → List A → Type 0
Numbered key name k [] = Unit
Numbered key name k (x ∷ xs) = (key x ≡ name k) × Numbered key name (k + 1) xs

Numbered-append :
    {A : Type 0} (key : A → Text) (name : ℕ → Text) (k : ℕ) (xs : List A) (y : A)
    → Numbered key name k xs
    → key y ≡ name (k + length xs)
    → Numbered key name k (xs ++ y ∷ [])
Numbered-append key name k [] y h e =
    let same : k + 0 ≡ k = omega arith in (subst (λ n. key y ≡ name n) same e, tt)
Numbered-append key name k (x ∷ xs) y h e =
    let same : k + suc (length xs) ≡ k + 1 + length xs = omega arith in
    (h.0, Numbered-append key name (k + 1) xs y h.1 (subst (λ n. key y ≡ name n) same e))

abbrev ClaimsNumbered : ClaimState → Type 0
ClaimsNumbered s =
    (s.claim_number ≡ 1 + length s.claims) × Numbered (λ c. c.claim_id) claim_id 1 s.claims

add_claim-Numbered :
    (rule : RuleId) (t : ClaimTemplate) (s : ClaimState) (local : Table ClaimId)
    → ClaimsNumbered s
    → ClaimsNumbered (add_claim rule t s local).0
unfolding add_claim claim_from
add_claim-Numbered rule t s local (n, h) = (
  rw (length-append s.claims) (omega arith),
  Numbered-append _ claim_id 1 s.claims _ h
      (subst (λ k. claim_id s.claim_number ≡ claim_id k) n refl),
)

make_claims-Numbered :
    (rule : RuleId) (ts : List ClaimTemplate) (s : ClaimState) (local : Table ClaimId)
    → ClaimsNumbered s
    → ClaimsNumbered (make_claims rule ts s local).0
unfolding make_claims
make_claims-Numbered rule [] s local h = h
make_claims-Numbered rule (t ∷ ts) s local h = elim (Bool-cases (key_taken local t.local_key)) [
  | inl e ↦ rw (e, make_claims) (make_claims-Numbered rule ts _ local h)
  | inr e ↦
      rw (e, make_claims) (make_claims-Numbered rule ts _ _ (add_claim-Numbered rule t s local h))
]

make_all_claims-Numbered :
    (cs : List CompiledCandidate) (s : ClaimState)
    → ClaimsNumbered s
    → ClaimsNumbered (make_all_claims cs s).0
unfolding make_all_claims
make_all_claims-Numbered [] s h = h
make_all_claims-Numbered (c ∷ cs) s h =
    make_all_claims-Numbered cs _ (make_claims-Numbered c.rule c.candidate.claims s [] h)

abbrev FindingsNumbered : FindingState → Type 0
FindingsNumbered s =
    (s.finding_number ≡ 1 + length s.findings)
    × Numbered (λ f. f.finding_id) finding_id 1 s.findings

make_findings-Numbered :
    (rule : RuleId) (local : Table ClaimId) (ts : List FindingTemplate) (s : FindingState)
    → FindingsNumbered s
    → FindingsNumbered (make_findings rule local ts s)
unfolding make_findings add_finding
make_findings-Numbered rule local [] s h = h
make_findings-Numbered rule local (t ∷ ts) s (n, h) = make_findings-Numbered rule local ts _ (
  rw (length-append s.findings) (omega arith),
  Numbered-append _ finding_id 1 s.findings _ h
      (subst (λ k. finding_id s.finding_number ≡ finding_id k) n refl),
)

make_all_findings-Numbered :
    (cs : List (CompiledCandidate × Table ClaimId)) (s : FindingState)
    → FindingsNumbered s
    → FindingsNumbered (make_all_findings cs s)
unfolding make_all_findings
make_all_findings-Numbered [] s h = h
make_all_findings-Numbered ((c, local) ∷ cs) s h =
    make_all_findings-Numbered cs _ (make_findings-Numbered c.rule local c.candidate.findings s h)

pub claims_made-Numbered :
    (cs : List CompiledCandidate) → Numbered (λ c. c.claim_id) claim_id 1 (claims_made cs).0.claims
unfolding claims_made
claims_made-Numbered cs = (make_all_claims-Numbered cs _ (omega arith, tt)).1

pub findings_made-Numbered :
    (cs : List CompiledCandidate)
    → Numbered (λ f. f.finding_id) finding_id 1 (findings_made cs).findings
unfolding findings_made
findings_made-Numbered cs = (make_all_findings-Numbered _ _ (omega arith, tt)).1
