-- ===== src/Rules/Quiet.antt =====
-- When the loops of internal/rules/evaluate.go report nothing: for candidates with one claim and one
-- finding on it.
use route_doc.Common.{
  ◌≡◌, ◌≢◌, refl, sym, ◌∙◌, false, List, [], ◌∷◌, ◌++◌, Text, Table, arith, lookup, insert, All,
  ◌==◌, ==_iff, eq_text, text_eq, text_eq_refl,
}
use mathlib.Core.Path.{subst}
use mathlib.Core.List.{append-nil}
use route_doc.Model.Ids.{RuleId, ClaimId}
use route_doc.Model.Enums.{EvidenceKind, eq_evidence_kind}
use route_doc.Model.Issues.{ValidationIssue}
use route_doc.Ids.{claim_id}
use route_doc.Rules.Templates.{
  EvidenceTemplate, ClaimTemplate, FindingTemplate, RuleCandidate, local_id,
}
use route_doc.Rules.Compile.{
  CompiledCandidate, ClaimState, FindingState, forward_issues, key_taken, add_claim, make_claims,
  make_all_claims, missing_issues, add_finding, make_findings, make_all_findings,
}
use route_doc.Rules.Evaluate.{claims_made, findings_made}

-- No template of the list names a claim.
abbrev pub NamesNoClaim : List EvidenceTemplate → Type 0
NamesNoClaim xs = All (λ x. x.kind ≢ EvidenceKind.claim) xs

-- The candidate has one claim, with a key and no reference to a claim, and one finding, on it.
pub record IsPlain (c : RuleCandidate) : Type 0 where
  pub claim : ClaimTemplate
  pub finding : FindingTemplate
  pub claims : c.claims ≡ claim ∷ []
  pub findings : c.findings ≡ finding ∷ []
  pub keyed : claim.local_key ≢ []
  pub named : finding.claim_local_keys ≡ claim.local_key ∷ []
  pub supporting : NamesNoClaim claim.supporting_evidence
  pub contradicting : NamesNoClaim claim.contradicting_evidence

forward_issues-none :
    (local : Table ClaimId) (xs : List EvidenceTemplate)
    → NamesNoClaim xs
    → forward_issues local xs ≡ []
unfolding forward_issues
forward_issues-none local [] h = refl
forward_issues-none local (x ∷ xs) (n, h) =
    let rest = forward_issues-none local xs h in
    let k = (==_iff x.kind EvidenceKind.claim).0 in ground arith

-- The claim of a plain candidate adds no issue, and its key leads to it.
record Located (issues : List ValidationIssue) (key : Text) (result : ClaimState × Table ClaimId)
    : Type 0 where
  quiet : result.0.issues ≡ issues
  leads : (local_id result.1 key == []) ≡ false

add_claim-Located :
    (rule : RuleId) (t : ClaimTemplate) (s : ClaimState)
    → NamesNoClaim t.supporting_evidence
    → NamesNoClaim t.contradicting_evidence
    → Located s.issues t.local_key (add_claim rule t s [])
unfolding add_claim local_id insert lookup claim_id
add_claim-Located rule t s a b =
    let local = insert t.local_key (claim_id s.claim_number) [] in
    let here = text_eq_refl t.local_key in
    record {
      quiet =
          rw
            (
              forward_issues-none local t.supporting_evidence a,
              forward_issues-none local t.contradicting_evidence b,
              add_claim,
            )
            (append-nil (s.issues ++ []) ∙ append-nil s.issues);
      leads = rw (here, local_id, lookup) (ground (arith, (==_iff (claim_id s.claim_number) []).0));
    }

make_claims-plain :
    (rule : RuleId) (c : RuleCandidate) (p : IsPlain c) (s : ClaimState)
    → Located s.issues p.claim.local_key (make_claims rule c.claims s [])
unfolding make_claims key_taken local_id lookup text_eq
make_claims-plain rule c p s =
    let key = p.claim.local_key in
    let some_key : (key == []) ≡ false = ground (arith, p.keyed, (==_iff key []).0) in
    let free : key_taken [] key ≡ false = rw (some_key, key_taken) refl in
    let here : Located s.issues key (make_claims rule (p.claim ∷ []) s []) =
      rw (free, make_claims) (add_claim-Located rule p.claim s p.supporting p.contradicting) in
    subst (λ ts. Located s.issues key (make_claims rule ts s [])) (sym p.claims) here

-- The candidate is plain, and the key of its claim leads to it.
record IsLocated (l : CompiledCandidate × Table ClaimId) : Type 0 where
  plain : IsPlain l.0.candidate
  leads : (local_id l.1 plain.claim.local_key == []) ≡ false

make_all_claims-quiet :
    (cs : List CompiledCandidate) (s : ClaimState)
    → All (λ c. IsPlain c.candidate) cs
    → ((make_all_claims cs s).0.issues ≡ s.issues) × All IsLocated (make_all_claims cs s).1
unfolding make_all_claims
make_all_claims-quiet [] s h = (refl, tt)
make_all_claims-quiet (c ∷ cs) s (p, h) =
    let one = make_claims-plain c.rule c.candidate p s in
    let (quiet, rest) = make_all_claims-quiet cs (make_claims c.rule c.candidate.claims s []).0 h in
    (quiet ∙ one.quiet, (record { plain = p; leads = one.leads }, rest))

make_findings-quiet :
    (l : CompiledCandidate × Table ClaimId) (s : FindingState)
    → IsLocated l
    → (make_findings l.0.rule l.1 l.0.candidate.findings s).issues ≡ s.issues
unfolding make_findings add_finding missing_issues
make_findings-quiet l s h =
    let f = h.plain.finding in
    let known : missing_issues l.1 f.claim_local_keys ≡ [] =
      rw h.plain.named (rw (h.leads, missing_issues) refl) in
    let here : (make_findings l.0.rule l.1 (f ∷ []) s).issues ≡ s.issues =
      rw (known, make_findings, add_finding) (append-nil s.issues) in
    subst (λ ts. (make_findings l.0.rule l.1 ts s).issues ≡ s.issues) (sym h.plain.findings) here

make_all_findings-quiet :
    (ls : List (CompiledCandidate × Table ClaimId)) (s : FindingState)
    → All IsLocated ls
    → (make_all_findings ls s).issues ≡ s.issues
unfolding make_all_findings
make_all_findings-quiet [] s h = refl
make_all_findings-quiet (l ∷ ls) s (p, h) =
    make_all_findings-quiet ls (make_findings l.0.rule l.1 l.0.candidate.findings s) h
    ∙ make_findings-quiet l s p

-- Plain candidates give claims and findings without an issue.
pub findings_made-quiet :
    (cs : List CompiledCandidate)
    → All (λ c. IsPlain c.candidate) cs
    → (findings_made cs).issues ≡ []
unfolding findings_made claims_made
findings_made-quiet cs h =
    let (quiet, located) =
      make_all_claims-quiet cs (record { claim_number = 1; claims = []; issues = [] }) h in
    make_all_findings-quiet (claims_made cs).1 _ located ∙ quiet
