-- ===== src/Rules/References.antt =====
-- The claims that the findings of `Evaluate` in internal/rules/evaluate.go name.
use route_doc.Common.{
  ◌≡◌, refl, true, List, [], ◌∷◌, ◌++◌, Text, Table, arith, lookup, AllEntries, AllEntries-insert,
  AllEntries-lookup, All, All-append, Exists, now, later, map, Option-cases, Bool-cases, inl, inr,
  ◌==◌, eq_text, ==_iff,
}
use route_doc.Model.Ids.{RuleId, ClaimId}
use route_doc.Model.Claims.{Claim, Finding}
use route_doc.Rules.Templates.{ClaimTemplate, FindingTemplate, local_id}
use route_doc.Rules.Compile.{
  CompiledCandidate, ClaimState, FindingState, key_taken, add_claim, make_claims, make_all_claims,
  claim_from, missing_issues, add_finding, make_findings, make_all_findings,
}
use route_doc.Rules.Evaluate.{claims_made, findings_made}

-- One of the claims has the identifier and comes from the rule.
abbrev pub MadeBy : List Claim → RuleId → ClaimId → Type 0
MadeBy claims rule id = Exists (λ c. (c.claim_id ≡ id) × (c.rule_id ≡ rule)) claims

-- The claims of `cs` are still there in `ds`.
abbrev Kept : List Claim → List Claim → Type 0
Kept cs ds = (rule : RuleId) (id : ClaimId) → MadeBy cs rule id → MadeBy ds rule id

Exists-left : {P : Claim → Type 0} (xs ys : List Claim) → Exists P xs → Exists P (xs ++ ys)
Exists-left [] ys e = elim e [ ]
Exists-left (x ∷ xs) ys (now p) = now p
Exists-left (x ∷ xs) ys (later e) = later (Exists-left xs ys e)

Exists-last : {P : Claim → Type 0} (xs : List Claim) (y : Claim) → P y → Exists P (xs ++ y ∷ [])
Exists-last [] y p = now p
Exists-last (x ∷ xs) y p = later (Exists-last xs y p)

abbrev Located : RuleId → List Claim → Table ClaimId → Type 0
Located rule claims = AllEntries (λ key id. MadeBy claims rule id)

Located-Kept :
    (rule : RuleId) (cs ds : List Claim) (local : Table ClaimId)
    → Kept cs ds
    → Located rule cs local
    → Located rule ds local
Located-Kept rule cs ds [] k h = tt
Located-Kept rule cs ds ((key, id) ∷ m) k (e, h) = (k rule id e, Located-Kept rule cs ds m k h)

-- The claims made so far are kept, and the keys lead to claims of the rule.
abbrev Sound : RuleId → ClaimState → ClaimState × Table ClaimId → Type 0
Sound rule s result = Kept s.claims result.0.claims × Located rule result.0.claims result.1

add_claim-Sound :
    (rule : RuleId) (t : ClaimTemplate) (s : ClaimState) (local : Table ClaimId)
    → Located rule s.claims local
    → Sound rule s (add_claim rule t s local)
unfolding add_claim claim_from
add_claim-Sound rule t s local h =
    let kept : Kept s.claims (add_claim rule t s local).0.claims =
      λ q id e. Exists-left s.claims _ e in
    (
      kept,
      AllEntries-insert _ t.local_key _ local (Exists-last s.claims _ (refl, refl))
          (Located-Kept rule s.claims _ local kept h),
    )

make_claims-Sound :
    (rule : RuleId) (ts : List ClaimTemplate) (s : ClaimState) (local : Table ClaimId)
    → Located rule s.claims local
    → Sound rule s (make_claims rule ts s local)
unfolding make_claims
make_claims-Sound rule [] s local h = (λ q id e. e, h)
make_claims-Sound rule (t ∷ ts) s local h = elim (Bool-cases (key_taken local t.local_key)) [
  | inl e ↦ rw (e, make_claims) (make_claims-Sound rule ts _ local h)
  | inr e ↦
      let one = add_claim-Sound rule t s local h in
      let rest = make_claims-Sound rule ts _ _ one.1 in
      rw (e, make_claims) (λ q id e. rest.0 q id (one.0 q id e), rest.1)
]

-- Every candidate's table leads to claims of its rule.
abbrev AllLocated : List Claim → List (CompiledCandidate × Table ClaimId) → Type 0
AllLocated claims = All (λ entry. Located entry.0.rule claims entry.1)

make_all_claims-Sound :
    (cs : List CompiledCandidate) (s : ClaimState)
    → Kept s.claims (make_all_claims cs s).0.claims
      × AllLocated (make_all_claims cs s).0.claims (make_all_claims cs s).1
unfolding make_all_claims
make_all_claims-Sound [] s = (λ q id e. e, tt)
make_all_claims-Sound (c ∷ cs) s =
    let one = make_claims-Sound c.rule c.candidate.claims s [] tt in
    let rest = make_all_claims-Sound cs (make_claims c.rule c.candidate.claims s []).0 in
    (λ q id e. rest.0 q id (one.0 q id e), (Located-Kept c.rule _ _ _ rest.0 one.1, rest.1))

-- The finding names claims of its own rule only.
abbrev pub NamesOwnClaims : List Claim → Finding → Type 0
NamesOwnClaims claims f = All (MadeBy claims f.rule_id) f.claim_ids

named_claims :
    (rule : RuleId) (claims : List Claim) (local : Table ClaimId) (keys : List Text)
    → Located rule claims local
    → missing_issues local keys ≡ []
    → All (MadeBy claims rule) (map (local_id local) keys)
unfolding missing_issues local_id
named_claims rule claims local [] h e = tt
named_claims rule claims local (key ∷ keys) h e = elim (Option-cases (lookup key local)) [
  | inl n ↦
      let same : local_id local key ≡ [] = rw (n, local_id) refl in
      let empty : (local_id local key == []) ≡ true = (==_iff (local_id local key) []).1 same in
      absurd (ground arith)
  | inr (id, n) ↦ (
    rw (n, local_id) (AllEntries-lookup _ key local id h n),
    named_claims rule claims local keys h (ground arith),
  )
]

append_nil : {A : Type 0} (xs ys : List A) → xs ++ ys ≡ [] → (xs ≡ []) × (ys ≡ [])
append_nil [] ys e = (refl, e)
append_nil (x ∷ xs) ys e = absurd (cc e)

-- The loops only add issues.
make_findings-quiet :
    (rule : RuleId) (local : Table ClaimId) (ts : List FindingTemplate) (s : FindingState)
    → (make_findings rule local ts s).issues ≡ []
    → s.issues ≡ []
unfolding make_findings add_finding
make_findings-quiet rule local [] s e = e
make_findings-quiet rule local (t ∷ ts) s e =
    (append_nil s.issues _ (make_findings-quiet rule local ts (add_finding rule local t s) e)).0

make_all_findings-quiet :
    (cs : List (CompiledCandidate × Table ClaimId)) (s : FindingState)
    → (make_all_findings cs s).issues ≡ []
    → s.issues ≡ []
unfolding make_all_findings
make_all_findings-quiet [] s e = e
make_all_findings-quiet ((c, local) ∷ cs) s e =
    make_findings-quiet c.rule local c.candidate.findings s
      (make_all_findings-quiet cs (make_findings c.rule local c.candidate.findings s) e)

module _ (claims : List Claim) where
  make_findings-names :
      (rule : RuleId) (local : Table ClaimId) (ts : List FindingTemplate) (s : FindingState)
      → Located rule claims local
      → (make_findings rule local ts s).issues ≡ []
      → All (NamesOwnClaims claims) s.findings
      → All (NamesOwnClaims claims) (make_findings rule local ts s).findings
  unfolding make_findings add_finding
  make_findings-names rule local [] s h e a = a
  make_findings-names rule local (t ∷ ts) s h e a =
      let quiet =
        append_nil s.issues _ (make_findings-quiet rule local ts (add_finding rule local t s) e) in
      make_findings-names rule local ts (add_finding rule local t s) h e (
        All-append (NamesOwnClaims claims) s.findings _ a
          (named_claims rule claims local t.claim_local_keys h quiet.1, tt))

  make_all_findings-names :
      (cs : List (CompiledCandidate × Table ClaimId)) (s : FindingState)
      → AllLocated claims cs
      → (make_all_findings cs s).issues ≡ []
      → All (NamesOwnClaims claims) s.findings
      → All (NamesOwnClaims claims) (make_all_findings cs s).findings
  unfolding make_all_findings
  make_all_findings-names [] s h e a = a
  make_all_findings-names ((c, local) ∷ cs) s (l, h) e a =
      let next = make_findings c.rule local c.candidate.findings s in
      make_all_findings-names cs next h e (
        make_findings-names c.rule local c.candidate.findings s l
          (make_all_findings-quiet cs next e) a)

pub findings_made-names :
    (cs : List CompiledCandidate)
    → (findings_made cs).issues ≡ []
    → All (NamesOwnClaims (claims_made cs).0.claims) (findings_made cs).findings
unfolding findings_made claims_made
findings_made-names cs e = make_all_findings-names _ _ _ (make_all_claims-Sound cs _).1 e tt
