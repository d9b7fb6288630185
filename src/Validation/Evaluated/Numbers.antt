-- ===== src/Validation/Evaluated/Numbers.antt =====
-- What holds of a run that `ValidatePersistedEvaluatedRun` of
-- internal/model/validate_evaluated.go accepts: the numbers of its claims and findings.
use route_doc.Common.{
  ℕ, zero, suc, ◌+◌, ◌≡◌, refl, ◌∙◌, ap, false, not, List, [], ◌∷◌, ◌++◌, inl, inr, some, arith,
  Text, length, Bool-cases, ◌==◌, ==_iff, eq_text, eq_number, ltb, replicate, ◌-◌, ◌≤◌,
}
use route_doc.Model.Claims.{Claim, Finding}
use route_doc.Model.Runs.{EvaluatedRun}
use route_doc.Decimal.{itoa}
use route_doc.Ids.{claim_prefix, finding_prefix, padded, claim_id, finding_id}
use route_doc.Rules.Numbers.{Numbered}
use route_doc.Validation.Shared.{issue_if-nil, append-nil}
use route_doc.Validation.Shared.Loops.{AllFrom, each_seen-AllFrom}
use route_doc.Validation.Texts.{TextLibrary}
use route_doc.Validation.Evidence.{accepted}
use route_doc.Validation.Support.Justified.{positions_of}
use route_doc.Validation.Claims.{pad_six, generated_id}
use route_doc.Validation.Findings.{finding_issues}
use route_doc.Validation.Evaluated.{claim_issues, validate_persisted_evaluated_run}
use route_doc.Validation.Evaluated.Parts.{validate_persisted-Parts}

pad_six-full : (fuel : ℕ) (v : Text) → ltb (length v) 6 ≡ false → pad_six fuel v ≡ v
unfolding pad_six
pad_six-full zero v h = refl
pad_six-full (suc fuel) v h = rw (h, pad_six) refl

replicate-shift :
    (n : ℕ) (v : Text) → replicate n b'0' ++ (b'0' ∷ v) ≡ b'0' ∷ (replicate n b'0' ++ v)
replicate-shift zero v = refl
replicate-shift (suc n) v = ap (λ s. b'0' ∷ s) (replicate-shift n v)

pad_six-replicate :
    (fuel : ℕ) (v : Text)
    → 6 ≤ fuel + length v
    → pad_six fuel v ≡ replicate (6 - length v) b'0' ++ v
unfolding pad_six
pad_six-replicate zero v h = let none_left : 6 - length v ≡ 0 = omega arith in rw none_left refl
pad_six-replicate (suc fuel) v h = elim (Bool-cases (ltb (length v) 6)) [
  | inr e ↦ let none_left : 6 - length v ≡ 0 = ground arith in rw (e, none_left, pad_six) refl
  | inl e ↦
      let one_less : 6 - length v ≡ suc (6 - suc (length v)) = ground arith in
      let below = pad_six-replicate fuel (b'0' ∷ v) (omega arith) in
      rw (e, one_less, pad_six) (below ∙ replicate-shift (6 - suc (length v)) v)
]

-- The identifiers that the validation expects are those that the rule engine makes: the loop that
-- puts zeros in front of a number gives the text of the format %06d.
pub generated_id-padded :
    (n : ℕ)
    → (generated_id claim_prefix n ≡ claim_id n) × (generated_id finding_prefix n ≡ finding_id n)
unfolding generated_id claim_id finding_id padded
generated_id-padded n =
    let e = pad_six-replicate 6 (itoa n) (omega arith) in
    (ap (λ s. claim_prefix ++ s) e, ap (λ s. finding_prefix ++ s) e)

AllFrom-Numbered :
    {A : Type 0} (key : A → Text) (name : ℕ → Text) (i : ℕ) (xs : List A)
    → AllFrom (λ j x. key x ≡ name (j + 1)) i xs
    → Numbered key name (i + 1) xs
AllFrom-Numbered key name i [] h = tt
AllFrom-Numbered key name i (x ∷ xs) h = (h.0, AllFrom-Numbered key name (i + 1) xs h.1)

claim_numbers :
    (lib : TextLibrary) (r : EvaluatedRun) (seen : List Text) (i : ℕ) (c : Claim)
    → claim_issues lib r seen i c ≡ []
    → c.claim_id ≡ claim_id (i + 1)
unfolding claim_issues
claim_numbers lib r seen i c h =
    let (h, _) = (append-nil _ _).0 h in
    let (h, _) = (append-nil _ _).0 h in
    let (h, _) = (append-nil _ _).0 h in
    let (h, _) = (append-nil _ _).0 h in
    let (h, _) = (append-nil _ _).0 h in
    let (h, n) = (append-nil _ _).0 h in
    let k = (issue_if-nil (not (c.claim_id == generated_id claim_prefix (i + 1))) _ _ _).0 n in
    let e = (==_iff c.claim_id (generated_id claim_prefix (i + 1))).0 (ground arith) in
    e ∙ (generated_id-padded (i + 1)).0

finding_numbers :
    (r : EvaluatedRun) (seen : List Text) (i : ℕ) (f : Finding)
    → finding_issues r (positions_of r.claims) seen i f ≡ []
    → f.finding_id ≡ finding_id (i + 1)
unfolding finding_issues
finding_numbers r seen i f h =
    let (h, _) = (append-nil _ _).0 h in
    let (h, _) = (append-nil _ _).0 h in
    let (h, _) = (append-nil _ _).0 h in
    let (h, _) = (append-nil _ _).0 h in
    let (h, _) = (append-nil _ _).0 h in
    let (h, _) = (append-nil _ _).0 h in
    let (h, _) = (append-nil _ _).0 h in
    let (h, _) = (append-nil _ _).0 h in
    let (h, n) = (append-nil _ _).0 h in
    let k = (issue_if-nil (not (f.finding_id == generated_id finding_prefix (i + 1))) _ _ _).0 n in
    let e = (==_iff f.finding_id (generated_id finding_prefix (i + 1))).0 (ground arith) in
    e ∙ (generated_id-padded (i + 1)).1

-- In a run that the validation accepts, the claims and the findings carry the identifiers that the
-- rule engine makes, numbered from one without a gap.
pub accepted-Numbered :
    (lib : TextLibrary) (r v : EvaluatedRun)
    → validate_persisted_evaluated_run lib r ≡ some (accepted v)
    → Numbered (λ c. c.claim_id) claim_id 1 r.claims
      × Numbered (λ f. f.finding_id) finding_id 1 r.findings
accepted-Numbered lib r v h =
    let (same, parts) = validate_persisted-Parts lib r v h in
    (
      AllFrom-Numbered _ claim_id 0 r.claims (
          each_seen-AllFrom (λ c. c.claim_id) (claim_issues lib r) _ (claim_numbers lib r) [] 0
            r.claims parts.claims),
      AllFrom-Numbered _ finding_id 0 r.findings (
          each_seen-AllFrom (λ f. f.finding_id) (finding_issues r (positions_of r.claims)) _
            (finding_numbers r) [] 0 r.findings parts.findings),
    )
