-- ===== src/Validation/Claims/References.antt =====
-- `validateClaimRefs` of internal/model/validate_evaluated.go: when it reports nothing.
use route_doc.Common.{
  ℕ, ◌<◌, ◌≡◌, ◌↔◌, refl, true, false, not, ◌||◌, List, [], inl, inr, Option, none, some, Text,
  arith, All, Table, lookup, any, leb, ◌==◌, ==_iff, eq_number, eq_text, Bool-cases, Option-cases,
}
use mathlib.Core.Path.{subst}
use route_doc.Model.Ids.{RuleId}
use route_doc.Model.Claims.{Claim}
use route_doc.Model.Paths.{EvidenceRef}
use route_doc.Model.Runs.{EvaluatedRun}
use route_doc.Model.Issues.{ValidationCode}
use route_doc.Model.Enums.{EvidenceKind, evidence_kind_valid}
use route_doc.Validation.Shared.{issue_if, issue_if-nil, append-nil, each-nil}
use route_doc.Validation.Paths.{ref_target_count}
use route_doc.Validation.Claims.{
  names_none, rule_at, is_rule, claim_ref_issues, ref_kind_issues, ref_issues, validate_claim_refs,
}

-- The identifier is there, and names an element of the list.
abbrev pub Names {ℓ} : {A : Type ℓ} → (A → Text) → List A → Option Text → Type 0
Names key xs o = (id : Text) × (o ≡ some id) × (any (λ x. key x == id) xs ≡ true)

names_none_iff {ℓ} :
    {A : Type ℓ} (key : A → Text) (xs : List A) (o : Option Text)
    → (names_none key xs o ≡ false) ↔ Names key xs o
unfolding names_none
names_none_iff key xs none = (λ h. cc, λ (id, e, h). cc)
names_none_iff key xs (some id) = (
  λ h. (id, refl, ground arith),
  λ (id2, e, h).
      let same : id2 ≡ id = ground arith in
      let found : any (λ x. key x == id) xs ≡ true =
        subst (λ i. any (λ x. key x == i) xs ≡ true) same h in
      ground arith,
)

-- The reference names an earlier claim of the same rule.
abbrev pub NamesEarlier : List Claim → Table ℕ → ℕ → RuleId → EvidenceRef → Type 0
NamesEarlier claims by index rule x =
    (id : Text) × (target : ℕ) × (x.claim_id ≡ some id)
    × (lookup id by ≡ some target)
    × (target < index)
    × (rule_at claims target ≡ some rule)

is_rule_iff : (o : Option RuleId) (rule : RuleId) → (is_rule o rule ≡ true) ↔ (o ≡ some rule)
is_rule_iff none rule = (λ h. cc, λ h. cc)
is_rule_iff (some r) rule =
    let iff = ==_iff r rule in (λ h. let e = iff.0 h in cc, λ h. iff.1 (ground arith))

claim_ref_issues_iff :
    (claims : List Claim) (by : Table ℕ) (index : ℕ) (rule : RuleId) (x : EvidenceRef) (p : Text)
    → (claim_ref_issues claims by index rule x p ≡ []) ↔ NamesEarlier claims by index rule x
unfolding claim_ref_issues issue_if
claim_ref_issues_iff claims by index rule x p = elim (Option-cases x.claim_id) [
  | inl n ↦
      (λ h. absurd (ground (arith, rw (n, claim_ref_issues) at h)), λ (id, t, e, k, lt, q). cc)
  | inr (id, n) ↦ elim (Option-cases (lookup id by)) [
    | inl m ↦ (
      λ h. absurd (ground (arith, rw (n, m, claim_ref_issues) at h)),
      λ (id2, t, e, k, lt, q).
          let same : id2 ≡ id = ground arith in
          let k' : lookup id by ≡ some t = subst (λ i. lookup i by ≡ some t) same k in cc,
    )
    | inr (target, m) ↦
        let rule_iff = is_rule_iff (rule_at claims target) rule in
        rw (n, m, claim_ref_issues)
          (
            λ h.
                let (a, b) = (append-nil _ _).0 h in
                let back = (issue_if-nil (leb index target) _ _ _).0 a in
                let own = (issue_if-nil (not (is_rule (rule_at claims target) rule)) _ _ _).0 b in
                (id, target, refl, m, ground arith, rule_iff.0 (ground arith)),
            λ (id2, t, e, k, lt, q).
                let same : id2 ≡ id = ground arith in
                let k' : lookup id by ≡ some t = subst (λ i. lookup i by ≡ some t) same k in
                let at_t : t ≡ target = ground arith in
                let q' = rule_iff.1 (subst (λ j. rule_at claims j ≡ some rule) at_t q) in
                (append-nil _ _).1 (
                  (issue_if-nil (leb index target) _ _ _).1 (ground arith),
                  (issue_if-nil (not (is_rule (rule_at claims target) rule)) _ _ _).1
                      (ground arith),
                ),
          )
  ]
]

-- What a reference of each kind has to name.
abbrev pub Resolves : EvaluatedRun → Table ℕ → ℕ → RuleId → EvidenceKind → EvidenceRef → Type 0
Resolves r by index rule EvidenceKind.observation x =
    Names (λ o. o.observation_id) r.evidence.observations x.observation_id
Resolves r by index rule EvidenceKind.visibility x =
    Names (λ v. v.visibility_id) r.evidence.visibility_assessments x.visibility_id
Resolves r by index rule EvidenceKind.assertion x =
    Names (λ a. a.assertion_id) r.evidence.operator_assertions x.assertion_id
Resolves r by index rule EvidenceKind.claim x = NamesEarlier r.claims by index rule x
Resolves r by index rule (EvidenceKind.invalid s) x = ⊥

ref_kind_issues_iff :
    (r : EvaluatedRun) (by : Table ℕ) (index : ℕ) (rule : RuleId) (k : EvidenceKind)
    → (x : EvidenceRef) (p : Text)
    → ((evidence_kind_valid k ≡ true) × (ref_kind_issues r by index rule k x p ≡ []))
      ↔ Resolves r by index rule k x
unfolding ref_kind_issues evidence_kind_valid
ref_kind_issues_iff r by index rule EvidenceKind.observation x p =
    let named = names_none_iff (λ o. o.observation_id) r.evidence.observations x.observation_id in
    let quiet = issue_if-nil _ ValidationCode.reference_missing p _ in
    (λ (v, h). named.0 (quiet.0 h), λ h. (refl, quiet.1 (named.1 h)))
ref_kind_issues_iff r by index rule EvidenceKind.visibility x p =
    let named =
      names_none_iff (λ v. v.visibility_id) r.evidence.visibility_assessments x.visibility_id in
    let quiet = issue_if-nil _ ValidationCode.reference_missing p _ in
    (λ (v, h). named.0 (quiet.0 h), λ h. (refl, quiet.1 (named.1 h)))
ref_kind_issues_iff r by index rule EvidenceKind.assertion x p =
    let named =
      names_none_iff (λ a. a.assertion_id) r.evidence.operator_assertions x.assertion_id in
    let quiet = issue_if-nil _ ValidationCode.reference_missing p _ in
    (λ (v, h). named.0 (quiet.0 h), λ h. (refl, quiet.1 (named.1 h)))
ref_kind_issues_iff r by index rule EvidenceKind.claim x p =
    let iff = claim_ref_issues_iff r.claims by index rule x p in
    (λ (v, h). iff.0 h, λ h. (refl, iff.1 h))
ref_kind_issues_iff r by index rule (EvidenceKind.invalid s) x p = (λ (v, h). cc, λ h. absurd h)

-- The reference has one target, of its kind, and names what it has to.
abbrev pub IsResolved : EvaluatedRun → Table ℕ → ℕ → RuleId → EvidenceRef → Type 0
IsResolved r by index rule x = (ref_target_count x ≡ 1) × Resolves r by index rule x.kind x

ref_issues_iff :
    (r : EvaluatedRun) (by : Table ℕ) (index : ℕ) (rule : RuleId) (x : EvidenceRef) (p : Text)
    → (ref_issues r by index rule x p ≡ []) ↔ IsResolved r by index rule x
unfolding ref_issues issue_if
ref_issues_iff r by index rule x p =
    let iff = ref_kind_issues_iff r by index rule x.kind x p in
    let one = ==_iff (ref_target_count x) 1 in
    elim (Bool-cases (not (evidence_kind_valid x.kind) || not (ref_target_count x == 1))) [
      | inl e ↦ (
        λ h. absurd (ground (arith, rw (e, ref_issues) at h)),
        λ (n, h). absurd (let (v, q) = iff.1 h in let t = one.1 n in ground arith),
      )
      | inr e ↦
          rw (e, ref_issues)
            (λ h. (one.0 (ground arith), iff.0 (ground arith, h)), λ (n, h). (iff.1 h).1)
    ]

-- The references of a claim are reported exactly unless every one has a single target that the
-- run has: an observation, an assessment, an assertion, or an earlier claim of the same rule.
pub validate_claim_refs_iff :
    (r : EvaluatedRun) (by : Table ℕ) (index : ℕ) (c : Claim)
    → (validate_claim_refs r by index c ≡ []) ↔ (
        All (IsResolved r by index c.rule_id) c.supporting_evidence
        × All (IsResolved r by index c.rule_id) c.contradicting_evidence)
unfolding validate_claim_refs
validate_claim_refs_iff r by index c =
    let left =
      each-nil _ (IsResolved r by index c.rule_id) (λ j x. ref_issues_iff r by index c.rule_id x _)
        0 c.supporting_evidence in
    let right =
      each-nil _ (IsResolved r by index c.rule_id) (λ j x. ref_issues_iff r by index c.rule_id x _)
        0 c.contradicting_evidence in
    let both = append-nil _ _ in
    (λ h. let (a, b) = both.0 h in (left.0 a, right.0 b), λ (a, b). both.1 (left.1 a, right.1 b))
