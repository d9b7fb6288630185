-- ===== src/Validation/Grounds/Rests.antt =====
-- `claimPathReachesBase` and `validateClaimGraphs` of internal/model/validate_evaluated.go: a claim
-- that is found to reach a base rests on evidence that is no claim.
use route_doc.Common.{
  ℕ, zero, suc, ◌+◌, ◌≡◌, ◌≢◌, ◌⊎◌, refl, sym, Bool, true, false, List, [], ◌∷◌, inl, inr, some,
  arith, Exists, now, later, Table, any, ◌==◌, ==_iff, eq_number, Bool-cases, Option-cases,
}
use mathlib.Core.Path.{subst}
use route_doc.Model.Claims.{Claim}
use route_doc.Model.Paths.{EvidenceRef}
use route_doc.Model.Enums.{EvidenceKind, eq_evidence_kind}
use route_doc.Validation.Graph.{fresh, active, done, set_mark}
use route_doc.Validation.Checks.Visits.{Mark-cases}
use route_doc.Validation.Support.{States, support_of, claim_targets, supporters}
use route_doc.Validation.Support.Stacks.{In}
use route_doc.Validation.Grounds.{
  push_refs, climb_to_base, count_refs, claim_path_reaches_base, has_base,
}
use route_doc.Validation.Grounds.Walk.{push_refs-claim, claim_targets-skip}

pub has_base-Exists :
    (xs : List EvidenceRef) → has_base xs ≡ true → Exists (λ x. x.kind ≢ EvidenceKind.claim) xs
unfolding has_base any
has_base-Exists [] h = absurd (ground arith)
has_base-Exists (x ∷ xs) h = elim (Bool-cases (x.kind == EvidenceKind.claim)) [
  | inl k ↦ later (has_base-Exists xs (ground arith))
  | inr k ↦ now (λ e. ground (arith, (==_iff x.kind EvidenceKind.claim).1 e))
]

module _ (claims : List Claim) (by : Table ℕ) where
  -- The claim is supported by evidence that is no claim, or by a claim of which this holds.
  pub data Rests : ℕ → Type 0 where
    on_base : {n : ℕ} → Exists (λ x. x.kind ≢ EvidenceKind.claim) (support_of claims n) → Rests n
    on_claim : {n t : ℕ} → In t (supporters claims by n) → Rests t → Rests n

push_refs-from :
    (by : Table ℕ) (st : States) (xs : List EvidenceRef) (found : Bool) (stack : List ℕ)
    → (found' : Bool) (stack' : List ℕ) → push_refs by st xs found stack ≡ some (found', stack')
    → ((t : ℕ) → In t stack' → In t stack ⊎ In t (claim_targets by xs))
      × (found' ≡ true → (found ≡ true) ⊎ (has_base xs ≡ true))
unfolding push_refs has_base any
push_refs-from by st [] found stack found' stack' h =
    let same : stack ≡ stack' = ground arith in
    (λ t y. inl (subst (In t) (sym same) y), λ e. inl (ground arith))
push_refs-from by st (x ∷ xs) found stack found' stack' h =
    elim (push_refs-claim by st x xs found stack (found', stack') h) [
      | inl (e, k) ↦
          let (a, b) = push_refs-from by st xs true stack found' stack' k in
          (
            λ t y. elim (a t y) [ inl z ↦ inl z | inr z ↦ inr (claim_targets-skip by x xs t e z) ],
            λ q. inr (ground arith),
          )
      | inr (n, g, inl k) ↦
          let (a, b) = push_refs-from by st xs found (n ∷ stack) found' stack' k in
          (
            λ t y. elim (a t y) [
              | inl (now z) ↦ inr (subst (In t) (sym g) (now z))
              | inl (later z) ↦ inl z
              | inr z ↦ inr (subst (In t) (sym g) (later z))
            ],
            λ q. elim (b q) [ inl z ↦ inl z | inr z ↦ inr (ground arith) ],
          )
      | inr (n, g, inr k) ↦
          let (a, b) = push_refs-from by st xs found stack found' stack' k in
          (
            λ t y. elim (a t y) [ inl z ↦ inl z | inr z ↦ inr (subst (In t) (sym g) (later z)) ],
            λ q. elim (b q) [ inl z ↦ inl z | inr z ↦ inr (ground arith) ],
          )
    ]

module _ (claims : List Claim) (by : Table ℕ) where
  -- The claim or one that is pushed for it rests on a base.
  Rests-of_pushed :
      (n : ℕ) (stack stack' : List ℕ)
      → ((t : ℕ) → In t stack' → In t stack ⊎ In t (supporters claims by n))
      → (t : ℕ) × In t stack' × Rests claims by t
      → (t : ℕ) × In t (n ∷ stack) × Rests claims by t
  Rests-of_pushed n stack stack' from (t, x, r) = elim (from t x) [
    | inl y ↦ (t, later y, r)
    | inr y ↦ (n, now refl, on_claim y r)
  ]

  climb_to_base-Rests :
      (fuel : ℕ) (st : States) (stack : List ℕ)
      → climb_to_base claims by fuel st stack ≡ some true
      → (t : ℕ) × In t stack × Rests claims by t
  unfolding climb_to_base supporters
  climb_to_base-Rests zero st stack e = absurd (ground arith)
  climb_to_base-Rests (suc fuel) st [] e = absurd (ground arith)
  climb_to_base-Rests (suc fuel) st (n ∷ stack) e = elim (Mark-cases (st n)) [
    | inr (inl k) ↦ absurd (ground (arith, rw (k, climb_to_base) at e))
    | inr (inr k) ↦
        let (t, x, r) = climb_to_base-Rests fuel st stack (rw (k, climb_to_base) at e) in
        (t, later x, r)
    | inl k ↦
        elim (Option-cases
          (push_refs by (set_mark st n active) (support_of claims n) false stack)) [
            | inl p ↦ absurd (ground (arith, rw (k, p, climb_to_base) at e))
            | inr ((true, stack'), p) ↦
                let (a, b) =
                  push_refs-from by (set_mark st n active) (support_of claims n) false stack true
                    stack' p in
                elim (b refl) [
                  | inl z ↦ absurd (ground arith)
                  | inr z ↦ (n, now refl, on_base (has_base-Exists _ z))
                ]
            | inr ((false, stack'), p) ↦
                let (a, b) =
                  push_refs-from by (set_mark st n active) (support_of claims n) false stack false
                    stack' p in
                Rests-of_pushed n stack stack' a (
                  climb_to_base-Rests fuel (set_mark (set_mark st n active) n done) stack'
                    (rw (k, p, climb_to_base) at e))
          ]
  ]

  -- A claim from which the walk reaches a base rests on evidence that is no claim.
  pub claim_path_reaches_base-Rests :
      (i : ℕ) → claim_path_reaches_base claims by i ≡ some true → Rests claims by i
  unfolding claim_path_reaches_base
  claim_path_reaches_base-Rests i e =
      let (t, x, r) = climb_to_base-Rests (count_refs claims + 2) (λ n. fresh) (i ∷ []) e in
      elim x [ now q ↦ subst (Rests claims by) (sym q) r | later y ↦ elim y [ ] ]
