-- ===== src/Validation/Grounds/Walk.antt =====
-- `claimPathReachesBase` and `validateClaimGraphs` of internal/model/validate_evaluated.go: they
-- terminate.
use route_doc.Common.{
  ℕ, zero, suc, ◌+◌, ◌<◌, ◌≤◌, ◌≡◌, ◌≢◌, ◌⊎◌, refl, sym, Bool, true, false, List, [], ◌∷◌, inl, inr,
  none, some, arith, Table, lookup, length, ◌==◌, ==_iff, eq_number, Bool-cases, Option-cases,
  if◌then◌else◌,
}
use mathlib.Core.Path.{subst}
use route_doc.Model.Claims.{Claim}
use route_doc.Model.Paths.{EvidenceRef}
use route_doc.Model.Enums.{EvidenceKind, eq_evidence_kind}
use route_doc.Validation.Graph.{Mark, fresh, active, done, is_fresh, set_mark}
use route_doc.Validation.Checks.Visits.{Mark-cases}
use route_doc.Validation.Support.{States, support_of, claim_targets}
use route_doc.Validation.Support.{claim_graph_has_cycle}
use route_doc.Validation.Support.Stacks.{In}
use route_doc.Validation.Support.Justified.{positions_of, claim_graph_has_cycle-ne-none}
use route_doc.Validation.Grounds.{
  push_refs, climb_to_base, count_refs, claim_path_reaches_base, graph_loop, validate_claim_graphs,
}

-- What one reference does to the stack, and what it says of the claims.
pub push_refs-claim :
    (by : Table ℕ) (st : States) (x : EvidenceRef) (xs : List EvidenceRef) (found : Bool)
    → (stack : List ℕ) (r : Bool × List ℕ) → push_refs by st (x ∷ xs) found stack ≡ some r
    → (((x.kind == EvidenceKind.claim) ≡ false) × (push_refs by st xs true stack ≡ some r))
      ⊎ ((n : ℕ) × (claim_targets by (x ∷ xs) ≡ n ∷ claim_targets by xs)
          × ((push_refs by st xs found (n ∷ stack) ≡ some r)
              ⊎ (push_refs by st xs found stack ≡ some r)))
unfolding push_refs claim_targets
push_refs-claim by st x xs found stack r h = elim (Bool-cases (x.kind == EvidenceKind.claim)) [
  | inr e ↦ inl (e, rw (e, push_refs) at h)
  | inl e ↦ elim (Option-cases x.claim_id) [
    | inl m ↦ absurd (ground (arith, rw (e, m, push_refs) at h))
    | inr (id, m) ↦ elim (Option-cases (lookup id by)) [
      | inl k ↦ absurd (ground (arith, rw (e, m, k, push_refs) at h))
      | inr (n, k) ↦
          let target : claim_targets by (x ∷ xs) ≡ n ∷ claim_targets by xs =
            rw (e, m, k, claim_targets) refl in
          elim (Mark-cases (st n)) [
            | inl q ↦ inr (n, target, inl (rw (e, m, k, q, push_refs) at h))
            | inr (inl q) ↦ absurd (ground (arith, rw (e, m, k, q, push_refs) at h))
            | inr (inr q) ↦ inr (n, target, inr (rw (e, m, k, q, push_refs) at h))
          ]
    ]
  ]
]

pub claim_targets-skip :
    (by : Table ℕ) (x : EvidenceRef) (xs : List EvidenceRef) (t : ℕ)
    → (x.kind == EvidenceKind.claim) ≡ false
    → In t (claim_targets by xs)
    → In t (claim_targets by (x ∷ xs))
unfolding claim_targets
claim_targets-skip by x xs t e z = rw (e, claim_targets) z

push_refs-length :
    (by : Table ℕ) (st : States) (xs : List EvidenceRef) (found : Bool) (stack : List ℕ)
    → (found' : Bool) (stack' : List ℕ) → push_refs by st xs found stack ≡ some (found', stack')
    → length stack' ≤ length xs + length stack
unfolding push_refs
push_refs-length by st [] found stack found' stack' h =
    let same : stack ≡ stack' = ground arith in
    subst (λ s. length s ≤ 0 + length stack) same (omega arith)
push_refs-length by st (x ∷ xs) found stack found' stack' h =
    elim (push_refs-claim by st x xs found stack (found', stack') h) [
      | inl (e, k) ↦ omega (arith, push_refs-length by st xs true stack found' stack' k)
      | inr (n, t, inl k) ↦
          omega (arith, push_refs-length by st xs found (n ∷ stack) found' stack' k)
      | inr (n, t, inr k) ↦ omega (arith, push_refs-length by st xs found stack found' stack' k)
    ]

-- The number of references of the claims that are fresh, from index `i` on.
weight : States → ℕ → List Claim → ℕ
weight st i [] = 0
weight st i (c ∷ cs) =
    let rest = weight st (i + 1) cs in
    if is_fresh (st i) then length c.supporting_evidence + rest else rest

weight-le-count_refs : (st : States) (i : ℕ) (cs : List Claim) → weight st i cs ≤ count_refs cs
unfolding weight count_refs
weight-le-count_refs st i [] = omega arith
weight-le-count_refs st i (c ∷ cs) = ground (arith, weight-le-count_refs st (i + 1) cs)

weight-set_mark :
    (st : States) (n : ℕ) (m : Mark) (i : ℕ) (cs : List Claim)
    → is_fresh m ≡ false
    → weight (set_mark st n m) i cs ≤ weight st i cs
unfolding weight set_mark
weight-set_mark st n m i [] h = omega arith
weight-set_mark st n m i (c ∷ cs) h = ground (arith, weight-set_mark st n m (i + 1) cs h)

weight-drop :
    (st : States) (m : Mark) (i k : ℕ) (cs : List Claim)
    → is_fresh m ≡ false
    → is_fresh (st (k + i)) ≡ true
    → weight (set_mark st (k + i) m) i cs + length (support_of cs k) ≤ weight st i cs
unfolding weight set_mark support_of
weight-drop st m i k [] h f = omega arith
weight-drop st m i zero (c ∷ cs) h f =
    let here : 0 + i ≡ i = omega arith in
    let rest = weight-set_mark st (0 + i) m (i + 1) cs h in
    let is = (==_iff (0 + i) i).1 here in
    let was : is_fresh (st i) ≡ true = subst (λ x. is_fresh (st x) ≡ true) here f in
    ground (arith, is_fresh)
weight-drop st m i (suc k) (c ∷ cs) h f =
    let move : suc k + i ≡ k + (i + 1) = omega arith in
    let was : is_fresh (st (k + (i + 1))) ≡ true = subst (λ x. is_fresh (st x) ≡ true) move f in
    let rest =
      subst
        (λ x. weight (set_mark st x m) (i + 1) cs + length (support_of cs k) ≤ weight st (i + 1) cs)
        (sym move) (weight-drop st m (i + 1) k cs h was) in
    ground (arith, is_fresh)

module _ (claims : List Claim) (by : Table ℕ) where
  -- The walk returns with more rounds than claims on the stack and references of fresh claims.
  climb_to_base-ne-none :
      (fuel : ℕ) (st : States) (stack : List ℕ)
      → weight st 0 claims + length stack < fuel
      → climb_to_base claims by fuel st stack ≢ none
  unfolding climb_to_base is_fresh
  climb_to_base-ne-none zero st stack h e = absurd (omega arith)
  climb_to_base-ne-none (suc fuel) st [] h e = absurd (ground arith)
  climb_to_base-ne-none (suc fuel) st (n ∷ stack) h e = elim (Mark-cases (st n)) [
    | inr (inl k) ↦ absurd (ground (arith, rw (k, climb_to_base) at e))
    | inr (inr k) ↦ climb_to_base-ne-none fuel st stack (omega arith) (rw (k, climb_to_base) at e)
    | inl k ↦
        elim (Option-cases
          (push_refs by (set_mark st n active) (support_of claims n) false stack)) [
            | inl p ↦ absurd (ground (arith, rw (k, p, climb_to_base) at e))
            | inr ((true, stack'), p) ↦ absurd (ground (arith, rw (k, p, climb_to_base) at e))
            | inr ((false, stack'), p) ↦
                let at_n : n + 0 ≡ n = omega arith in
                let f : is_fresh (st (n + 0)) ≡ true = rw (at_n, k, is_fresh) refl in
                let less =
                  subst
                    (λ x.
                      weight (set_mark st x active) 0 claims + length (support_of claims n)
                      ≤ weight st 0 claims)
                    at_n (weight-drop st active 0 n claims refl f) in
                let less2 = weight-set_mark (set_mark st n active) n done 0 claims refl in
                let pushed =
                  push_refs-length by (set_mark st n active) (support_of claims n) false stack false
                    stack' p in
                climb_to_base-ne-none fuel (set_mark (set_mark st n active) n done) stack'
                  (omega arith) (rw (k, p, climb_to_base) at e)
          ]
  ]

  -- The walk from a claim returns.
  pub claim_path_reaches_base-ne-none : (i : ℕ) → claim_path_reaches_base claims by i ≢ none
  unfolding claim_path_reaches_base
  claim_path_reaches_base-ne-none i =
      let most = weight-le-count_refs (λ n. fresh) 0 claims in
      climb_to_base-ne-none (count_refs claims + 2) (λ n. fresh) (i ∷ []) (omega arith)

graph_loop-ne-none :
    (claims : List Claim) (by : Table ℕ) (i : ℕ) (cs : List Claim)
    → graph_loop claims by i cs ≢ none
unfolding graph_loop
graph_loop-ne-none claims by i [] e = cc
graph_loop-ne-none claims by i (c ∷ cs) e = elim (Option-cases (graph_loop claims by (i + 1) cs)) [
  | inl n ↦ graph_loop-ne-none claims by (i + 1) cs n
  | inr (is, n) ↦ elim (Bool-cases (length c.supporting_evidence == 0)) [
    | inl k ↦ absurd (ground (arith, rw (n, k, graph_loop) at e))
    | inr k ↦ elim (Option-cases (claim_path_reaches_base claims by i)) [
      | inl m ↦ claim_path_reaches_base-ne-none claims by i m
      | inr (reached, m) ↦ absurd (ground (arith, rw (n, k, m, graph_loop) at e))
    ]
  ]
]

-- The validation of the claim graphs returns.
pub validate_claim_graphs-ne-none :
    (claims : List Claim) → validate_claim_graphs claims (positions_of claims) ≢ none
unfolding validate_claim_graphs
validate_claim_graphs-ne-none claims e =
    elim (Option-cases (claim_graph_has_cycle claims (positions_of claims))) [
      | inl n ↦ claim_graph_has_cycle-ne-none claims n
      | inr (cycle, n) ↦ elim (Option-cases (graph_loop claims (positions_of claims) 0 claims)) [
        | inl m ↦ graph_loop-ne-none claims (positions_of claims) 0 claims m
        | inr (is, m) ↦ absurd (ground (arith, rw (n, m, validate_claim_graphs) at e))
      ]
    ]
