-- ===== src/Validation/Support/Justified.antt =====
-- `claimGraphHasCycle` of internal/model/validate_evaluated.go: it terminates, and finds a cycle
-- exactly when there is one.
use route_doc.Common.{
  ℕ, zero, suc, ◌+◌, ◌*◌, ◌<◌, ◌≤◌, ◌≡◌, ◌≢◌, ◌↔◌, refl, true, false, List, [], ◌∷◌, inl, inr, none,
  some, arith, now, later, eq_number, length, Table, lookup, AllEntries, AllEntries-insert,
  AllEntries-lookup, ltb, get_elem?, Bool-cases, Option-cases, ◌==◌,
}
use mathlib.Core.Path.{subst}
use route_doc.Model.Claims.{Claim}
use route_doc.Model.Paths.{EvidenceRef}
use route_doc.Model.Enums.{EvidenceKind, eq_evidence_kind}
use route_doc.Validation.Graph.{fresh, Ends, ends}
use route_doc.Validation.Support.{
  index_claims, support_of, claim_targets, supporters, claim_graph_has_cycle,
}
use route_doc.Validation.Support.Stacks.{In}
use route_doc.Validation.Support.Searches.{
  AllIndexes, indexes, length-indexes, search_from-shows, search_from-quiet, search_from-returns,
}

AllIndexes-at :
    (P : ℕ → Type 0) (i : ℕ) (cs : List Claim) (k : ℕ)
    → AllIndexes P i cs
    → k < length cs
    → P (k + i)
AllIndexes-at P i [] k h lt = absurd (omega arith)
AllIndexes-at P i (c ∷ cs) zero h lt = let e : i ≡ 0 + i = omega arith in subst P e h.0
AllIndexes-at P i (c ∷ cs) (suc k) h lt =
    let e : k + (i + 1) ≡ suc k + i = omega arith in
    subst P e (AllIndexes-at P (i + 1) cs k h.1 (omega arith))

get_elem?-beyond : (claims : List Claim) (i : ℕ) → length claims ≤ i → get_elem? claims i ≡ none
get_elem?-beyond [] i h = refl
get_elem?-beyond (c ∷ cs) zero h = absurd (omega arith)
get_elem?-beyond (c ∷ cs) (suc i) h = get_elem?-beyond cs i (omega arith)

-- The targets of a claim are numbers that the table has.
claim_targets-Within :
    (P : ℕ → Type 0) (by : Table ℕ) (refs : List EvidenceRef)
    → AllEntries (λ k n. P n) by
    → (t : ℕ) → In t (claim_targets by refs)
    → P t
unfolding claim_targets
claim_targets-Within P by [] h t x = elim x [ ]
claim_targets-Within P by (r ∷ refs) h t x =
    let rest = claim_targets-Within P by refs h t in
    elim (Bool-cases (r.kind == EvidenceKind.claim)) [
      | inr e ↦ rest (rw (e, claim_targets) at x)
      | inl e ↦ elim (Option-cases r.claim_id) [
        | inl n ↦ rest (rw (e, n, claim_targets) at x)
        | inr (id, n) ↦ elim (Option-cases (lookup id by)) [
          | inl m ↦ rest (rw (e, n, m, claim_targets) at x)
          | inr (k, m) ↦
              let x' : In t (k ∷ claim_targets by refs) = rw (e, n, m, claim_targets) at x in
              elim x' [
                | now p ↦ subst P p (AllEntries-lookup (λ j n. P n) id by k h m)
                | later y ↦ rest y
              ]
        ]
      ]
    ]

index_claims-Within :
    (P : ℕ → Type 0) (i : ℕ) (cs : List Claim) (by : Table ℕ)
    → ((k : ℕ) → In k (indexes i cs) → P k)
    → AllEntries (λ k n. P n) by
    → AllEntries (λ k n. P n) (index_claims i cs by)
unfolding index_claims indexes
index_claims-Within P i [] by h a = a
index_claims-Within P i (c ∷ cs) by h a =
    index_claims-Within P (i + 1) cs _ (λ k x. h k (later x))
      (AllEntries-insert (λ k n. P n) c.claim_id i by (h i (now refl)) a)

-- The table of the claims' positions that the validation builds.
abbrev pub positions_of : List Claim → Table ℕ
positions_of claims = index_claims 0 claims []

supporters-Within :
    (claims : List Claim) (i t : ℕ)
    → In t (supporters claims (positions_of claims) i)
    → In t (indexes 0 claims)
unfolding supporters
supporters-Within claims i =
    claim_targets-Within (λ k. In k (indexes 0 claims)) _ _
      (index_claims-Within (λ k. In k (indexes 0 claims)) 0 claims [] (λ k x. x) tt)

Ends-beyond :
    (claims : List Claim) (i : ℕ)
    → length claims ≤ i
    → Ends (supporters claims (positions_of claims)) i
unfolding supporters support_of claim_targets
Ends-beyond claims i h = ends (λ t x. absurd (no_target t x))
  where
    no_target : (t : ℕ) → ¬ In t (supporters claims (positions_of claims) i)
    no_target t x = let y = rw (get_elem?-beyond claims i h, claim_targets) at x in elim y [ ]

-- The search for a cycle in the supporting evidence of the claims returns.
pub claim_graph_has_cycle-ne-none :
    (claims : List Claim) → claim_graph_has_cycle claims (positions_of claims) ≢ none
unfolding claim_graph_has_cycle
claim_graph_has_cycle-ne-none claims =
    search_from-returns (supporters claims (positions_of claims)) (indexes 0 claims)
      (supporters-Within claims) (2 * length claims + 2)
      (let n = length-indexes 0 claims in omega arith) 0 claims (λ n. fresh)

no_cycle_iff :
    (claims : List Claim)
    → (claim_graph_has_cycle claims (positions_of claims) ≡ some false)
      ↔ ((i : ℕ) → Ends (supporters claims (positions_of claims)) i)
unfolding claim_graph_has_cycle
no_cycle_iff claims =
    let next = supporters claims (positions_of claims) in
    (
      λ e i.
          let all_end =
            search_from-shows next (2 * length claims + 2) 0 claims (λ n. fresh)
              (λ k x. absurd (ground arith)) (λ k x. absurd (ground arith)) e in
          elim (Bool-cases (ltb i (length claims))) [
            | inl lt ↦
                let same : i + 0 ≡ i = omega arith in
                subst (Ends next) same (AllIndexes-at (Ends next) 0 claims i all_end (ground arith))
            | inr ge ↦ Ends-beyond claims i (ground arith)
          ],
      λ all_end.
          search_from-quiet next all_end (indexes 0 claims) (supporters-Within claims)
            (2 * length claims + 2) (let n = length-indexes 0 claims in omega arith) 0 claims
            (λ n. fresh) (λ k x. absurd (ground arith)) (λ k x. absurd (ground arith)),
    )

-- `claimGraphHasCycle` finds no cycle exactly when every walk from a claim to a claim that supports it
-- ends, and finds one exactly when not every walk ends. It returns one of the two, so that its search
-- never runs out of fuel.
pub claim_graph_has_cycle_iff :
    (claims : List Claim)
    → ((claim_graph_has_cycle claims (positions_of claims) ≡ some false)
        ↔ ((i : ℕ) → Ends (supporters claims (positions_of claims)) i))
      × ((claim_graph_has_cycle claims (positions_of claims) ≡ some true)
          ↔ (¬ ((i : ℕ) → Ends (supporters claims (positions_of claims)) i)))
      × (claim_graph_has_cycle claims (positions_of claims) ≢ none)
claim_graph_has_cycle_iff claims =
    let iff = no_cycle_iff claims in
    (
      iff,
      (
        λ found all_end. let none_found = iff.1 all_end in cc,
        λ endless. elim (Option-cases (claim_graph_has_cycle claims (positions_of claims))) [
          | inl n ↦ absurd (claim_graph_has_cycle-ne-none claims n)
          | inr (true, e) ↦ e
          | inr (false, e) ↦ absurd (endless (iff.0 e))
        ],
      ),
      claim_graph_has_cycle-ne-none claims,
    )
