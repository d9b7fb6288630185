-- ===== src/Validation/Support/Searches.antt =====
-- The loop of `claimGraphHasCycle` of internal/model/validate_evaluated.go over the claims at which
-- it starts a search.
use route_doc.Common.{
  ℕ, suc, ◌+◌, ◌*◌, ◌<◌, ◌≡◌, ◌≢◌, refl, true, false, List, [], ◌∷◌, inl, inr, none, some, arith,
  eq_number, length, Bool-cases, Option-cases,
}
use route_doc.Model.Claims.{Claim}
use route_doc.Model.Enums.{eq_evidence_kind}
use route_doc.Validation.Graph.{
  active, is_fresh, set_mark, unvisited-le-length, Ends, DoneEnds, DoneEnds-active,
}
use route_doc.Validation.Checks.Visits.{Mark-cases}
use route_doc.Validation.Support.{States, search_stack, search_from}
use route_doc.Validation.Support.Stacks.{In, OnStack, OnStack-push}
use route_doc.Validation.Support.Cycles.{search_stack-shows}
use route_doc.Validation.Support.Chains.{search_stack-Quiet, search_stack-returns}

-- `P` of every index of the list, counted from `i`.
abbrev pub AllIndexes : (ℕ → Type 0) → ℕ → List Claim → Type 0
AllIndexes P i [] = Unit
AllIndexes P i (c ∷ cs) = P i × AllIndexes P (i + 1) cs

unfoldable pub indexes : ℕ → List Claim → List ℕ
indexes i [] = []
indexes i (c ∷ cs) = i ∷ indexes (i + 1) cs

pub length-indexes : (i : ℕ) (cs : List Claim) → length (indexes i cs) ≡ length cs
unfolding indexes
length-indexes i [] = refl
length-indexes i (c ∷ cs) = omega (arith, length-indexes (i + 1) cs)

module _ (next : ℕ → List ℕ) where
  -- The search from every claim shows that every walk ends.
  pub search_from-shows :
      (fuel i : ℕ) (cs : List Claim) (st : States)
      → DoneEnds next st
      → OnStack st []
      → search_from next fuel i cs st ≡ some false
      → AllIndexes (Ends next) i cs
  unfolding search_from
  search_from-shows fuel i [] st d o e = tt
  search_from-shows fuel i (c ∷ cs) st d o e = elim (Mark-cases (st i)) [
    | inr (inl k) ↦ elim (o i k) [ ]
    | inr (inr k) ↦
        (d i k, search_from-shows fuel (i + 1) cs st d o (ground (arith, rw (k, search_from) at e)))
    | inl k ↦
        elim (Option-cases (search_stack next fuel (set_mark st i active) ((i, next i) ∷ []))) [
          | inl n ↦ absurd (ground (arith, rw (k, n, search_from) at e))
          | inr ((true, st1), n) ↦ absurd (ground (arith, rw (k, n, search_from) at e))
          | inr ((false, st1), n) ↦
              let pushed = OnStack-push st [] [] i (next i) (λ j x. x) o in
              let ((first, _), d1, o1) =
                search_stack-shows next fuel (set_mark st i active) ((i, next i) ∷ []) st1
                  (DoneEnds-active next st i d) (λ t y. inl y, tt) pushed n in
              (
                first,
                search_from-shows fuel (i + 1) cs st1 d1 o1
                    (ground (arith, rw (k, n, search_from) at e)),
              )
        ]
  ]

  -- When every walk ends and the searches return, no cycle is found.
  pub search_from-quiet :
      ((k : ℕ) → Ends next k)
      → (nodes : List ℕ) → ((i t : ℕ) → In t (next i) → In t nodes)
      → (fuel : ℕ) → suc (2 * length nodes) < fuel
      → (i : ℕ) (cs : List Claim) (st : States) → DoneEnds next st
      → OnStack st []
      → search_from next fuel i cs st ≡ some false
  unfolding search_from is_fresh
  search_from-quiet all_end nodes known fuel big i [] st d o = refl
  search_from-quiet all_end nodes known fuel big i (c ∷ cs) st d o = elim (Mark-cases (st i)) [
    | inr (inl k) ↦ elim (o i k) [ ]
    | inr (inr k) ↦
        rw (k, search_from) (search_from-quiet all_end nodes known fuel big (i + 1) cs st d o)
    | inl k ↦
        let most = unvisited-le-length nodes (set_mark st i active) in
        let pushed = OnStack-push st [] [] i (next i) (λ j x. x) o in
        let (ok, st1, n, le) =
          search_stack-returns next nodes known fuel (set_mark st i active) ((i, next i) ∷ [])
            (known i, tt) (omega arith) in
        elim (Bool-cases ok) [
          | inl y ↦ absurd (
              search_stack-Quiet next all_end fuel (set_mark st i active) ((i, next i) ∷ []) st1
                (λ t z. z) pushed (ground arith))
          | inr y ↦
              let n' : search_stack next fuel (set_mark st i active) ((i, next i) ∷ [])
                  ≡ some (false, st1) =
                ground arith in
              let (_, d1, o1) =
                search_stack-shows next fuel (set_mark st i active) ((i, next i) ∷ []) st1
                  (DoneEnds-active next st i d) (λ t z. inl z, tt) pushed n' in
              rw (k, n', search_from)
                (search_from-quiet all_end nodes known fuel big (i + 1) cs st1 d1 o1)
        ]
  ]

  pub search_from-returns :
      (nodes : List ℕ)
      → ((i t : ℕ) → In t (next i) → In t nodes)
      → (fuel : ℕ) → suc (2 * length nodes) < fuel
      → (i : ℕ) (cs : List Claim) (st : States) → search_from next fuel i cs st ≢ none
  unfolding search_from
  search_from-returns nodes known fuel big i [] st e = cc
  search_from-returns nodes known fuel big i (c ∷ cs) st e = elim (Mark-cases (st i)) [
    | inr (inl k) ↦
        search_from-returns nodes known fuel big (i + 1) cs st (rw (k, search_from) at e)
    | inr (inr k) ↦
        search_from-returns nodes known fuel big (i + 1) cs st (rw (k, search_from) at e)
    | inl k ↦
        let most = unvisited-le-length nodes (set_mark st i active) in
        let (ok, st1, n, le) =
          search_stack-returns next nodes known fuel (set_mark st i active) ((i, next i) ∷ [])
            (known i, tt) (omega arith) in
        let e' = rw (k, n, search_from) at e in
        elim (Bool-cases ok) [
          | inl y ↦ absurd (ground (arith, rw y at e'))
          | inr y ↦ search_from-returns nodes known fuel big (i + 1) cs st1 (rw y at e')
        ]
  ]
