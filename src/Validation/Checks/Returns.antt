-- ===== src/Validation/Checks/Returns.antt =====
-- The loop of `validateCheckDAG` of internal/model/validate_base_remaining.go that calls `visit` on
-- every definition.
use route_doc.Common.{
  ℕ, zero, suc, ◌<◌, ◌≤◌, ◌≡◌, ◌≢◌, ◌⊎◌, refl, ap, ◌∙◌, Bool, true, false, List, [], ◌∷◌, inl, inr,
  Option, none, some, arith, All, Exists, Bool-cases, Option-cases, eq_text, eq_text,
}
use route_doc.Model.Ids.{CheckId}
use route_doc.Model.Checks.{CheckDefinition}
use route_doc.Validation.Graph.{
  fresh, active, done, is_fresh, set_mark, unvisited, unvisited-set_mark, unvisited-set_mark-lt,
  Ends, DoneEnds,
}
use route_doc.Validation.Shared.{issue_if}
use route_doc.Validation.Checks.{Marks, visit_all, visit, visit_definitions}
use route_doc.Validation.Checks.Visits.{Step, Mark-cases, visit-Ends, visit-Succeeds}

-- A result, after which no more nodes are fresh than before.
abbrev Returns : List CheckId → Marks → Option (Bool × Marks) → Type 0
Returns ids st o =
    (ok : Bool) × (st' : Marks) × (o ≡ some (ok, st')) × (unvisited ids st' ≤ unvisited ids st)

visit_all-Returns :
    (ids : List CheckId) (n : ℕ) (step : Step)
    → ((id : CheckId) (st : Marks) → unvisited ids st < n → Returns ids st (step id st))
    → (ds : List CheckId) (st : Marks) → unvisited ids st < n
    → Returns ids st (visit_all step ds st)
unfolding visit_all
visit_all-Returns ids n step one [] st h = (true, st, refl, omega arith)
visit_all-Returns ids n step one (d ∷ ds) st h =
    let (ok, st1, e, less) = one d st h in
    elim (Bool-cases ok) [
      | inr k ↦
          let r : step d st ≡ some (false, st1) = ground arith in
          (false, st1, rw (r, visit_all) refl, less)
      | inl k ↦
          let r : step d st ≡ some (true, st1) = ground arith in
          let (ok2, st2, e2, less2) = visit_all-Returns ids n step one ds st1 (omega arith) in
          (ok2, st2, rw (r, visit_all) e2, omega arith)
    ]

module _ (deps : CheckId → List CheckId) (ids : List CheckId)
    (known : (c : CheckId) → (deps c ≡ []) ⊎ Exists (λ t. t ≡ c) ids) where
  -- The result of a node that is fresh, after the loop over its dependencies.
  visit-Returns_fresh :
      (fuel : ℕ) (id : CheckId) (st : Marks)
      → st id ≡ fresh
      → Returns ids
          (set_mark st id active)
          (visit_all (visit deps fuel) (deps id) (set_mark st id active))
      → Returns ids st (visit deps (suc fuel) id st)
  unfolding visit is_fresh
  visit-Returns_fresh fuel id st e (ok, st1, e1, less) =
      let first = unvisited-set_mark ids st id active refl in
      let last = unvisited-set_mark ids st1 id done refl in
      elim (Bool-cases ok) [
        | inl k ↦
            let r : visit_all (visit deps fuel) (deps id) (set_mark st id active)
                ≡ some (true, st1) =
              ground arith in
            (true, set_mark st1 id done, rw (e, r, visit) refl, omega arith)
        | inr k ↦
            let r : visit_all (visit deps fuel) (deps id) (set_mark st id active)
                ≡ some (false, st1) =
              ground arith in
            (false, st1, rw (e, r, visit) refl, omega arith)
      ]

  -- With more fuel than fresh nodes, `visit` returns.
  pub visit-Returns :
      (fuel : ℕ) (id : CheckId) (st : Marks)
      → unvisited ids st < fuel
      → Returns ids st (visit deps fuel id st)
  unfolding visit is_fresh
  visit-Returns zero id st h = absurd (omega arith)
  visit-Returns (suc fuel) id st h = elim (Mark-cases (st id)) [
    | inr (inl e) ↦ (false, st, rw (e, visit) refl, omega arith)
    | inr (inr e) ↦ (true, st, rw (e, visit) refl, omega arith)
    | inl e ↦ visit-Returns_fresh fuel id st e (elim (known id) [
      | inl none_below ↦ rw (none_below, visit_all) (true, set_mark st id active, refl, omega arith)
      | inr x ↦
          let f : is_fresh (st id) ≡ true = rw (e, is_fresh) refl in
          let less = unvisited-set_mark-lt ids st id active refl x f in
          visit_all-Returns ids fuel (visit deps fuel) (visit-Returns fuel) (deps id)
            (set_mark st id active) (omega arith)
    ])
  ]

  -- The loop over the definitions returns,
  pub visit_definitions-returns :
      (fuel : ℕ) (ds : List CheckDefinition) (st : Marks)
      → unvisited ids st < fuel
      → visit_definitions deps fuel ds st ≢ none
  unfolding visit_definitions
  visit_definitions-returns fuel [] st h = λ e. cc
  visit_definitions-returns fuel (d ∷ ds) st h =
      let (ok, st1, e, less) = visit-Returns fuel d.check_id st h in
      let later = visit_definitions-returns fuel ds st1 (omega arith) in
      elim (Option-cases (visit_definitions deps fuel ds st1)) [
        | inl n ↦ absurd (later n)
        | inr (is, n) ↦ λ k. absurd (ground (arith, rw (e, n, visit_definitions) at k))
      ]

-- reports nothing only when every walk from a definition ends,
pub visit_definitions-Ends :
    (deps : CheckId → List CheckId) (fuel : ℕ) (ds : List CheckDefinition) (st : Marks)
    → DoneEnds deps st
    → visit_definitions deps fuel ds st ≡ some []
    → All (λ d. Ends deps d.check_id) ds
unfolding visit_definitions issue_if
visit_definitions-Ends deps fuel [] st h e = tt
visit_definitions-Ends deps fuel (d ∷ ds) st h e =
    elim (Option-cases (visit deps fuel d.check_id st)) [
      | inl n ↦ absurd (ground arith)
      | inr ((ok, st1), n) ↦ elim (Option-cases (visit_definitions deps fuel ds st1)) [
        | inl m ↦ absurd (ground (arith, rw (n, m, visit_definitions) at e))
        | inr (is, m) ↦
            let e' = rw (n, m, visit_definitions) at e in
            elim (Bool-cases ok) [
              | inr k ↦ absurd (ground (arith, rw (k, issue_if) at e'))
              | inl k ↦
                  let clean : is ≡ [] = ground (arith, rw (k, issue_if) at e') in
                  let n' : visit deps fuel d.check_id st ≡ some (true, st1) = ground arith in
                  let (first, h1) = visit-Ends deps fuel d.check_id st st1 h n' in
                  (first, visit_definitions-Ends deps fuel ds st1 h1 (m ∙ ap some clean))
            ]
      ]
    ]

-- and reports nothing whenever they do, unless the fuel runs out.
pub visit_definitions-quiet :
    (deps : CheckId → List CheckId) (fuel : ℕ) (ds : List CheckDefinition) (st : Marks)
    → All (λ d. Ends deps d.check_id) ds
    → ((k : CheckId) → st k ≢ active)
    → visit_definitions deps fuel ds st ≢ none
    → visit_definitions deps fuel ds st ≡ some []
unfolding visit_definitions issue_if
visit_definitions-quiet deps fuel [] st h c r = refl
visit_definitions-quiet deps fuel (d ∷ ds) st (h, hs) c r =
    elim (visit-Succeeds deps fuel st h (λ k l. c k)) [
      | inl n ↦ absurd (r (rw (n, visit_definitions) refl))
      | inr (st1, n, keeps) ↦ elim (Option-cases (visit_definitions deps fuel ds st1)) [
        | inl m ↦ absurd (r (rw (n, m, visit_definitions) refl))
        | inr (is, m) ↦
            let rest =
              visit_definitions-quiet deps fuel ds st1 hs (λ k a. c k (keeps k a)) (λ e. cc) in
            rw (n, rest, visit_definitions) refl
      ]
    ]
