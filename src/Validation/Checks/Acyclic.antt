-- ===== src/Validation/Checks/Acyclic.antt =====
-- `validateCheckDAG` of internal/model/validate_base_remaining.go: it terminates, and reports
-- nothing exactly for definitions whose dependencies are known and without a cycle.
use route_doc.Common.{
  All-map, suc, ◌≡◌, ◌≢◌, ◌⊎◌, ◌↔◌, refl, ap, ◌∙◌, true, List, [], ◌∷◌, ◌++◌, inl, inr, none, some,
  arith, All, Exists, now, later, Option-cases, contains, lookup, index_into, eq_text,
  AllEntries-index_into, eq_text, AllEntries-lookup, length,
}
use route_doc.Model.Ids.{CheckId}
use route_doc.Model.Checks.{CheckDefinition}
use route_doc.Validation.Graph.{fresh, unvisited-le-length, Ends}
use route_doc.Validation.Shared.{append-nil, each-nil, unknown-nil, ids_of_all, length-ids_of_all}
use route_doc.Validation.Checks.{
  visit_definitions, dependencies, dependency_issues, validate_check_dag,
}
use route_doc.Validation.Checks.Returns.{
  visit_definitions-returns, visit_definitions-Ends, visit_definitions-quiet,
}

check_ids : List CheckDefinition → List CheckId
check_ids defs = ids_of_all (λ d. d.check_id) defs

All-self :
    (defs : List CheckDefinition) → All (λ d. Exists (λ t. t ≡ d.check_id) (check_ids defs)) defs
unfolding check_ids ids_of_all
All-self [] = tt
All-self (d ∷ ds) = (now refl, All-map _ _ ds (λ x e. later e) (All-self ds))

-- Only a check that has a definition has dependencies.
known_dependencies :
    (defs : List CheckDefinition) (c : CheckId)
    → (dependencies defs c ≡ []) ⊎ Exists (λ t. t ≡ c) (check_ids defs)
unfolding dependencies
known_dependencies defs c = elim (Option-cases (lookup c (index_into (λ d. d.check_id) defs []))) [
  | inl n ↦ inl (rw (n, dependencies) refl)
  | inr (d, e) ↦ inr (
      AllEntries-lookup (λ k d. Exists (λ t. t ≡ k) (check_ids defs)) c _ d
        (AllEntries-index_into (λ k d. Exists (λ t. t ≡ k) (check_ids defs)) _ defs []
          (All-self defs) tt)
        e)
]

-- Every dependency of every definition is the check of a definition.
abbrev pub DependenciesKnown : List CheckId → List CheckDefinition → Type 0
DependenciesKnown known defs =
    All (λ d. All (λ id. contains known id ≡ true) d.dependency_check_ids) defs

dependency_issues-nil :
    (known : List CheckId) (defs : List CheckDefinition)
    → (dependency_issues known defs ≡ []) ↔ DependenciesKnown known defs
unfolding dependency_issues
dependency_issues-nil known defs =
    each-nil _ _ (λ i d. each-nil _ _ (λ j id. unknown-nil known id _ _ _) 0 d.dependency_check_ids)
      0 defs

search_returns :
    (defs : List CheckDefinition)
    → visit_definitions (dependencies defs) (suc (length defs)) defs (λ id. fresh) ≢ none
unfolding check_ids
search_returns defs =
    let most = unvisited-le-length (check_ids defs) (λ id. fresh) in
    let size = length-ids_of_all (λ d. d.check_id) defs in
    visit_definitions-returns (dependencies defs) (check_ids defs) (known_dependencies defs)
      (suc (length defs)) defs (λ id. fresh) (omega arith)

-- The fuel of `validate_check_dag` is enough: it returns for all definitions.
pub validate_check_dag-ne-none : (defs : List CheckDefinition) → validate_check_dag defs ≢ none
unfolding validate_check_dag
validate_check_dag-ne-none defs =
    elim (Option-cases
      (visit_definitions (dependencies defs) (suc (length defs)) defs (λ id. fresh))) [
        | inl n ↦ absurd (search_returns defs n)
        | inr (is, n) ↦ λ e. absurd (ground (arith, rw (n, validate_check_dag) at e))
      ]

-- The check of the dependencies returns, and reports nothing exactly when every dependency is the
-- check of a definition and every walk along the dependencies from a definition ends, so that
-- there is no cycle.
pub validate_check_dag_iff :
    (defs : List CheckDefinition)
    → (validate_check_dag defs ≡ some []) ↔ (
        DependenciesKnown (ids_of_all (λ d. d.check_id) defs) defs
        × All (λ d. Ends (dependencies defs) d.check_id) defs)
unfolding validate_check_dag
validate_check_dag_iff defs = (
  λ h.
      elim (Option-cases
        (visit_definitions (dependencies defs) (suc (length defs)) defs (λ id. fresh))) [
          | inl n ↦ absurd (search_returns defs n)
          | inr (is, n) ↦
              let same : dependency_issues (ids_of_all (λ d. d.check_id) defs) defs ++ is ≡ [] =
                ground (arith, rw (n, validate_check_dag) at h) in
              let (a, b) =
                (append-nil (dependency_issues (ids_of_all (λ d. d.check_id) defs) defs) is).0
                  same in
              (
                (dependency_issues-nil _ defs).0 a,
                visit_definitions-Ends (dependencies defs) (suc (length defs)) defs (λ id. fresh)
                    (λ k e. absurd (ground arith)) (n ∙ ap some b),
              )
        ],
  λ (known, walks).
      let quiet =
        visit_definitions-quiet (dependencies defs) (suc (length defs)) defs (λ id. fresh) walks
          (λ k e. absurd (ground arith)) (search_returns defs) in
      let clean = (dependency_issues-nil (ids_of_all (λ d. d.check_id) defs) defs).1 known in
      rw (quiet, clean, validate_check_dag) refl,
)
