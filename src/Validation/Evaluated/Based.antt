-- ===== src/Validation/Evaluated/Based.antt =====
-- What holds of the claims of a run that `ValidatePersistedEvaluatedRun` of
-- internal/model/validate_evaluated.go accepts: their support.
use route_doc.Common.{
  ℕ, ◌+◌, ◌≡◌, ◌≢◌, ◌⊎◌, refl, ◌∙◌, ap, Bool, true, false, not, ◌&&◌, List, [], ◌∷◌, ◌++◌, inl, inr,
  some, arith, get_elem?, length, Option-cases, Bool-cases, ◌==◌, eq_text, eq_number, codes, Table,
}
use mathlib.Core.Path.{subst}
use route_doc.Model.Claims.{Claim}
use route_doc.Model.Runs.{EvaluatedRun}
use route_doc.Model.Issues.{ValidationCode}
use route_doc.Validation.Shared.{issue_if, issue_if-nil, append-nil}
use route_doc.Validation.Shared.Loops.{AllFrom, AllFrom-at}
use route_doc.Validation.Texts.{TextLibrary}
use route_doc.Validation.Evidence.{accepted}
use route_doc.Validation.Graph.{Ends}
use route_doc.Validation.Support.{support_of, supporters, claim_graph_has_cycle}
use route_doc.Validation.Support.Justified.{positions_of, claim_graph_has_cycle_iff}
use route_doc.Validation.Grounds.{
  has_base, support_issues, graph_loop, claim_path_reaches_base, validate_claim_graphs,
}
use route_doc.Validation.Grounds.Rests.{
  Rests, on_base, has_base-Exists, claim_path_reaches_base-Rests,
}
use route_doc.Validation.Evaluated.{validate_persisted_evaluated_run}
use route_doc.Validation.Evaluated.Parts.{validate_persisted-Parts}

empty_of_length : {A : Type 0} (xs : List A) → (length xs == 0) ≡ true → xs ≡ []
empty_of_length [] h = refl
empty_of_length (x ∷ xs) h = absurd (ground arith)

-- The two parts of the validation of the claim graphs.
graphs_split :
    (claims : List Claim) (by : Table ℕ)
    → validate_claim_graphs claims by ≡ some []
    → (claim_graph_has_cycle claims by ≡ some false) × (graph_loop claims by 0 claims ≡ some [])
unfolding validate_claim_graphs issue_if
graphs_split claims by h = elim (Option-cases (claim_graph_has_cycle claims by)) [
  | inl n ↦ absurd (ground (arith, rw (n, validate_claim_graphs) at h))
  | inr (cycle, n) ↦ elim (Option-cases (graph_loop claims by 0 claims)) [
    | inl m ↦ absurd (ground (arith, rw (n, m, validate_claim_graphs) at h))
    | inr (later, m) ↦
        let e : issue_if cycle ValidationCode.justification_cycle (codes "/claims")
                (codes "claim support graph contains a cycle")
              ++ later
            ≡ [] =
          ground (arith, rw (n, m, validate_claim_graphs) at h) in
        let (a, b) = (append-nil _ _).0 e in
        let none_found = (issue_if-nil cycle _ _ _).0 a in (n ∙ ap some none_found, m ∙ ap some b)
  ]
]

quiet_support :
    (i : ℕ) (c : Claim) (reached : Bool)
    → support_issues i c reached ≡ []
    → (has_base c.supporting_evidence ≡ true) ⊎ (reached ≡ true)
unfolding support_issues
quiet_support i c reached h =
    let (_, last) = (append-nil _ _).0 h in
    let k = (issue_if-nil (not (has_base c.supporting_evidence) && not reached) _ _ _).0 last in
    elim (Bool-cases reached) [ inl e ↦ inr e | inr e ↦ inl (ground arith) ]

graph_loop-based :
    (claims : List Claim) (by : Table ℕ) (i : ℕ) (cs : List Claim)
    → graph_loop claims by i cs ≡ some []
    → AllFrom
        (λ j c.
          c.supporting_evidence ≢ []
          → (has_base c.supporting_evidence ≡ true)
            ⊎ (claim_path_reaches_base claims by j ≡ some true))
        i
        cs
unfolding graph_loop
graph_loop-based claims by i [] h = tt
graph_loop-based claims by i (c ∷ cs) h = elim (Option-cases (graph_loop claims by (i + 1) cs)) [
  | inl n ↦ absurd (ground (arith, rw (n, graph_loop) at h))
  | inr (later, n) ↦ elim (Bool-cases (length c.supporting_evidence == 0)) [
    | inl k ↦
        let rest : later ≡ [] = ground (arith, rw (n, k, graph_loop) at h) in
        (
          λ some_support. absurd (some_support (empty_of_length c.supporting_evidence k)),
          graph_loop-based claims by (i + 1) cs (n ∙ ap some rest),
        )
    | inr k ↦ elim (Option-cases (claim_path_reaches_base claims by i)) [
      | inl m ↦ absurd (ground (arith, rw (n, k, m, graph_loop) at h))
      | inr (reached, m) ↦
          let e : support_issues i c reached ++ later ≡ [] =
            ground (arith, rw (n, k, m, graph_loop) at h) in
          let (now_quiet, rest) = (append-nil _ _).0 e in
          (
            λ _. elim (quiet_support i c reached now_quiet) [
              | inl b ↦ inl b
              | inr b ↦ inr (m ∙ ap some b)
            ],
            graph_loop-based claims by (i + 1) cs (n ∙ ap some rest),
          )
    ]
  ]
]

-- In a run that the validation accepts, the claims do not support one another in a cycle, and
-- every claim that has supporting evidence rests, directly or through other claims, on evidence
-- that is no claim.
pub accepted-Rests :
    (lib : TextLibrary) (r v : EvaluatedRun)
    → validate_persisted_evaluated_run lib r ≡ some (accepted v)
    → ((i : ℕ) → Ends (supporters r.claims (positions_of r.claims)) i)
      × ((i : ℕ) (c : Claim)
          → get_elem? r.claims i ≡ some c
          → c.supporting_evidence ≢ []
          → Rests r.claims (positions_of r.claims) i)
unfolding validate_claim_graphs support_of issue_if
accepted-Rests lib r v h =
    let (same, parts) = validate_persisted-Parts lib r v h in
    let by = positions_of r.claims in
    let (acyclic, loop) = graphs_split r.claims by parts.graphs in
    (
      (claim_graph_has_cycle_iff r.claims).0.0 acyclic,
      λ i c at some_support.
          let here : i + 0 ≡ i = omega arith in
          let based =
            AllFrom-at _ 0 i r.claims c (graph_loop-based r.claims by 0 r.claims loop) at
              some_support in
          elim based [
            | inl b ↦ on_base (has_base-Exists _ (rw (at, support_of) b))
            | inr b ↦
                claim_path_reaches_base-Rests r.claims by i
                  (subst (λ j. claim_path_reaches_base r.claims by j ≡ some true) here b)
          ],
    )
