-- ===== src/Validation/Checks.antt =====
-- `validateCheckDefinition`, `validateCheckDAG` and `validateExecution` of
-- internal/model/validate_base_remaining.go.
pub mod Visits
pub mod Returns
pub mod Acyclic
use route_doc.Common.{
  ℕ, zero, suc, ◌+◌, Bool, true, false, not, ◌&&◌, ◌||◌, List, [], ◌∷◌, ◌++◌, Option, none, some,
  Text, codes, contains, Table, lookup, index_into, length, ltb, leb, ◌==◌, eq_number, eq_text,
  is_negative, if◌then◌else◌,
}
use route_doc.Model.Ids.{CheckId, EntityId, VantageId, AssertionId, CapabilityId, Time}
use route_doc.Model.Issues.{ValidationCode, ValidationIssue}
use route_doc.Model.Checks.{CheckDefinition, CheckExecution, SchemaVersion}
use route_doc.Model.Observations.{Observation}
use route_doc.Model.Visibility.{VisibilityAssessment}
use route_doc.Model.Enums.{
  CheckLifecycle, CheckVerdict, eq_check_verdict, check_kind_valid, check_input_kind_valid,
  check_verdict_valid, expected_condition_kind_valid,
}
use route_doc.Ids.Kinds.{branch_id_valid}
use route_doc.Validation.Shared.{issue_if, issue_of, each, ids_of_all}
use route_doc.Validation.Texts.{
  TextLibrary, validate_hostname, validate_reason_code, validate_safe_token,
}
use route_doc.Validation.Graph.{Mark, fresh, active, done, set_mark}

-- `p != nil && !known[*p]`
unfoldable pub is_unknown : List Text → Option Text → Bool
is_unknown known none = false
is_unknown known (some id) = not (contains known id)

abbrev is_zero_version : SchemaVersion → Bool
is_zero_version v = (v.major == 0) && ((v.minor == 0) && (v.patch == 0))

-- The sets of identifiers that a definition may name.
pub record Known : Type 0 where
  pub entities : List EntityId
  pub vantages : List VantageId
  pub assertions : List AssertionId
  pub capabilities : List CapabilityId

unfoldable pub validate_check_definition :
    TextLibrary → Known → CheckDefinition → Text → List ValidationIssue
unfolding issue_if issue_of each is_unknown
validate_check_definition lib known c p =
    issue_if (not (check_kind_valid c.kind)) ValidationCode.unknown_union_kind (p ++ codes "/kind")
      (codes "unknown check kind")
    ++ issue_if (is_zero_version c.version) ValidationCode.invalid_value (p ++ codes "/version")
        (codes "check version required")
    ++ issue_if
        (not (check_input_kind_valid c.inputs.kind)
          || not (contains known.entities c.inputs.subject_entity_id))
        ValidationCode.reference_missing (p ++ codes "/inputs/subject_entity_id")
        (codes "check subject missing")
    ++ issue_if (is_unknown known.vantages c.inputs.vantage_id) ValidationCode.reference_missing
        (p ++ codes "/inputs/vantage_id") (codes "vantage missing")
    ++ issue_if (is_unknown known.assertions c.inputs.assertion_id) ValidationCode.reference_missing
        (p ++ codes "/inputs/assertion_id") (codes "assertion missing")
    ++ each
        (λ i id.
          issue_if (not (contains known.capabilities id)) ValidationCode.reference_missing
            (p ++ codes "/required_capability_ids") (codes "capability missing"))
        0 c.required_capability_ids
    ++ issue_if (is_negative c.execution_policy.deadline_ns) ValidationCode.invalid_value
        (p ++ codes "/execution_policy/deadline_ns") (codes "duration must be non-negative")
    ++ issue_of (validate_reason_code c.execution_policy.dependency_failure_reason_code)
        ValidationCode.sensitive_disallowed_field
        (p ++ codes "/execution_policy/dependency_failure_reason_code")
    ++ issue_if (not (expected_condition_kind_valid c.expected_condition.kind))
        ValidationCode.unknown_union_kind (p ++ codes "/expected_condition/kind")
        (codes "unknown expected condition")
    ++ elim c.expected_condition.hostname [
      | none ↦ []
      | some h ↦
          issue_of (validate_hostname lib h) ValidationCode.sensitive_disallowed_field
            (p ++ codes "/expected_condition/hostname")
    ]
    ++ elim c.expected_condition.result [
      | [] ↦ []
      | b ∷ s ↦
          issue_of (validate_safe_token lib (b ∷ s) 64) ValidationCode.sensitive_disallowed_field
            (p ++ codes "/expected_condition/result")
    ]

-- `deps[id]`, the dependencies of the last definition with the identifier
unfoldable pub dependencies : List CheckDefinition → CheckId → List CheckId
dependencies defs id = elim (lookup id (index_into (λ d. d.check_id) defs [])) [
  | none ↦ []
  | some d ↦ d.dependency_check_ids
]

abbrev pub Marks : Type 0
Marks = CheckId → Mark

-- The loop of `visit` over the dependencies, with the call of `visit` as an argument. `none` says
-- that the fuel ran out.
unfoldable pub visit_all :
    (CheckId → Marks → Option (Bool × Marks)) → List CheckId → Marks → Option (Bool × Marks)
visit_all step [] st = some (true, st)
visit_all step (d ∷ ds) st = elim (step d st) [
  | none ↦ none
  | some (ok, st') ↦ elim ok [ false ↦ some (false, st') | true ↦ visit_all step ds st' ]
]

-- `visit`, with at most `fuel` calls inside one another; it gives its result and the states.
unfoldable pub visit : (CheckId → List CheckId) → ℕ → CheckId → Marks → Option (Bool × Marks)
unfolding visit_all
visit deps zero id st = none
visit deps (suc fuel) id st = elim (st id) [
  | active ↦ some (false, st)
  | done ↦ some (true, st)
  | fresh ↦ elim (visit_all (visit deps fuel) (deps id) (set_mark st id active)) [
    | none ↦ none
    | some (ok, st') ↦ elim ok [
      | false ↦ some (false, st')
      | true ↦ some (true, set_mark st' id done)
    ]
  ]
]

-- The last loop of `validateCheckDAG`.
unfoldable pub visit_definitions :
    (CheckId → List CheckId) → ℕ → List CheckDefinition → Marks → Option (List ValidationIssue)
unfolding visit
visit_definitions deps fuel [] st = some []
visit_definitions deps fuel (d ∷ ds) st = elim (visit deps fuel d.check_id st) [
  | none ↦ none
  | some (ok, st') ↦ elim (visit_definitions deps fuel ds st') [
    | none ↦ none
    | some is ↦ some (
        issue_if (not ok) ValidationCode.invalid_value (codes "/check_definitions")
          (codes "dependency cycle")
        ++ is)
  ]
]

-- The loop over the dependencies of all definitions.
unfoldable pub dependency_issues : List CheckId → List CheckDefinition → List ValidationIssue
unfolding each issue_if
dependency_issues known defs =
    each
      (λ i d.
        each
          (λ j id.
            issue_if (not (contains known id)) ValidationCode.reference_missing
              (codes "/check_definitions") (codes "dependency check missing"))
          0 d.dependency_check_ids)
      0 defs

-- There are no more calls inside one another than definitions, and one for an identifier that no
-- definition has.
unfoldable pub validate_check_dag : List CheckDefinition → Option (List ValidationIssue)
unfolding dependency_issues ids_of_all visit_definitions dependencies
validate_check_dag defs =
    let cycles = visit_definitions (dependencies defs) (suc (length defs)) defs (λ id. fresh) in
    elim cycles [
      | none ↦ none
      | some is ↦ some (dependency_issues (ids_of_all (λ d. d.check_id) defs) defs ++ is)
    ]

-- `valid` of `validateExecution`
unfoldable pub lifecycle_allows : CheckLifecycle → CheckVerdict → Bool
lifecycle_allows CheckLifecycle.not_run v = v == CheckVerdict.skipped
lifecycle_allows CheckLifecycle.completed v =
    (v == CheckVerdict.pass) || ((v == CheckVerdict.fail) || (v == CheckVerdict.unknown))
lifecycle_allows CheckLifecycle.unavailable v = v == CheckVerdict.skipped
lifecycle_allows CheckLifecycle.denied v = v == CheckVerdict.skipped
lifecycle_allows CheckLifecycle.timed_out v =
    (v == CheckVerdict.fail) || (v == CheckVerdict.unknown)
lifecycle_allows CheckLifecycle.error v = v == CheckVerdict.unknown
lifecycle_allows (CheckLifecycle.invalid s) v = false

abbrev is_known_lifecycle : CheckLifecycle → Bool
is_known_lifecycle (CheckLifecycle.invalid s) = false
is_known_lifecycle _ = true

-- `finish.Before(start)`, where both are there
abbrev ends_before_start : Option Time → Option Time → Bool
ends_before_start (some start) (some finish) = ltb finish start
ends_before_start _ _ = false

unfoldable pub validate_execution :
    CheckExecution
    → Text
    → List VantageId
    → List Observation
    → List VisibilityAssessment
    → List ValidationIssue
unfolding issue_if issue_of each ids_of_all lifecycle_allows is_unknown
validate_execution e p vantages observed assessed =
    let observations = ids_of_all (λ o. o.observation_id) observed in
    let assessments = ids_of_all (λ v. v.visibility_id) assessed in
    let bad_branch : Bool = elim e.branch_id [ none ↦ false | some b ↦ not (branch_id_valid b) ] in
    issue_if bad_branch ValidationCode.invalid_value (p ++ codes "/branch_id")
      (codes "invalid branch ID")
    ++ issue_if (is_unknown vantages e.vantage_id) ValidationCode.reference_missing
        (p ++ codes "/vantage_id") (codes "vantage missing")
    ++ elim e.reason_code [
      | none ↦ []
      | some r ↦
          issue_of (validate_reason_code r) ValidationCode.sensitive_disallowed_field
            (p ++ codes "/reason_code")
    ]
    ++ issue_if (not (is_known_lifecycle e.lifecycle)) ValidationCode.unknown_enum_value
        (p ++ codes "/lifecycle") (codes "unknown lifecycle")
    ++ issue_if
        (not (check_verdict_valid e.verdict) || not (lifecycle_allows e.lifecycle e.verdict))
        ValidationCode.invalid_execution_state p (codes "lifecycle/verdict combination invalid")
    ++ each
        (λ i id.
          issue_if (not (contains observations id)) ValidationCode.reference_missing
            (p ++ codes "/observation_ids") (codes "observation missing"))
        0 e.observation_ids
    ++ each
        (λ i id.
          issue_if (not (contains assessments id)) ValidationCode.reference_missing
            (p ++ codes "/visibility_assessment_ids") (codes "visibility missing"))
        0 e.visibility_assessment_ids
    ++ issue_if (ends_before_start e.started_at e.finished_at) ValidationCode.invalid_value p
        (codes "execution finished before started")
