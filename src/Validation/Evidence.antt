-- ===== src/Validation/Evidence.antt =====
-- `ValidateEvidenceRun` and `CanonicalizeAndValidateEvidenceRun` of
-- internal/model/validate_evidence.go. The result is the run, or the issues.
pub mod Parts
pub mod Sound
pub mod Edges
use route_doc.Common.{
  ℕ, zero, suc, Bool, true, false, not, List, [], ◌∷◌, ◌++◌, Option, none, some, Text, codes,
  contains, index_into, ◌==◌, eq_number, is_negative, length, if◌then◌else◌,
}
use route_doc.Model.Ids.{ObservationId}
use route_doc.Model.Issues.{ValidationCode, ValidationIssue, sort_validation_issues}
use route_doc.Model.Runs.{EvidenceRun}
use route_doc.Model.Enums.{goal_kind_valid, scope_kind_valid}
use route_doc.Ids.Kinds.{
  run_id_valid, assertion_id_valid, vantage_id_valid, check_id_valid, execution_id_valid,
  observation_id_valid, visibility_id_valid, limitation_id_valid,
}
use route_doc.Listener.{entity_id_valid}
use route_doc.Canonical.Runs.{canonicalize_evidence}
use route_doc.Validation.Shared.{
  issue_if, issue_of, identifier_issues, indexed, each_seen, ids_of_all,
}
use route_doc.Validation.Texts.{TextLibrary, validate_scalar}
use route_doc.Validation.Shapes.{
  validate_times, validate_target, validate_vantage, validate_capability, validate_assertion,
}
use route_doc.Validation.Entities.{validate_entity, validate_limitation}
use route_doc.Validation.Paths.{validate_path}
use route_doc.Validation.Checks.{
  Known, validate_check_definition, validate_check_dag, validate_execution,
}
use route_doc.Validation.Observations.{validate_observation, inventory_issues, validate_visibility}

-- A run that a validator accepts, or the issues it returns instead.
pub data Validated {ℓ} (A : Type ℓ) : Type ℓ where
  accepted : A → Validated A
  refused : List ValidationIssue → Validated A

-- The tests before the loops.
unfoldable pub header_issues : TextLibrary → EvidenceRun → List ValidationIssue
unfolding issue_if issue_of validate_times
header_issues lib r =
    let bad_expectation : Bool = elim r.goal.expectation_assertion_id [
      | none ↦ false
      | some a ↦ not (assertion_id_valid a)
    ] in
    issue_if (not (r.report_schema_version.major == 1)) ValidationCode.invalid_value
      (codes "/report_schema_version") (codes "unsupported schema major")
    ++ issue_if (not (run_id_valid r.run_id)) ValidationCode.invalid_value (codes "/run_id")
        (codes "invalid run ID")
    ++ issue_of (validate_scalar r.producer.name) ValidationCode.sensitive_disallowed_field
        (codes "/producer/name")
    ++ issue_of (validate_scalar r.producer.version) ValidationCode.sensitive_disallowed_field
        (codes "/producer/version")
    ++ issue_of (validate_scalar r.producer.build) ValidationCode.sensitive_disallowed_field
        (codes "/producer/build")
    ++ issue_of (validate_target lib r.target) ValidationCode.sensitive_disallowed_field
        (codes "/target")
    ++ issue_if (not (goal_kind_valid r.goal.kind)) ValidationCode.invalid_value
        (codes "/goal/kind") (codes "unknown goal")
    ++ issue_if bad_expectation ValidationCode.invalid_value
        (codes "/goal/expectation_assertion_id") (codes "invalid assertion ID")
    ++ issue_if (not (scope_kind_valid r.requested_scope.kind)) ValidationCode.invalid_value
        (codes "/requested_scope/kind") (codes "unknown scope")
    ++ issue_if (is_negative r.policy.coherence_window_ns) ValidationCode.invalid_value
        (codes "/policy/coherence_window_ns") (codes "duration must be non-negative")
    ++ validate_times r.started_at r.finished_at (codes "/started_at") (codes "/finished_at")

-- The identifiers that the loops have collected when the checks are validated.
unfoldable pub known_ids : EvidenceRun → Known
unfolding ids_of_all
known_ids r = record {
  entities = ids_of_all (λ e. e.entity_id) r.entities;
  vantages = ids_of_all (λ v. v.vantage_id) r.vantage_points;
  assertions = ids_of_all (λ a. a.assertion_id) r.operator_assertions;
  capabilities = ids_of_all (λ c. c.capability_id) r.capabilities;
}

-- The loop over the vantage points, and likewise below.
unfoldable pub vantages_issues : TextLibrary → EvidenceRun → List ValidationIssue
unfolding each_seen identifier_issues indexed
vantages_issues lib r =
    each_seen (λ v. v.vantage_id)
      (λ seen i v.
        let p = indexed (codes "/vantage_points/") i in
        identifier_issues (vantage_id_valid v.vantage_id) seen v.vantage_id
          (p ++ codes "/vantage_id") (codes "invalid vantage ID") (codes "duplicate vantage ID")
        ++ validate_vantage lib v p)
      [] 0 r.vantage_points

unfoldable pub capabilities_issues : EvidenceRun → List ValidationIssue
unfolding each_seen indexed
capabilities_issues r =
    each_seen (λ c. c.capability_id)
      (λ seen i c. validate_capability seen c (indexed (codes "/capabilities/") i)) [] 0
      r.capabilities

unfoldable pub assertions_issues : TextLibrary → EvidenceRun → List ValidationIssue
unfolding each_seen identifier_issues indexed
assertions_issues lib r =
    each_seen (λ a. a.assertion_id)
      (λ seen i a.
        let p = indexed (codes "/operator_assertions/") i in
        identifier_issues (assertion_id_valid a.assertion_id) seen a.assertion_id
          (p ++ codes "/assertion_id") (codes "invalid assertion ID")
          (codes "duplicate assertion ID")
        ++ validate_assertion lib a p)
      [] 0 r.operator_assertions

unfoldable pub entities_issues : TextLibrary → EvidenceRun → List ValidationIssue
unfolding each_seen identifier_issues indexed
entities_issues lib r =
    each_seen (λ e. e.entity_id)
      (λ seen i e.
        let p = indexed (codes "/entities/") i in
        identifier_issues (entity_id_valid e.entity_id) seen e.entity_id (p ++ codes "/entity_id")
          (codes "invalid entity ID") (codes "duplicate entity ID")
        ++ validate_entity lib e p)
      [] 0 r.entities

unfoldable pub definitions_issues : TextLibrary → EvidenceRun → List ValidationIssue
unfolding each_seen identifier_issues indexed
definitions_issues lib r =
    each_seen (λ c. c.check_id)
      (λ seen i c.
        let p = indexed (codes "/check_definitions/") i in
        identifier_issues (check_id_valid c.check_id) seen c.check_id (p ++ codes "/check_id")
          (codes "invalid check ID") (codes "duplicate check ID")
        ++ validate_check_definition lib (known_ids r) c p)
      [] 0 r.check_definitions

unfoldable pub executions_issues : EvidenceRun → List ValidationIssue
unfolding each_seen identifier_issues indexed issue_if ids_of_all
executions_issues r =
    let checks = ids_of_all (λ c. c.check_id) r.check_definitions in
    each_seen (λ e. e.execution_id)
      (λ seen i e.
        let p = indexed (codes "/check_executions/") i in
        identifier_issues (execution_id_valid e.execution_id) seen e.execution_id
          (p ++ codes "/execution_id") (codes "invalid execution ID")
          (codes "duplicate execution ID")
        ++ issue_if (not (contains checks e.check_id)) ValidationCode.reference_missing
            (p ++ codes "/check_id") (codes "check does not exist")
        ++ validate_execution e p (known_ids r).vantages r.observations r.visibility_assessments)
      [] 0 r.check_executions

unfoldable pub observations_issues : TextLibrary → EvidenceRun → List ValidationIssue
unfolding each_seen identifier_issues indexed
observations_issues lib r =
    let entities = index_into (λ e. e.entity_id) r.entities [] in
    each_seen (λ o. o.observation_id)
      (λ seen i o.
        let p = indexed (codes "/observations/") i in
        identifier_issues (observation_id_valid o.observation_id) seen o.observation_id
          (p ++ codes "/observation_id") (codes "invalid observation ID")
          (codes "duplicate observation ID")
        ++ validate_observation lib o p entities (known_ids r).vantages
        ++ inventory_issues entities r.vantage_points o p)
      [] 0 r.observations

unfoldable pub visibilities_issues : EvidenceRun → List ValidationIssue
unfolding each_seen identifier_issues indexed ids_of_all
visibilities_issues r =
    let known = ids_of_all (λ o. o.observation_id) r.observations in
    each_seen (λ v. v.visibility_id)
      (λ seen i v.
        let p = indexed (codes "/visibility_assessments/") i in
        identifier_issues (visibility_id_valid v.visibility_id) seen v.visibility_id
          (p ++ codes "/visibility_id") (codes "invalid visibility ID")
          (codes "duplicate visibility ID")
        ++ validate_visibility r v p (known_ids r).entities (known_ids r).vantages known)
      [] 0 r.visibility_assessments

unfoldable pub limitations_issues : EvidenceRun → List ValidationIssue
unfolding each_seen identifier_issues indexed
limitations_issues r =
    each_seen (λ l. l.limitation_id)
      (λ seen i l.
        let p = indexed (codes "/limitations/") i in
        identifier_issues (limitation_id_valid l.limitation_id) seen l.limitation_id
          (p ++ codes "/limitation_id") (codes "invalid limitation ID")
          (codes "duplicate limitation ID")
        ++ validate_limitation l p)
      [] 0 r.limitations

-- All issues of a run before they are sorted; `none` only if the search of `validate_check_dag`
-- ran out of fuel, which it does not.
unfoldable pub evidence_issues : TextLibrary → EvidenceRun → Option (List ValidationIssue)
unfolding header_issues vantages_issues capabilities_issues assertions_issues entities_issues
    known_ids definitions_issues executions_issues observations_issues visibilities_issues
    limitations_issues
evidence_issues lib r = elim (validate_check_dag r.check_definitions) [
  | none ↦ none
  | some cycles ↦ some (
      header_issues lib r
      ++ vantages_issues lib r
      ++ capabilities_issues r
      ++ assertions_issues lib r
      ++ entities_issues lib r
      ++ validate_path r.service_path (known_ids r).entities (known_ids r).assertions r.observations
          (codes "/service_path")
      ++ definitions_issues lib r
      ++ cycles
      ++ executions_issues r
      ++ observations_issues lib r
      ++ visibilities_issues r
      ++ limitations_issues r)
]

-- `SortValidationIssues(is); if len(is) != 0 { return ..., is }`
unfoldable pub accept_or_refuse {ℓ} : {A : Type ℓ} → A → List ValidationIssue → Validated A
accept_or_refuse r [] = accepted r
accept_or_refuse r (i ∷ is) = refused (sort_validation_issues (i ∷ is))

unfoldable pub validate_evidence_run : TextLibrary → EvidenceRun → Option (Validated EvidenceRun)
unfolding evidence_issues accept_or_refuse
validate_evidence_run lib r = elim (evidence_issues lib r) [
  | none ↦ none
  | some is ↦ some (accept_or_refuse r is)
]

unfoldable pub canonicalize_and_validate_evidence_run :
    TextLibrary → EvidenceRun → Option (Validated EvidenceRun)
unfolding validate_evidence_run
canonicalize_and_validate_evidence_run lib r = elim (canonicalize_evidence r).1 [
  | [] ↦ validate_evidence_run lib (canonicalize_evidence r).0
  | i ∷ is ↦ some (refused (i ∷ is))
]
