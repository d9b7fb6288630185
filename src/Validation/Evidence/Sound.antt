-- ===== src/Validation/Evidence/Sound.antt =====
-- What holds of a run that `ValidateEvidenceRun` of internal/model/validate_evidence.go accepts: its
-- identifiers, its checks and their executions.
use route_doc.Common.{◌≡◌, Bool, true, false, not, ◌||◌, List, [], some, arith, Text, All, contains}
use route_doc.Model.Runs.{EvidenceRun}
use route_doc.Model.Checks.{CheckDefinition, CheckExecution}
use route_doc.Model.Enums.{eq_check_verdict, check_verdict_valid}
use route_doc.Validation.Shared.{
  issue_if-nil, append-nil, identifier_issues, ids_of_all, unknown-nil,
}
use route_doc.Validation.Shared.Loops.{All-values, NoRepeat, each_seen-AllFrom, each_seen-NoRepeat}
use route_doc.Validation.Texts.{TextLibrary}
use route_doc.Validation.Graph.{Ends}
use route_doc.Validation.Checks.{dependencies, lifecycle_allows, validate_execution}
use route_doc.Validation.Checks.Acyclic.{DependenciesKnown, validate_check_dag_iff}
use route_doc.Validation.Evidence.{
  accepted, validate_evidence_run, vantages_issues, entities_issues, definitions_issues,
  executions_issues, observations_issues, visibilities_issues,
}
use route_doc.Validation.Evidence.Parts.{EvidenceParts, validate_evidence_run-Parts}

-- An identifier that is not reported is new.
pub identifier-new :
    (valid : Bool) (seen : List Text) (id p m n : Text)
    → identifier_issues valid seen id p m n ≡ []
    → contains seen id ≡ false
unfolding identifier_issues
identifier-new valid seen id p m n h =
    (issue_if-nil (contains seen id) _ _ _).0 ((append-nil _ _).0 h).1

-- No two elements of a list of the run have the same identifier.
pub record HasDistinctIds (r : EvidenceRun) : Type 0 where
  pub vantages : NoRepeat (λ v. v.vantage_id) r.vantage_points
  pub entities : NoRepeat (λ e. e.entity_id) r.entities
  pub definitions : NoRepeat (λ c. c.check_id) r.check_definitions
  pub executions : NoRepeat (λ e. e.execution_id) r.check_executions
  pub observations : NoRepeat (λ o. o.observation_id) r.observations
  pub assessments : NoRepeat (λ v. v.visibility_id) r.visibility_assessments

module _ (lib : TextLibrary) (r : EvidenceRun) (parts : EvidenceParts lib r) where
  distinct_ids : HasDistinctIds r
  unfolding vantages_issues entities_issues definitions_issues executions_issues observations_issues
      visibilities_issues
  distinct_ids = record {
    vantages =
        each_seen-NoRepeat _ _
          (λ seen i v e. identifier-new _ seen v.vantage_id _ _ _ ((append-nil _ _).0 e).0) 0
          r.vantage_points parts.vantages;
    entities =
        each_seen-NoRepeat _ _
          (λ seen i v e. identifier-new _ seen v.entity_id _ _ _ ((append-nil _ _).0 e).0) 0
          r.entities parts.entities;
    definitions =
        each_seen-NoRepeat _ _
          (λ seen i v e. identifier-new _ seen v.check_id _ _ _ ((append-nil _ _).0 e).0) 0
          r.check_definitions parts.definitions;
    executions =
        each_seen-NoRepeat _ _
          (λ seen i v e.
            identifier-new _ seen v.execution_id _ _ _
              ((append-nil _ _).0 ((append-nil _ _).0 e).0).0)
          0 r.check_executions parts.executions;
    observations =
        each_seen-NoRepeat _ _
          (λ seen i v e.
            identifier-new _ seen v.observation_id _ _ _
              ((append-nil _ _).0 ((append-nil _ _).0 e).0).0)
          0 r.observations parts.observations;
    assessments =
        each_seen-NoRepeat _ _
          (λ seen i v e. identifier-new _ seen v.visibility_id _ _ _ ((append-nil _ _).0 e).0) 0
          r.visibility_assessments parts.visibilities;
  }

-- The execution is of a defined check, and its verdict is one that its lifecycle allows.
abbrev pub IsExecutionOf : List CheckDefinition → CheckExecution → Type 0
IsExecutionOf defs e =
    (contains (ids_of_all (λ c. c.check_id) defs) e.check_id ≡ true)
    × (lifecycle_allows e.lifecycle e.verdict ≡ true)

pub record IsSoundEvidence (r : EvidenceRun) : Type 0 where
  pub distinct : HasDistinctIds r
  pub executions : All (IsExecutionOf r.check_definitions) r.check_executions
  pub known :
      DependenciesKnown (ids_of_all (λ c. c.check_id) r.check_definitions) r.check_definitions
  pub walks : All (λ d. Ends (dependencies r.check_definitions) d.check_id) r.check_definitions

-- In a run that the validation accepts, no two vantage points, entities, check definitions,
-- executions, observations or assessments have the same identifier; every execution is of a check
-- that is defined, with a verdict that its lifecycle allows; and every dependency of a check is
-- defined, with every walk along the dependencies ending.
pub accepted_evidence-IsSoundEvidence :
    (lib : TextLibrary) (r v : EvidenceRun)
    → validate_evidence_run lib r ≡ some (accepted v)
    → IsSoundEvidence r
unfolding executions_issues validate_execution
accepted_evidence-IsSoundEvidence lib r v h =
    let (same, parts) = validate_evidence_run-Parts lib r v h in
    let (known, walks) = (validate_check_dag_iff r.check_definitions).0 parts.dependencies in
    let executions =
      each_seen-AllFrom _ _ (λ i e. IsExecutionOf r.check_definitions e)
        (λ seen i e k.
          let (k2, last) = (append-nil _ _).0 k in
          let (k1, named) = (append-nil _ _).0 k2 in
          let (l7, _) = (append-nil _ _).0 last in
          let (l6, _) = (append-nil _ _).0 l7 in
          let (l5, _) = (append-nil _ _).0 l6 in
          let (_, verdict) = (append-nil _ _).0 l5 in
          let allowed =
            (issue_if-nil
                (not (check_verdict_valid e.verdict)
                  || not (lifecycle_allows e.lifecycle e.verdict))
                _ _ _).0
              verdict in
          ((unknown-nil _ e.check_id _ _ _).0 named, ground arith))
        [] 0 r.check_executions parts.executions in
    record {
      distinct = distinct_ids lib r parts;
      executions = All-values (IsExecutionOf r.check_definitions) 0 r.check_executions executions;
      known = known;
      walks = walks;
    }
