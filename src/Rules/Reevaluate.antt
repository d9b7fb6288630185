-- ===== src/Rules/Reevaluate.antt =====
-- `Evaluate` of internal/rules/evaluate.go with the validation of its result, and `Reevaluate`.
use route_doc.Common.{true, false, List, [], ◌∷◌, Option, none, some, codes}
use route_doc.Model.Ids.{Time}
use route_doc.Model.Runs.{EvidenceRun, EvaluatedRun}
use route_doc.Model.Issues.{ValidationCode}
use route_doc.Rules.Templates.{Rule}
use route_doc.Rules.Evaluate.{Evaluated, evaluate, exact_version}
use route_doc.Validation.Texts.{TextLibrary}
use route_doc.Validation.Evidence.{Validated, accepted, refused, validate_evidence_run}
use route_doc.Validation.Evaluated.{canonicalize_and_validate_evaluated_run}

-- `none` only if a search of the validation ran out of fuel, which none does.
unfoldable pub evaluate_and_validate :
    TextLibrary → List Rule → EvidenceRun → Time → Option (Validated EvaluatedRun)
evaluate_and_validate lib registry r clock = elim (evaluate registry r clock) [
  | Evaluated.rejected is ↦ some (refused is)
  | Evaluated.handed_over e ↦ canonicalize_and_validate_evaluated_run lib e
]

unfoldable pub reevaluate :
    TextLibrary → List Rule → EvaluatedRun → Time → Option (Validated EvaluatedRun)
unfolding evaluate_and_validate
reevaluate lib registry r clock = elim (exact_version r.evidence.report_schema_version) [
  | false ↦ some (
      refused (
        record {
          code = ValidationCode.exact_version_required;
          pointer = codes "/report_schema_version";
          message = codes "re-evaluation requires exact version";
        }
        ∷ []))
  | true ↦ elim (validate_evidence_run lib r.evidence) [
    | none ↦ none
    | some base ↦ elim base [
      | refused is ↦ some (refused is)
      | accepted e ↦ evaluate_and_validate lib registry e clock
    ]
  ]
]
