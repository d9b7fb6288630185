-- ===== src/Validation/Evaluated/Fixed.antt =====
-- The selection of internal/selection/service_path.go on a run that `ValidatePersistedEvaluatedRun`
-- of internal/model/validate_evaluated.go accepts.
use route_doc.Common.{◌≡◌, sym, [], some, All}
use mathlib.Core.Path.{subst}
use route_doc.Model.Runs.{EvaluatedRun}
use route_doc.Selection.Apply.{apply}
use route_doc.Selection.Issues.{apply-quiet}
use route_doc.Validation.Texts.{TextLibrary}
use route_doc.Validation.Evidence.{accepted}
use route_doc.Validation.Evaluated.{validate_persisted_evaluated_run}
use route_doc.Validation.Evaluated.Parts.{validate_persisted-Parts}
use route_doc.Validation.Evaluated.Sound.{FitsInt, findings-IsInRange}

-- For a run that the validation accepts, and in which the positions of findings are below 2^63, the
-- selection of primary findings reports no issue.
pub apply-accepted :
    (lib : TextLibrary) (r v : EvaluatedRun)
    → validate_persisted_evaluated_run lib r ≡ some (accepted v)
    → All FitsInt v.findings
    → (apply v).1 ≡ []
apply-accepted lib r v h fit =
    let (same, parts) = validate_persisted-Parts lib r v h in
    let fit' : All FitsInt r.findings = subst (λ x. All FitsInt x.findings) (sym same) fit in
    subst (λ x. (apply x).1 ≡ []) same (apply-quiet r (findings-IsInRange lib r parts fit'))
