-- ===== src/Validation/Evaluated/Ordered.antt =====
-- The order of the lists of a run that `ValidatePersistedEvaluatedRun` of
-- internal/model/validate_evaluated.go accepts.
use route_doc.Common.{◌≡◌, ◌∙◌, ap, not, ◌&&◌, [], some, arith, length, leb}
use mathlib.Core.Path.{subst}
use route_doc.Model.Runs.{EvaluatedRun}
use route_doc.Model.Equality.{deep_equal, deep_equal_iff}
use route_doc.Canonical.Runs.{canonicalize_evaluated}
use route_doc.Canonical.Ordered.{IsOrderedRun, canonicalize_evaluated-IsOrderedRun}
use route_doc.Validation.Shared.{issue_if-nil, append-nil}
use route_doc.Validation.Texts.{TextLibrary}
use route_doc.Validation.Evidence.{accepted}
use route_doc.Validation.Evaluated.{order_issues, validate_persisted_evaluated_run}
use route_doc.Validation.Evaluated.Parts.{validate_persisted-Parts}

-- A run without an issue about its order is its own canonical form.
order_issues-canonical : (r : EvaluatedRun) → order_issues r ≡ [] → (canonicalize_evaluated r).0 ≡ r
unfolding order_issues
order_issues-canonical r h =
    let (a, b) = (append-nil (canonicalize_evaluated r).1 _).0 h in
    let k =
      (issue_if-nil
          (leb (length (canonicalize_evaluated r).1) 0
            && not (deep_equal (canonicalize_evaluated r).0 r))
          _ _ _).0
        b in
    let n : length (canonicalize_evaluated r).1 ≡ 0 = ap length a in
    (deep_equal_iff (canonicalize_evaluated r).0 r).0 (ground arith)

-- In a run that the validation accepts, every list of the evidence but the branches of the service
-- path is ordered by identifier, and claims and findings are ordered by the numbers of theirs. Inside
-- the entries of the evidence, identifiers and limitations are in order, and references are ordered
-- by kind and then identifier. In a claim its subjects, branches and evidence are in order, in a
-- finding its branches, positions, claims and limitations: branches and positions as the branches of
-- the service path, claims by their numbers.
pub accepted-IsOrderedRun :
    (lib : TextLibrary) (r v : EvaluatedRun)
    → validate_persisted_evaluated_run lib r ≡ some (accepted v)
    → IsOrderedRun v
accepted-IsOrderedRun lib r v h =
    let (same, parts) = validate_persisted-Parts lib r v h in
    subst IsOrderedRun (order_issues-canonical r parts.order ∙ same)
      (canonicalize_evaluated-IsOrderedRun r)
