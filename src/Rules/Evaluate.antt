-- ===== src/Rules/Evaluate.antt =====
-- `Evaluate` of internal/rules/evaluate.go, up to the validation of its result.
use route_doc.Common.{
  Table, Bool, not, ◌&&◌, List, [], ◌∷◌, codes, sort, leb, length, ◌==◌, eq_number, if◌then◌else◌,
}
use route_doc.Model.Ids.{Time, ClaimId}
use route_doc.Model.Checks.{SchemaVersion}
use route_doc.Model.Runs.{EvidenceRun, EvaluatedRun}
use route_doc.Model.Issues.{ValidationCode, ValidationIssue, sort_validation_issues}
use route_doc.Selection.Apply.{apply}
use route_doc.Rules.Templates.{Rule}
use route_doc.Rules.Registry.{rule_ids}
use route_doc.Rules.Compile.{
  CompiledCandidate, ClaimState, FindingState, collect_candidates, less_candidate, make_all_claims,
  make_all_findings,
}

unfoldable pub exact_version : SchemaVersion → Bool
exact_version v = (v.major == 1) && ((v.minor == 0) && (v.patch == 0))

-- The run that is handed to the validation, or the issues that are returned instead.
pub data Evaluated : Type 0 where
  rejected : List ValidationIssue → Evaluated
  handed_over : EvaluatedRun → Evaluated

unfoldable pub claims_made :
    List CompiledCandidate → ClaimState × List (CompiledCandidate × Table ClaimId)
claims_made cs = make_all_claims cs (record { claim_number = 1; claims = []; issues = [] })

-- The state after both loops; the second loop goes on with the issues of the first.
unfoldable pub findings_made : List CompiledCandidate → FindingState
findings_made cs =
    let (s, located) = claims_made cs in
    make_all_findings located (record { finding_number = 1; findings = []; issues = s.issues })

-- `if len(is) > 0`, otherwise the selection and its issues
unfoldable pub select_or_reject : List ValidationIssue → EvaluatedRun → Evaluated
select_or_reject is r =
    if not (leb (length is) 0)
    then Evaluated.rejected (sort_validation_issues is)
    else if not (leb (length (apply r).1) 0)
    then Evaluated.rejected (apply r).1
    else Evaluated.handed_over (apply r).0

unfoldable pub compiled : EvidenceRun → Time → List Rule → List CompiledCandidate → EvaluatedRun
compiled r clock registry cs = record {
  evidence = r;
  evaluation = record { evaluated_at = clock; ordered_rule_ids = rule_ids registry };
  claims = (claims_made cs).0.claims;
  findings = (findings_made cs).findings;
}

unfoldable pub evaluate : List Rule → EvidenceRun → Time → Evaluated
evaluate registry r clock =
    if not (exact_version r.report_schema_version)
    then Evaluated.rejected (
        record {
          code = ValidationCode.exact_version_required;
          pointer = codes "/report_schema_version";
          message = codes "evaluation requires exact schema version";
        }
        ∷ [])
    else let (raw, is) = collect_candidates registry r in
      let cs = sort less_candidate raw in
      if not (leb (length is) 0)
      then Evaluated.rejected (sort_validation_issues is)
      else select_or_reject (findings_made cs).issues (compiled r clock registry cs)
