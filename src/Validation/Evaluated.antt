-- ===== src/Validation/Evaluated.antt =====
-- `ValidatePersistedEvaluatedRun` and `CanonicalizeAndValidateEvaluatedRun` of
-- internal/model/validate_evaluated.go.
pub mod Parts
pub mod Sound
pub mod Fixed
pub mod Absence
pub mod Based
pub mod Numbers
pub mod Ordered
use route_doc.Common.{
  ℕ, zero, suc, ◌+◌, Bool, true, false, not, ◌&&◌, List, [], ◌∷◌, ◌++◌, Option, none, some, Text,
  codes, Table, contains, text_lt, length, leb, ltb, ◌==◌, eq_number, eq_text, if◌then◌else◌,
}
use route_doc.Model.Ids.{RuleId, Time}
use route_doc.Model.Issues.{ValidationCode, ValidationIssue}
use route_doc.Model.Claims.{Claim, Finding}
use route_doc.Model.Runs.{EvaluatedRun, EvidenceRun}
use route_doc.Model.Equality.{deep_equal}
use route_doc.Model.Enums.{
  ClaimStatementCode, Selection, eq_claim_statement_code, eq_selection, claim_statement_code_valid,
  claim_level_valid,
}
use route_doc.Ids.{claim_prefix}
use route_doc.Ids.Kinds.{claim_id_valid}
use route_doc.GlobalPrimary.{validate_selection}
use route_doc.Canonical.Runs.{canonicalize_evaluated}
use route_doc.Validation.Shared.{issue_if, indexed, each, each_seen}
use route_doc.Validation.Texts.{TextLibrary, rule_id_valid}
use route_doc.Validation.Evidence.{
  Validated, accepted, refused, accept_or_refuse, validate_evidence_run,
}
use route_doc.Validation.Support.{index_claims}
use route_doc.Validation.Claims.{
  generated_id, validate_claim_parameters, validate_missing_evidence_requirement,
  validate_claim_refs,
}
use route_doc.Validation.AbsenceClaims.{validate_listener_absence_claim}
use route_doc.Validation.Grounds.{validate_claim_graphs}
use route_doc.Validation.Findings.{finding_issues, rule_issues}

-- The loop over the rules of the evaluation, with the rule before.
unfoldable pub rules_issues : Option RuleId → ℕ → List RuleId → List ValidationIssue
unfolding issue_if indexed
rules_issues before i [] = []
rules_issues before i (id ∷ ids) =
    let p = indexed (codes "/evaluation/ordered_rule_ids/") i in
    let unordered : Bool = elim before [ none ↦ false | some b ↦ not (text_lt b id) ] in
    issue_if (not (rule_id_valid id)) ValidationCode.invalid_value p (codes "invalid rule ID")
    ++ issue_if unordered ValidationCode.invalid_value p
        (codes "rule IDs must be unique and ascending")
    ++ rules_issues (some id) (i + 1) ids

-- The round of the first loop over the claims; `seen` is the keys of `claimByID`.
unfoldable pub claim_issues :
    TextLibrary → EvaluatedRun → List Text → ℕ → Claim → List ValidationIssue
unfolding issue_if indexed each generated_id rule_issues validate_claim_parameters
    validate_missing_evidence_requirement
claim_issues lib r seen i c =
    let p = indexed (codes "/claims/") i in
    issue_if (not (claim_id_valid c.claim_id)) ValidationCode.invalid_generated_sequence
      (p ++ codes "/claim_id") (codes "invalid generated claim ID")
    ++ issue_if (contains seen c.claim_id) ValidationCode.duplicate_id (p ++ codes "/claim_id")
        (codes "duplicate claim ID")
    ++ issue_if (not (c.claim_id == generated_id claim_prefix (i + 1)))
        ValidationCode.invalid_generated_sequence (p ++ codes "/claim_id")
        (codes "claim IDs must be sequential")
    ++ issue_if (not (claim_statement_code_valid c.statement_code))
        ValidationCode.unknown_union_kind (p ++ codes "/statement_code")
        (codes "unknown claim statement")
    ++ issue_if (not (claim_level_valid c.level)) ValidationCode.unknown_enum_value
        (p ++ codes "/level") (codes "unknown claim level")
    ++ rule_issues r.evaluation.ordered_rule_ids c.rule_id ValidationCode.claim_rule_required
        (p ++ codes "/rule_id") (codes "claim rule is required")
        (codes "claim rule is not listed exactly once")
    ++ validate_claim_parameters lib c p
    ++ each
        (λ j m.
          validate_missing_evidence_requirement m
            (indexed (p ++ codes "/required_missing_evidence/") j))
        0 c.required_missing_evidence

-- The round of the second loop over the claims.
unfoldable pub claim_reference_issues : EvaluatedRun → Table ℕ → ℕ → Claim → List ValidationIssue
unfolding validate_claim_refs validate_listener_absence_claim
claim_reference_issues r by i c =
    validate_claim_refs r by i c
    ++ (if c.statement_code == ClaimStatementCode.no_matching_listener_visible
        then validate_listener_absence_claim r i c
        else [])

-- `globalCount`
unfoldable pub count_globals : List Finding → ℕ
count_globals [] = 0
count_globals (f ∷ fs) =
    let rest = count_globals fs in
    if f.selection == Selection.global_primary then suc rest else rest

-- What is reported when the run is not in canonical order.
unfoldable pub order_issues : EvaluatedRun → List ValidationIssue
unfolding issue_if
order_issues r =
    let (canonical, ci) = canonicalize_evaluated r in
    ci
    ++ issue_if (leb (length ci) 0 && not (deep_equal canonical r))
        ValidationCode.ordering_noncanonical (codes "/")
        (codes "persisted collections are not canonical")

-- The issues of the evidence, of an evidence run that was refused.
abbrev issues_of : Validated EvidenceRun → List ValidationIssue
issues_of (accepted r) = []
issues_of (refused is) = is

-- The issues that the tests on the claims and the findings add to those of the evidence and of the
-- claim graphs.
unfoldable pub evaluation_issues :
    TextLibrary → EvaluatedRun → List ValidationIssue → List ValidationIssue
unfolding issue_if each each_seen index_claims rules_issues claim_issues claim_reference_issues
    finding_issues count_globals order_issues
evaluation_issues lib r graphs =
    let by = index_claims 0 r.claims [] in
    issue_if (r.evaluation.evaluated_at == 0) ValidationCode.invalid_value
      (codes "/evaluation/evaluated_at") (codes "evaluation time must be UTC")
    ++ rules_issues none 0 r.evaluation.ordered_rule_ids
    ++ each_seen (λ c. c.claim_id) (claim_issues lib r) [] 0 r.claims
    ++ each (claim_reference_issues r by) 0 r.claims
    ++ graphs
    ++ each_seen (λ f. f.finding_id) (finding_issues r by) [] 0 r.findings
    ++ issue_if (ltb 1 (count_globals r.findings)) ValidationCode.finding_invalid_global_primary
        (codes "/findings") (codes "multiple global primaries")
    ++ validate_selection r
    ++ order_issues r

-- `none` only if a search ran out of fuel, which none does.
unfoldable pub evaluated_issues : TextLibrary → EvaluatedRun → Option (List ValidationIssue)
unfolding evaluation_issues index_claims validate_claim_graphs
evaluated_issues lib r = elim (validate_evidence_run lib r.evidence) [
  | none ↦ none
  | some base ↦ elim (validate_claim_graphs r.claims (index_claims 0 r.claims [])) [
    | none ↦ none
    | some graphs ↦ some (issues_of base ++ evaluation_issues lib r graphs)
  ]
]

unfoldable pub validate_persisted_evaluated_run :
    TextLibrary → EvaluatedRun → Option (Validated EvaluatedRun)
unfolding evaluated_issues accept_or_refuse
validate_persisted_evaluated_run lib r = elim (evaluated_issues lib r) [
  | none ↦ none
  | some is ↦ some (accept_or_refuse r is)
]

unfoldable pub canonicalize_and_validate_evaluated_run :
    TextLibrary → EvaluatedRun → Option (Validated EvaluatedRun)
unfolding validate_persisted_evaluated_run
canonicalize_and_validate_evaluated_run lib r = elim (canonicalize_evaluated r).1 [
  | [] ↦ validate_persisted_evaluated_run lib (canonicalize_evaluated r).0
  | i ∷ is ↦ some (refused (i ∷ is))
]
