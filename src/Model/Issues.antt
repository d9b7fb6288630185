-- ===== src/Model/Issues.antt =====
-- `ValidationCode` and `ValidationIssue` of internal/model/validation.go.
use route_doc.Common.{Text, codes, Bool, not, List, sort, text_eq, text_lt, if◌then◌else◌}

pub data ValidationCode : Type 0 where
  unsupported_major missing_required_field unknown_field : ValidationCode
  newer_minor_field_ignored unknown_enum_value unknown_union_kind : ValidationCode
  exact_version_required duplicate_id invalid_generated_sequence : ValidationCode
  reference_missing reference_kind_mismatch reference_forward_claim : ValidationCode
  reference_cross_rule_claim vantage_required vantage_mismatch : ValidationCode
  invalid_execution_state justification_missing justification_cycle : ValidationCode
  visibility_scope_mismatch visibility_insufficient_for_absence : ValidationCode
  invalid_assertion_source duplicate_candidate_key unlisted_provenance : ValidationCode
  claim_rule_required claim_invalid_support_level finding_rule_required : ValidationCode
  finding_claim_required finding_rule_mismatch finding_invalid_global_primary : ValidationCode
  sensitive_disallowed_field ordering_noncanonical invalid_json : ValidationCode
  duplicate_field invalid_value registry_duplicate : ValidationCode

pub record ValidationIssue : Type 0 where
  pub code : ValidationCode
  pub pointer : Text
  pub message : Text

unfoldable pub validation_code_text : ValidationCode → Text
validation_code_text ValidationCode.unsupported_major = codes "schema.unsupported_major"
validation_code_text ValidationCode.missing_required_field = codes "schema.missing_required_field"
validation_code_text ValidationCode.unknown_field = codes "schema.unknown_field"
validation_code_text ValidationCode.newer_minor_field_ignored =
    codes "schema.newer_minor_field_ignored"
validation_code_text ValidationCode.unknown_enum_value = codes "schema.unknown_enum_value"
validation_code_text ValidationCode.unknown_union_kind = codes "schema.unknown_union_kind"
validation_code_text ValidationCode.exact_version_required = codes "schema.exact_version_required"
validation_code_text ValidationCode.duplicate_id = codes "id.duplicate"
validation_code_text ValidationCode.invalid_generated_sequence =
    codes "id.invalid_generated_sequence"
validation_code_text ValidationCode.reference_missing = codes "reference.missing"
validation_code_text ValidationCode.reference_kind_mismatch = codes "reference.kind_mismatch"
validation_code_text ValidationCode.reference_forward_claim = codes "reference.forward_claim"
validation_code_text ValidationCode.reference_cross_rule_claim = codes "reference.cross_rule_claim"
validation_code_text ValidationCode.vantage_required = codes "vantage.required"
validation_code_text ValidationCode.vantage_mismatch = codes "vantage.mismatch"
validation_code_text ValidationCode.invalid_execution_state = codes "execution.invalid_state"
validation_code_text ValidationCode.justification_missing = codes "justification.missing"
validation_code_text ValidationCode.justification_cycle = codes "justification.cycle"
validation_code_text ValidationCode.visibility_scope_mismatch = codes "visibility.scope_mismatch"
validation_code_text ValidationCode.visibility_insufficient_for_absence =
    codes "visibility.insufficient_for_absence"
validation_code_text ValidationCode.invalid_assertion_source = codes "assertion.invalid_source"
validation_code_text ValidationCode.duplicate_candidate_key = codes "rule.duplicate_candidate_key"
validation_code_text ValidationCode.unlisted_provenance = codes "rule.unlisted_provenance"
validation_code_text ValidationCode.claim_rule_required = codes "claim.rule_required"
validation_code_text ValidationCode.claim_invalid_support_level =
    codes "claim.invalid_support_level"
validation_code_text ValidationCode.finding_rule_required = codes "finding.rule_required"
validation_code_text ValidationCode.finding_claim_required = codes "finding.claim_required"
validation_code_text ValidationCode.finding_rule_mismatch = codes "finding.rule_mismatch"
validation_code_text ValidationCode.finding_invalid_global_primary =
    codes "finding.invalid_global_primary"
validation_code_text ValidationCode.sensitive_disallowed_field = codes "sensitive.disallowed_field"
validation_code_text ValidationCode.ordering_noncanonical = codes "ordering.noncanonical"
validation_code_text ValidationCode.invalid_json = codes "schema.invalid_json"
validation_code_text ValidationCode.duplicate_field = codes "schema.duplicate_field"
validation_code_text ValidationCode.invalid_value = codes "schema.invalid_value"
validation_code_text ValidationCode.registry_duplicate = codes "rule.registry_duplicate"

-- The order of `SortValidationIssues`.
unfoldable pub less_issue : ValidationIssue → ValidationIssue → Bool
less_issue a b =
    if not (text_eq a.pointer b.pointer)
    then text_lt a.pointer b.pointer
    else if not (text_eq (validation_code_text a.code) (validation_code_text b.code))
    then text_lt (validation_code_text a.code) (validation_code_text b.code)
    else text_lt a.message b.message

unfoldable pub sort_validation_issues : List ValidationIssue → List ValidationIssue
sort_validation_issues = sort less_issue
