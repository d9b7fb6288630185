-- ===== src/Rules/Templates.antt =====
-- internal/rules/ruleapi/rule.go, and `validCandidateKey` and `evidenceFromTemplate` of
-- internal/rules/candidate.go.
use route_doc.Common.{
  Bool, not, ◌&&◌, List, [], none, some, Text, codes, Table, lookup, all, any, leb, ◌==◌, eq_number,
  eq_text,
}
use route_doc.Model.Ids.{
  ObservationId, VisibilityId, AssertionId, EntityId, BranchId, RuleId, ClaimId,
}
use route_doc.Model.Paths.{EvidenceRef}
use route_doc.Model.Claims.{ClaimParameters, MissingEvidenceRequirement, PathPosition}
use route_doc.Model.Limitations.{Limitation}
use route_doc.Model.Runs.{EvidenceRun}
use route_doc.Model.Enums.{
  EvidenceKind, ClaimStatementCode, ClaimLevel, FindingKind, FindingTitleCode, Selection,
}
use route_doc.Utf8.{valid_string}

pub record EvidenceTemplate : Type 0 where
  pub kind : EvidenceKind
  pub observation_id : ObservationId
  pub claim_local_key : Text
  pub visibility_id : VisibilityId
  pub assertion_id : AssertionId

pub record ClaimTemplate : Type 0 where
  pub local_key : Text
  pub statement_code : ClaimStatementCode
  pub level : ClaimLevel
  pub subject_entity_ids : List EntityId
  pub branch_ids : List BranchId
  pub parameters : ClaimParameters
  pub supporting_evidence : List EvidenceTemplate
  pub contradicting_evidence : List EvidenceTemplate
  pub required_missing_evidence : List MissingEvidenceRequirement

pub record FindingTemplate : Type 0 where
  pub kind : FindingKind
  pub title_code : FindingTitleCode
  pub level : ClaimLevel
  pub branch_ids : List BranchId
  pub path_positions : List PathPosition
  pub claim_local_keys : List Text
  pub limitations : List Limitation
  pub suggested_experiments : List Text
  pub selection : Selection

pub record RuleCandidate : Type 0 where
  pub candidate_key : Text
  pub claims : List ClaimTemplate
  pub findings : List FindingTemplate

-- The interface of a rule. A validated run is read through its value only.
pub record Rule : Type 0 where
  pub id : RuleId
  pub evaluate : EvidenceRun → List RuleCandidate

-- A byte of a longer UTF-8 sequence is above '~', as is the character that it belongs to.
unfoldable pub valid_candidate_key : Text → Bool
valid_candidate_key s =
    not (s == [])
    && (valid_string s
        && (not (any (λ c. any (λ d. d == c) (codes "/\\\r\n\t")) s)
            && all (λ c. leb b'!' c && leb c b'~') s))

-- `local[key]`, which is the empty string for a key that is not there
unfoldable pub local_id : Table ClaimId → Text → ClaimId
local_id local key = elim (lookup key local) [ none ↦ [] | some id ↦ id ]

abbrev no_ref : EvidenceKind → EvidenceRef
no_ref kind = record {
  kind = kind;
  observation_id = none;
  claim_id = none;
  visibility_id = none;
  assertion_id = none;
}

-- `evidenceFromTemplate`; a reference of no kind has the empty string as its kind.
unfoldable pub evidence_from_template : Table ClaimId → EvidenceTemplate → EvidenceRef
evidence_from_template local x = elim x.kind [
  | EvidenceKind.observation ↦ record (no_ref EvidenceKind.observation) {
    observation_id = some x.observation_id;
  }
  | EvidenceKind.claim ↦ record (no_ref EvidenceKind.claim) {
    claim_id = some (local_id local x.claim_local_key);
  }
  | EvidenceKind.visibility ↦ record (no_ref EvidenceKind.visibility) {
    visibility_id = some x.visibility_id;
  }
  | EvidenceKind.assertion ↦ record (no_ref EvidenceKind.assertion) {
    assertion_id = some x.assertion_id;
  }
  | EvidenceKind.invalid s ↦ no_ref (EvidenceKind.invalid [])
]
