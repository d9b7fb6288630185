-- ===== src/Model/Enums/Reports.antt =====
-- The string types of internal/model/enums.go for evidence, claims, findings, limitations and visibility. A constructor stands for each constant,
-- and `invalid s` for a string `s` that is none of them.
use mathlib.Core.Bool.{Bool, true, false}
use route_doc.Common.{Text, Text-discrete, Comparable, by_discrete}

pub data EvidenceKind : Type 0 where
  observation claim visibility assertion : EvidenceKind
  invalid : Text → EvidenceKind

unfoldable pub evidence_kind_valid : EvidenceKind → Bool
evidence_kind_valid EvidenceKind.observation = true
evidence_kind_valid EvidenceKind.claim = true
evidence_kind_valid EvidenceKind.visibility = true
evidence_kind_valid EvidenceKind.assertion = true
evidence_kind_valid (EvidenceKind.invalid s) = false

unfoldable pub EvidenceKind-discrete : Discrete EvidenceKind
EvidenceKind-discrete = hlevel Text-discrete

instance abbrev pub eq_evidence_kind : Comparable EvidenceKind
eq_evidence_kind = by_discrete EvidenceKind-discrete

pub data ClaimLevel : Type 0 where
  observed inferred suspected : ClaimLevel
  invalid : Text → ClaimLevel

unfoldable pub claim_level_valid : ClaimLevel → Bool
claim_level_valid ClaimLevel.observed = true
claim_level_valid ClaimLevel.inferred = true
claim_level_valid ClaimLevel.suspected = true
claim_level_valid (ClaimLevel.invalid s) = false

unfoldable pub ClaimLevel-discrete : Discrete ClaimLevel
ClaimLevel-discrete = hlevel Text-discrete

instance abbrev pub eq_claim_level : Comparable ClaimLevel
eq_claim_level = by_discrete ClaimLevel-discrete

pub data FindingKind : Type 0 where
  blocker expectation_failure partial_reachability advisory limitation : FindingKind
  invalid : Text → FindingKind

unfoldable pub finding_kind_valid : FindingKind → Bool
finding_kind_valid FindingKind.blocker = true
finding_kind_valid FindingKind.expectation_failure = true
finding_kind_valid FindingKind.partial_reachability = true
finding_kind_valid FindingKind.advisory = true
finding_kind_valid FindingKind.limitation = true
finding_kind_valid (FindingKind.invalid s) = false

unfoldable pub FindingKind-discrete : Discrete FindingKind
FindingKind-discrete = hlevel Text-discrete

instance abbrev pub eq_finding_kind : Comparable FindingKind
eq_finding_kind = by_discrete FindingKind-discrete

pub data Selection : Type 0 where
  global_primary branch_primary additional none : Selection
  invalid : Text → Selection

unfoldable pub selection_valid : Selection → Bool
selection_valid Selection.global_primary = true
selection_valid Selection.branch_primary = true
selection_valid Selection.additional = true
selection_valid Selection.none = true
selection_valid (Selection.invalid s) = false

unfoldable pub Selection-discrete : Discrete Selection
Selection-discrete = hlevel Text-discrete

instance abbrev pub eq_selection : Comparable Selection
eq_selection = by_discrete Selection-discrete

pub data ClaimStatementCode : Type 0 where
  tls_certificate_hostname_mismatch tcp_connection_refused : ClaimStatementCode
  no_matching_listener_visible : ClaimStatementCode
  invalid : Text → ClaimStatementCode

unfoldable pub claim_statement_code_valid : ClaimStatementCode → Bool
claim_statement_code_valid ClaimStatementCode.tls_certificate_hostname_mismatch = true
claim_statement_code_valid ClaimStatementCode.tcp_connection_refused = true
claim_statement_code_valid ClaimStatementCode.no_matching_listener_visible = true
claim_statement_code_valid (ClaimStatementCode.invalid s) = false

unfoldable pub ClaimStatementCode-discrete : Discrete ClaimStatementCode
ClaimStatementCode-discrete = hlevel Text-discrete

instance abbrev pub eq_claim_statement_code : Comparable ClaimStatementCode
eq_claim_statement_code = by_discrete ClaimStatementCode-discrete

pub data FindingTitleCode : Type 0 where
  tls_certificate_hostname_mismatch tcp_connection_refused : FindingTitleCode
  no_matching_listener_visible : FindingTitleCode
  invalid : Text → FindingTitleCode

unfoldable pub finding_title_code_valid : FindingTitleCode → Bool
finding_title_code_valid FindingTitleCode.tls_certificate_hostname_mismatch = true
finding_title_code_valid FindingTitleCode.tcp_connection_refused = true
finding_title_code_valid FindingTitleCode.no_matching_listener_visible = true
finding_title_code_valid (FindingTitleCode.invalid s) = false

unfoldable pub FindingTitleCode-discrete : Discrete FindingTitleCode
FindingTitleCode-discrete = hlevel Text-discrete

instance abbrev pub eq_finding_title_code : Comparable FindingTitleCode
eq_finding_title_code = by_discrete FindingTitleCode-discrete

pub data MissingEvidenceKind : Type 0 where
  observation_required visibility_required vantage_required : MissingEvidenceKind
  invalid : Text → MissingEvidenceKind

unfoldable pub missing_evidence_kind_valid : MissingEvidenceKind → Bool
missing_evidence_kind_valid MissingEvidenceKind.observation_required = true
missing_evidence_kind_valid MissingEvidenceKind.visibility_required = true
missing_evidence_kind_valid MissingEvidenceKind.vantage_required = true
missing_evidence_kind_valid (MissingEvidenceKind.invalid s) = false

pub data LimitationCode : Type 0 where
  insufficient_privilege tls_peer_unverified unsupported_capability : LimitationCode
  unknown_vantage partial_visibility skipped_dependency generic : LimitationCode
  invalid : Text → LimitationCode

unfoldable pub limitation_code_valid : LimitationCode → Bool
limitation_code_valid LimitationCode.insufficient_privilege = true
limitation_code_valid LimitationCode.tls_peer_unverified = true
limitation_code_valid LimitationCode.unsupported_capability = true
limitation_code_valid LimitationCode.unknown_vantage = true
limitation_code_valid LimitationCode.partial_visibility = true
limitation_code_valid LimitationCode.skipped_dependency = true
limitation_code_valid LimitationCode.generic = true
limitation_code_valid (LimitationCode.invalid s) = false

unfoldable pub LimitationCode-discrete : Discrete LimitationCode
LimitationCode-discrete = hlevel Text-discrete

instance abbrev pub eq_limitation_code : Comparable LimitationCode
eq_limitation_code = by_discrete LimitationCode-discrete

pub data LimitationScopeKind : Type 0 where
  run vantage observation visibility finding : LimitationScopeKind
  invalid : Text → LimitationScopeKind

unfoldable pub limitation_scope_kind_valid : LimitationScopeKind → Bool
limitation_scope_kind_valid LimitationScopeKind.run = true
limitation_scope_kind_valid LimitationScopeKind.vantage = true
limitation_scope_kind_valid LimitationScopeKind.observation = true
limitation_scope_kind_valid LimitationScopeKind.visibility = true
limitation_scope_kind_valid LimitationScopeKind.finding = true
limitation_scope_kind_valid (LimitationScopeKind.invalid s) = false

unfoldable pub LimitationScopeKind-discrete : Discrete LimitationScopeKind
LimitationScopeKind-discrete = hlevel Text-discrete

instance abbrev pub eq_limitation_scope_kind : Comparable LimitationScopeKind
eq_limitation_scope_kind = by_discrete LimitationScopeKind-discrete

pub data VisibilitySubjectKind : Type 0 where
  listener : VisibilitySubjectKind
  invalid : Text → VisibilitySubjectKind

unfoldable pub visibility_subject_kind_valid : VisibilitySubjectKind → Bool
visibility_subject_kind_valid VisibilitySubjectKind.listener = true
visibility_subject_kind_valid (VisibilitySubjectKind.invalid s) = false

unfoldable pub VisibilitySubjectKind-discrete : Discrete VisibilitySubjectKind
VisibilitySubjectKind-discrete = hlevel Text-discrete

instance abbrev pub eq_visibility_subject_kind : Comparable VisibilitySubjectKind
eq_visibility_subject_kind = by_discrete VisibilitySubjectKind-discrete

pub data VisibilityLevel : Type 0 where
  complete_for_scope partial unknown not_applicable : VisibilityLevel
  invalid : Text → VisibilityLevel

unfoldable pub visibility_level_valid : VisibilityLevel → Bool
visibility_level_valid VisibilityLevel.complete_for_scope = true
visibility_level_valid VisibilityLevel.partial = true
visibility_level_valid VisibilityLevel.unknown = true
visibility_level_valid VisibilityLevel.not_applicable = true
visibility_level_valid (VisibilityLevel.invalid s) = false

unfoldable pub VisibilityLevel-discrete : Discrete VisibilityLevel
VisibilityLevel-discrete = hlevel Text-discrete

instance abbrev pub eq_visibility_level : Comparable VisibilityLevel
eq_visibility_level = by_discrete VisibilityLevel-discrete
