-- ===== src/Model/Ids.antt =====
-- The identifier types of internal/model/ids.go, which are strings there, and `time.Time`.
use route_doc.Common.{ℕ, Text}

abbrev pub RunId : Type 0
RunId = Text

abbrev pub VantageId : Type 0
VantageId = Text

abbrev pub CapabilityId : Type 0
CapabilityId = Text

abbrev pub AssertionId : Type 0
AssertionId = Text

abbrev pub EntityId : Type 0
EntityId = Text

abbrev pub EdgeId : Type 0
EdgeId = Text

abbrev pub BranchId : Type 0
BranchId = Text

abbrev pub CheckId : Type 0
CheckId = Text

abbrev pub ExecutionId : Type 0
ExecutionId = Text

abbrev pub ObservationId : Type 0
ObservationId = Text

abbrev pub VisibilityId : Type 0
VisibilityId = Text

abbrev pub ClaimId : Type 0
ClaimId = Text

abbrev pub FindingId : Type 0
FindingId = Text

abbrev pub LimitationId : Type 0
LimitationId = Text

abbrev pub RuleId : Type 0
RuleId = Text

-- Nanoseconds since the zero time of Go's package `time`, at which `IsZero` holds.
abbrev pub Time : Type 0
Time = ℕ
