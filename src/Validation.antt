-- ===== src/Validation.antt =====
-- The validation of a run: validation.go, validate_evidence.go, validate_base_remaining.go and
-- validate_evaluated.go of internal/model. Every function of the source that appends to a list of
-- issues is the list of the issues that it appends. A list of the model is a slice that is not nil
-- and a time of the model is in UTC, so the tests for a nil slice and for another location are gone.
pub mod Shared
pub mod Runes
pub mod Texts
pub mod Shapes
pub mod Entities
pub mod Paths
pub mod Graph
pub mod Checks
pub mod Support
pub mod Payloads
pub mod Observations
pub mod Evidence
pub mod Claims
pub mod AbsenceClaims
pub mod Grounds
pub mod Findings
pub mod Evaluated
