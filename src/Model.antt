-- ===== src/Model.antt =====
-- The data model of a report, internal/model/*.go: one module for each source file. The modules
-- below use one another, and other modules take names from them.
pub mod Ids
pub mod Enums
pub mod Entities
pub mod Paths
pub mod Limitations
pub mod Visibility
pub mod Claims
pub mod Checks
pub mod Observations
pub mod Assertions
pub mod Runs
pub mod Issues
pub mod Equality
