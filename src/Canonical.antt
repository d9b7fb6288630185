-- ===== src/Canonical.antt =====
-- internal/model/canonicalize.go: the canonical order of a run's lists.
pub mod Compare
pub mod Tree
pub mod Placed
pub mod Rounds
pub mod Runs
pub mod Asymmetry
pub mod Order
pub mod Ordered
