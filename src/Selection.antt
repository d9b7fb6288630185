-- ===== src/Selection.antt =====
-- internal/selection/selection.go: the primary findings of each leaf and of the run.
pub mod Statements
pub mod Leaf
pub mod Apply
pub mod Marks
pub mod Invariant
pub mod Sound
pub mod Global
pub mod Laws
pub mod Primaries
pub mod Apart
pub mod Marked
pub mod Nearest
pub mod Attachment
pub mod Issues
