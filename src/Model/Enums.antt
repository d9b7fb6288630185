-- ===== src/Model/Enums.antt =====
-- The string types of internal/model/enums.go.
mod Places
mod Routes
mod Outcomes
mod Results
mod Reports
mod Strings
unfoldable pub use Places.*
unfoldable pub use Routes.*
unfoldable pub use Outcomes.*
unfoldable pub use Results.*
unfoldable pub use Reports.*
unfoldable pub use Strings.*
