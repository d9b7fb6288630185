-- ===== src/Rules.antt =====
-- internal/rules: the rules that derive claims and findings from evidence, and their evaluation.
pub mod Templates
pub mod Positions
pub mod Tcp
pub mod Tls
pub mod Coverage
pub mod Listener
pub mod Registry
pub mod Default
pub mod Compile
pub mod Evaluate
pub mod Reevaluate
pub mod Numbers
pub mod References
pub mod Laws
pub mod Refused
pub mod Provenance
pub mod Quiet
