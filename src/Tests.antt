-- ===== src/Tests.antt =====
-- Tests of the definitions, and the theorems at concrete inputs.
mod Samples
mod Complete
mod Validating
mod Concluding
mod Choosing
mod Naming
mod Reporting
mod Listening
mod Ordering
mod Ruling
mod Sockets
