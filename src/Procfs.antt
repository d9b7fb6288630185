-- ===== src/Procfs.antt =====
-- internal/localdiagnosis/procfs.go: the listeners in the tables of sockets that the kernel prints.
pub mod Scan
pub mod Endpoint
pub mod Row
pub mod Rows
pub mod Words
pub mod Table
