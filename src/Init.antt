-- ===== src/Init.antt =====
-- cmd/k0smos/init_linux.go: how PID 1 takes the machine up, waits, and takes it down.
pub mod Boot
pub mod Requests
pub mod Serve
pub mod Root
pub mod Pivot
pub mod Drive
pub mod Gentle
pub mod Workload
pub mod Waiting
