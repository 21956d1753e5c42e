-- ===== src/Module.antt =====
-- internal/module/module.go: loading kernel modules, their dependencies first.
pub mod Index
pub mod Resolver
pub mod Load
