-- ===== src/Iso9660.antt =====
-- internal/iso9660/iso9660.go and write.go: files in an ISO image, read and written without a mount.
pub mod Image
pub mod Records
pub mod Reader
pub mod Names
pub mod Limits
