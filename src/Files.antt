-- ===== src/Files.antt =====
-- src/files.rs
pub mod Uri
pub mod Records
pub mod Laws
pub mod Cleanup
