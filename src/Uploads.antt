-- ===== src/Uploads.antt =====
-- src/uploads.rs: the session of a direct upload, from its request to the file that it becomes.
pub mod Samples
pub mod Names
pub mod Outbox
pub mod Session
pub mod Initiate
pub mod Complete
pub mod Cleanup
pub mod Protocol
pub mod Expiry
pub mod Progress
