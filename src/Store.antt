-- ===== src/Store.antt =====
-- src/store.rs: the ledger. An operation is a transaction over the tables: an error, which changes
-- nothing, or its result and the next database.
pub mod References
pub mod Conversations
pub mod Items
pub mod Append
pub mod Snapshots
pub mod Turns
pub mod Edit
pub mod Continuations
pub mod Start
pub mod Replay
