-- ===== src/Lib.antt =====
-- Threadmark: a ledger of conversations for agents, in Rust over PostgreSQL and an object store.
--
-- The program. The handlers of src/api.rs authenticate a request (src/auth.rs) and call the store
-- (src/store.rs), the files (src/files.rs) and the direct uploads (src/uploads.rs), whose operations
-- are transactions over the tables of migrations/*.sql and calls of an object store; errors
-- (src/error.rs) become responses. A conversation is a sequence of items, each at a position `seq`;
-- the conversation's `next_seq` is the next position. Turns group the work of an agent, continuations
-- mark how far an agent has read, and items may name files by threadmark://files/ addresses. A file is
-- uploaded through the server, or by a session whose object the client sends to the store itself and
-- which one call at a time finalizes under a lease. Signed addresses (src/capability.rs) let a file be
-- read without a token.
--
-- The files.
--   Common: texts, rows and orders that all parts use. Common/Rows and Common/Updates are the SELECT,
--     UPDATE and DELETE of a table, a list of rows in the order of insertion; Common/Order is ORDER BY
--     and the shapes of positions; Common/Text is Rust's `str`; Common/Int is `i64`.
--   Error: src/error.rs, the errors, the monad of a fallible operation and the responses.
--   Model, Model/Json, Model/Numbers: src/model.rs, `serde_json::Value`, and the scanner of the numbers
--     of a JSON text (`validate_json_number_tokens`).
--   Db: the tables and the constraints that an INSERT meets (migrations/*.sql).
--   Ids, Config, Objects: `new_id` of src/ids.rs, the settings of src/config.rs that the operations
--     read, and what src/object_store.rs answers, a record of operations over a state.
--   Store: src/store.rs. Conversations, Items and Append (`append_items`), Edit
--     (`truncate_conversation`, `regenerate_conversation`), Turns and Snapshots, Start with
--     Start/Request and Start/Existing (`start_turn`), Continuations, References (the files that an
--     item names), Replay and Replay/Agent (`replay`, `agent_replay`).
--   Auth: src/auth.rs. Auth/Claims is `Claims::context`, Auth/Verifier how headers become a context.
--   Ledger: what holds of the tables between transactions, `IsLedger`, with a module for each
--     operation's theorems; Ledger/Frame and Ledger/Extend are what these share.
--   Files: src/files.rs. Files/Records saves and removes files, Files/Uri is `parse_uri`; Files/Laws is
--     about removal, Files/Cleanup about the outbox.
--   Uploads: src/uploads.rs. Names normalises a request, Initiate opens a session, Session has the
--     transactions on one, Complete is `complete`, Outbox and Cleanup what is deleted later. Protocol
--     is the abstract machine of a session, whose steps are a data type, and Progress an attempt among
--     the steps of others; Samples is the data of the tests.
--   Capability: src/capability.rs, with the decimal numbers that its messages hold.
--   Api: src/api.rs. Conversations and Turns have the handlers over the store, Router puts them
--     together (`handle`); Files, Headers and Uploads have the handlers over the object store; Routes
--     is the router over all of them (`route`), and runs requests one after another (`serve`).
--
-- The model. An operation takes the tables and answers an error, which is a rollback, or its result
-- and the next tables; transactions run one after another, as the row locks make those of one
-- conversation run. Where an operation is several statements or transactions with other calls between
-- them (`create_continuation`, `initiate`, `complete`, `cleanup_expired`, `cleanup_deletions`), what
-- others do in between is an argument, `between`, any function on the tables. The clock and the ULIDs
-- that one call draws are arguments; so are SHA-256 of canonical JSON (`hash`), the concatenation of `jsonb`, the library of
-- JSON Web Tokens, the rewriting of file references (`hydrate`), the length of serialised JSON
-- (`to_vec_len`), HMAC, Base64 and the URL library (`Signing`, `Web`), the forms that the object store
-- signs, and the parser of the body of a turn's start. Positions are natural numbers, which the schema
-- keeps positive; the arithmetic of `append_items` wraps at 64 bits (`wrap_i64`), as does the expiry
-- of an address, and `set_next_seq` refuses what the schema's CHECK refuses. Recursion is structural
-- but for `initiate`, which calls itself, and the scanner of numbers, which have fuel: two units are
-- enough for the one where nobody deletes a session, and no code does; the other begins with a unit
-- for every byte.
--
-- Not modelled: the advisory lock of `start_turn`, whose effect is that calls with one key do not
-- overlap; the rewriting of file references (`hydrate_file_references` of src/store.rs) and the reader
-- of strict JSON (`StrictJson` of src/model.rs), which are arguments;
-- the extractors of axum, the reading of the environment, the calls of the S3 library, the keys
-- fetched at start-up and the background tasks (src/config.rs, src/object_store.rs, src/main.rs),
-- which are input and output.
pub mod Common
pub mod Error
pub mod Model
pub mod Db
pub mod Ids
pub mod Files
pub mod Store
pub mod Ledger
pub mod Auth
pub mod Objects
pub mod Config
pub mod Uploads
pub mod Capability
pub mod Api
