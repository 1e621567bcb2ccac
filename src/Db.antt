-- ===== src/Db.antt =====
-- migrations/*.sql: the tables, each a list of its rows in the order of their insertion, and the
-- constraints that an INSERT meets. A transaction that fails is rolled back: an operation of the
-- store answers an error, or a result and the next database.
use threadmark.Common.{
  ℕ, ◌-◌, ◌^◌, String, Bool, true, false, ◌&&◌, ◌||◌, not, Option, none, some, List, [], ◌∷◌, ◌++◌,
  ◌==◌, eqb, some_eq, any,
}
use threadmark.Error.{ApiResult, ◌>>◌, ok, reject_if, database, violates}
use threadmark.Model.{Conversation, Item, Turn, Continuation, FileRecord}

pub record AppendBatch : Type 0 where
  pub conversation_id : String
  pub idempotency_key : String
  pub first_seq : ℕ
  pub last_seq : ℕ
  pub created_at : ℕ

pub record TurnStart : Type 0 where
  pub id : String
  pub tenant_id : String
  pub owner_ref : String
  pub client_id : String
  pub idempotency_key : String
  pub request_version : ℕ
  pub request_digest : String
  pub conversation_id : String
  pub turn_id : String
  pub first_seq : ℕ
  pub last_seq : ℕ

pub record TurnStartItem : Type 0 where
  pub turn_start_id : String
  pub ordinal : ℕ
  pub item_id : String
  pub seq : ℕ

pub record ItemFile : Type 0 where
  pub item_id : String
  pub file_id : String

pub record Snapshot : Type 0 where
  pub id : String
  pub turn_id : String
  pub authoritative : Bool

pub record SnapshotFile : Type 0 where
  pub snapshot_id : String
  pub file_id : String

pub record FileDeletion : Type 0 where
  pub file_id : String
  pub storage_key : String
  pub created_at : ℕ

pub record Upload : Type 0 where
  pub id : String
  pub tenant_id : String
  pub owner_ref : String
  pub client_id : String
  pub idempotency_key : String
  pub request_hash : String
  pub file_id : String
  pub filename : String
  pub mime_type : String
  pub expected_size : ℕ
  pub staging_key : String
  pub candidate_key : Option String
  pub status : String
  pub lease_token : Option String
  pub lease_expires_at : Option ℕ
  pub expires_at : ℕ
  pub completed_at : Option ℕ

pub record ObjectDeletion : Type 0 where
  pub id : String
  pub storage_key : String
  pub version_id : Option String
  pub all_versions : Bool
  pub not_before : ℕ

pub record Db : Type 0 where
  pub conversations : List Conversation
  pub turns : List Turn
  pub append_batches : List AppendBatch
  pub conversation_items : List Item
  pub continuations : List Continuation
  pub files : List FileRecord
  pub conversation_item_files : List ItemFile
  pub turn_file_snapshots : List Snapshot
  pub turn_file_snapshot_files : List SnapshotFile
  pub turn_starts : List TurnStart
  pub turn_start_items : List TurnStartItem
  pub file_deletion_outbox : List FileDeletion
  pub file_uploads : List Upload
  pub object_deletion_outbox : List ObjectDeletion

abbrev pub empty_db : Db
empty_db = record {
  conversations = [];
  turns = [];
  append_batches = [];
  conversation_items = [];
  continuations = [];
  files = [];
  conversation_item_files = [];
  turn_file_snapshots = [];
  turn_file_snapshot_files = [];
  turn_starts = [];
  turn_start_items = [];
  file_deletion_outbox = [];
  file_uploads = [];
  object_deletion_outbox = [];
}

-- the largest `bigint`, and the largest `i64`
abbrev pub max_i64 : ℕ
max_i64 = 2 ^ 63 - 1

-- INSERT INTO conversations: the primary key.
unfoldable pub insert_conversation : Conversation → Db → ApiResult Db
insert_conversation c db = do
  reject_if (any (λ d. d.id == c.id) db.conversations) (database (violates "conversations_pkey"))
  ok (record db { conversations = db.conversations ++ c ∷ [] })

-- The turn that an item names belongs to the item's conversation.
abbrev pub turn_exists : Option String → String → Db → Bool
turn_exists none conversation_id db = true
turn_exists (some turn_id) conversation_id db =
    any (λ t. t.id == turn_id && t.conversation_id == conversation_id) db.turns

-- INSERT INTO conversation_items: the primary key, the position in the conversation, the turn.
unfoldable pub insert_item : Item → Db → ApiResult Db
insert_item i db = do
  reject_if (any (λ j. j.id == i.id) db.conversation_items)
      (database (violates "conversation_items_pkey"))
  reject_if
      (any (λ j. j.conversation_id == i.conversation_id && eqb j.seq i.seq) db.conversation_items)
      (database (violates "conversation_items_conversation_id_seq_key"))
  reject_if (not (turn_exists i.turn_id i.conversation_id db))
      (database (violates "conversation_items_turn_conversation_fkey"))
  ok (record db { conversation_items = db.conversation_items ++ i ∷ [] })

-- INSERT INTO conversation_item_files: the primary key and the file.
unfoldable pub insert_item_file : ItemFile → Db → ApiResult Db
insert_item_file r db = do
  reject_if (any (λ s. s.item_id == r.item_id && s.file_id == r.file_id) db.conversation_item_files)
      (database (violates "conversation_item_files_pkey"))
  reject_if (not (any (λ f. f.id == r.file_id) db.files))
      (database (violates "conversation_item_files_file_id_fkey"))
  ok (record db { conversation_item_files = db.conversation_item_files ++ r ∷ [] })

abbrev pub is_active : Turn → Bool
is_active t = t.status == "pending" || t.status == "streaming"

abbrev pub same_key : Option String → Turn → Bool
same_key none t = false
same_key (some k) t = some_eq t.idempotency_key k

-- INSERT INTO turns: the primary key, the idempotency key and the index of active turns.
unfoldable pub insert_turn : Turn → Db → ApiResult Db
insert_turn t db = do
  reject_if (any (λ u. u.id == t.id) db.turns) (database (violates "turns_pkey"))
  reject_if
      (any (λ u. u.conversation_id == t.conversation_id && same_key t.idempotency_key u) db.turns)
      (database (violates "turns_conversation_id_idempotency_key_key"))
  reject_if
      (is_active t && any (λ u. u.conversation_id == t.conversation_id && is_active u) db.turns)
      (database (violates "turns_one_active_per_conversation_idx"))
  ok (record db { turns = db.turns ++ t ∷ [] })

-- INSERT INTO files: the primary key and the object's key.
unfoldable pub insert_file : FileRecord → Db → ApiResult Db
insert_file f db = do
  reject_if (any (λ g. g.id == f.id) db.files) (database (violates "files_pkey"))
  reject_if (any (λ g. g.storage_key == f.storage_key) db.files)
      (database (violates "files_storage_key_key"))
  ok (record db { files = db.files ++ f ∷ [] })

-- INSERT INTO file_uploads: the keys, besides that of the request.
unfoldable pub insert_upload : Upload → Db → ApiResult Db
insert_upload u db = do
  reject_if (any (λ v. v.id == u.id) db.file_uploads) (database (violates "file_uploads_pkey"))
  reject_if (any (λ v. v.file_id == u.file_id) db.file_uploads)
      (database (violates "file_uploads_file_id_key"))
  reject_if (any (λ v. v.staging_key == u.staging_key) db.file_uploads)
      (database (violates "file_uploads_staging_key_key"))
  ok (record db { file_uploads = db.file_uploads ++ u ∷ [] })
