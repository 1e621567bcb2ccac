-- ===== src/Files/Records.antt =====
-- src/files.rs: the files of an owner, and the removal of their objects.
use threadmark.Capability.Decimal.{decimal}
use threadmark.Error.{
  violates, conflict, database, not_found, ok, payload_too_large, reject_if, err, ok_or, ◌>>=◌,
  ◌>>◌, ApiResult,
}
use threadmark.Objects.{broken, answer, object_error, Answer, ObjectStore}
use Prim.Native.String.{len}
use threadmark.Common.Text.{
  is_char, is_empty, any_chars, is_control, take_chars, filter_chars, trim,
}
use threadmark.Ids.{new_id}
use threadmark.Common.Order.{order_by}
use threadmark.Db.{insert_file, Db, FileDeletion}
use threadmark.Model.{FileRecord, Actor}
use threadmark.Uploads.Cleanup.{delete_all_versions}
use Prim.Native.Char.{Char}
use Prim.Native.String
use threadmark.Common.{
  ℕ, ◌+◌, ◌/◌, String, Bool, ◌&&◌, ◌||◌, not, List, [], ◌∷◌, ◌++◌, ◌==◌, ltb, if◌then◌else◌, find,
  any, remove,
}

abbrev pub is_kept_char : Char → Bool
is_kept_char c = not (is_control c) && not (is_char b'/' c) && not (is_char b'\\' c)

unfoldable pub clean_filename : String → String
unfolding filter_chars trim
clean_filename value =
    let cleaned = take_chars 300 (filter_chars is_kept_char value) in
    if is_empty (trim cleaned) then "file" else cleaned

unfoldable pub clean_mime_type : String → String
unfolding trim any_chars
clean_mime_type value =
    let v = trim value in
    if is_empty v || ltb 200 (len v) || any_chars (λ c. is_char 13 c || is_char 10 c) v
    then "application/octet-stream"
    else v

-- format!("{}/{}/{}", …)
abbrev storage_key : Actor → String → String
storage_key actor id =
    String.◌++◌ actor.tenant_id
      (String.◌++◌ "/" (String.◌++◌ actor.principal_id (String.◌++◌ "/" id)))

abbrev pub saved_file :
    Actor → (filename mime_type : String) → (size : ℕ) → (ulid : String) → (now : ℕ) → FileRecord
saved_file actor filename mime_type size ulid now = record {
  id = new_id "file" ulid;
  tenant_id = actor.tenant_id;
  owner_ref = actor.principal_id;
  filename = clean_filename filename;
  mime_type = clean_mime_type mime_type;
  size = size;
  storage_key = storage_key actor (new_id "file" ulid);
  created_at = now;
}

unfoldable pub get_owned : Actor → String → Db → ApiResult FileRecord
get_owned actor id db =
    ok_or
      (find (λ f. f.id == id && f.tenant_id == actor.tenant_id && f.owner_ref == actor.principal_id)
        db.files)
      (not_found "File not found.")

abbrev pub is_referenced : String → Db → Bool
is_referenced id db =
    any (λ r. r.file_id == id) db.conversation_item_files
    || any (λ r. r.file_id == id) db.turn_file_snapshot_files

-- INSERT INTO file_deletion_outbox, with its primary key.
unfoldable pub insert_deletion : FileDeletion → Db → ApiResult Db
insert_deletion d db = do
  reject_if (any (λ e. e.file_id == d.file_id) db.file_deletion_outbox)
      (database (violates "file_deletion_outbox_pkey"))
  ok (record db { file_deletion_outbox = db.file_deletion_outbox ++ d ∷ [] })

-- The transaction of `remove`.
unfoldable pub remove_row : Actor → String → (now : ℕ) → Db → ApiResult (FileRecord × Db)
unfolding get_owned insert_deletion
remove_row actor id now db = do
  file ← get_owned actor id db
  reject_if (is_referenced id db)
      (conflict "File is referenced by a conversation and cannot be deleted.")
  let db₁ : Db = record db { files = remove (λ f. f.id == id) db.files }
  db₂ ←
      insert_deletion (record { file_id = id; storage_key = file.storage_key; created_at = now })
        db₁
  ok (file, db₂)

module _ {S : Type 0} (objects : ObjectStore S) where
  abbrev pub after_put : FileRecord → Answer (Unit {0}) × S → Db → (ApiResult FileRecord × Db) × S
  after_put file (broken, s) db = ((err object_error, db), s)
  after_put file (answer done, s) db = elim (insert_file file db) [
    | ok db' ↦ ((ok file, db'), s)
    | err e ↦
        let (cleaned, s') = delete_all_versions objects file.storage_key s in ((err e, db), s')
  ]

  -- `bytes` has `size` bytes.
  unfoldable pub save :
      Actor
      → (filename mime_type : String) → (size max_bytes : ℕ) → (ulid : String) → (now : ℕ) → Db
      → S
      → (ApiResult FileRecord × Db) × S
  unfolding clean_filename clean_mime_type insert_file delete_all_versions decimal
  save actor filename mime_type size max_bytes ulid now db s =
      if ltb max_bytes size
      then (
        (
          err (
              payload_too_large (
                String.◌++◌ "File exceeds the "
                  (String.◌++◌ (decimal (max_bytes / 1024 / 1024)) " MiB limit."))),
          db,
        ),
        s,
      )
      else let file = saved_file actor filename mime_type size ulid now in
        after_put file (objects.put file.storage_key s) db

  abbrev pub drop_deletion :
      ApiResult (Unit {0}) × S → String → Db → (ApiResult (Unit {0}) × Db) × S
  drop_deletion (err e, s) file_id db = ((err e, db), s)
  drop_deletion (ok done, s) file_id db = (
    (
      ok tt,
      record db {
        file_deletion_outbox = remove (λ d. d.file_id == file_id) db.file_deletion_outbox;
      },
    ),
    s,
  )

  unfoldable pub delete_pending :
      (file_id storage_key : String) → Db → S → (ApiResult (Unit {0}) × Db) × S
  unfolding delete_all_versions
  delete_pending file_id key db s = drop_deletion (delete_all_versions objects key s) file_id db

  -- An error of the object store is only logged: the outbox keeps the entry.
  abbrev pub after_row : ApiResult (FileRecord × Db) → Db → S → (ApiResult (Unit {0}) × Db) × S
  after_row (err e) db s = ((err e, db), s)
  after_row (ok (file, db')) db s =
      let ((result, db''), s') = delete_pending file.id file.storage_key db' s in
      ((ok tt, db''), s')

  unfoldable pub remove_file : Actor → String → (now : ℕ) → Db → S → (ApiResult (Unit {0}) × Db) × S
  unfolding remove_row delete_pending
  remove_file actor id now db s = after_row (remove_row actor id now db) db s

  -- `between k` is what others do to the tables before the `k`-th DELETE.
  unfoldable pub cleanup_each :
      (between : ℕ → Db → Db) → (k : ℕ) → List FileDeletion → Db → S → Db × S
  unfolding delete_pending
  cleanup_each between k [] db s = (db, s)
  cleanup_each between k (d ∷ ds) db s =
      let ((result, db'), s') = delete_pending d.file_id d.storage_key (between k db) s in
      cleanup_each between (k + 1) ds db' s'

  -- ORDER BY created_at
  unfoldable pub cleanup_deletions : (between : ℕ → Db → Db) → Db → S → Db × S
  unfolding cleanup_each order_by
  cleanup_deletions between db s =
      cleanup_each between 0 (order_by (λ (d : FileDeletion). d.created_at) db.file_deletion_outbox)
        db s
