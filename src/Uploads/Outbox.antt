-- ===== src/Uploads/Outbox.antt =====
-- src/uploads.rs: the outbox of deletions, and the rows of one owner.
use threadmark.Error.{coded_gone, not_found, ok_or, ApiResult}
use threadmark.Model.{FileRecord, Actor}
use threadmark.Ids.{new_id}
use threadmark.Db.{Db, Upload}
use threadmark.Common.{
  ℕ, ◌+◌, String, true, ◌&&◌, ◌||◌, Option, none, some, [], ◌∷◌, ◌++◌, ◌==◌, if◌then◌else◌, find,
  any,
}

-- INSERT … ON CONFLICT DO NOTHING: the primary key, and one row for all versions of an object.
unfoldable pub enqueue_at : (ulid storage_key : String) → (not_before : ℕ) → Db → Db
enqueue_at ulid storage_key not_before db =
    if any (λ d. d.id == new_id "object_delete" ulid) db.object_deletion_outbox
      || any (λ d. d.all_versions && d.storage_key == storage_key) db.object_deletion_outbox
    then db
    else record db {
      object_deletion_outbox =
          db.object_deletion_outbox
          ++ record {
            id = new_id "object_delete" ulid;
            storage_key = storage_key;
            version_id = none;
            all_versions = true;
            not_before = not_before;
          }
            ∷ [];
    }

-- `enqueue_all_versions` and `enqueue_all_versions_pool`
unfoldable pub enqueue_all_versions : (ulid storage_key : String) → (now : ℕ) → Db → Db
unfolding enqueue_at
enqueue_all_versions ulid storage_key now db = enqueue_at ulid storage_key now db

unfoldable pub enqueue_all_versions_after :
    (ulid storage_key : String) → (delay_seconds now : ℕ) → Db → Db
unfolding enqueue_at
enqueue_all_versions_after ulid storage_key delay_seconds now db =
    enqueue_at ulid storage_key (now + delay_seconds) db

abbrev pub enqueue_some : (ulid : String) → Option String → (now : ℕ) → Db → Db
enqueue_some ulid none now db = db
enqueue_some ulid (some key) now db = enqueue_all_versions ulid key now db

unfoldable pub owned_upload : Actor → String → Db → ApiResult Upload
owned_upload actor id db =
    ok_or
      (find (λ u. u.id == id && u.tenant_id == actor.tenant_id && u.owner_ref == actor.principal_id)
        db.file_uploads)
      (not_found "Upload not found.")

unfoldable pub file_for_upload : Upload → Db → ApiResult FileRecord
file_for_upload u db =
    ok_or
      (find (λ f. f.id == u.file_id && f.tenant_id == u.tenant_id && f.owner_ref == u.owner_ref)
        db.files)
      (coded_gone "upload_file_deleted" "The completed upload's file was deleted.")
