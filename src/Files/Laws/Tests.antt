-- ===== src/Files/Laws/Tests.antt =====
-- Removals that are decided.
use threadmark.Error.{ApiError, conflict, err, ok}
use threadmark.Files.Laws.{
  remove_file-ok, is_pending, parse_uri_iff, delete_all_versions, is_id_char, is_referenced,
  delete_pending, err, ok, insert_deletion, is_empty, get_owned, remove_row, uri, remove_file_iff,
  Removable,
}
use threadmark.Files.Records.{
  is_referenced, delete_pending, insert_deletion, get_owned, remove_row, remove_file,
}
use threadmark.Files.Uri.{is_id_char, parse_uri}
use threadmark.Uploads.Cleanup.{delete_all_versions}
use threadmark.Common.Text.{all_chars, is_empty}
use threadmark.Objects.{broken, ObjectStore}
use threadmark.Uploads.Samples.{ann, objects}
use threadmark.Api.{uri}
use threadmark.Db.{empty_db, Db}
use threadmark.Model.{FileRecord}
use threadmark.Common.{
  ◌≡◌, refl, ◌↔◌, ◌⊎◌, Bool, true, false, some, [], ◌∷◌, ◌==◌, find, any, remove,
}

abbrev kept : FileRecord
kept = record {
  id = "file_1";
  tenant_id = "acme";
  owner_ref = "ann";
  filename = "a.txt";
  mime_type = "text/plain";
  size = 3;
  storage_key = "acme/ann/file_1";
  created_at = 5;
}

abbrev one_file : Db
one_file = record empty_db { files = kept ∷ [] }

abbrev referenced : Db
referenced = record one_file {
  conversation_item_files = record { item_id = "item_1"; file_id = "file_1" } ∷ [];
}

-- The object store cannot list versions: the deletion stays on record.
abbrev down : ObjectStore Bool
down = record objects { versions = λ key copied. broken }

abbrev after : Db
after = record empty_db {
  file_deletion_outbox =
      record { file_id = "file_1"; storage_key = "acme/ann/file_1"; created_at = 9 } ∷ [];
}

removed : remove_file down ann "file_1" 9 one_file false ≡ ((ok tt, after), false)
unfolding remove_file remove_row get_owned insert_deletion delete_pending delete_all_versions find
    any remove
removed = refl

remove_file-ok_example :
    (file : FileRecord) × (get_owned ann "file_1" one_file ≡ ok file)
    × (is_referenced "file_1" one_file ≡ false)
    × (any (λ f. f.id == "file_1") after.files ≡ false)
    × ((is_pending "file_1" file.storage_key after ≡ true)
        ⊎ (delete_all_versions down file.storage_key false ≡ (ok tt, false)))
remove_file-ok_example = remove_file-ok down ann "file_1" 9 one_file false removed

refused : remove_file objects ann "file_1" 9 referenced true ≡ (
  (err (conflict "File is referenced by a conversation and cannot be deleted."), referenced),
  true,
)
unfolding remove_file remove_row get_owned find any
refused = refl

remove_file_iff_example :
    (((db' : Db) × (s' : Bool) × (remove_file objects ann "file_1" 9 referenced true
          ≡ ((ok tt, db'), s')))
      ↔ ((file : FileRecord) × Removable ann "file_1" referenced file))
    × ((e : ApiError) (db' : Db) (s' : Bool)
        → remove_file objects ann "file_1" 9 referenced true ≡ ((err e, db'), s')
        → (db' ≡ referenced) × (s' ≡ true))
remove_file_iff_example = remove_file_iff objects ann "file_1" 9 referenced true

parse_uri_iff_example : (parse_uri "threadmark://files/file_1" ≡ some "file_1") ↔ (
    ("threadmark://files/file_1" ≡ uri kept)
    × (is_empty "file_1" ≡ false)
    × (all_chars is_id_char "file_1" ≡ true))
parse_uri_iff_example = parse_uri_iff kept "threadmark://files/file_1"
