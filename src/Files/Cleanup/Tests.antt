-- ===== src/Files/Cleanup/Tests.antt =====
-- A cleanup that is decided.
use threadmark.Error.{ok}
use threadmark.Files.Cleanup.{cleanup_deletions-taken, is_recorded, AddsNone}
use threadmark.Db.{empty_db, Db}
use threadmark.Uploads.Cleanup.{delete_each, delete_all_versions}
use threadmark.Uploads.Samples.{objects}
use threadmark.Files.Records.{cleanup_deletions}
use threadmark.Common.{ℕ, String, ◌≡◌, refl, Bool, true, false, [], ◌∷◌, arith, any}

abbrev two_deletions : Db
two_deletions = record empty_db {
  file_deletion_outbox =
      record { file_id = "file_1"; storage_key = "a"; created_at = 9 }
      ∷ record { file_id = "file_2"; storage_key = "b"; created_at = 5 }
      ∷ [];
}

deletes :
    (key : String) (s : Bool) → (s' : Bool) × (delete_all_versions objects key s ≡ (ok tt, s'))
unfolding delete_all_versions delete_each
deletes key s = (s, refl)

-- Before every DELETE another client removes a file of its own.
abbrev others : ℕ → Db → Db
others k db = record db {
  file_deletion_outbox =
      record { file_id = "file_9"; storage_key = "c"; created_at = 10 } ∷ db.file_deletion_outbox;
}

others-AddsNone : (k : ℕ) → AddsNone "file_1" (others k)
unfolding any
others-AddsNone k d off = ground arith

listed : is_recorded "file_1" two_deletions ≡ true
unfolding any
listed = refl

cleanup_deletions-taken_example :
    is_recorded "file_1" (cleanup_deletions objects others two_deletions false).0 ≡ false
cleanup_deletions-taken_example =
    cleanup_deletions-taken objects deletes others "file_1" others-AddsNone two_deletions false
      listed
