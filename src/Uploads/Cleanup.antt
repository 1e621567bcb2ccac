-- ===== src/Uploads/Cleanup.antt =====
-- src/uploads.rs: `cleanup_expired`, and the deletion of objects that src/files.rs shares.
use threadmark.Objects.{broken, object_error, answer, Answer, ObjectStore}
use threadmark.Error.{err, ok, ApiResult}
use threadmark.Db.{Db, ObjectDeletion}
use threadmark.Uploads.Session.{expire_sessions}
use threadmark.Common.{
  ℕ, ◌+◌, String, Bool, true, false, List, [], ◌∷◌, ◌==◌, leb, if◌then◌else◌, unwrap_or, filter,
  remove,
}

module _ {S : Type 0} (objects : ObjectStore S) where
  -- for version_id in versions { objects.delete_version(…)? }
  unfoldable pub delete_each : (key : String) → List String → S → ApiResult (Unit {0}) × S
  delete_each key [] s = (ok tt, s)
  delete_each key (v ∷ vs) s =
      let (deleted, s') = objects.delete_version key v s in
      let rest = delete_each key vs s' in
      elim deleted [ broken ↦ (err object_error, s') | answer done ↦ rest ]

  abbrev delete_listed : (key : String) → Answer (List String) → S → ApiResult (Unit {0}) × S
  delete_listed key broken s = (err object_error, s)
  delete_listed key (answer vs) s = delete_each key vs s

  -- `delete_all_versions` of src/files.rs
  unfoldable pub delete_all_versions : (key : String) → S → ApiResult (Unit {0}) × S
  unfolding delete_each
  delete_all_versions key s = delete_listed key (objects.versions key s) s

  abbrev is_nothing : Answer (List String) → ApiResult Bool
  is_nothing broken = err object_error
  is_nothing (answer []) = ok true
  is_nothing (answer (v ∷ vs)) = ok false

  abbrev then_look : (key : String) → ApiResult (Unit {0}) × S → ApiResult Bool × S
  then_look key (err e, s) = (err e, s)
  then_look key (ok done, s) = (is_nothing (objects.versions key s), s)

  abbrev is_done : Answer (Unit {0}) → Bool
  is_done broken = false
  is_done (answer done) = true

  -- Whether one entry of the outbox has been carried out.
  unfoldable pub carry_out : ObjectDeletion → S → ApiResult Bool × S
  unfolding delete_all_versions
  carry_out d s =
      if d.all_versions
      then then_look d.storage_key (delete_all_versions d.storage_key s)
      else let (deleted, s') = objects.delete_version d.storage_key (unwrap_or d.version_id "") s in
        (ok (is_done deleted), s')

  abbrev pub drop_entry : Bool → String → Db → Db
  drop_entry false id db = db
  drop_entry true id db = record db {
    object_deletion_outbox = remove (λ d. d.id == id) db.object_deletion_outbox;
  }

  -- `between k` is what others do to the tables before the `k`-th DELETE, the first of which is the one
  -- numbered 1.
  unfoldable pub carry_out_all :
      (between : ℕ → Db → Db)
      → (k : ℕ) → List ObjectDeletion
      → Db
      → S
      → (ApiResult (Unit {0}) × Db) × S
  unfolding carry_out
  carry_out_all between k [] db s = ((ok tt, db), s)
  carry_out_all between k (d ∷ ds) db s =
      let (result, s') = carry_out d s in
      elim result [
        | err e ↦ ((err e, db), s')
        | ok deleted ↦ carry_out_all between (k + 1) ds (drop_entry deleted d.id (between k db)) s'
      ]

  -- `between 0` is what others do between the first transaction and the SELECT.
  unfoldable pub cleanup_expired :
      (between : ℕ → Db → Db) (ulid : ℕ → String)
      → (now later : ℕ) → Db
      → S
      → (ApiResult (Unit {0}) × Db) × S
  unfolding expire_sessions carry_out_all
  cleanup_expired between ulid now later db s =
      let db' = between 0 (expire_sessions ulid now db) in
      carry_out_all between 1 (filter (λ d. leb d.not_before later) db'.object_deletion_outbox) db'
        s
