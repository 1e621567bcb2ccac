-- ===== src/Api/Routes/Keeps.antt =====
-- The operations of src/files.rs and src/uploads.rs keep the tables of the ledger.
use threadmark.Uploads.Complete.{
  accept, discard, give_up, give_back, Verdict, commit, Attempt, conclude, lease_token,
}
use threadmark.Db.{FileDeletion, Upload, Db, insert_file, insert_upload}
use threadmark.Error.{ok-injective, >>=-eq-ok, err, reject_if-ok, ok, ApiResult}
use threadmark.Files.Records.{
  is_referenced, get_owned, after_row, after_put, drop_deletion, delete_pending, insert_deletion,
  remove_file, save, remove_row,
}
use threadmark.Uploads.Session.{
  is_completable, file_of, is_claimable, claim_completion, publish, restore_pending,
}
use mathlib.Core.Path.{subst}
use threadmark.Objects.{broken, answer, Answer, ObjectStore}
use threadmark.Uploads.Cleanup.{delete_all_versions}
use threadmark.Ids.{new_id}
use threadmark.Model.{Actor, FileRecord}
use threadmark.Uploads.Outbox.{
  enqueue_some, enqueue_all_versions_after, enqueue_all_versions, enqueue_at,
}
use threadmark.Ledger.{IsLedger}
use threadmark.Common.{
  ℕ, ◌+◌, String, ◌≡◌, refl, ap, ◌∙◌, inl, inr, ◌&&◌, ◌||◌, not, Option, none, some, ◌==◌, ltb,
  Bool-cases, any, remove,
}
use threadmark.Ledger.Turns.Same.{same-IsLedger}

insert_file-IsLedger :
    (f : FileRecord) (db : Db) {db' : Db} → insert_file f db ≡ ok db' → IsLedger db → IsLedger db'
unfolding insert_file
insert_file-IsLedger f db h l =
    let (_, k₀) = reject_if-ok (any (λ g. g.id == f.id) db.files) _ _ h in
    let (_, k₁) = reject_if-ok (any (λ g. g.storage_key == f.storage_key) db.files) _ _ k₀ in
    subst IsLedger (ok-injective k₁) (same-IsLedger db _ refl refl refl refl l)

pub insert_upload-IsLedger :
    (u : Upload) (db : Db) {db' : Db} → insert_upload u db ≡ ok db' → IsLedger db → IsLedger db'
unfolding insert_upload
insert_upload-IsLedger u db h l =
    let (_, k₀) = reject_if-ok (any (λ v. v.id == u.id) db.file_uploads) _ _ h in
    let (_, k₁) = reject_if-ok (any (λ v. v.file_id == u.file_id) db.file_uploads) _ _ k₀ in
    let (_, k₂) = reject_if-ok (any (λ v. v.staging_key == u.staging_key) db.file_uploads) _ _ k₁ in
    subst IsLedger (ok-injective k₂) (same-IsLedger db _ refl refl refl refl l)

remove_row-IsLedger :
    (actor : Actor) (id : String) (now : ℕ) (db : Db) {file : FileRecord} {db' : Db}
    → remove_row actor id now db ≡ ok (file, db')
    → IsLedger db
    → IsLedger db'
unfolding remove_row insert_deletion
remove_row-IsLedger actor id now db h l =
    let (f, _, k₀) = >>=-eq-ok (get_owned actor id db) _ h in
    let (_, k₁) = reject_if-ok (is_referenced id db) _ _ k₀ in
    let entry : FileDeletion = record {
      file_id = id;
      storage_key = f.storage_key;
      created_at = now;
    } in
    let db₁ : Db = record db { files = remove (λ g. g.id == id) db.files } in
    let (db₂, inserted, k₂) = >>=-eq-ok (insert_deletion entry db₁) _ k₁ in
    let (_, written) =
      reject_if-ok (any (λ e. e.file_id == id) db.file_deletion_outbox) _ _ inserted in
    subst IsLedger (ok-injective written ∙ ap (λ (q : FileRecord × Db). q.1) (ok-injective k₂))
      (same-IsLedger db _ refl refl refl refl l)

enqueue_at-IsLedger :
    (ulid key : String) (at : ℕ) (db : Db) → IsLedger db → IsLedger (enqueue_at ulid key at db)
unfolding enqueue_at
enqueue_at-IsLedger ulid key at db l =
    elim (Bool-cases (
      any (λ d. d.id == new_id "object_delete" ulid) db.object_deletion_outbox
      || any (λ d. d.all_versions && d.storage_key == key) db.object_deletion_outbox)) [
        | inl known ↦ rw known l
        | inr new ↦ rw new (same-IsLedger db _ refl refl refl refl l)
      ]

enqueue_some-IsLedger :
    (ulid : String) (key : Option String) (now : ℕ) (db : Db)
    → IsLedger db
    → IsLedger (enqueue_some ulid key now db)
unfolding enqueue_all_versions
enqueue_some-IsLedger ulid none now db l = l
enqueue_some-IsLedger ulid (some key) now db l = enqueue_at-IsLedger ulid key now db l

pub claim_completion-IsLedger :
    (id token candidate ulid : String) (now : ℕ) (db : Db)
    → IsLedger db
    → IsLedger (claim_completion id token candidate ulid now db).1
unfolding claim_completion
claim_completion-IsLedger id token candidate ulid now db l =
    elim (Bool-cases (any (is_claimable id now) db.file_uploads)) [
      | inl free ↦
          rw free (enqueue_some-IsLedger ulid _ now _ (same-IsLedger db _ refl refl refl refl l))
      | inr taken ↦ rw taken l
    ]

publish-IsLedger :
    (u : Upload) (id token candidate ulid : String) (now : ℕ) (db : Db) {f : FileRecord} {db' : Db}
    → publish u id token candidate ulid now db ≡ ok (f, db')
    → IsLedger db
    → IsLedger db'
unfolding publish enqueue_all_versions_after
publish-IsLedger u id token candidate ulid now db h l =
    let (db₁, inserted, k₀) = >>=-eq-ok (insert_file (file_of u candidate now) db) _ h in
    let (_, k₁) = reject_if-ok (not (any (is_completable id token now) db₁.file_uploads)) _ _ k₀ in
    subst IsLedger (ap (λ (q : FileRecord × Db). q.1) (ok-injective k₁)) (
      enqueue_at-IsLedger ulid u.staging_key (now + 305) _ (
        same-IsLedger db₁ _ refl refl refl refl
          (insert_file-IsLedger (file_of u candidate now) db inserted l)))

restore_pending-IsLedger :
    (id token : String) (db : Db) → IsLedger db → IsLedger (restore_pending id token db)
unfolding restore_pending
restore_pending-IsLedger id token db l = same-IsLedger db _ refl refl refl refl l

-- What others do between statements keeps a ledger.
abbrev pub KeepsLedger : (Db → Db) → Type 0
KeepsLedger f = (db : Db) → IsLedger db → IsLedger (f db)

commit-IsLedger :
    (db : Db) (r : ApiResult (FileRecord × Db))
    → IsLedger db
    → ((f : FileRecord) (db' : Db) → r ≡ ok (f, db') → IsLedger db')
    → IsLedger (commit db r).1
commit-IsLedger db (ok (f, db')) l h = h f db' refl
commit-IsLedger db (err e) l h = l

pub conclude-IsLedger :
    (between : Db → Db) (u : Upload) (candidate : String) (a : Attempt) (v : Verdict) (db : Db)
    → KeepsLedger between
    → IsLedger db
    → IsLedger (conclude between u candidate a v db).1
unfolding conclude enqueue_all_versions
conclude-IsLedger between u candidate a (give_back e) db keeps l =
    restore_pending-IsLedger u.id (lease_token a) db l
conclude-IsLedger between u candidate a give_up db keeps l = l
conclude-IsLedger between u candidate a discard db keeps l =
    restore_pending-IsLedger u.id (lease_token a) _
      (keeps _ (enqueue_at-IsLedger (a.outbox_ulid 1) candidate a.inspected db l))
conclude-IsLedger between u candidate a accept db keeps l =
    commit-IsLedger db (publish u u.id (lease_token a) candidate (a.outbox_ulid 2) a.published db) l
      (λ f db' e.
        publish-IsLedger u u.id (lease_token a) candidate (a.outbox_ulid 2) a.published db e l)

module _ {S : Type 0} (objects : ObjectStore S) where
  saved-IsLedger :
      (file : FileRecord) (db : Db) (s : S) (r : ApiResult Db)
      → insert_file file db ≡ r
      → IsLedger db
      → IsLedger (after_put objects file (answer tt, s) db).0.1
  saved-IsLedger file db s (ok db') e l = rw (e, after_put) (insert_file-IsLedger file db e l)
  saved-IsLedger file db s (err x) e l = rw (e, after_put) l

  after_put-IsLedger :
      (file : FileRecord) (put : Answer (Unit {0}) × S) (db : Db)
      → IsLedger db
      → IsLedger (after_put objects file put db).0.1
  after_put-IsLedger file (broken, s) db l = l
  after_put-IsLedger file (answer stored, s) db l =
      saved-IsLedger file db s (insert_file file db) refl l

  pub save-IsLedger :
      (actor : Actor) (filename mime_type : String) (size max_bytes : ℕ) (ulid : String) (now : ℕ)
      (db : Db) (s : S)
      → IsLedger db
      → IsLedger (save objects actor filename mime_type size max_bytes ulid now db s).0.1
  unfolding save
  save-IsLedger actor filename mime_type size max_bytes ulid now db s l =
      elim (Bool-cases (ltb max_bytes size)) [
        | inl large ↦ rw large l
        | inr small ↦ rw small (after_put-IsLedger _ _ db l)
      ]

  drop_deletion-IsLedger :
      (outcome : ApiResult (Unit {0}) × S) (file_id : String) (db : Db)
      → IsLedger db
      → IsLedger (drop_deletion objects outcome file_id db).0.1
  drop_deletion-IsLedger (err e, s) file_id db l = l
  drop_deletion-IsLedger (ok gone, s) file_id db l = same-IsLedger db _ refl refl refl refl l

  after_row-IsLedger :
      (r : ApiResult (FileRecord × Db)) (db : Db) (s : S)
      → IsLedger db
      → ((f : FileRecord) (db' : Db) → r ≡ ok (f, db') → IsLedger db')
      → IsLedger (after_row objects r db s).0.1
  unfolding delete_pending
  after_row-IsLedger (err e) db s l h = l
  after_row-IsLedger (ok (f, db')) db s l h =
      drop_deletion-IsLedger (delete_all_versions objects f.storage_key s) f.id db' (h f db' refl)

  pub remove_file-IsLedger :
      (actor : Actor) (id : String) (now : ℕ) (db : Db) (s : S)
      → IsLedger db
      → IsLedger (remove_file objects actor id now db s).0.1
  unfolding remove_file
  remove_file-IsLedger actor id now db s l =
      after_row-IsLedger (remove_row actor id now db) db s l
        (λ f db' e. remove_row-IsLedger actor id now db e l)
