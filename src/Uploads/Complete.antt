-- ===== src/Uploads/Complete.antt =====
-- src/uploads.rs: `complete`, which makes a file of a session whose object has arrived.
use threadmark.Model.{Actor, FileRecord}
use threadmark.Uploads.Initiate.{expired, object_key}
use threadmark.Uploads.Outbox.{enqueue_all_versions, file_for_upload, owned_upload}
use threadmark.Error.{◌>>=◌, err, ok, ApiResult, coded_conflict, ApiError}
use threadmark.Objects.{object_error, broken, answer, Answer, ObjectHead, ObjectStore}
use threadmark.Uploads.Session.{claim_completion, publish, restore_pending}
use threadmark.Config.{Config}
use threadmark.Common.Text.{is_empty}
use threadmark.Db.{Db, Upload}
use threadmark.Ids.{new_id}
use threadmark.Common.{
  ℕ, String, Bool, true, false, ◌&&◌, ◌||◌, not, Option, none, some, ◌==◌, ltb, leb, eqb,
  if◌then◌else◌, some_eq,
}

-- What one call draws, and the times at which it reads the clock: when it looks at the session, when it
-- claims it, when it has looked at the objects, and when it publishes the file.
pub record Attempt : Type 0 where
  pub lease_ulid : String
  pub attempt_ulid : String
  pub object_ulid : String
  pub outbox_ulid : ℕ → String
  pub seen : ℕ
  pub claimed : ℕ
  pub inspected : ℕ
  pub published : ℕ

abbrev pub lease_token : Attempt → String
lease_token a = new_id "lease" a.lease_ulid

abbrev pub candidate_key : (component : String → String) → Upload → Attempt → String
candidate_key component u a =
    object_key "upload-candidates" (component u.tenant_id) (component u.owner_ref)
      (new_id "attempt" a.attempt_ulid) (new_id "object" a.object_ulid)

-- What the objects say of an attempt: the session is given back for another one, the attempt fails and
-- leaves its lease, its copy is discarded, or the copy becomes the file.
pub data Verdict : Type 0 where
  give_back : ApiError → Verdict
  give_up : Verdict
  discard : Verdict
  accept : Verdict

abbrev is_version : Option String → Bool
is_version none = false
is_version (some id) = not (is_empty id) && not (id == "null")

abbrev pub bad_copy : Upload → ObjectHead → Bool
bad_copy u h =
    not (is_version h.version_id)
    || not (eqb h.size u.expected_size)
    || not (some_eq h.content_type u.mime_type)

-- The checks of the staged object, once it has a version.
abbrev pub staged_fault : (file_max_bytes : ℕ) → Upload → ObjectHead → Option ApiError
staged_fault file_max_bytes u h =
    if not (eqb h.size u.expected_size)
    then some
        (coded_conflict "upload_size_mismatch" "Uploaded object size does not match the session.")
    else if ltb file_max_bytes h.size
    then some (coded_conflict "upload_size_limit" "Uploaded object exceeds the current file limit.")
    else if not (some_eq h.content_type u.mime_type) || not (some_eq h.upload_id u.id)
    then some (
        coded_conflict "upload_metadata_mismatch"
          "Uploaded object metadata does not match the session.")
    else none

module _ {S : Type 0} (objects : ObjectStore S) where
  abbrev copied_verdict : Upload → Answer (Option ObjectHead) → Verdict
  copied_verdict u broken = give_up
  copied_verdict u (answer none) = give_up
  copied_verdict u (answer (some h)) = if bad_copy u h then discard else accept

  abbrev after_copy : Upload → (candidate : String) → Answer (Unit {0}) → S → Verdict
  after_copy u candidate broken s = give_up
  after_copy u candidate (answer done) s = copied_verdict u (objects.head candidate s)

  abbrev copy_staged : Upload → (candidate version : String) → Option ApiError → S → Verdict × S
  copy_staged u candidate version (some e) s = (give_back e, s)
  copy_staged u candidate version none s =
      let (copied, s') = objects.copy u.staging_key version candidate u.mime_type s in
      (after_copy u candidate copied s', s')

  abbrev staged_verdict :
      (file_max_bytes : ℕ)
      → Upload
      → (candidate : String) → ObjectHead
      → Option String
      → S
      → Verdict × S
  staged_verdict file_max_bytes u candidate h none s = (give_up, s)
  staged_verdict file_max_bytes u candidate h (some version) s =
      if is_version (some version)
      then copy_staged u candidate version (staged_fault file_max_bytes u h) s
      else (give_up, s)

  abbrev head_verdict :
      (file_max_bytes : ℕ)
      → Upload
      → (candidate : String) → Answer (Option ObjectHead)
      → S
      → Verdict × S
  head_verdict file_max_bytes u candidate broken s = (give_up, s)
  head_verdict file_max_bytes u candidate (answer none) s =
      (give_back (coded_conflict "upload_incomplete" "Upload has not reached object storage."), s)
  head_verdict file_max_bytes u candidate (answer (some h)) s =
      staged_verdict file_max_bytes u candidate h h.version_id s

  -- From the first look at the staged object to the look at its copy.
  unfoldable pub inspect : (file_max_bytes : ℕ) → Upload → (candidate : String) → S → Verdict × S
  inspect file_max_bytes u candidate s =
      head_verdict file_max_bytes u candidate (objects.head u.staging_key s) s

abbrev pub finalizing : ApiError
finalizing = coded_conflict "upload_finalizing" "Upload is being finalized."

abbrev pub commit : Db → ApiResult (FileRecord × Db) → ApiResult (Bool × FileRecord) × Db
commit db (ok (f, db')) = (ok (true, f), db')
commit db (err e) = (err e, db)

-- What the attempt does to the tables after its verdict; `between` is what others do between the two
-- statements of a discarded copy.
unfoldable pub conclude :
    (between : Db → Db)
    → Upload
    → (candidate : String) → Attempt
    → Verdict
    → Db
    → ApiResult (Bool × FileRecord) × Db
unfolding restore_pending publish
conclude between u candidate a (give_back e) db = (err e, restore_pending u.id (lease_token a) db)
conclude between u candidate a give_up db = (err object_error, db)
conclude between u candidate a discard db = (
  err (coded_conflict "upload_copy_mismatch" "Finalized object validation failed."),
  restore_pending u.id (lease_token a)
      (between (enqueue_all_versions (a.outbox_ulid 1) candidate a.inspected db)),
)
conclude between u candidate a accept db =
    commit db (publish u u.id (lease_token a) candidate (a.outbox_ulid 2) a.published db)

module _ {S : Type 0} (objects : ObjectStore S) (component : String → String) (config : Config)
    (between : ℕ → Db → Db) where
  -- Once the session is claimed. `between` is what others do to the tables: 0 after the look at the session,
  -- 1 while the objects are looked at, 2 between the statements of a discarded copy.
  abbrev pub attempt : Upload → Attempt → Bool × Db → S → (ApiResult (Bool × FileRecord) × Db) × S
  attempt u a (false, db) s = ((err finalizing, db), s)
  attempt u a (true, db) s =
      let candidate = candidate_key component u a in
      let (verdict, s') = inspect objects config.file_max_bytes u candidate s in
      (conclude (between 2) u candidate a verdict (between 1 db), s')

  abbrev pub complete_owned : Upload → Attempt → Db → S → (ApiResult (Bool × FileRecord) × Db) × S
  complete_owned u a db s =
      if u.status == "completed"
      then (((file_for_upload u (between 0 db) >>= λ f. ok (false, f)), between 0 db), s)
      else if u.status == "cleanup_pending" || leb u.expires_at a.seen
      then ((err expired, db), s)
      else attempt u a
          (claim_completion u.id (lease_token a) (candidate_key component u a) (a.outbox_ulid 0)
            a.claimed (between 0 db))
          s

  abbrev pub of_owned :
      ApiResult Upload → Attempt → Db → S → (ApiResult (Bool × FileRecord) × Db) × S
  of_owned (err e) a db s = ((err e, db), s)
  of_owned (ok u) a db s = complete_owned u a db s

  unfoldable pub complete :
      Actor → (id : String) → Attempt → Db → S → (ApiResult (Bool × FileRecord) × Db) × S
  unfolding owned_upload file_for_upload claim_completion inspect conclude
  complete actor id a db s = of_owned (owned_upload actor id db) a db s
