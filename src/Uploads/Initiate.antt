-- ===== src/Uploads/Initiate.antt =====
-- src/uploads.rs: `initiate`, which opens a session or answers the one that has the key.
pub mod Laws
pub mod Retry
mod Tests
use threadmark.Error.{
  bad_request, coded_conflict, reject_if, err, ok, ◌>>=◌, ◌>>◌, ApiResult, coded_gone,
  coded_unavailable, ApiError,
}
use threadmark.Objects.{from_answer, Answer, ObjectStore}
use threadmark.Uploads.Names.{normalized_mime_type, normalized_filename, bounded_trimmed}
use threadmark.Common.Int.{negsuc, pos, ℤ}
use threadmark.Ids.{new_id}
use threadmark.Db.{Db, Upload, insert_upload}
use threadmark.Uploads.Outbox.{file_for_upload}
use threadmark.Config.{Config}
use threadmark.Model.{Actor, FileRecord}
use Prim.Native.String
use threadmark.Common.{
  ℕ, zero, suc, ◌+◌, ◌-◌, ◌*◌, ◌/◌, ◌%◌, ◌^◌, ◌≤◌, ◌<◌, min, String, ◌≡◌, refl, sym, ap, ◌∙◌, ◌≢◌,
  ◌↔◌, ◌⊎◌, inl, inr, Bool, true, false, ◌&&◌, ◌||◌, not, Option, none, some, List, [], ◌∷◌, ◌++◌,
  map, append-nil, append_assoc, arith, ◌==◌, eq_iff, eq_refl, ltb, leb, eqb, if◌then◌else◌,
  some_eq, is_some, unwrap_or, ltb→lt, leb→le, leb-false, Bool-cases, Option-cases, eq-of-some_eq,
  length, length-append, take, length-take_le, All, All-append, All-append_left, All-of_forall,
  All-map, filter, find, any, all, remove, update, or_else, filter-append, find-append, any-append,
  filter_none, filter-All, All-not_of_any, any-of_All, find_sound, any-of_find, find-none, All-find,
  All-filter, All-remove, All-passed, any-update, find-update_ne, find-update, All-update, any_mono,
  filter-remove_spared, filter-remove, remove_congr, remove_none, All-removed, All-both,
  some-eq-some, filter_none_under, find-filter, length-remove_le, length-remove_lt,
}

pub record InitiateRequest : Type 0 where
  pub idempotency_key : String
  pub filename : String
  pub mime_type : String
  pub size : ℤ

pub record InitiateResponse (Form : Type 0) : Type 0 where
  pub id : String
  pub status : String
  pub expires_at : ℕ
  pub upload : Option Form
  pub file : Option FileRecord
  pub retry_after_seconds : Option ℕ

-- What a session's row is inserted with, besides the request.
pub record NewUpload : Type 0 where
  pub upload_ulid : String
  pub object_ulid : String
  pub file_ulid : String

-- What is outside: SHA-256 of canonical JSON, Base64, the forms that the object store signs, and the
-- largest time that a timestamp holds.
pub record Outside (Form : Type 0) : Type 0 where
  pub hash_request : (filename mime_type : String) → ℤ → String
  pub component : String → String
  pub presigned_post : Upload → (expires_at : ℕ) → Answer Form
  pub max_time : ℕ

abbrev pub unavailable : String → ApiError
unavailable message = coded_unavailable "direct_upload_unavailable" message

abbrev pub expired : ApiError
expired = coded_gone "upload_expired" "Upload session has expired."

abbrev pub in_limit : ℤ → ℕ → Bool
in_limit (pos n) maximum = leb n maximum
in_limit (negsuc n) maximum = false

abbrev size_of : ℤ → ℕ
size_of (pos n) = n
size_of (negsuc n) = 0

unfoldable pub find_upload : Actor → (client_id key : String) → Db → Option Upload
find_upload actor client_id key db =
    find
      (λ u.
        u.tenant_id == actor.tenant_id
        && u.owner_ref == actor.principal_id
        && u.client_id == client_id
        && u.idempotency_key == key)
      db.file_uploads

abbrev slash : String → String → String
slash s t = String.◌++◌ s (String.◌++◌ "/" t)

-- format!("{first}/{}/{}/{}/{}", …)
abbrev pub object_key : (first tenant owner id object : String) → String
object_key first tenant owner id object = slash first (slash tenant (slash owner (slash id object)))

-- A request after its normalisation.
pub record Normal : Type 0 where
  pub key : String
  pub filename : String
  pub mime_type : String
  pub size : ℤ

module _ {Form : Type 0} (out : Outside Form) (config : Config) where
  abbrev describe :
      Upload
      → (status : String) → Option Form
      → Option FileRecord
      → Option ℕ
      → InitiateResponse Form
  describe u status form file retry = record {
    id = u.id;
    status = status;
    expires_at = u.expires_at;
    upload = form;
    file = file;
    retry_after_seconds = retry;
  }

  abbrev respond_completed : Upload → Db → ApiResult (Bool × InitiateResponse Form)
  respond_completed u db = do
    file ← file_for_upload u db
    ok (false, describe u "completed" none (some file) none)

  abbrev respond_pending :
      Upload → (created : Bool) → (now : ℕ) → ApiResult (Bool × InitiateResponse Form)
  respond_pending u created now = do
    form ←
        from_answer
          (out.presigned_post u (min u.expires_at (now + config.file_upload_url_ttl_seconds)))
    ok (created, describe u "pending" (some form) none none)

  unfoldable pub response_for_upload :
      Upload → (created : Bool) → (now : ℕ) → Db → ApiResult (Bool × InitiateResponse Form)
  unfolding file_for_upload
  response_for_upload u created now db =
      if u.status == "completed"
      then respond_completed u db
      else if u.status == "cleanup_pending" || leb u.expires_at now
      then err expired
      else if u.status == "finalizing"
      then ok (false, describe u "finalizing" none none (some 5))
      else respond_pending u created now

  unfoldable pub normalize : InitiateRequest → ApiResult Normal
  unfolding bounded_trimmed normalized_filename normalized_mime_type
  normalize request = do
    key ← bounded_trimmed "idempotency_key" request.idempotency_key 200
    filename ← normalized_filename request.filename
    mime_type ← normalized_mime_type request.mime_type
    reject_if (not (in_limit request.size config.file_max_bytes))
        (bad_request "size is outside the configured file limit.")
    ok (record { key = key; filename = filename; mime_type = mime_type; size = request.size })

  abbrev pub new_upload :
      Actor → (client_id : String) → Normal → NewUpload → (expires_at : ℕ) → Upload
  new_upload actor client_id r fresh expires_at = record {
    id = new_id "upload" fresh.upload_ulid;
    tenant_id = actor.tenant_id;
    owner_ref = actor.principal_id;
    client_id = client_id;
    idempotency_key = r.key;
    request_hash = out.hash_request r.filename r.mime_type r.size;
    file_id = new_id "file" fresh.file_ulid;
    filename = r.filename;
    mime_type = r.mime_type;
    expected_size = size_of r.size;
    staging_key =
        object_key "uploads" (out.component actor.tenant_id) (out.component actor.principal_id)
          (new_id "upload" fresh.upload_ulid) (new_id "object" fresh.object_ulid);
    candidate_key = none;
    status = "pending";
    lease_token = none;
    lease_expires_at = none;
    expires_at = expires_at;
    completed_at = none;
  }

  -- The answer for a session on record.
  abbrev pub resume : Upload → Normal → (now : ℕ) → Db → ApiResult (Bool × InitiateResponse Form)
  resume u r now db =
      if not (u.request_hash == out.hash_request r.filename r.mime_type r.size)
      then err
          (coded_conflict "idempotency_mismatch" "Idempotency key was used with different input.")
      else response_for_upload u false now db

  -- A statement without a transaction stays when a later step fails.
  abbrev pub finish :
      Upload → (now : ℕ) → Db → ApiResult Db → ApiResult (Bool × InitiateResponse Form) × Db
  finish u now db (ok db') = (response_for_upload u true now db', db')
  finish u now db (err e) = (err e, db)

  -- The call of `initiate` by itself begins with its checks; the request is a normalised one already.
  abbrev pub recheck :
      ApiResult (Unit {0})
      → Db
      → Option (ApiResult (Bool × InitiateResponse Form) × Db)
      → Option (ApiResult (Bool × InitiateResponse Form) × Db)
  recheck (err e) db rest = some (err e, db)
  recheck (ok checked) db rest = rest

  -- `initiate` after its checks, which `available k` repeats before the round that begins at statement `k`.
  -- Between two statements others may have changed the tables, as `between`
  -- says; where they have inserted the key before the INSERT, the next round begins. The answer is `none`
  -- where the fuel does not suffice.
  unfoldable pub rounds :
      (available : ℕ → ApiResult (Unit {0})) (fuel k : ℕ)
      → (between : ℕ → Db → Db) → Actor
      → (client_id : String) → Normal
      → NewUpload
      → (now : ℕ) → Db
      → Option (ApiResult (Bool × InitiateResponse Form) × Db)
  unfolding find_upload insert_upload response_for_upload
  rounds available zero k between actor client_id r fresh now db = none
  rounds available (suc fuel) k between actor client_id r fresh now db =
      elim (find_upload actor client_id r.key db) [
        | some u ↦ some (resume u r now db, db)
        | none ↦
            let expires_at = now + config.file_upload_session_ttl_seconds in
            let db' = between k db in
            elim (ltb out.max_time expires_at) [
              | true ↦
                  some (
                    err (unavailable "Configured upload session lifetime is not representable."),
                    db,
                  )
              | false ↦ elim (find_upload actor client_id r.key db') [
                | some u ↦
                    let again = between (suc k) db' in
                    recheck (available (k + 2)) again
                      (rounds available fuel (k + 2) between actor client_id r fresh now again)
                | none ↦
                    let u = new_upload actor client_id r fresh expires_at in
                    some (finish u now db' (insert_upload u db'))
              ]
            ]
      ]

  unfoldable pub check_available : {S : Type 0} → ObjectStore S → S → ApiResult (Unit {0})
  check_available objects s = do
    reject_if (not config.direct_upload_enabled || not objects.supports_public_urls)
        (unavailable "Direct browser uploads are unavailable.")
    versioned ← from_answer (objects.versioning_enabled s)
    reject_if (not versioned) (unavailable "Direct browser uploads require bucket versioning.")

  abbrev pub after_checks :
      ApiResult Normal
      → Db
      → (Normal → Option (ApiResult (Bool × InitiateResponse Form) × Db))
      → Option (ApiResult (Bool × InitiateResponse Form) × Db)
  after_checks (ok r) db go = go r
  after_checks (err e) db go = some (err e, db)

  -- `s k` is the state of the object store at statement `k`.
  unfoldable pub initiate :
      {S : Type 0} (objects : ObjectStore S) (s : ℕ → S) (fuel : ℕ) (between : ℕ → Db → Db)
      → Actor
      → (client_id : String) → InitiateRequest
      → NewUpload
      → (now : ℕ) → Db
      → Option (ApiResult (Bool × InitiateResponse Form) × Db)
  unfolding check_available normalize rounds
  initiate objects s fuel between actor client_id request fresh now db =
      after_checks (check_available objects (s 0) >> normalize request) db (λ r.
        rounds (λ k. check_available objects (s k)) fuel 0 between actor client_id r fresh now db)
