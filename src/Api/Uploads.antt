-- ===== src/Api/Uploads.antt =====
-- src/api.rs: the handlers of direct uploads.
use threadmark.Error.{
  forbidden, reject_if, into_response, err, ok, Response, coded_conflict, ◌>>◌, ApiError, ApiResult,
}
use threadmark.Uploads.Initiate.{NewUpload, InitiateRequest, initiate, InitiateResponse, Outside}
use threadmark.Api.{file_response, FileRecord, FileResponse}
use threadmark.Auth.{file_create, require, AuthContext}
use threadmark.Uploads.Complete.{complete, Attempt}
use threadmark.Config.{Config}
use threadmark.Db.{Db}
use threadmark.Model.{FileRecord}
use threadmark.Objects.{ObjectStore}
use threadmark.Common.{ℕ, String, Bool, Option, none, some, ◌==◌, if◌then◌else◌, is_some}

-- `Retry-After`, in seconds, is the last field.
pub record Timed (A : Type 0) : Type 0 where
  pub status : ℕ
  pub body : A
  pub retry_after : Option ℕ

pub data Completion : Type 0 where
  file_completion : FileResponse → Completion
  problem_completion : Response → Completion

-- A token that is bound to an agent opens and completes no upload.
abbrev pub check_uploader : AuthContext → ApiResult (Unit {0})
check_uploader auth = do require auth file_create; reject_if (is_some auth.agent_ref) forbidden

abbrev pub created_status : Bool → ℕ
created_status created = if created then 201 else 200

abbrev pub initiated :
    {Form : Type 0} → Bool × InitiateResponse Form → Timed (InitiateResponse Form)
initiated (created, upload) = record {
  status = created_status created;
  body = upload;
  retry_after = if upload.status == "finalizing" then some 5 else none;
}

abbrev pub initiate_answer :
    {Form : Type 0}
    → ApiResult (Bool × InitiateResponse Form) × Db
    → ApiResult (Timed (InitiateResponse Form)) × Db
initiate_answer (err e, db) = (err e, db)
initiate_answer (ok r, db) = (ok (initiated r), db)

module _ {Form : Type 0} (out : Outside Form) (config : Config) {S : Type 0}
    (objects : ObjectStore S) where
  abbrev pub initiate_checked :
      ApiResult (Unit {0})
      → Db
      → Option (ApiResult (Bool × InitiateResponse Form) × Db)
      → Option (ApiResult (Timed (InitiateResponse Form)) × Db)
  initiate_checked (err e) db result = some (err e, db)
  initiate_checked (ok checked) db none = none
  initiate_checked (ok checked) db (some r) = some (initiate_answer r)

  unfoldable pub initiate_file_upload_handler :
      (s : ℕ → S) (fuel : ℕ) (between : ℕ → Db → Db)
      → AuthContext
      → InitiateRequest
      → NewUpload
      → (now : ℕ) → Db
      → Option (ApiResult (Timed (InitiateResponse Form)) × Db)
  unfolding require initiate
  initiate_file_upload_handler s fuel between auth request fresh now db =
      initiate_checked (check_uploader auth) db
        (initiate out config objects s fuel between auth.actor auth.client_id request fresh now db)

-- An error of a session that is being finalized is answered with the time to wait.
abbrev pub timed_problem : ApiError → ApiResult (Timed Completion)
timed_problem (coded_conflict code message) =
    if code == "upload_finalizing"
    then ok (record {
      status = (into_response (coded_conflict code message)).status;
      body = problem_completion (into_response (coded_conflict code message));
      retry_after = some 5;
    })
    else err (coded_conflict code message)
timed_problem e = err e

abbrev pub completion_reply : ApiResult (Bool × FileRecord) → ApiResult (Timed Completion)
completion_reply (ok (created, file)) = ok (record {
  status = created_status created;
  body = file_completion (file_response file);
  retry_after = none;
})
completion_reply (err e) = timed_problem e

module _ {S : Type 0} (objects : ObjectStore S) (component : String → String) (config : Config)
    (between : ℕ → Db → Db) where
  abbrev pub complete_answer :
      (ApiResult (Bool × FileRecord) × Db) × S → (ApiResult (Timed Completion) × Db) × S
  complete_answer ((r, db), s) = ((completion_reply r, db), s)

  abbrev pub complete_checked :
      ApiResult (Unit {0})
      → AuthContext
      → (id : String) → Attempt
      → Db
      → S
      → (ApiResult (Timed Completion) × Db) × S
  complete_checked (err e) auth id a db s = ((err e, db), s)
  complete_checked (ok checked) auth id a db s =
      complete_answer (complete objects component config between auth.actor id a db s)

  unfoldable pub complete_file_upload_handler :
      AuthContext → (id : String) → Attempt → Db → S → (ApiResult (Timed Completion) × Db) × S
  unfolding require complete file_response into_response
  complete_file_upload_handler auth id a db s =
      complete_checked (check_uploader auth) auth id a db s
