-- ===== src/Api/Files.antt =====
-- src/api.rs: the handlers of files and downloads.
use threadmark.Objects.{broken, answer, from_answer, Answer, ObjectStore}
use threadmark.Auth.{file_grant, file_create, file_read, file_delete, AuthContext, require}
use threadmark.Error.{not_found, ok_or, bad_request, ok, reject_if, err, ◌>>=◌, ◌>>◌, ApiResult}
use threadmark.Api.{DownloadGrant, FileResponse, file_response}
use threadmark.Capability.{
  DownloadGrant, Signing, file_url, proxy, verify_file, redirect, DownloadDelivery,
}
use threadmark.Api.Headers.{content_disposition, stream_file, Web, FileStream}
use threadmark.Db.{Db}
use threadmark.Model.{Actor, FileRecord}
use threadmark.Config.{Config}
use threadmark.Files.Records.{get_owned, remove_file, save}
use threadmark.Common.{
  ℕ, String, Bool, true, false, ◌&&◌, not, Option, List, [], ◌∷◌, if◌then◌else◌, some_eq, unwrap_or,
}

-- A part of a multipart body, with the size of its bytes, which may fail to be read.
pub record MultipartField : Type 0 where
  pub name : Option String
  pub file_name : Option String
  pub content_type : Option String
  pub size : Answer ℕ

pub record DownloadQuery : Type 0 where
  pub tenant : String
  pub owner : String
  pub delivery : DownloadDelivery
  pub expires : ℕ
  pub signature : String

-- A redirection, or the file's bytes.
pub data Download : Type 0 where
  redirected : (url : String) → Download
  streamed : FileStream → Download

module _ {S : Type 0} (objects : ObjectStore S) where
  -- A handler whose checks fail changes nothing.
  abbrev pub guarded :
      {A : Type 0}
      → ApiResult (Unit {0})
      → (Db → S → (ApiResult A × Db) × S)
      → Db
      → S
      → (ApiResult A × Db) × S
  guarded (err e) go db s = ((err e, db), s)
  guarded (ok checked) go db s = go db s

  abbrev pub saved_response : (ApiResult FileRecord × Db) × S → (ApiResult FileResponse × Db) × S
  saved_response ((err e, db), s) = ((err e, db), s)
  saved_response ((ok file, db), s) = ((ok (file_response file), db), s)

  abbrev pub save_field :
      Config
      → Actor
      → MultipartField
      → Answer ℕ
      → (ulid : String) → (now : ℕ) → Db
      → S
      → (ApiResult FileResponse × Db) × S
  save_field config actor field broken ulid now db s =
      ((err (bad_request "Could not read multipart file"), db), s)
  save_field config actor field (answer size) ulid now db s = saved_response (
      save objects actor (unwrap_or field.file_name "file")
        (unwrap_or field.content_type "application/octet-stream") size config.file_max_bytes ulid
        now db s)

  -- The first part that is named `file`; `broken` is a part that cannot be read.
  unfoldable pub first_file :
      Config
      → Actor
      → List (Answer MultipartField)
      → (ulid : String) → (now : ℕ) → Db
      → S
      → (ApiResult FileResponse × Db) × S
  unfolding save file_response
  first_file config actor [] ulid now db s = ((err (bad_request "Missing `file` field."), db), s)
  first_file config actor (broken ∷ fields) ulid now db s =
      ((err (bad_request "Invalid multipart body"), db), s)
  first_file config actor (answer field ∷ fields) ulid now db s =
      let later = first_file config actor fields ulid now db s in
      if not (some_eq field.name "file")
      then later
      else save_field config actor field field.size ulid now db s

  unfoldable pub upload_file_handler :
      Config
      → AuthContext
      → List (Answer MultipartField)
      → (ulid : String) → (now : ℕ) → Db
      → S
      → (ApiResult FileResponse × Db) × S
  unfolding require first_file
  upload_file_handler config auth fields ulid now =
      guarded (require auth file_create) (first_file config auth.actor fields ulid now)

  unfoldable pub delete_file_handler :
      AuthContext → (id : String) → (now : ℕ) → Db → S → (ApiResult (Unit {0}) × Db) × S
  unfolding require remove_file
  delete_file_handler auth id now =
      guarded (require auth file_delete) (remove_file objects auth.actor id now)

  unfoldable pub get_file_content_handler :
      Web → AuthContext → (id : String) → Db → S → ApiResult FileStream
  unfolding require get_owned stream_file
  get_file_content_handler web auth id db s = do
    require auth file_read
    file ← get_owned auth.actor id db
    stream_file web objects file s

  abbrev pub is_redirect : DownloadDelivery → Bool
  is_redirect redirect = true
  is_redirect proxy = false

  unfoldable pub create_file_download_handler :
      Signing
      → Config
      → AuthContext
      → (id : String) → DownloadDelivery
      → (now : ℕ) → Db
      → ApiResult (Option DownloadGrant)
  unfolding require get_owned file_url
  create_file_download_handler signing config auth id delivery now db = do
    require auth file_grant
    _ ← get_owned auth.actor id db
    reject_if (is_redirect delivery && not objects.supports_public_urls)
        (bad_request "redirect delivery requires S3_PUBLIC_URL")
    ok (file_url signing config auth.actor id delivery now)

  abbrev pub deliver_as : Web → Config → FileRecord → DownloadDelivery → S → ApiResult Download
  deliver_as web config file redirect s = do
    signed ← from_answer (
        objects.presigned_get file.storage_key config.capability_ttl_seconds file.mime_type
          (content_disposition web file.filename) s)
    url ← ok_or signed (bad_request "S3_PUBLIC_URL is not configured")
    ok (redirected url)
  deliver_as web config file proxy s = do
    stream ← stream_file web objects file s
    ok (streamed stream)

  -- Nobody is authenticated here: the signature is the permission.
  unfoldable pub download_file :
      Web
      → Signing
      → Config
      → (id : String) → DownloadQuery
      → (now : ℕ) → Db
      → S
      → ApiResult Download
  unfolding get_owned verify_file content_disposition stream_file
  download_file web signing config id query now db s = do
    let actor : Actor = record { tenant_id = query.tenant; principal_id = query.owner }
    reject_if
        (not (verify_file signing config actor id query.delivery query.expires query.signature now))
        (not_found "File capability not found.")
    file ← get_owned actor id db
    deliver_as web config file query.delivery s

unfoldable pub get_file_handler : AuthContext → (id : String) → Db → ApiResult FileResponse
unfolding require get_owned file_response
get_file_handler auth id db = do
  require auth file_read
  file ← get_owned auth.actor id db
  ok (file_response file)
