-- ===== src/Uploads/Samples.antt =====
-- A session, its tables and an object store, for the tests of src/uploads.rs.
use threadmark.Db.{empty_db, Db, Upload}
use threadmark.Objects.{answer, ObjectHead, ObjectStore}
use threadmark.Config.{Config}
use threadmark.Model.{Actor}
use threadmark.Common.{Bool, true, none, some, [], ◌∷◌, ◌==◌, if◌then◌else◌}

abbrev pub ann : Actor
ann = record { tenant_id = "acme"; principal_id = "ann" }

abbrev pub upload : Upload
upload = record {
  id = "upload_1";
  tenant_id = "acme";
  owner_ref = "ann";
  client_id = "cli";
  idempotency_key = "k";
  request_hash = "h";
  file_id = "file_1";
  filename = "a.txt";
  mime_type = "text/plain";
  expected_size = 3;
  staging_key = "staging";
  candidate_key = none;
  status = "pending";
  lease_token = none;
  lease_expires_at = none;
  expires_at = 1000;
  completed_at = none;
}

abbrev pub one_upload : Db
one_upload = record empty_db { file_uploads = upload ∷ [] }

abbrev pub config : Config
config = record {
  public_url = "https://t";
  secret = "k";
  capability_ttl_seconds = 60;
  file_max_bytes = 10;
  s3_public_url = none;
  direct_upload_enabled = true;
  file_upload_url_ttl_seconds = 60;
  file_upload_session_ttl_seconds = 600;
}

abbrev pub staged_head : ObjectHead
staged_head = record {
  size = 3;
  content_type = some "text/plain";
  upload_id = some "upload_1";
  version_id = some "v1";
}

-- One object is staged; the state says whether it has been copied.
abbrev pub objects : ObjectStore Bool
objects = record {
  supports_public_urls = true;
  ping = λ copied. answer tt;
  versioning_enabled = λ copied. answer true;
  put = λ key copied. (answer tt, copied);
  head = λ key copied.
      if key == "staging"
      then answer (some staged_head)
      else if copied
      then answer (some staged_head)
      else answer none;
  copy = λ source version destination content_type copied. (answer tt, true);
  versions = λ key copied. answer [];
  delete_version = λ key version copied. (answer tt, copied);
  get_stream = λ key copied. answer "abc";
  presigned_get = λ key ttl content_type disposition copied. answer none;
}
