-- ===== src/Objects.antt =====
-- src/object_store.rs: what the other parts rely on of the client of the object store. The store itself
-- is outside: a state `S` that each operation may change, and an answer that may be an error.
use threadmark.Error.{ok, err, object_store, ApiError, ApiResult}
use threadmark.Common.{ℕ, String, Bool, Option, List}

pub data Answer (A : Type 0) : Type 0 where
  broken : Answer A
  answer : A → Answer A

pub record ObjectHead : Type 0 where
  pub size : ℕ
  pub content_type : Option String
  -- the entry `threadmark-upload` of the metadata
  pub upload_id : Option String
  pub version_id : Option String

pub record ObjectStore (S : Type 0) : Type 0 where
  pub supports_public_urls : Bool
  pub ping : S → Answer (Unit {0})
  pub versioning_enabled : S → Answer Bool
  pub put : String → S → Answer (Unit {0}) × S
  pub head : String → S → Answer (Option ObjectHead)
  pub copy :
      (source_key source_version_id destination_key content_type : String)
      → S
      → Answer (Unit {0}) × S
  pub versions : String → S → Answer (List String)
  pub delete_version : (key version_id : String) → S → Answer (Unit {0}) × S
  pub get_stream : String → S → Answer String
  pub presigned_get :
      (key : String)
      → (ttl_seconds : ℕ) → (content_type content_disposition : String) → S
      → Answer (Option String)

-- `objects.…await.map_err(ApiError::ObjectStore)?`
abbrev pub object_error : ApiError
object_error = object_store "object store"

abbrev pub from_answer : {A : Type 0} → Answer A → ApiResult A
from_answer broken = err object_error
from_answer (answer a) = ok a
