-- ===== src/Config.antt =====
-- src/config.rs: the settings that the other parts read.
use threadmark.Common.{ℕ, String, Bool, Option}

pub record Config : Type 0 where
  pub public_url : String
  pub secret : String
  pub capability_ttl_seconds : ℕ
  pub file_max_bytes : ℕ
  pub s3_public_url : Option String
  pub direct_upload_enabled : Bool
  pub file_upload_url_ttl_seconds : ℕ
  pub file_upload_session_ttl_seconds : ℕ
