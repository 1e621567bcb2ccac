-- ===== src/Auth/Verifier.antt =====
-- src/auth.rs: how a request's headers become a context.
use threadmark.Auth.{
  file_grant, file_delete, file_read, file_create, reject_if, continuation_write, continuation_read,
  ok_or, owner_session, turn_update, turn_read, turn_create, transcript_append, transcript_read,
  conversation_regenerate, conversation_truncate, conversation_delete, conversation_update,
  conversation_read, valid_id, conversation_create, AuthContext, conversation_list, Permission,
}
use threadmark.Error.{reject_if, ◌>>◌, ok_or, ◌>>=◌, ok, unauthorized, err, ApiResult}
use threadmark.Common.Text.{any_chars, is_whitespace, is_empty, strip_prefix}
use threadmark.Auth.Claims.{Claims, Settings, context}
use threadmark.Common.{
  ℕ, String, Bool, ◌&&◌, ◌||◌, not, Option, none, some, List, [], ◌∷◌, ◌==◌, if◌then◌else◌, some_eq,
}

pub record TokenHeader : Type 0 where
  pub is_eddsa : Bool
  pub typ : Option String
  pub kid : Option String

-- The jsonwebtoken library: `decode_header`, and `decode` with the signature, the times, the issuer
-- and the audience checked.
pub record Jwt (Key : Type 0) : Type 0 where
  pub decode_header : String → Option TokenHeader
  pub decode : Key → (issuer audience : String) → String → Option Claims

pub record JwtVerifier (Key : Type 0) : Type 0 where
  pub settings : Settings
  pub keys : List (String × Key)

unfoldable pub lookup_key : {Key : Type 0} → List (String × Key) → String → Option Key
lookup_key [] kid = none
lookup_key ((k, key) ∷ keys) kid =
    let rest = lookup_key keys kid in if k == kid then some key else rest

abbrev keep_token : Option String → Option String
keep_token none = none
keep_token (some token) =
    if not (is_empty token) && not (any_chars is_whitespace token) then some token else none

-- The value of the Authorization header, where it has one that is visible ASCII.
unfoldable pub bearer : Option String → Option String
unfolding strip_prefix is_whitespace any_chars
bearer none = none
bearer (some value) = keep_token (strip_prefix value "Bearer ")

-- `HashMap::get(kid?)`
abbrev pub key_of : {Key : Type 0} → JwtVerifier Key → Option String → Option Key
key_of v none = none
key_of v (some kid) = lookup_key v.keys kid

-- `JwtVerifier::authenticate`
unfoldable pub authenticate :
    {Key : Type 0} (jwt : Jwt Key)
    → JwtVerifier Key
    → (now : ℕ) → (authorization : Option String) → ApiResult AuthContext
unfolding context bearer lookup_key
authenticate jwt v now authorization = do
  token ← ok_or (bearer authorization) unauthorized
  header ← ok_or (jwt.decode_header token) unauthorized
  reject_if (not header.is_eddsa || not (some_eq header.typ "at+jwt")) unauthorized
  key ← ok_or (key_of v header.kid) unauthorized
  claims ← ok_or (jwt.decode key v.settings.issuer v.settings.audience token) unauthorized
  ok_or (context v.settings now claims) unauthorized

-- A header of a request, where it is visible ASCII.
abbrev pub required : (String → Option String) → String → ApiResult String
required headers name = elim (headers name) [
  | none ↦ err unauthorized
  | some value ↦ if valid_id value then ok value else err unauthorized
]

abbrev pub owner_permissions : List Permission
owner_permissions =
    conversation_list ∷ conversation_create ∷ conversation_read ∷ conversation_update
    ∷ conversation_delete ∷ conversation_truncate ∷ conversation_regenerate ∷ transcript_read
    ∷ transcript_append ∷ turn_create ∷ turn_read ∷ turn_update ∷ continuation_read
    ∷ continuation_write ∷ file_create ∷ file_read ∷ file_delete ∷ file_grant ∷ []

unfoldable pub trusted_headers : (String → Option String) → ApiResult AuthContext
trusted_headers headers = do
  tenant ← required headers "x-threadmark-tenant"
  principal ← required headers "x-threadmark-principal"
  ok (record {
    actor = record { tenant_id = tenant; principal_id = principal };
    client_id = "threadmark:trusted-headers";
    agent_ref = none;
    conversation_id = none;
    turn_id = none;
    token_kind = owner_session;
    permissions = owner_permissions;
  })
