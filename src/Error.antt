-- ===== src/Error.antt =====
-- src/error.rs: the errors of the API and the response that each becomes.
mod Laws
mod Tests
use threadmark.Common.{
  ℕ, zero, suc, ◌+◌, ◌-◌, ◌*◌, ◌/◌, ◌%◌, ◌^◌, ◌≤◌, ◌<◌, min, String, ◌≡◌, refl, sym, ap, ◌∙◌, ◌≢◌,
  ◌↔◌, ◌⊎◌, inl, inr, Bool, true, false, ◌&&◌, ◌||◌, not, Option, none, some, List, [], ◌∷◌, ◌++◌,
  map, append-nil, append_assoc, arith, ◌==◌, eq_iff, eq_refl, ltb, leb, eqb, if◌then◌else◌,
  some_eq, is_some, unwrap_or, ltb→lt, leb→le, leb-false, Bool-cases, Option-cases, eq-of-some_eq,
  length, length-append, take, length-take_le, All, All-append, All-append_left, All-of_forall,
  All-map, filter, find, any, all, remove, update, or_else, filter-append, find-append, any-append,
  filter_none, filter-All, All-not_of_any, any-of_All, find_sound, any-of_find, find-none, All-find,
  All-filter, All-remove, All-passed, any-update, find-update_ne, find-update, All-update, any_mono,
  filter-remove_spared, filter-remove, remove_congr, remove_none, All-removed, All-both,
}

-- `sqlx::Error`: what the program reads of it is the violated constraint's name. The error is opaque.
pub data SqlError : Type 0 where
  violates : String → SqlError
  failed : SqlError

-- The cause inside `ObjectStore` is an opaque `anyhow::Error`, which is only logged.
pub data ApiError : Type 0 where
  unauthorized forbidden : ApiError
  bad_request not_found conflict payload_too_large : String → ApiError
  coded_bad_request coded_conflict coded_gone coded_unavailable : String → String → ApiError
  coded_payload_too_large : String → String → ApiError
  object_store : String → ApiError
  database : SqlError → ApiError

pub data ApiResult {ℓ} (A : Type ℓ) : Type ℓ where
  err : ApiError → ApiResult A
  ok : A → ApiResult A

infixl 5 ◌>>=◌ ◌>>◌
-- The `?` of Rust: an error returns at once.
abbrev pub ◌>>=◌ {κ ι} :
    {Got : Type κ} {Next : Type ι} → ApiResult Got → (Got → ApiResult Next) → ApiResult Next
err problem >>= next = err problem
ok got >>= next = next got

-- The same for a check that gives nothing.
abbrev pub ◌>>◌ {κ} : {Next : Type κ} → ApiResult (Unit {0}) → ApiResult Next → ApiResult Next
check >> next = check >>= λ checked. next

-- `if bad { return Err(e) }`
abbrev pub reject_if : Bool → ApiError → ApiResult (Unit {0})
reject_if true e = err e
reject_if false e = ok tt

-- `o.ok_or(e)?`
abbrev pub ok_or {ℓ} : {A : Type ℓ} → Option A → ApiError → ApiResult A
ok_or none e = err e
ok_or (some a) e = ok a

pub reject_if-ok {ℓ} :
    {B : Type ℓ} (b : Bool) (e : ApiError) (k : ApiResult B) {x : B}
    → (reject_if b e >> k) ≡ ok x
    → (b ≡ false) × (k ≡ ok x)
reject_if-ok true e k h = absurd (ground arith)
reject_if-ok false e k h = (refl, h)

-- What a success says of the steps before it.
pub >>=-eq-ok {κ ι} :
    {Got : Type κ} {Next : Type ι} (step : ApiResult Got) (next : Got → ApiResult Next) {x : Next}
    → (step >>= next) ≡ ok x
    → (got : Got) × (step ≡ ok got) × (next got ≡ ok x)
>>=-eq-ok (err problem) next h = absurd (ground arith)
>>=-eq-ok (ok got) next h = (got, refl, h)

abbrev get_ok {ℓ} : {A : Type ℓ} → A → ApiResult A → A
get_ok d (ok a) = a
get_ok d (err e) = d

pub ok-injective {ℓ} : {A : Type ℓ} {a b : A} → ok a ≡ ok b → a ≡ b
ok-injective {a} h = ap (get_ok a) h

pub ok_or-eq-ok {ℓ} :
    {A : Type ℓ} (o : Option A) (e : ApiError) {a : A} → ok_or o e ≡ ok a → o ≡ some a
ok_or-eq-ok none e h = absurd (ground arith)
ok_or-eq-ok (some x) e h = ground arith

pub record Response : Type 0 where
  pub status : ℕ
  pub code : String
  pub message : String
  -- the WWW-Authenticate header
  pub www_authenticate : Option String

pub status_code : ApiError → ℕ × String
status_code unauthorized = (401, "unauthorized")
status_code forbidden = (403, "forbidden")
status_code (bad_request m) = (400, "invalid_request")
status_code (coded_bad_request c m) = (400, c)
status_code (not_found m) = (404, "not_found")
status_code (conflict m) = (409, "conflict")
status_code (coded_conflict c m) = (409, c)
status_code (coded_gone c m) = (410, c)
status_code (coded_unavailable c m) = (503, c)
status_code (payload_too_large m) = (413, "payload_too_large")
status_code (coded_payload_too_large c m) = (413, c)
status_code (object_store e) = (502, "object_store_error")
status_code (database e) = (500, "internal_error")

-- The `Display` of an error, as `thiserror` derives it.
to_string : ApiError → String
to_string unauthorized = "Authentication required."
to_string forbidden = "Permission denied."
to_string (bad_request m) = m
to_string (coded_bad_request c m) = m
to_string (not_found m) = m
to_string (conflict m) = m
to_string (coded_conflict c m) = m
to_string (coded_gone c m) = m
to_string (coded_unavailable c m) = m
to_string (payload_too_large m) = m
to_string (coded_payload_too_large c m) = m
to_string (object_store e) = "object storage operation failed"
to_string (database e) = "database operation failed"

response_message : ApiError → String
unfolding to_string
response_message (database e) = "Storage operation failed."
response_message (object_store e) = "Storage operation failed."
response_message other = to_string other

unfoldable pub into_response : ApiError → Response
unfolding status_code response_message
into_response e =
    let (status, code) = status_code e in
    record {
      status = status;
      code = code;
      message = response_message e;
      www_authenticate = if eqb status 401 then some "Bearer" else none;
    }
