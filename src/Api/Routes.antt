-- ===== src/Api/Routes.antt =====
-- src/api.rs: the router. The body limit and the tracing of its layers are left out.
pub mod Laws
pub mod Delegated
pub mod Keeps
pub mod History
use threadmark.Error.{◌>>=◌, ok, ApiResult, err}
use threadmark.Api.Files.{
  create_file_download_handler, delete_file_handler, get_file_content_handler, get_file_handler,
  Download, download_file, upload_file_handler, MultipartField, DownloadQuery,
}
use threadmark.Api.Uploads.{
  complete_file_upload_handler, initiate_file_upload_handler, Completion, Timed,
}
use threadmark.Api.{DownloadGrant, FileResponse, Reply}
use threadmark.Capability.{DownloadGrant, DownloadDelivery, Signing}
use threadmark.Api.Headers.{FileStream, Web}
use threadmark.Auth.{AuthContext}
use threadmark.Uploads.Complete.{Attempt}
use threadmark.Uploads.Initiate.{InitiateRequest, InitiateResponse, NewUpload, Outside}
use threadmark.Config.{Config}
use threadmark.Db.{Db}
use threadmark.Objects.{from_answer, Answer, ObjectStore}
use threadmark.Store.Start.{Fresh}
use threadmark.Common.{
  ℕ, zero, suc, ◌+◌, ◌-◌, ◌*◌, ◌/◌, ◌%◌, ◌^◌, ◌≤◌, ◌<◌, min, String, ◌≡◌, refl, sym, ap, ◌∙◌, ◌≢◌,
  ◌↔◌, ◌⊎◌, inl, inr, Bool, true, false, ◌&&◌, ◌||◌, not, Option, none, some, List, [], ◌∷◌, ◌++◌,
  map, append-nil, append_assoc, arith, ◌==◌, eq_iff, eq_refl, ltb, leb, eqb, if◌then◌else◌,
  some_eq, is_some, unwrap_or, ltb→lt, leb→le, leb-false, Bool-cases, Option-cases, eq-of-some_eq,
  length, length-append, take, length-take_le, All, All-append, All-append_left, All-of_forall,
  All-map, filter, find, any, all, remove, update, or_else, filter-append, find-append, any-append,
  filter_none, filter-All, All-not_of_any, any-of_All, find_sound, any-of_find, find-none, All-find,
  All-filter, All-remove, All-passed, any-update, find-update_ne, find-update, All-update, any_mono,
  filter-remove_spared, filter-remove, remove_congr, remove_none, All-removed, All-both,
  some-eq-some, filter_none_under, find-filter, length-remove_le, length-remove_lt,
}
use threadmark.Api.Router.{Request, Services, handle, reading}

-- What one call draws: times, identifiers, and what others do to the tables and the objects between its
-- statements. `fuel` is for `initiate`.
pub record Draws (S : Type 0) : Type 0 where
  pub fresh : Fresh
  pub file_ulid : String
  pub upload : NewUpload
  pub attempt : Attempt
  pub between : ℕ → Db → Db
  pub changes : ℕ → S → S
  pub fuel : ℕ

pub data FileRequest : Type 0 where
  uploads_file : List (Answer MultipartField) → FileRequest
  initiates_upload : InitiateRequest → FileRequest
  completes_upload : String → FileRequest
  gets_file : String → FileRequest
  gets_content : String → FileRequest
  deletes_file : String → FileRequest
  creates_download : String → DownloadDelivery → FileRequest

-- The routes that take no token.
pub data PublicRequest : Type 0 where
  downloads_file : String → DownloadQuery → PublicRequest
  asks_health : PublicRequest

pub data AnyRequest : Type 0 where
  of_ledger : Request → AnyRequest
  of_files : FileRequest → AnyRequest
  of_public : PublicRequest → AnyRequest

pub data Answered (Form : Type 0) : Type 0 where
  replied : Reply → Answered Form
  described : FileResponse → Answered Form
  opened_upload : Timed (InitiateResponse Form) → Answered Form
  completed_upload : Timed Completion → Answered Form
  sent : FileStream → Answered Form
  granted_download : Option DownloadGrant → Answered Form
  downloaded : Download → Answered Form
  no_content : Answered Form

-- An answer with the tables and the objects after it.
abbrev pub Outcome : (A S : Type 0) → Type 0
Outcome A S = (ApiResult A × Db) × S

-- The tables after an answer; an error has rolled its transaction back.
abbrev pub of_tables :
    {Form S : Type 0} → ApiResult (Reply × Db) → Db → S → Outcome (Answered Form) S
of_tables (err e) db s = ((err e, db), s)
of_tables (ok (reply, db')) db s = ((ok (replied reply), db'), s)

-- A handler that only reads.
abbrev pub of_read :
    {Form S A : Type 0} (f : A → Answered Form) → ApiResult A → Db → S → Outcome (Answered Form) S
of_read f (err e) db s = ((err e, db), s)
of_read f (ok a) db s = ((ok (f a), db), s)

abbrev pub of_outcome :
    {Form S A : Type 0} (f : A → Answered Form) → Outcome A S → Outcome (Answered Form) S
of_outcome f ((err e, db), s) = ((err e, db), s)
of_outcome f ((ok a, db), s) = ((ok (f a), db), s)

abbrev pub of_initiated :
    {Form S : Type 0}
    → Option (ApiResult (Timed (InitiateResponse Form)) × Db)
    → S
    → Option (Outcome (Answered Form) S)
of_initiated none s = none
of_initiated (some (r, db)) s = some (of_outcome opened_upload ((r, db), s))

-- Of `SELECT 1` the tables never fail to answer.
unfoldable pub health : {S : Type 0} → ObjectStore S → S → ApiResult (Unit {0})
health objects s = from_answer (objects.ping s)

module _ {Form S : Type 0} (services : Services) (out : Outside Form) (config : Config)
    (objects : ObjectStore S) (web : Web) (signing : Signing) where
  unfoldable pub route_file :
      AuthContext → Draws S → FileRequest → Db → S → Option (Outcome (Answered Form) S)
  unfolding upload_file_handler initiate_file_upload_handler complete_file_upload_handler
      get_file_handler get_file_content_handler delete_file_handler create_file_download_handler
  route_file auth d (uploads_file fields) db s = some (
      of_outcome described
        (upload_file_handler objects config auth fields d.file_ulid d.fresh.now db s))
  route_file auth d (initiates_upload r) db s =
      of_initiated
        (initiate_file_upload_handler out config objects (λ k. d.changes k s) d.fuel d.between auth
          r d.upload d.fresh.now db)
        s
  route_file auth d (completes_upload id) db s = some (
      of_outcome completed_upload (
        complete_file_upload_handler objects out.component config d.between auth id d.attempt db s))
  route_file auth d (gets_file id) db s =
      some (of_read described (get_file_handler auth id db) db s)
  route_file auth d (gets_content id) db s =
      some (of_read sent (get_file_content_handler objects web auth id db s) db s)
  route_file auth d (deletes_file id) db s =
      some (of_outcome (λ _. no_content) (delete_file_handler objects auth id d.fresh.now db s))
  route_file auth d (creates_download id delivery) db s = some (
      of_read granted_download
        (create_file_download_handler objects signing config auth id delivery d.fresh.now db) db s)

  unfoldable pub route_public : Draws S → PublicRequest → Db → S → Outcome (Answered Form) S
  unfolding download_file health
  route_public d (downloads_file id query) db s =
      of_read downloaded (download_file objects web signing config id query d.fresh.now db s) db s
  route_public d asks_health db s = of_read (λ _. no_content) (health objects s) db s

  -- `none` where the fuel of `initiate` does not suffice.
  unfoldable pub route :
      AuthContext → Draws S → AnyRequest → Db → S → Option (Outcome (Answered Form) S)
  unfolding handle route_file route_public
  route auth d (of_ledger r) db s =
      some (of_tables (handle services auth d.fresh (d.between 0) r db) db s)
  route auth d (of_files r) db s = route_file auth d r db s
  route auth d (of_public r) db s = some (route_public d r db s)

-- A request with its context and what the call draws.
pub record Call (S : Type 0) : Type 0 where
  pub auth : AuthContext
  pub draws : Draws S
  pub request : AnyRequest

abbrev pub serve_next :
    {Form S : Type 0}
    → Option (Outcome (Answered Form) S)
    → (Db → S → Option (Db × S))
    → Option (Db × S)
serve_next none go = none
serve_next (some ((r, db), s)) go = go db s

module _ {Form S : Type 0} (services : Services) (out : Outside Form) (config : Config)
    (objects : ObjectStore S) (web : Web) (signing : Signing) where
  -- The tables and the objects after requests, one after the other, answered or refused.
  unfoldable pub serve : List (Call S) → Db → S → Option (Db × S)
  unfolding route
  serve [] db s = some (db, s)
  serve (c ∷ cs) db s =
      serve_next (route services out config objects web signing c.auth c.draws c.request db s)
        (serve cs)
