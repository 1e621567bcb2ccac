-- ===== src/Api/Routes/Laws.antt =====
-- Which permissions an answer of the router of src/api.rs needs.
use threadmark.Error.{forbidden, reject_if, ApiError, err, ok, ApiResult}
use threadmark.Auth.{
  require, file_grant, file_delete, file_read, file_create, Permission, AuthContext,
}
use threadmark.Api.Laws.{handle-requires, first_check, Allows, ledger_permissions}
use threadmark.Api.Files.{
  create_file_download_handler, delete_file_handler, get_file_content_handler, get_file_handler,
  upload_file_handler, guarded,
}
use threadmark.Api.Routes.{
  of_public, complete_file_upload_handler, creates_download, initiate_file_upload_handler,
  Completion, deletes_file, of_initiated, InitiateResponse, Timed, gets_content, route_file, Draws,
  Signing, gets_file, Web, err, uploads_file, Config, completes_upload, of_ledger, of_outcome,
  of_read, of_tables, ok, Db, Outcome, Outside, Reply, initiates_upload, Answered, ApiResult,
  AuthContext, ObjectStore, Services, of_files, route, AnyRequest,
}
use threadmark.Api.Uploads.{
  complete_file_upload_handler, complete_checked, initiate_checked, initiate_file_upload_handler,
  Completion, Timed, check_uploader,
}
use threadmark.Uploads.Initiate.{InitiateResponse, Outside}
use threadmark.Capability.{Signing}
use threadmark.Api.Headers.{Web}
use threadmark.Config.{Config}
use threadmark.Api.{Reply}
use threadmark.Db.{Db}
use threadmark.Api.Router.{Services}
use threadmark.Objects.{ObjectStore}
use threadmark.Common.{
  String, ◌≡◌, refl, ap, Bool, true, false, Option, none, some, List, [], ◌∷◌, arith, is_some, All,
  some-eq-some,
}

-- The permissions of `.agents/specs`, of the routes that take a token.
unfoldable pub route_permissions : Services → AnyRequest → List Permission
unfolding ledger_permissions
route_permissions services (of_ledger r) = ledger_permissions services r
route_permissions services (of_files (uploads_file fields)) = file_create ∷ []
route_permissions services (of_files (initiates_upload r)) = file_create ∷ []
route_permissions services (of_files (completes_upload id)) = file_create ∷ []
route_permissions services (of_files (gets_file id)) = file_read ∷ []
route_permissions services (of_files (gets_content id)) = file_read ∷ []
route_permissions services (of_files (deletes_file id)) = file_delete ∷ []
route_permissions services (of_files (creates_download id delivery)) = file_grant ∷ []
route_permissions services (of_public r) = []

-- Direct uploads are not for a token that is bound to an agent.
unfoldable pub is_direct_upload : AnyRequest → Bool
is_direct_upload (of_files (initiates_upload r)) = true
is_direct_upload (of_files (completes_upload id)) = true
is_direct_upload r = false

-- What an answered request shows of its caller.
abbrev pub Shows : AuthContext → List Permission → Bool → Type 0
Shows auth ps direct = All (Allows auth) ps × (direct ≡ true → auth.agent_ref ≡ none)

only_permission : (auth : AuthContext) (p : Permission) → Allows auth p → Shows auth (p ∷ []) false
only_permission auth p h = ((h, tt), λ e. absurd (ground arith))

pub tables-answered :
    {Form S : Type 0} (r : ApiResult (Reply × Db)) (db : Db) (s : S) {a : Answered Form} {db' : Db}
    {s' : S}
    → of_tables {Form = Form} r db s ≡ ((ok a, db'), s')
    → (x : Reply × Db) × (r ≡ ok x) × (x.1 ≡ db') × (s ≡ s')
tables-answered (err e) db s h = absurd (let k = ap (λ q. q.0.0) h in ground arith)
tables-answered (ok x) db s h = (x, refl, ap (λ q. q.0.1) h, ap (λ q. q.1) h)

pub read-answered :
    {Form S A : Type 0} (f : A → Answered Form) (r : ApiResult A) (db : Db) (s : S)
    {a : Answered Form} {db' : Db} {s' : S}
    → of_read f r db s ≡ ((ok a, db'), s')
    → (x : A) × (r ≡ ok x) × (db ≡ db') × (s ≡ s')
read-answered f (err e) db s h = absurd (let k = ap (λ q. q.0.0) h in ground arith)
read-answered f (ok x) db s h = (x, refl, ap (λ q. q.0.1) h, ap (λ q. q.1) h)

outcome-answered :
    {Form S A : Type 0} (f : A → Answered Form) (r : Outcome A S) {a : Answered Form} {db' : Db}
    {s' : S}
    → of_outcome f r ≡ ((ok a, db'), s')
    → (x : A) × (r.0.0 ≡ ok x)
outcome-answered f ((err e, db), s) h = absurd (let k = ap (λ q. q.0.0) h in ground arith)
outcome-answered f ((ok x, db), s) h = (x, refl)

guarded-checked :
    {A S : Type 0} (objects : ObjectStore S) (checks : ApiResult (Unit {0}))
    (go : Db → S → (ApiResult A × Db) × S) (db : Db) (s : S) {x : A}
    → (guarded objects checks go db s).0.0 ≡ ok x
    → checks ≡ ok tt
guarded-checked objects (err e) go db s h = absurd (ground arith)
guarded-checked objects (ok done) go db s h = refl

uploader : (auth : AuthContext) → check_uploader auth ≡ ok tt → Shows auth (file_create ∷ []) true
uploader auth h =
    let (allowed, rest) = first_check auth file_create _ h in
    ((allowed, tt), λ _. unbound auth.agent_ref forbidden rest)
  where
    unbound :
        {A : Type 0} (o : Option A) (e : ApiError) → reject_if (is_some o) e ≡ ok tt → o ≡ none
    unbound none e h = refl
    unbound (some a) e h = absurd (ground arith)

module _ {Form S : Type 0} (services : Services) (out : Outside Form) (config : Config)
    (objects : ObjectStore S) (web : Web) (signing : Signing) (auth : AuthContext)
    (d : Draws S) where
  initiate-checked :
      (checks : ApiResult (Unit {0})) (db : Db)
      (result : Option (ApiResult (Bool × InitiateResponse Form) × Db)) (s : S) {a : Answered Form}
      {db' : Db} {s' : S}
      → of_initiated (initiate_checked out config objects checks db result) s
        ≡ some ((ok a, db'), s')
      → checks ≡ ok tt
  initiate-checked (err e) db result s h =
      absurd (let k = ap (λ q. q.0.0) (some-eq-some h) in ground arith)
  initiate-checked (ok done) db result s h = refl

  complete-checked :
      (checks : ApiResult (Unit {0})) (id : String) (db : Db) (s : S) {x : Timed Completion}
      → (complete_checked objects out.component config d.between checks auth id d.attempt db s).0.0
        ≡ ok x
      → checks ≡ ok tt
  complete-checked (err e) id db s h = absurd (ground arith)
  complete-checked (ok done) id db s h = refl

  -- A route of the router that takes a token answers a request only where the context has every permission
  -- that the specifications give the route: for the start of a turn that of opening a conversation too,
  -- where its parsed body opens one, and for a replay that of reading files, where it delivers them. It
  -- opens or completes a direct upload only for a token that is bound to no agent.
  pub route-requires :
      (request : AnyRequest) (db : Db) (s : S) {a : Answered Form} {db' : Db} {s' : S}
      → route services out config objects web signing auth d request db s ≡ some ((ok a, db'), s')
      → All (Allows auth) (route_permissions services request)
        × (is_direct_upload request ≡ true → auth.agent_ref ≡ none)
  unfolding route route_file route_permissions is_direct_upload upload_file_handler
      initiate_file_upload_handler complete_file_upload_handler get_file_handler
      get_file_content_handler delete_file_handler create_file_download_handler
  route-requires (of_ledger r) db s h =
      let (x, e, _, _) = tables-answered {Form = Form} _ db s (some-eq-some h) in
      (handle-requires services auth d.fresh (d.between 0) r db e, λ direct. absurd (ground arith))
  route-requires (of_files (uploads_file fields)) db s h =
      let (_, e) = outcome-answered _ _ (some-eq-some h) in
      only_permission auth file_create (guarded-checked objects (require auth file_create) _ db s e)
  route-requires (of_files (initiates_upload r)) db s h =
      uploader auth (initiate-checked (check_uploader auth) db _ s h)
  route-requires (of_files (completes_upload id)) db s h =
      let (_, e) = outcome-answered _ _ (some-eq-some h) in
      uploader auth (complete-checked (check_uploader auth) id db s e)
  route-requires (of_files (gets_file id)) db s h =
      let (_, e, _, _) = read-answered _ _ db s (some-eq-some h) in
      only_permission auth file_read (first_check auth file_read _ e).0
  route-requires (of_files (gets_content id)) db s h =
      let (_, e, _, _) = read-answered _ _ db s (some-eq-some h) in
      only_permission auth file_read (first_check auth file_read _ e).0
  route-requires (of_files (deletes_file id)) db s h =
      let (_, e) = outcome-answered _ _ (some-eq-some h) in
      only_permission auth file_delete (guarded-checked objects (require auth file_delete) _ db s e)
  route-requires (of_files (creates_download id delivery)) db s h =
      let (_, e, _, _) = read-answered _ _ db s (some-eq-some h) in
      only_permission auth file_grant (first_check auth file_grant _ e).0
  route-requires (of_public r) db s h = (tt, λ direct. absurd (ground arith))
