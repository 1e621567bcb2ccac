-- ===== src/Api/Routes/History.antt =====
-- src/api.rs with src/store.rs, src/files.rs and src/uploads.rs: what every sequence of requests keeps.
use threadmark.Api.Routes.{
  asks_health, downloads_file, of_public, creates_download, deletes_file, gets_content, gets_file,
  completes_upload, initiates_upload, uploads_file, of_files, complete_file_upload_handler,
  initiate_file_upload_handler, AuthContext, Call, route_public, Draws, of_initiated, route_file,
  serve_next, serve, Signing, of_outcome, Answer, Outcome, Web, of_read, of_tables, Answered,
  MultipartField, Reply, Services, ok, err, InitiateRequest, NewUpload, of_ledger, Attempt,
  InitiateResponse, ApiResult, Db, Config, ObjectStore, Outside, route, AnyRequest,
}
use threadmark.Api.Routes.Keeps.{
  remove_file-IsLedger, save-IsLedger, claim_completion-IsLedger, conclude-IsLedger,
  insert_upload-IsLedger, KeepsLedger,
}
use threadmark.Auth.{file_delete, file_create, require, AuthContext}
use threadmark.Api.Uploads.{
  check_uploader, complete_file_upload_handler, initiate_file_upload_handler, complete_checked,
  initiate_checked,
}
use threadmark.Api.History.{handle-IsLedger}
use threadmark.Api.Files.{
  delete_file_handler, upload_file_handler, save_field, saved_response, MultipartField, first_file,
  guarded,
}
use threadmark.Ledger.Continue.{OnlyGrows}
use threadmark.Objects.{broken, answer, Answer, ObjectStore}
use threadmark.Capability.{Signing}
use threadmark.Api.Headers.{Web}
use threadmark.Api.Router.{Services}
use threadmark.Api.{Reply}
use threadmark.Model.{FileRecord, Actor}
use threadmark.Uploads.Initiate.{
  after_checks, new_upload, normalize, check_available, find_upload, finish, InitiateRequest,
  NewUpload, recheck, InitiateResponse, Normal, initiate, rounds, Outside,
}
use threadmark.Uploads.Complete.{
  lease_token, candidate_key, attempt, inspect, of_owned, Attempt, complete,
}
use threadmark.Db.{insert_upload, Db, Upload}
use threadmark.Uploads.Session.{claim_completion}
use mathlib.Core.Path.{subst}
use threadmark.Error.{ok, ◌>>◌, err, ApiResult}
use threadmark.Uploads.Outbox.{owned_upload}
use threadmark.Ledger.{IsLedger}
use threadmark.Config.{Config}
use threadmark.Common.{
  ℕ, zero, suc, ◌+◌, String, ◌≡◌, refl, sym, ap, ◌∙◌, inl, inr, Bool, true, false, ◌||◌, not,
  Option, none, some, List, [], ◌∷◌, arith, ◌==◌, ltb, leb, some_eq, Bool-cases, Option-cases, All,
  some-eq-some,
}

module _ {Form : Type 0} (out : Outside Form) (config : Config) where
  finish-IsLedger :
      (u : Upload) (now : ℕ) (db : Db) (inserted : ApiResult Db)
      → insert_upload u db ≡ inserted
      → IsLedger db
      → IsLedger (finish out config u now db inserted).1
  finish-IsLedger u now db (ok db') e l = insert_upload-IsLedger u db e l
  finish-IsLedger u now db (err x) e l = l

  recheck-IsLedger :
      (checks : ApiResult (Unit {0})) (db : Db)
      (rest : Option (ApiResult (Bool × InitiateResponse Form) × Db))
      {r : ApiResult (Bool × InitiateResponse Form)} {db' : Db}
      → recheck out config checks db rest ≡ some (r, db')
      → IsLedger db
      → (rest ≡ some (r, db') → IsLedger db')
      → IsLedger db'
  recheck-IsLedger (err e) db rest h l k = subst IsLedger (ap (λ q. q.1) (some-eq-some h)) l
  recheck-IsLedger (ok checked) db rest h l k = k h

  rounds-IsLedger :
      (available : ℕ → ApiResult (Unit {0})) (fuel k : ℕ) (between : ℕ → Db → Db) (actor : Actor)
      (client_id : String) (r : Normal) (fresh : NewUpload) (now : ℕ) (db : Db)
      {a : ApiResult (Bool × InitiateResponse Form)} {db' : Db}
      → ((n : ℕ) → KeepsLedger (between n))
      → IsLedger db
      → rounds out config available fuel k between actor client_id r fresh now db ≡ some (a, db')
      → IsLedger db'
  unfolding rounds
  rounds-IsLedger available zero k between actor client_id r fresh now db keeps l h =
      absurd (ground arith)
  rounds-IsLedger available (suc fuel) k between actor client_id r fresh now db keeps l h =
      let until = now + config.file_upload_session_ttl_seconds in
      elim (Option-cases (find_upload actor client_id r.key db)) [
        | inr (u, found) ↦ subst IsLedger (ap (λ q. q.1) (some-eq-some (rw (found, rounds) at h))) l
        | inl missing ↦ elim (Bool-cases (ltb out.max_time until)) [
          | inl late ↦
              subst IsLedger (ap (λ q. q.1) (some-eq-some (rw (missing, late, rounds) at h))) l
          | inr fits ↦ elim (Option-cases (find_upload actor client_id r.key (between k db))) [
            | inl free ↦
                let u = new_upload out config actor client_id r fresh until in
                subst IsLedger
                  (ap (λ q. q.1) (some-eq-some (rw (missing, fits, free, rounds) at h)))
                  (finish-IsLedger u now (between k db) (insert_upload u (between k db)) refl
                    (keeps k db l))
            | inr (u, raced) ↦
                let again = between (suc k) (between k db) in
                let kept = keeps (suc k) (between k db) (keeps k db l) in
                recheck-IsLedger (available (k + 2)) again _
                  (rw (missing, fits, raced, rounds) at h) kept
                  (λ e.
                    rounds-IsLedger available fuel (k + 2) between actor client_id r fresh now again
                      keeps kept e)
          ]
        ]
      ]

  after_checks-IsLedger :
      (checks : ApiResult Normal) (db : Db)
      (go : Normal → Option (ApiResult (Bool × InitiateResponse Form) × Db))
      {a : ApiResult (Bool × InitiateResponse Form)} {db' : Db}
      → IsLedger db
      → ((r : Normal) → go r ≡ some (a, db') → IsLedger db')
      → after_checks out config checks db go ≡ some (a, db')
      → IsLedger db'
  after_checks-IsLedger (err e) db go l k h = subst IsLedger (ap (λ q. q.1) (some-eq-some h)) l
  after_checks-IsLedger (ok r) db go l k h = k r h

  initiate-IsLedger :
      {S : Type 0} (objects : ObjectStore S) (s : ℕ → S) (fuel : ℕ) (between : ℕ → Db → Db)
      (actor : Actor) (client_id : String) (request : InitiateRequest) (fresh : NewUpload) (now : ℕ)
      (db : Db) {a : ApiResult (Bool × InitiateResponse Form)} {db' : Db}
      → ((n : ℕ) → KeepsLedger (between n))
      → IsLedger db
      → initiate out config objects s fuel between actor client_id request fresh now db
        ≡ some (a, db')
      → IsLedger db'
  unfolding initiate
  initiate-IsLedger objects s fuel between actor client_id request fresh now db keeps l h =
      after_checks-IsLedger
        (check_available out config objects (s 0) >> normalize out config request) db _ l
        (λ r e.
          rounds-IsLedger (λ k. check_available out config objects (s k)) fuel 0 between actor
            client_id r fresh now db keeps l e)
        h

module _ {S : Type 0} (objects : ObjectStore S) (component : String → String) (config : Config)
    (between : ℕ → Db → Db) (keeps : (n : ℕ) → KeepsLedger (between n)) where
  attempt-IsLedger :
      (u : Upload) (a : Attempt) (claimed : Bool × Db) (s : S)
      → IsLedger claimed.1
      → IsLedger (attempt objects component config between u a claimed s).0.1
  attempt-IsLedger u a (false, db) s l = l
  attempt-IsLedger u a (true, db) s l =
      let candidate = candidate_key component u a in
      conclude-IsLedger (between 2) u candidate a
        (inspect objects config.file_max_bytes u candidate s).0 (between 1 db) (keeps 2)
        (keeps 1 db l)

  of_owned-IsLedger :
      (r : ApiResult Upload) (a : Attempt) (db : Db) (s : S)
      → IsLedger db
      → IsLedger (of_owned objects component config between r a db s).0.1
  of_owned-IsLedger (err e) a db s l = l
  of_owned-IsLedger (ok u) a db s l = elim (Bool-cases (u.status == "completed")) [
    | inl finished ↦ rw finished (keeps 0 db l)
    | inr ongoing ↦ elim (Bool-cases (u.status == "cleanup_pending" || leb u.expires_at a.seen)) [
      | inl late ↦ rw (ongoing, late) l
      | inr live ↦
          rw (ongoing, live)
            (attempt-IsLedger u a
              (claim_completion u.id (lease_token a) (candidate_key component u a) (a.outbox_ulid 0)
                a.claimed (between 0 db))
              s
              (claim_completion-IsLedger u.id (lease_token a) (candidate_key component u a)
                (a.outbox_ulid 0) a.claimed (between 0 db) (keeps 0 db l)))
    ]
  ]

  complete-IsLedger :
      (actor : Actor) (id : String) (a : Attempt) (db : Db) (s : S)
      → IsLedger db
      → IsLedger (complete objects component config between actor id a db s).0.1
  unfolding complete
  complete-IsLedger actor id a db s l = of_owned-IsLedger (owned_upload actor id db) a db s l

tables_of_read :
    {Form S A : Type 0} (f : A → Answered Form) (r : ApiResult A) (db : Db) (s : S)
    → (of_read f r db s).0.1 ≡ db
tables_of_read f (err e) db s = refl
tables_of_read f (ok a) db s = refl

tables_of_outcome :
    {Form S A : Type 0} (f : A → Answered Form) (r : Outcome A S) → (of_outcome f r).0.1 ≡ r.0.1
tables_of_outcome f ((err e, db), s) = refl
tables_of_outcome f ((ok a, db), s) = refl

of_tables-IsLedger :
    (Form : Type 0) {S : Type 0} (r : ApiResult (Reply × Db)) (db : Db) (s : S)
    → IsLedger db
    → ((reply : Reply) (db' : Db) → r ≡ ok (reply, db') → IsLedger db')
    → IsLedger (of_tables {Form = Form} r db s).0.1
of_tables-IsLedger Form (err e) db s l k = l
of_tables-IsLedger Form (ok (reply, db')) db s l k = k reply db' refl

guarded-IsLedger :
    {A S : Type 0} (objects : ObjectStore S) (checks : ApiResult (Unit {0}))
    (go : Db → S → (ApiResult A × Db) × S) (db : Db) (s : S)
    → IsLedger db
    → IsLedger (go db s).0.1
    → IsLedger (guarded objects checks go db s).0.1
guarded-IsLedger objects (err e) go db s l k = l
guarded-IsLedger objects (ok done) go db s l k = k

saved_response-IsLedger :
    {S : Type 0} (objects : ObjectStore S) (r : (ApiResult FileRecord × Db) × S)
    → IsLedger r.0.1
    → IsLedger (saved_response objects r).0.1
saved_response-IsLedger objects ((err e, db), s) l = l
saved_response-IsLedger objects ((ok f, db), s) l = l

save_field-IsLedger :
    {S : Type 0} (objects : ObjectStore S) (config : Config) (actor : Actor)
    (field : MultipartField) (size : Answer ℕ) (ulid : String) (now : ℕ) (db : Db) (s : S)
    → IsLedger db
    → IsLedger (save_field objects config actor field size ulid now db s).0.1
save_field-IsLedger objects config actor field broken ulid now db s l = l
save_field-IsLedger objects config actor field (answer size) ulid now db s l =
    saved_response-IsLedger objects _ (save-IsLedger objects actor _ _ size _ ulid now db s l)

first_file-IsLedger :
    {S : Type 0} (objects : ObjectStore S) (config : Config) (actor : Actor)
    (fields : List (Answer MultipartField)) (ulid : String) (now : ℕ) (db : Db) (s : S)
    → IsLedger db
    → IsLedger (first_file objects config actor fields ulid now db s).0.1
unfolding first_file
first_file-IsLedger objects config actor [] ulid now db s l = l
first_file-IsLedger objects config actor (broken ∷ fields) ulid now db s l = l
first_file-IsLedger objects config actor (answer field ∷ fields) ulid now db s l =
    elim (Bool-cases (not (some_eq field.name "file"))) [
      | inl other ↦
          rw (other, first_file) (first_file-IsLedger objects config actor fields ulid now db s l)
      | inr file ↦
          rw (file, first_file)
            (save_field-IsLedger objects config actor field field.size ulid now db s l)
    ]

module _ {Form S : Type 0} (services : Services) (out : Outside Form) (config : Config)
    (objects : ObjectStore S) (web : Web) (signing : Signing) where
  initiate_checked-IsLedger :
      (checks : ApiResult (Unit {0})) (db : Db)
      (result : Option (ApiResult (Bool × InitiateResponse Form) × Db)) (s s' : S)
      {r : ApiResult (Answered Form)} {db' : Db}
      → IsLedger db
      → ((a : ApiResult (Bool × InitiateResponse Form)) (db₁ : Db)
          → result ≡ some (a, db₁)
          → IsLedger db₁)
      → of_initiated (initiate_checked out config objects checks db result) s ≡ some ((r, db'), s')
      → IsLedger db'
  initiate_checked-IsLedger (err e) db result s s' l k h =
      subst IsLedger (ap (λ q. q.0.1) (some-eq-some h)) l
  initiate_checked-IsLedger (ok done) db none s s' l k h = absurd (ground arith)
  initiate_checked-IsLedger (ok done) db (some (err e, db₁)) s s' l k h =
      subst IsLedger (ap (λ q. q.0.1) (some-eq-some h)) (k (err e) db₁ refl)
  initiate_checked-IsLedger (ok done) db (some (ok a, db₁)) s s' l k h =
      subst IsLedger (ap (λ q. q.0.1) (some-eq-some h)) (k (ok a) db₁ refl)

  complete_checked-IsLedger :
      (d : Draws S) (auth : AuthContext) (checks : ApiResult (Unit {0})) (id : String) (db : Db)
      (s : S)
      → ((n : ℕ) → KeepsLedger (d.between n))
      → IsLedger db
      → IsLedger
          (complete_checked objects out.component config d.between checks auth id d.attempt db
            s).0.1
  complete_checked-IsLedger d auth (err e) id db s keeps l = l
  complete_checked-IsLedger d auth (ok done) id db s keeps l =
      complete-IsLedger objects out.component config d.between keeps auth.actor id d.attempt db s l

  route-IsLedger :
      (auth : AuthContext) (d : Draws S) (request : AnyRequest) (db : Db) (s : S)
      {r : ApiResult (Answered Form)} {db' : Db} {s' : S}
      → ((n : ℕ) → OnlyGrows (d.between n))
      → IsLedger db
      → route services out config objects web signing auth d request db s ≡ some ((r, db'), s')
      → IsLedger db'
  unfolding route route_file route_public upload_file_handler initiate_file_upload_handler
      complete_file_upload_handler delete_file_handler
  route-IsLedger auth d (of_ledger q) db s calm l h =
      subst IsLedger (ap (λ q. q.0.1) (some-eq-some h)) (
        of_tables-IsLedger Form _ db s l
          (λ reply db' e. handle-IsLedger services auth d.fresh (d.between 0) q db (calm 0) l e))
  route-IsLedger auth d (of_files (uploads_file fields)) db s calm l h =
      subst IsLedger (sym (tables_of_outcome _ _) ∙ ap (λ q. q.0.1) (some-eq-some h)) (
        guarded-IsLedger objects (require auth file_create) _ db s l
          (first_file-IsLedger objects config auth.actor fields d.file_ulid d.fresh.now db s l))
  route-IsLedger auth d (of_files (initiates_upload q)) db s {s' = s'} calm l h =
      initiate_checked-IsLedger (check_uploader auth) db _ s s' l
        (λ a db₁ e.
          initiate-IsLedger out config objects (λ k. d.changes k s) d.fuel d.between auth.actor
            auth.client_id q d.upload d.fresh.now db (λ n. (calm n).keeps) l e)
        h
  route-IsLedger auth d (of_files (completes_upload id)) db s calm l h =
      subst IsLedger (sym (tables_of_outcome _ _) ∙ ap (λ q. q.0.1) (some-eq-some h))
        (complete_checked-IsLedger d auth (check_uploader auth) id db s (λ n. (calm n).keeps) l)
  route-IsLedger auth d (of_files (gets_file id)) db s calm l h =
      subst IsLedger (sym (tables_of_read _ _ db s) ∙ ap (λ q. q.0.1) (some-eq-some h)) l
  route-IsLedger auth d (of_files (gets_content id)) db s calm l h =
      subst IsLedger (sym (tables_of_read _ _ db s) ∙ ap (λ q. q.0.1) (some-eq-some h)) l
  route-IsLedger auth d (of_files (deletes_file id)) db s calm l h =
      subst IsLedger (sym (tables_of_outcome _ _) ∙ ap (λ q. q.0.1) (some-eq-some h)) (
        guarded-IsLedger objects (require auth file_delete) _ db s l
          (remove_file-IsLedger objects auth.actor id d.fresh.now db s l))
  route-IsLedger auth d (of_files (creates_download id delivery)) db s calm l h =
      subst IsLedger (sym (tables_of_read _ _ db s) ∙ ap (λ q. q.0.1) (some-eq-some h)) l
  route-IsLedger auth d (of_public (downloads_file id query)) db s calm l h =
      subst IsLedger (sym (tables_of_read _ _ db s) ∙ ap (λ q. q.0.1) (some-eq-some h)) l
  route-IsLedger auth d (of_public asks_health) db s calm l h =
      subst IsLedger (sym (tables_of_read _ _ db s) ∙ ap (λ q. q.0.1) (some-eq-some h)) l

  serve_next-IsLedger :
      (r : Option (Outcome (Answered Form) S)) (go : Db → S → Option (Db × S)) {db' : Db} {s' : S}
      → ((a : ApiResult (Answered Form)) (db : Db) (s : S)
          → r ≡ some ((a, db), s)
          → go db s ≡ some (db', s')
          → IsLedger db')
      → serve_next r go ≡ some (db', s')
      → IsLedger db'
  serve_next-IsLedger none go k h = absurd (ground arith)
  serve_next-IsLedger (some ((a, db), s)) go k h = k a db s refl h

  -- Tables that are a ledger are one after every sequence of requests to the router, of whatever clients and
  -- to whatever routes, answered or refused: where what others do between the statements of one call keeps a
  -- ledger and the conversations and lowers no `next_seq`, as a truncation would, and the fuel for the
  -- rounds of `initiate` suffices.
  pub serve-IsLedger :
      (calls : List (Call S)) (db : Db) (s : S) {db' : Db} {s' : S}
      → All (λ c. (n : ℕ) → OnlyGrows (c.draws.between n)) calls
      → IsLedger db
      → serve services out config objects web signing calls db s ≡ some (db', s')
      → IsLedger db'
  unfolding serve
  serve-IsLedger [] db s calm l h = subst IsLedger (ap (λ q. q.0) (some-eq-some h)) l
  serve-IsLedger (c ∷ cs) db s (calm, rest) l h =
      serve_next-IsLedger
        (route services out config objects web signing c.auth c.draws c.request db s)
        (serve services out config objects web signing cs)
        (λ a db₁ s₁ e k.
          serve-IsLedger cs db₁ s₁ rest (route-IsLedger c.auth c.draws c.request db s calm l e) k)
        h
