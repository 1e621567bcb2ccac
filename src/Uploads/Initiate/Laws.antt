-- ===== src/Uploads/Initiate/Laws.antt =====
-- `initiate` of src/uploads.rs: it ends, and one key has one session.
use threadmark.Db.{insert_upload, Upload, Db}
use threadmark.Error.{ok, err, ◌>>◌, ApiResult}
use threadmark.Uploads.Initiate.{
  recheck, normalize, new_upload, resume, after_checks, check_available, finish, InitiateRequest,
  InitiateResponse, NewUpload, Normal, ObjectStore, ApiResult, find_upload, initiate, rounds, Actor,
  Config, Outside,
}
use threadmark.Objects.{ObjectStore}
use threadmark.Config.{Config}
use threadmark.Model.{Actor}
use threadmark.Common.{
  ℕ, suc, ◌+◌, String, ◌≡◌, refl, inl, inr, Bool, true, false, Option, none, some, arith, ltb,
  is_some, Bool-cases, Option-cases,
}

-- Others open sessions, and nobody deletes one.
abbrev pub Keeps : (ℕ → Db → Db) → Type 0
Keeps between =
    (k : ℕ) (actor : Actor) (client_id key : String) (db : Db)
    → is_some (find_upload actor client_id key db) ≡ true
    → is_some (find_upload actor client_id key (between k db)) ≡ true

is_some-found : {A : Type 0} (o : Option A) → is_some o ≡ true → (a : A) × (o ≡ some a)
is_some-found none h = absurd (ground arith)
is_some-found (some a) h = (a, refl)

module _ {Form : Type 0} (out : Outside Form) (config : Config) where
  pub rounds_found :
      (available : ℕ → ApiResult (Unit {0})) (fuel k : ℕ) (between : ℕ → Db → Db) (actor : Actor)
      (client_id : String) (r : Normal) (fresh : NewUpload) (now : ℕ) (db : Db) {u : Upload}
      → find_upload actor client_id r.key db ≡ some u
      → rounds out config available (suc fuel) k between actor client_id r fresh now db
        ≡ some (resume out config u r now db, db)
  unfolding rounds
  rounds_found available fuel k between actor client_id r fresh now db e = rw (e, rounds) refl

  rounds_missing :
      (available : ℕ → ApiResult (Unit {0})) (fuel k : ℕ) (between : ℕ → Db → Db) (actor : Actor)
      (client_id : String) (r : Normal) (fresh : NewUpload) (now : ℕ) (db : Db)
      → find_upload actor client_id r.key db ≡ none
      → ltb out.max_time (now + config.file_upload_session_ttl_seconds) ≡ false
      → find_upload actor client_id r.key (between k db) ≡ none
      → rounds out config available (suc fuel) k between actor client_id r fresh now db
        ≡ some (
            finish out config
              (new_upload out config actor client_id r fresh
                (now + config.file_upload_session_ttl_seconds))
              now
              (between k db)
              (insert_upload
                (new_upload out config actor client_id r fresh
                  (now + config.file_upload_session_ttl_seconds))
                (between k db)))
  unfolding rounds
  rounds_missing available fuel k between actor client_id r fresh now db e fits e' =
      rw (e, fits, e', rounds) refl

  recheck-ends :
      (checks : ApiResult (Unit {0})) (db : Db)
      (rest : Option (ApiResult (Bool × InitiateResponse Form) × Db))
      → is_some rest ≡ true
      → is_some (recheck out config checks db rest) ≡ true
  recheck-ends (err e) db rest h = refl
  recheck-ends (ok checked) db rest h = h

  rounds_end :
      (available : ℕ → ApiResult (Unit {0})) (k : ℕ) (between : ℕ → Db → Db) (actor : Actor)
      (client_id : String) (r : Normal) (fresh : NewUpload) (now : ℕ) (db : Db)
      → Keeps between
      → is_some (rounds out config available 2 k between actor client_id r fresh now db) ≡ true
  unfolding rounds
  rounds_end available k between actor client_id r fresh now db keeps =
      let expires_at = now + config.file_upload_session_ttl_seconds in
      elim (Option-cases (find_upload actor client_id r.key db)) [
        | inr (u, found) ↦ rw (found, rounds) refl
        | inl missing ↦ elim (Bool-cases (ltb out.max_time expires_at)) [
          | inl late ↦ rw (missing, late, rounds) refl
          | inr fits ↦ elim (Option-cases (find_upload actor client_id r.key (between k db))) [
            | inl free ↦ rw (missing, fits, free, rounds) refl
            | inr (u, raced) ↦
                let (v, found) =
                  is_some-found _
                    (keeps (suc k) actor client_id r.key (between k db) (rw raced refl)) in
                rw (missing, fits, raced, rounds)
                  (recheck-ends (available (k + 2)) (between (suc k) (between k db)) _
                    (rw (found, rounds) refl))
          ]
        ]
      ]

  after_checks-ends :
      (checks : ApiResult Normal) (db : Db)
      (go : Normal → Option (ApiResult (Bool × InitiateResponse Form) × Db))
      → ((r : Normal) → is_some (go r) ≡ true)
      → is_some (after_checks out config checks db go) ≡ true
  after_checks-ends (err e) db go ends = refl
  after_checks-ends (ok r) db go ends = ends r

  -- `initiate` begins at most one more round after its first, whatever the tables are and whatever others do
  -- to them between its statements, as long as nobody deletes a session.
  pub initiate-ends :
      {S : Type 0} (objects : ObjectStore S) (s : ℕ → S) (between : ℕ → Db → Db) (actor : Actor)
      (client_id : String) (request : InitiateRequest) (fresh : NewUpload) (now : ℕ) (db : Db)
      → Keeps between
      → is_some (initiate out config objects s 2 between actor client_id request fresh now db)
        ≡ true
  unfolding initiate
  initiate-ends objects s between actor client_id request fresh now db keeps =
      after_checks-ends (check_available out config objects (s 0) >> normalize out config request)
        db
        (λ r.
          rounds out config (λ k. check_available out config objects (s k)) 2 0 between actor
            client_id r fresh now db)
        (λ r.
          rounds_end (λ k. check_available out config objects (s k)) 0 between actor client_id r
            fresh now db keeps)
