-- ===== src/Uploads/Initiate/Retry.antt =====
-- `initiate` of src/uploads.rs, called again with the key of a session that it has opened.
use threadmark.Uploads.Initiate.Laws.{rounds_found}
use threadmark.Uploads.Initiate.{
  recheck, normalize, check_available, InitiateRequest, after_checks, initiate, finish, new_upload,
  NewUpload, rounds, from_answer, file_for_upload, ok, resume, Actor, InitiateResponse, Normal,
  find_upload, Upload, insert_upload, response_for_upload, Config, Outside,
}
use threadmark.Error.{◌>>◌, err, ApiResult, ok-injective, >>=-eq-ok, reject_if-ok, ok}
use threadmark.Objects.{ObjectStore, from_answer}
use mathlib.Core.Path.{subst}
use threadmark.Uploads.Outbox.{file_for_upload}
use threadmark.Model.{Actor}
use threadmark.Db.{Db, Upload, insert_upload}
use threadmark.Config.{Config}
use threadmark.Common.{
  ℕ, zero, suc, ◌+◌, min, String, ◌≡◌, refl, sym, ap, ◌∙◌, ◌≢◌, inl, inr, Bool, true, false, ◌&&◌,
  ◌||◌, not, Option, none, some, [], ◌∷◌, arith, ◌==◌, eq_refl, ltb, leb, Bool-cases, Option-cases,
  find, any, find-append, some-eq-some,
}

module _ {Form : Type 0} (out : Outside Form) (config : Config) where
  -- Only a call that says so answers a session as a new one, and then with its identifier.
  response-created :
      (u : Upload) (created : Bool) (now : ℕ) (db : Db) {answer : InitiateResponse Form}
      → response_for_upload out config u created now db ≡ ok (true, answer)
      → (created ≡ true) × (answer.id ≡ u.id)
  unfolding response_for_upload
  response-created u created now db {answer} h = elim (Bool-cases (u.status == "completed")) [
    | inl done ↦
        let (file, _, k) = >>=-eq-ok (file_for_upload u db) _ (rw done at h) in
        absurd (let e = ap (λ q. q.0) (ok-injective k) in ground arith)
    | inr not_done ↦ elim (Bool-cases (u.status == "cleanup_pending" || leb u.expires_at now)) [
      | inl gone ↦ absurd (let k = rw (not_done, gone) at h in ground arith)
      | inr live ↦ elim (Bool-cases (u.status == "finalizing")) [
        | inl busy ↦ absurd (
            let k = rw (not_done, live, busy) at h in
            let e = ap (λ q. q.0) (ok-injective k) in ground arith)
        | inr waiting ↦
            let (form, _, k) =
              >>=-eq-ok
                (from_answer (
                  out.presigned_post u
                    (min u.expires_at (now + config.file_upload_url_ttl_seconds))))
                _ (rw (not_done, live, waiting) at h) in
            (
              ap (λ q. q.0) (ok-injective k),
              sym (ap (λ (q : Bool × InitiateResponse Form). q.1.id) (ok-injective k)),
            )
      ]
    ]
  ]

  resume-created :
      (u : Upload) (r : Normal) (now : ℕ) (db : Db) {answer : InitiateResponse Form}
      → resume out config u r now db ≢ ok (true, answer)
  resume-created u r now db h =
      elim (Bool-cases (not (u.request_hash == out.hash_request r.filename r.mime_type r.size))) [
        | inl other ↦ absurd (let k = rw other at h in ground arith)
        | inr same ↦
            absurd (let (e, _) = response-created u false now db (rw same at h) in ground arith)
      ]

  -- A session that is inserted is the one that its key finds.
  insert_upload-found :
      (u : Upload) (actor : Actor) (db : Db) {db' : Db}
      → u.tenant_id ≡ actor.tenant_id
      → u.owner_ref ≡ actor.principal_id
      → find_upload actor u.client_id u.idempotency_key db ≡ none
      → insert_upload u db ≡ ok db'
      → find_upload actor u.client_id u.idempotency_key db' ≡ some u
  unfolding insert_upload find_upload find
  insert_upload-found u actor db {db'} tenant owner missing h =
      let (_, k₀) = reject_if-ok (any (λ v. v.id == u.id) db.file_uploads) _ _ h in
      let (_, k₁) = reject_if-ok (any (λ v. v.file_id == u.file_id) db.file_uploads) _ _ k₀ in
      let (_, k₂) =
        reject_if-ok (any (λ v. v.staging_key == u.staging_key) db.file_uploads) _ _ k₁ in
      let hit = λ (v : Upload).
        v.tenant_id == actor.tenant_id
        && v.owner_ref == actor.principal_id
        && v.client_id == u.client_id
        && v.idempotency_key == u.idempotency_key in
      let own : hit u ≡ true =
        rw (tenant, owner)
          (ground (
            arith,
            eq_refl actor.tenant_id,
            eq_refl actor.principal_id,
            eq_refl u.client_id,
            eq_refl u.idempotency_key,
          )) in
      subst (λ d. find hit d.file_uploads ≡ some u) (ok-injective k₂)
        (find-append hit db.file_uploads (u ∷ []) ∙ rw (missing, own) refl)

  -- The session that a call has opened, as its key finds it.
  record Opened (actor : Actor) (client_id : String) (r : Normal) (answer : InitiateResponse Form)
      (db : Db) : Type 0 where
    session : Upload
    found : find_upload actor client_id r.key db ≡ some session
    same_hash : session.request_hash ≡ out.hash_request r.filename r.mime_type r.size
    same_id : answer.id ≡ session.id

  finish-Opened :
      (actor : Actor) (client_id : String) (r : Normal) (fresh : NewUpload) (until now : ℕ)
      (db : Db) (inserted : ApiResult Db) {answer : InitiateResponse Form} {db' : Db}
      → insert_upload (new_upload out config actor client_id r fresh until) db ≡ inserted
      → find_upload actor client_id r.key db ≡ none
      → finish out config (new_upload out config actor client_id r fresh until) now db inserted
        ≡ (ok (true, answer), db')
      → Opened actor client_id r answer db'
  finish-Opened actor client_id r fresh until now db (err e) given missing h =
      absurd (let k = ap (λ q. q.0) h in ground arith)
  finish-Opened actor client_id r fresh until now db (ok db₁) {answer} {db'} given missing h =
      let u = new_upload out config actor client_id r fresh until in
      let same : db₁ ≡ db' = ap (λ q. q.1) h in
      let (_, id) = response-created u true now db₁ (ap (λ q. q.0) h) in
      record {
        session = u;
        found =
            subst (λ d. find_upload actor client_id r.key d ≡ some u) same
              (insert_upload-found u actor db refl refl missing given);
        same_hash = refl;
        same_id = id;
      }

  recheck-some :
      (checks : ApiResult (Unit {0})) (db : Db)
      (rest : Option (ApiResult (Bool × InitiateResponse Form) × Db))
      {answer : Bool × InitiateResponse Form} {db' : Db}
      → recheck out config checks db rest ≡ some (ok answer, db')
      → rest ≡ some (ok answer, db')
  recheck-some (err e) db rest h = absurd (let k = ap (λ q. q.0) (some-eq-some h) in ground arith)
  recheck-some (ok checked) db rest h = h

  rounds-Opened :
      (available : ℕ → ApiResult (Unit {0})) (fuel k : ℕ) (between : ℕ → Db → Db) (actor : Actor)
      (client_id : String) (r : Normal) (fresh : NewUpload) (now : ℕ) (db : Db)
      {answer : InitiateResponse Form} {db' : Db}
      → rounds out config available fuel k between actor client_id r fresh now db
        ≡ some (ok (true, answer), db')
      → Opened actor client_id r answer db'
  unfolding rounds
  rounds-Opened available zero k between actor client_id r fresh now db h = absurd (ground arith)
  rounds-Opened available (suc fuel) k between actor client_id r fresh now db h =
      let until = now + config.file_upload_session_ttl_seconds in
      elim (Option-cases (find_upload actor client_id r.key db)) [
        | inr (u, found) ↦
            absurd
              (resume-created u r now db (ap (λ q. q.0) (some-eq-some (rw (found, rounds) at h))))
        | inl missing ↦ elim (Bool-cases (ltb out.max_time until)) [
          | inl late ↦ absurd (
              let e = ap (λ q. q.0) (some-eq-some (rw (missing, late, rounds) at h)) in
              ground arith)
          | inr fits ↦ elim (Option-cases (find_upload actor client_id r.key (between k db))) [
            | inl free ↦
                finish-Opened actor client_id r fresh until now (between k db)
                  (insert_upload (new_upload out config actor client_id r fresh until)
                    (between k db))
                  refl free (some-eq-some (rw (missing, fits, free, rounds) at h))
            | inr (u, raced) ↦
                rounds-Opened available fuel (k + 2) between actor client_id r fresh now
                  (between (suc k) (between k db))
                  (recheck-some (available (k + 2)) (between (suc k) (between k db)) _
                    (rw (missing, fits, raced, rounds) at h))
          ]
        ]
      ]

  after_checks-some :
      (checks : ApiResult Normal) (db : Db)
      (go : Normal → Option (ApiResult (Bool × InitiateResponse Form) × Db))
      {answer : Bool × InitiateResponse Form} {db' : Db}
      → after_checks out config checks db go ≡ some (ok answer, db')
      → (r : Normal) × (checks ≡ ok r) × (go r ≡ some (ok answer, db'))
  after_checks-some (err e) db go h =
      absurd (let k = ap (λ q. q.0) (some-eq-some h) in ground arith)
  after_checks-some (ok r) db go h = (r, refl, h)

  resume_same :
      (u : Upload) (r : Normal) (now : ℕ) (db : Db)
      → u.request_hash ≡ out.hash_request r.filename r.mime_type r.size
      → resume out config u r now db ≡ response_for_upload out config u false now db
  resume_same u r now db e = rw (e, eq_refl (out.hash_request r.filename r.mime_type r.size)) refl

  initiate_as :
      {S : Type 0} (objects : ObjectStore S) (s : ℕ → S) (fuel : ℕ) (between : ℕ → Db → Db)
      (actor : Actor) (client_id : String) (request : InitiateRequest) (fresh : NewUpload) (now : ℕ)
      (db : Db) {r : Normal}
      → check_available out config objects (s 0) ≡ ok tt
      → normalize out config request ≡ ok r
      → initiate out config objects s fuel between actor client_id request fresh now db
        ≡ rounds out config
            (λ k. check_available out config objects (s k))
            fuel
            0
            between
            actor
            client_id
            r
            fresh
            now
            db
  unfolding initiate
  initiate_as objects s fuel between actor client_id request fresh now db available normal =
      rw (available, normal) refl

  pub initiate-initiate :
      {S : Type 0} (objects : ObjectStore S) (s s' : ℕ → S) (fuel fuel' : ℕ)
      (between between' : ℕ → Db → Db) (actor : Actor) (client_id : String)
      (request : InitiateRequest) (fresh fresh' : NewUpload) (now now' : ℕ) (db : Db)
      {answer : InitiateResponse Form} {db' : Db}
      → initiate out config objects s fuel between actor client_id request fresh now db
        ≡ some (ok (true, answer), db')
      → check_available out config objects (s' 0) ≡ ok tt
      → (u : Upload) × (u.id ≡ answer.id)
        × (initiate out config objects s'
              (suc fuel')
              between'
              actor
              client_id
              request
              fresh'
              now'
              db'
            ≡ some (response_for_upload out config u false now' db', db'))
  unfolding initiate
  initiate-initiate objects s s' fuel fuel' between between' actor client_id request fresh fresh'
        now now' db {answer} {db'} h available =
      let (r, checks, k) =
        after_checks-some (check_available out config objects (s 0) >> normalize out config request)
          db
          (λ r.
            rounds out config (λ k. check_available out config objects (s k)) fuel 0 between actor
              client_id r fresh now db)
          h in
      let (_, _, normal) = >>=-eq-ok (check_available out config objects (s 0)) _ checks in
      let opened =
        rounds-Opened (λ k. check_available out config objects (s k)) fuel 0 between actor client_id
          r fresh now db k in
      (
        opened.session,
        sym opened.same_id,
        initiate_as objects s' (suc fuel') between' actor client_id request fresh' now' db'
              available normal
            ∙ rounds_found out config (λ k. check_available out config objects (s' k)) fuel' 0
                between' actor client_id r fresh' now' db' opened.found
            ∙ ap (λ a. some (a, db')) (resume_same opened.session r now' db' opened.same_hash),
      )
