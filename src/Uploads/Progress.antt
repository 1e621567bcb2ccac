-- ===== src/Uploads/Progress.antt =====
-- src/uploads.rs: an attempt of `complete` against whatever other transactions do meanwhile.
pub mod Rows
mod Tests
use threadmark.Uploads.Progress.Rows.{
  Has-Respects, Has-update, Has-map, Has-of_find, any-of_Has, Has,
}
use threadmark.Model.{FileRecord, Actor}
use threadmark.Uploads.Protocol.Laws.{uploads-enqueue_at, uploads-enqueue_some}
use threadmark.Uploads.Protocol.Traces.{perform_all-Leased, shows, Respects, Leased}
use threadmark.Uploads.Outbox.{enqueue_at, enqueue_some, enqueue_all_versions_after, owned_upload}
use threadmark.Uploads.Complete.{
  conclude, candidate_key, complete, lease_token, Attempt, bad_copy, staged_fault, accept, inspect,
}
use threadmark.Uploads.Session.{
  completed, candidate_of, file_of, is_completable, leased, is_claimable, claim_completion, publish,
}
use threadmark.Uploads.Protocol.{perform_all, Action, is_leased, Pairwise}
use threadmark.Error.{ok_or-eq-ok, ok}
use threadmark.Db.{Db, insert_file, Upload}
use threadmark.Config.{Config}
use mathlib.Core.Path.{subst}
use threadmark.Common.Text.{is_empty}
use threadmark.Objects.{answer, ObjectHead, ObjectStore}
use threadmark.Common.{
  ℕ, zero, suc, ◌+◌, ◌-◌, ◌*◌, ◌/◌, ◌%◌, ◌^◌, ◌≤◌, ◌<◌, min, String, ◌≡◌, refl, sym, ap, ◌∙◌, ◌≢◌,
  ◌↔◌, ◌⊎◌, inl, inr, Bool, true, false, ◌&&◌, ◌||◌, not, Option, none, some, List, [], ◌∷◌, ◌++◌,
  map, append-nil, append_assoc, arith, ◌==◌, eq_iff, eq_refl, ltb, leb, eqb, if◌then◌else◌,
  some_eq, is_some, unwrap_or, ltb→lt, leb→le, leb-false, Bool-cases, Option-cases, eq-of-some_eq,
  length, length-append, take, length-take_le, All, All-append, All-append_left, All-of_forall,
  All-map, filter, find, any, all, remove, update, or_else, filter-append, find-append, any-append,
  filter_none, filter-All, All-not_of_any, any-of_All, find_sound, any-of_find, find-none, All-find,
  All-filter, All-remove, All-passed, any-update, find-update_ne, find-update, All-update, any_mono,
  filter-remove_spared, filter-remove, remove_congr, remove_none, All-removed, All-both,
  some-eq-some, filter_none_under, find-filter, length-remove_le, length-remove_lt,
}

-- The staged object is what the session asks for, and its copy can be made and looked at.
pub record Arrived {S : Type 0} (objects : ObjectStore S) (maximum : ℕ) (u : Upload)
    (candidate : String) (s s' : S) : Type 0 where
  pub head : ObjectHead
  pub version : String
  pub copy : ObjectHead
  pub staged : objects.head u.staging_key s ≡ answer (some head)
  pub versioned : head.version_id ≡ some version
  pub real : (is_empty version ≡ false) × ((version == "null") ≡ false)
  pub sound : staged_fault maximum u head ≡ none
  pub copied : objects.copy u.staging_key version candidate u.mime_type s ≡ (answer tt, s')
  pub stored : objects.head candidate s' ≡ answer (some copy)
  pub intact : bad_copy u copy ≡ false

inspect-Arrived :
    {S : Type 0} (objects : ObjectStore S) (maximum : ℕ) (u : Upload) (candidate : String)
    (s s' : S)
    → Arrived objects maximum u candidate s s'
    → inspect objects maximum u candidate s ≡ (accept, s')
unfolding inspect
inspect-Arrived objects maximum u candidate s s' a =
    let (full, named) = a.real in
    rw (a.staged, a.versioned, full, named, a.sound, a.copied, a.stored, a.intact) refl

claim_free :
    (id token candidate ulid : String) (now : ℕ) (db : Db)
    → any (is_claimable id now) db.file_uploads ≡ true
    → (db' : Db) × (claim_completion id token candidate ulid now db ≡ (true, db'))
      × (db'.file_uploads
          ≡ update (is_claimable id now) (leased token candidate now) db.file_uploads)
unfolding claim_completion
claim_free id token candidate ulid now db free =
    let previous = candidate_of (find (λ u. u.id == id) db.file_uploads) in
    let moved : Db = record db {
      file_uploads = update (is_claimable id now) (leased token candidate now) db.file_uploads;
    } in
    (
      enqueue_some ulid previous now moved,
      rw free refl,
      uploads-enqueue_some ulid previous now moved,
    )

publish_ok :
    (u : Upload) (id token candidate ulid : String) (now : ℕ) (db : Db)
    → any (λ f. f.id == u.file_id) db.files ≡ false
    → any (λ f. f.storage_key == candidate) db.files ≡ false
    → any (is_completable id token now) db.file_uploads ≡ true
    → (db' : Db) × (publish u id token candidate ulid now db ≡ ok (file_of u candidate now, db'))
      × (db'.file_uploads ≡ update (is_completable id token now) (completed now) db.file_uploads)
unfolding publish insert_file enqueue_all_versions_after
publish_ok u id token candidate ulid now db new_file new_key held =
    let moved : Db = record db {
      files = db.files ++ file_of u candidate now ∷ [];
      file_uploads = update (is_completable id token now) (completed now) db.file_uploads;
    } in
    (
      enqueue_at ulid u.staging_key (now + 305) moved,
      rw (new_file, new_key, held) refl,
      uploads-enqueue_at ulid u.staging_key (now + 305) moved,
    )

owned_row :
    (actor : Actor) (id : String) (db : Db) {u : Upload}
    → owned_upload actor id db ≡ ok u
    → Has (λ v. v ≡ u) db.file_uploads
unfolding owned_upload
owned_row actor id db h = Has-of_find _ db.file_uploads (ok_or-eq-ok _ _ h)

-- What `complete` answers, once each of its steps is known.
complete-steps :
    {S : Type 0} (objects : ObjectStore S) (component : String → String) (config : Config)
    (between : ℕ → Db → Db) (actor : Actor) (id : String) (a : Attempt) (db db₁ db₂ : Db) (s s' : S)
    (u : Upload) (file : FileRecord)
    → owned_upload actor id db ≡ ok u
    → (u.status == "completed") ≡ false
    → (u.status == "cleanup_pending" || leb u.expires_at a.seen) ≡ false
    → claim_completion u.id
        (lease_token a)
        (candidate_key component u a)
        (a.outbox_ulid 0)
        a.claimed
        (between 0 db)
      ≡ (true, db₁)
    → inspect objects config.file_max_bytes u (candidate_key component u a) s ≡ (accept, s')
    → publish u u.id
        (lease_token a)
        (candidate_key component u a)
        (a.outbox_ulid 2)
        a.published
        (between 1 db₁)
      ≡ ok (file, db₂)
    → complete objects component config between actor id a db s ≡ ((ok (true, file), db₂), s')
unfolding complete conclude
complete-steps objects component config between actor id a db db₁ db₂ s s' u file owned e₀ e₁ e₂ e₃
      e₄ =
    rw (owned, e₀, e₁, e₂, e₃, e₄) refl

-- What others do leaves the row of a session as it is.
abbrev pub Spares : Upload → (Db → Db) → Type 0
Spares u f = (d : Db) → Has (λ v. v ≡ u) d.file_uploads → Has (λ v. v ≡ u) (f d).file_uploads

-- Transactions on sessions within the lease that do not show its token do.
pub perform_all-Spares :
    (steps : List (Action × ℕ)) (token : String) (until : ℕ) (u : Upload)
    → Leased token until u
    → All (λ (b, now). (now < until) × (shows b token ≡ false)) steps
    → Spares u (perform_all steps)
perform_all-Spares steps token until u l others d =
    Has-Respects token until u l d.file_uploads (perform_all steps d).file_uploads
      (perform_all-Leased token until steps d others)

module _ {S : Type 0} (objects : ObjectStore S) (component : String → String) (config : Config)
    (actor : Actor) (id : String) (a : Attempt) (db : Db) (s s' : S) (u : Upload)
    (between : ℕ → Db → Db) where
  abbrev candidate : String
  candidate = candidate_key component u a

  abbrev row : Upload
  row = leased (lease_token a) candidate a.claimed u

  -- The tables when the attempt publishes its file.
  abbrev pub before : Db
  before =
      between 1
        (claim_completion u.id (lease_token a) candidate (a.outbox_ulid 0) a.claimed
          (between 0 db)).1

  pub complete-progress :
      owned_upload actor id db ≡ ok u
      → u.status ≡ "pending"
      → (a.seen < u.expires_at) × (a.claimed < u.expires_at) × (a.published < u.expires_at)
      → a.published < a.claimed + 120
      → Arrived objects config.file_max_bytes u candidate s s'
      → Spares u (between 0)
      → Spares row (between 1)
      → any (λ f. f.id == u.file_id) before.files ≡ false
      → any (λ f. f.storage_key == candidate) before.files ≡ false
      → (db' : Db) × (complete objects component config between actor id a db s
          ≡ ((ok (true, file_of u candidate a.published), db'), s'))
        × Has (λ v. v ≡ completed a.published row) db'.file_uploads
  complete-progress owned pending (seen, claimed, published) in_lease arrived waits keeps new_file
        new_key =
      let claimable : is_claimable u.id a.claimed u ≡ true =
        rw pending (ground (arith, eq_refl u.id)) in
      let db₀ : Db = between 0 db in
      let there = waits db (owned_row actor id db owned) in
      let free =
        any-of_Has (is_claimable u.id a.claimed) db₀.file_uploads
          (Has-map (λ v. v ≡ u) _ (λ v e. rw e claimable) db₀.file_uploads there) in
      let (db₁, e₁, rows) =
        claim_free u.id (lease_token a) candidate (a.outbox_ulid 0) a.claimed db₀ free in
      let taken = subst (Has (λ v. v ≡ row)) (sym rows) (
        Has-update (is_claimable u.id a.claimed) (leased (lease_token a) candidate a.claimed) u
          claimable db₀.file_uploads there) in
      let held = keeps db₁ taken in
      let finished : is_completable u.id (lease_token a) a.published row ≡ true =
        ground (arith, eq_refl u.id, eq_refl (lease_token a)) in
      let db₂ : Db = between 1 db₁ in
      let ready =
        any-of_Has (is_completable u.id (lease_token a) a.published) db₂.file_uploads
          (Has-map (λ v. v ≡ row) _ (λ v e. rw e finished) db₂.file_uploads held) in
      let same = ap (λ (q : Bool × Db). between 1 q.1) e₁ in
      let (db₃, e₂, rows₂) =
        publish_ok u u.id (lease_token a) candidate (a.outbox_ulid 2) a.published db₂
          (subst (λ d. any (λ f. f.id == u.file_id) d.files ≡ false) same new_file)
          (subst (λ d. any (λ f. f.storage_key == candidate) d.files ≡ false) same new_key) ready in
      (
        db₃,
        complete-steps objects component config between actor id a db db₁ db₃ s s' u
            (file_of u candidate a.published) owned (rw pending refl) (rw pending (ground arith)) e₁
            (inspect-Arrived objects config.file_max_bytes u candidate s s' arrived) e₂,
        subst (Has (λ v. v ≡ completed a.published row)) (sym rows₂) (
            Has-update (is_completable u.id (lease_token a) a.published) (completed a.published) row
              finished db₂.file_uploads held),
      )
