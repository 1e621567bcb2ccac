-- ===== src/Uploads/Session.antt =====
-- src/uploads.rs: the transactions that move a session from one status to the next.
use threadmark.Uploads.Outbox.{enqueue_all_versions_after, enqueue_all_versions, enqueue_some}
use threadmark.Error.{ok, coded_conflict, reject_if, ◌>>◌, ◌>>=◌, ApiResult}
use threadmark.Model.{FileRecord}
use threadmark.Db.{Db, Upload, insert_file}
use threadmark.Common.{
  ℕ, ◌+◌, String, Bool, true, false, ◌&&◌, ◌||◌, not, Option, none, some, List, [], ◌∷◌, ◌==◌, ltb,
  leb, if◌then◌else◌, some_eq, filter, find, any, update,
}

-- `lease_expires_at <= now()`, which NULL does not satisfy
abbrev pub lapsed : Option ℕ → ℕ → Bool
lapsed none now = false
lapsed (some t) now = leb t now

-- The sessions that nobody is finalizing.
abbrev pub is_free : ℕ → Upload → Bool
is_free now u = u.status == "pending" || u.status == "finalizing" && lapsed u.lease_expires_at now

abbrev pub is_claimable : String → ℕ → Upload → Bool
is_claimable id now u = u.id == id && ltb now u.expires_at && is_free now u

abbrev pub leased : (lease_token candidate_key : String) → ℕ → Upload → Upload
leased lease_token candidate_key now u = record u {
  status = "finalizing";
  lease_token = some lease_token;
  lease_expires_at = some (now + 120);
  candidate_key = some candidate_key;
}

-- The candidate of an earlier attempt.
abbrev pub candidate_of : Option Upload → Option String
candidate_of none = none
candidate_of (some u) = u.candidate_key

unfoldable pub claim_completion :
    (id lease_token candidate_key ulid : String) → (now : ℕ) → Db → Bool × Db
claim_completion id lease_token candidate_key ulid now db =
    let previous = candidate_of (find (λ u. u.id == id) db.file_uploads) in
    if any (is_claimable id now) db.file_uploads
    then (
      true,
      enqueue_some ulid previous now (record db {
        file_uploads =
            update (is_claimable id now) (leased lease_token candidate_key now) db.file_uploads;
      }),
    )
    else (false, db)

-- WHERE id = $1 AND status = 'finalizing' AND lease_token = $2
abbrev pub holds_lease : (id lease_token : String) → Upload → Bool
holds_lease id lease_token u =
    u.id == id && u.status == "finalizing" && some_eq u.lease_token lease_token

abbrev pub released : Upload → Upload
released u = record u { status = "pending"; lease_token = none; lease_expires_at = none }

unfoldable pub restore_pending : (id lease_token : String) → Db → Db
restore_pending id lease_token db = record db {
  file_uploads = update (holds_lease id lease_token) released db.file_uploads;
}

-- `lease_expires_at > now()`
abbrev pub runs_on : Option ℕ → ℕ → Bool
runs_on none now = false
runs_on (some t) now = ltb now t

abbrev pub is_completable : (id lease_token : String) → ℕ → Upload → Bool
is_completable id lease_token now u =
    holds_lease id lease_token u && ltb now u.expires_at && runs_on u.lease_expires_at now

abbrev pub completed : ℕ → Upload → Upload
completed now u = record u {
  status = "completed";
  completed_at = some now;
  lease_token = none;
  lease_expires_at = none;
}

abbrev pub file_of : Upload → (candidate_key : String) → ℕ → FileRecord
file_of u candidate_key now = record {
  id = u.file_id;
  tenant_id = u.tenant_id;
  owner_ref = u.owner_ref;
  filename = u.filename;
  mime_type = u.mime_type;
  size = u.expected_size;
  storage_key = candidate_key;
  created_at = now;
}

-- The last transaction of `complete`.
unfoldable pub publish :
    Upload
    → (id lease_token candidate_key ulid : String) → (now : ℕ) → Db
    → ApiResult (FileRecord × Db)
unfolding insert_file
publish u id lease_token candidate_key ulid now db = do
  let file = file_of u candidate_key now
  db₁ ← insert_file file db
  reject_if (not (any (is_completable id lease_token now) db₁.file_uploads))
      (coded_conflict "upload_finalizing" "Upload finalization lease was lost.")
  let db₂ : Db = record db₁ {
    file_uploads = update (is_completable id lease_token now) (completed now) db₁.file_uploads;
  }
  ok (file, enqueue_all_versions_after ulid u.staging_key 305 now db₂)

-- WHERE expires_at <= now() AND …
abbrev pub is_expired : ℕ → Upload → Bool
is_expired now u = leb u.expires_at now && is_free now u

abbrev pub abandoned : Upload → Upload
abandoned u = record u { status = "cleanup_pending"; lease_token = none; lease_expires_at = none }

-- The loop over the rows that the UPDATE returned; each deletion has its own identifier.
unfoldable pub enqueue_keys : (ulid : ℕ → String) → (k : ℕ) → List Upload → (now : ℕ) → Db → Db
enqueue_keys ulid k [] now db = db
enqueue_keys ulid k (u ∷ us) now db = enqueue_keys ulid (k + 2) us now (
    enqueue_some (ulid (k + 1)) u.candidate_key now
      (enqueue_all_versions (ulid k) u.staging_key now db))

-- The first transaction of `cleanup_expired`.
unfoldable pub expire_sessions : (ulid : ℕ → String) → (now : ℕ) → Db → Db
unfolding enqueue_keys
expire_sessions ulid now db =
    enqueue_keys ulid 0 (filter (is_expired now) db.file_uploads) now
      (record db { file_uploads = update (is_expired now) abandoned db.file_uploads })
