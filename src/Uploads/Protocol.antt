-- ===== src/Uploads/Protocol.antt =====
-- src/uploads.rs: the life of a session as a machine, and the transactions as its steps.
pub mod Laws
pub mod Traces
mod Tests
use threadmark.Uploads.Session.{
  abandoned, completed, runs_on, expire_sessions, released, leased, publish, is_free,
  restore_pending, claim_completion,
}
use threadmark.Error.{ok, err, ApiResult}
use threadmark.Model.{FileRecord}
use threadmark.Db.{Db, Upload}
use threadmark.Common.{
  ℕ, zero, suc, ◌+◌, ◌-◌, ◌*◌, ◌/◌, ◌%◌, ◌^◌, ◌≤◌, ◌<◌, min, String, ◌≡◌, refl, sym, ap, ◌∙◌, ◌≢◌,
  ◌↔◌, ◌⊎◌, inl, inr, Bool, true, false, ◌&&◌, ◌||◌, not, Option, none, some, List, [], ◌∷◌, ◌++◌,
  map, append-nil, append_assoc, arith, ◌==◌, eq_iff, eq_refl, ltb, leb, eqb, if◌then◌else◌,
  some_eq, is_some, unwrap_or, ltb→lt, leb→le, leb-false, Bool-cases, Option-cases, eq-of-some_eq,
  length, length-append, take, length-take_le, All, All-append, All-append_left, All-of_forall,
  All-map, filter, find, any, all, remove, update, or_else, filter-append, find-append, any-append,
  filter_none, filter-All, All-not_of_any, any-of_All, find_sound, any-of_find, find-none, All-find,
  All-filter, All-remove, All-passed, any-update, find-update_ne, find-update, All-update, any_mono,
  filter-remove_spared, filter-remove, remove_congr, remove_none, All-removed, All-both,
  some-eq-some, filter_none_under, find-filter, length-remove_le, length-remove_lt,
}

-- Nobody finalizes the session: it waits for its object, or its lease has ended.
abbrev pub Unheld : (now : ℕ) → Upload → Type 0
Unheld now u =
    (u.status ≡ "pending")
    ⊎ ((u.status ≡ "finalizing")
        × ((until : ℕ) × (u.lease_expires_at ≡ some until) × (until ≤ now)))

-- What a session's row may become in one transaction at the time `now`.
pub data Move (now : ℕ) : Upload → Upload → Type 0 where
  stays : (u : Upload) → Move now u u
  is_leased :
      (u : Upload) (token candidate : String)
      → now < u.expires_at
      → Unheld now u
      → Move now u (record u {
        status = "finalizing";
        lease_token = some token;
        lease_expires_at = some (now + 120);
        candidate_key = some candidate;
      })
  is_given_back :
      (u : Upload)
      → u.status ≡ "finalizing"
      → Move now u (record u { status = "pending"; lease_token = none; lease_expires_at = none })
  is_published :
      (u : Upload)
      → u.status ≡ "finalizing"
      → now < u.expires_at
      → (until : ℕ) → u.lease_expires_at ≡ some until
      → now < until
      → Move now u (record u {
        status = "completed";
        completed_at = some now;
        lease_token = none;
        lease_expires_at = none;
      })
  is_abandoned :
      (u : Upload)
      → u.expires_at ≤ now
      → Unheld now u
      → Move now u
          (record u { status = "cleanup_pending"; lease_token = none; lease_expires_at = none })

-- The transactions that update sessions.
pub data Action : Type 0 where
  claims : (id lease_token candidate_key ulid : String) → Action
  gives_back : (id lease_token : String) → Action
  publishes : Upload → (id lease_token candidate_key ulid : String) → Action
  abandons : (ulid : ℕ → String) → Action

abbrev pub tables_of : ApiResult (FileRecord × Db) → Db → Db
tables_of (err e) db = db
tables_of (ok (f, db')) db = db'

unfoldable pub perform : Action → (now : ℕ) → Db → Db
unfolding claim_completion restore_pending publish expire_sessions
perform (claims id token candidate ulid) now db =
    (claim_completion id token candidate ulid now db).1
perform (gives_back id token) now db = restore_pending id token db
perform (publishes u id token candidate ulid) now db =
    tables_of (publish u id token candidate ulid now db) db
perform (abandons ulid) now db = expire_sessions ulid now db

-- Transactions at their times, one after the other.
unfoldable pub perform_all : List (Action × ℕ) → Db → Db
unfolding perform
perform_all [] db = db
perform_all ((a, now) ∷ rest) db = perform_all rest (perform a now db)

-- Row by row.
unfoldable pub Pairwise : {A : Type 0} → (A → A → Type 0) → List A → List A → Type 0
Pairwise R [] [] = Unit
Pairwise R (x ∷ xs) (y ∷ ys) = R x y × Pairwise R xs ys
Pairwise R _ _ = ⊥
