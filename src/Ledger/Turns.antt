-- ===== src/Ledger/Turns.antt =====
-- Answers of the turns' operations of src/store.rs.
pub mod Same
use threadmark.Store.Turns.{
  updated_turn, is_status, turn_is_owned, update_turn, as_conflict, map_err, has_active,
  pending_turn, create_turn,
}
use threadmark.Error.{
  ok_or-eq-ok, not_found, ok_or, ApiResult, >>=-eq-ok, err, ApiError, ok-injective, reject_if-ok,
  ok,
}
use threadmark.Store.Start.{start_turn, Fresh}
use threadmark.Model.{StartTurnResult, StartTurn, UpdateTurn, CreateTurn, Actor, Turn}
use threadmark.Store.Start.Request.{Digest, TurnStartDigest}
use threadmark.Store.Start.Laws.{map_err-ok, create_turn_file_snapshot-SameLedger}
use threadmark.Store.Snapshots.{create_turn_file_snapshot, lock_turn_files}
use Prim.Native.String.{count}
use threadmark.Common.Text.{is_empty, trim}
use threadmark.Store.Conversations.{lock_conversation}
use mathlib.Core.Path.{subst}
use threadmark.Db.{same_key, Db, is_active, insert_turn}
use threadmark.Common.{
  ℕ, zero, suc, ◌+◌, ◌-◌, ◌*◌, ◌/◌, ◌%◌, ◌^◌, ◌≤◌, ◌<◌, min, String, ◌≡◌, refl, sym, ap, ◌∙◌, ◌≢◌,
  ◌↔◌, ◌⊎◌, inl, inr, Bool, true, false, ◌&&◌, ◌||◌, not, Option, none, some, List, [], ◌∷◌, ◌++◌,
  map, append-nil, append_assoc, arith, ◌==◌, eq_iff, eq_refl, ltb, leb, eqb, if◌then◌else◌,
  some_eq, is_some, unwrap_or, ltb→lt, leb→le, leb-false, Bool-cases, Option-cases, eq-of-some_eq,
  length, length-append, take, length-take_le, All, All-append, All-append_left, All-of_forall,
  All-map, filter, find, any, all, remove, update, or_else, filter-append, find-append, any-append,
  filter_none, filter-All, All-not_of_any, any-of_All, find_sound, any-of_find, find-none, All-find,
  All-filter, All-remove, All-passed, any-update, find-update_ne, find-update, All-update, any_mono,
  filter-remove_spared, filter-remove, remove_congr, remove_none, All-removed, All-both,
  some-eq-some, filter_none_under, find-filter, length-remove_le, length-remove_lt,
}

pub db_of_pair : {A : Type 0} {p q : A × Db} → ok p ≡ ok q → p.1 ≡ q.1
db_of_pair e = ap (λ q. q.1) (ok-injective e)

pub answered_turn :
    (b : Bool) (e : ApiError) (p : Turn × Db) {q : Turn × Db}
    → ◌≡◌ {A = ApiResult (Turn × Db)} (if b then err e else ok p) (ok q)
    → p.1 ≡ q.1
answered_turn true e p h = absurd (ground arith)
answered_turn false e p h = db_of_pair h
