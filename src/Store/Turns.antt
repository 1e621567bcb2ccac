-- ===== src/Store/Turns.antt =====
-- src/store.rs: turns.
use Prim.Native.String.{count}
use threadmark.Common.Text.{trim, is_empty}
use threadmark.Common.Order.{sort_by}
use threadmark.Error.{
  ApiError, ApiResult, ok, err, ◌>>=◌, ◌>>◌, reject_if, ok_or, bad_request, not_found,
  coded_conflict, database, violates,
}
use threadmark.Ids.{new_id}
use threadmark.Model.{Actor, Turn, CreateTurn, UpdateTurn}
use threadmark.Db.{Db, is_active, insert_turn}
use threadmark.Store.Conversations.{get_conversation, lock_conversation}
use threadmark.Store.Snapshots.{lock_turn_files, create_turn_file_snapshot}
use threadmark.Common.{
  ℕ, String, Bool, ◌&&◌, ◌||◌, not, Option, none, some, List, [], ◌∷◌, ◌==◌, ltb, leb,
  if◌then◌else◌, some_eq, unwrap_or, filter, find, any, update,
}

abbrev pub has_active : String → Db → Bool
has_active conversation_id db =
    any (λ t. t.conversation_id == conversation_id && is_active t) db.turns

abbrev pub active_turn_exists : ApiError
active_turn_exists = coded_conflict "active_turn_exists" "conversation already has an active turn"

-- A violation of the index of active turns is answered as the earlier check is.
abbrev pub as_conflict : ApiError → ApiError
as_conflict (database (violates name)) =
    if name == "turns_one_active_per_conversation_idx"
    then active_turn_exists
    else database (violates name)
as_conflict e = e

abbrev pub map_err {ℓ} : {A : Type ℓ} → (ApiError → ApiError) → ApiResult A → ApiResult A
map_err f (ok a) = ok a
map_err f (err e) = err (f e)

abbrev pub pending_turn : String → String → String → Option String → ℕ → Turn
pending_turn ulid conversation_id agent_ref key now = record {
  id = new_id "turn" ulid;
  conversation_id = conversation_id;
  agent_ref = agent_ref;
  idempotency_key = key;
  status = "pending";
  response_id = none;
  error = none;
  usage = none;
  created_at = now;
  completed_at = none;
}

unfoldable pub create_turn :
    Actor
    → String
    → CreateTurn
    → (now : ℕ) (turn_ulid snapshot_ulid : String) → Db
    → ApiResult (Turn × Db)
unfolding trim lock_conversation lock_turn_files insert_turn create_turn_file_snapshot
create_turn actor conversation_id request now turn_ulid snapshot_ulid db = do
  let agent_ref = trim request.agent_ref
  let key = request.idempotency_key
  _ ← lock_conversation actor conversation_id db
  elim (find (λ t. t.conversation_id == conversation_id && some_eq t.idempotency_key key)
      db.turns) [
        | some t ↦
            if not (t.agent_ref == request.agent_ref) && not (t.agent_ref == agent_ref)
            then err (
                coded_conflict "idempotency_key_reused"
                  "idempotency_key was already used for a different agent")
            else ok (t, db)
        | none ↦ do
          reject_if
              (is_empty agent_ref
                || ltb 200 (count agent_ref)
                || is_empty (trim key)
                || ltb 200 (count key))
              (bad_request "agent_ref and idempotency_key must contain 1 to 200 characters")
          reject_if (has_active conversation_id db) active_turn_exists
          lock_turn_files actor conversation_id [] db
          let t = pending_turn turn_ulid conversation_id agent_ref (some key) now
          db₁ ← map_err as_conflict (insert_turn t db)
          db₂ ← create_turn_file_snapshot conversation_id t.id snapshot_ulid db₁
          ok (t, db₂)
      ]

-- ORDER BY created_at ASC
unfoldable pub list_turns : Actor → String → Db → ApiResult (List Turn)
unfolding get_conversation sort_by
list_turns actor conversation_id db = do
  _ ← get_conversation actor conversation_id db
  ok (
      sort_by (λ t u. leb t.created_at u.created_at)
        (filter (λ t. t.conversation_id == conversation_id) db.turns))

abbrev pub first {ℓ} : {A : Type ℓ} → List A → Option A
first [] = none
first (x ∷ xs) = some x

-- … ORDER BY created_at DESC LIMIT 1
unfoldable pub active_turn : Actor → String → Db → ApiResult (Option Turn)
unfolding get_conversation sort_by
active_turn actor conversation_id db = do
  _ ← get_conversation actor conversation_id db
  ok (
      first (
        sort_by (λ t u. leb u.created_at t.created_at)
          (filter (λ t. t.conversation_id == conversation_id && is_active t) db.turns)))

-- … JOIN conversations c ON c.id = t.conversation_id
abbrev pub turn_is_owned : Actor → Db → Turn → Bool
turn_is_owned actor db t =
    any
      (λ c.
        c.id == t.conversation_id
        && c.tenant_id == actor.tenant_id
        && c.owner_ref == actor.principal_id)
      db.conversations

unfoldable pub get_turn : Actor → String → Db → ApiResult Turn
get_turn actor id db =
    ok_or (find (λ t. t.id == id && turn_is_owned actor db t) db.turns)
      (not_found "Turn not found.")

abbrev pub is_terminal : String → Bool
is_terminal s = s == "completed" || s == "incomplete" || s == "failed" || s == "cancelled"

abbrev pub is_status : String → Bool
is_status s = s == "pending" || s == "streaming" || is_terminal s

-- COALESCE(completed_at, now())
abbrev pub completion : Bool → Option ℕ → ℕ → Option ℕ
completion terminal before now = if terminal then some (unwrap_or before now) else none

abbrev pub updated_turn : UpdateTurn → ℕ → Turn → Turn
updated_turn request now t = record t {
  status = request.status;
  response_id = request.response_id;
  error = request.error;
  usage = request.usage;
  completed_at = completion (is_terminal request.status) t.completed_at now;
}

-- The index of active turns holds for an UPDATE too; its violation is no special case here.
unfoldable pub update_turn : Actor → String → UpdateTurn → (now : ℕ) → Db → ApiResult (Turn × Db)
update_turn actor turn_id request now db = do
  reject_if (not (is_status request.status)) (bad_request "invalid turn status")
  let hit = λ (t : Turn). t.id == turn_id && turn_is_owned actor db t
  t ← ok_or (find hit db.turns) (not_found "Turn not found.")
  reject_if
      (is_active (updated_turn request now t)
        && any (λ u. u.conversation_id == t.conversation_id && not (u.id == turn_id) && is_active u)
            db.turns)
      (database (violates "turns_one_active_per_conversation_idx"))
  ok (
    updated_turn request now t,
    record db { turns = update hit (updated_turn request now) db.turns },
  )
