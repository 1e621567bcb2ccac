-- ===== src/Api/Turns.antt =====
-- src/api.rs: the handlers of turns and continuations.
use threadmark.Api.{
  started_body, active_turn_body, continuation_body, turn_body, turns_body, created_reply, ok_reply,
  Reply,
}
use threadmark.Auth.{
  conversation_create, transcript_append, continuation_read, continuation_write, conversation_read,
  turn_create, turn_read, turn_update, Permission, require_agent, AuthContext, require,
}
use threadmark.Store.Start.{Fresh, start_turn}
use threadmark.Error.{◌>>=◌, ◌>>◌, ok, ApiResult}
use threadmark.Model.{StartTurn, CreateTurn, UpdateTurn}
use threadmark.Store.Start.Request.{Digest, TurnStartDigest}
use threadmark.Common.Text.{trim}
use threadmark.Db.{Db}
use threadmark.Store.Continuations.{CreateContinuation, create_continuation, get_continuation}
use threadmark.Store.Turns.{create_turn, active_turn, get_turn, list_turns, update_turn}
use threadmark.Common.{ℕ, String, Bool, true, false, Option, if◌then◌else◌, is_some}

abbrev pub require_if : Bool → AuthContext → Permission → ApiResult (Unit {0})
require_if true auth p = require auth p
require_if false auth p = ok tt

abbrev pub start_status : Bool → ℕ
start_status replayed = if replayed then 200 else 201

-- `parse` is `parse_start_turn`, on the body's text.
unfoldable pub start_turn_handler :
    (hash : TurnStartDigest → Option Digest) (parse : String → ApiResult StartTurn)
    → AuthContext
    → (body : String) → Fresh
    → Db
    → ApiResult (Reply × Db)
unfolding require require_agent start_turn trim
start_turn_handler hash parse auth body fresh db = do
  request ← parse body
  require auth turn_create
  require auth transcript_append
  require_agent auth (trim request.agent_ref)
  require_if (is_some request.conversation) auth conversation_create
  (r, db') ← start_turn hash auth.actor auth.client_id request fresh db
  ok (record { status = start_status r.replayed; body = started_body r }, db')

unfoldable pub create_turn_handler :
    AuthContext
    → (id : String) → CreateTurn
    → (now : ℕ) (turn_ulid snapshot_ulid : String) → Db
    → ApiResult (Reply × Db)
unfolding require require_agent create_turn trim
create_turn_handler auth id request now turn_ulid snapshot_ulid db = do
  require auth turn_create
  require_agent auth (trim request.agent_ref)
  (t, db') ← create_turn auth.actor id request now turn_ulid snapshot_ulid db
  ok (created_reply (turn_body t), db')

unfoldable pub list_turns_handler : AuthContext → (id : String) → Db → ApiResult Reply
unfolding require list_turns
list_turns_handler auth id db = do
  require auth turn_read
  ts ← list_turns auth.actor id db
  ok (ok_reply (turns_body ts))

unfoldable pub get_active_turn_handler : AuthContext → (id : String) → Db → ApiResult Reply
unfolding require active_turn
get_active_turn_handler auth id db = do
  require auth conversation_read
  require auth turn_read
  t ← active_turn auth.actor id db
  ok (ok_reply (active_turn_body t))

unfoldable pub get_turn_handler : AuthContext → (id : String) → Db → ApiResult Reply
unfolding require get_turn
get_turn_handler auth id db = do
  require auth turn_read
  t ← get_turn auth.actor id db
  ok (ok_reply (turn_body t))

unfoldable pub update_turn_handler :
    AuthContext → (id : String) → UpdateTurn → (now : ℕ) → Db → ApiResult (Reply × Db)
unfolding require update_turn
update_turn_handler auth id request now db = do
  require auth turn_update
  (t, db') ← update_turn auth.actor id request now db
  ok (ok_reply (turn_body t), db')

unfoldable pub create_continuation_handler :
    (between : Db → Db)
    → AuthContext
    → (id : String) → CreateContinuation
    → (now : ℕ) (ulid : String) → Db
    → ApiResult (Reply × Db)
unfolding require create_continuation
create_continuation_handler between auth id request now ulid db = do
  require auth continuation_write
  (k, db') ← create_continuation between auth.actor id request now ulid db
  ok (created_reply (continuation_body k), db')

unfoldable pub get_continuation_handler :
    AuthContext → (response_id agent_ref : String) → Db → ApiResult Reply
unfolding require get_continuation
get_continuation_handler auth response_id agent_ref db = do
  require auth continuation_read
  k ← get_continuation auth.actor response_id agent_ref db
  ok (ok_reply (continuation_body k))
