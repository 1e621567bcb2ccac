-- ===== src/Api/Conversations.antt =====
-- src/api.rs: the handlers of conversations and their items.
use threadmark.Api.{
  agent_replay_body, items_body, appended_body, conversation_body, conversations_body,
  created_reply, no_content, regenerated_body, replay_body, ok_reply, Reply,
}
use threadmark.Error.{bad_request, reject_if, ◌>>=◌, ◌>>◌, ok, ApiResult}
use threadmark.Common.Text.{is_empty}
use threadmark.Common.Int.{pos, ℤ}
use threadmark.Auth
use threadmark.Store.Replay.Agent.{Limits, agent_replay}
use threadmark.Auth.{
  file_read, conversation_create, conversation_delete, conversation_list, conversation_read,
  conversation_regenerate, conversation_truncate, conversation_update, transcript_append,
  transcript_read, Permission, require_agent_replay_scope, AuthContext, require,
}
use threadmark.Store.Replay.{
  inline, ReplayRequest, presigned_url, capability_url, preserve, replay, FileDelivery,
}
use threadmark.Model.{UpdateConversation, AppendItems, CreateConversation}
use threadmark.Db.{Db}
use threadmark.Model.Json.{Value}
use threadmark.Store.Append.{append_items}
use threadmark.Store.Conversations.{
  create_conversation, delete_conversation, get_conversation, list_conversations, list_items,
  update_conversation,
}
use threadmark.Store.Edit.{regenerate_conversation, truncate_conversation}
use threadmark.Common.{ℕ, String, Bool, true, false, not, Option, List, unwrap_or}

unfoldable pub create_conversation_handler :
    AuthContext → CreateConversation → (now : ℕ) (ulid : String) → Db → ApiResult (Reply × Db)
unfolding require create_conversation
create_conversation_handler auth request now ulid db = do
  require auth conversation_create
  (c, db') ← create_conversation auth.actor request now ulid db
  ok (created_reply (conversation_body c), db')

unfoldable pub list_conversations_handler : AuthContext → (limit : Option ℤ) → Db → ApiResult Reply
unfolding require list_conversations
list_conversations_handler auth limit db = do
  require auth conversation_list
  ok (ok_reply (conversations_body (list_conversations auth.actor (unwrap_or limit (pos 200)) db)))

unfoldable pub get_conversation_handler : AuthContext → (id : String) → Db → ApiResult Reply
unfolding require get_conversation
get_conversation_handler auth id db = do
  require auth conversation_read
  c ← get_conversation auth.actor id db
  ok (ok_reply (conversation_body c))

unfoldable pub update_conversation_handler :
    (concat : Value → Value → Value)
    → AuthContext
    → (id : String) → UpdateConversation
    → (now : ℕ) → Db
    → ApiResult (Reply × Db)
unfolding require update_conversation
update_conversation_handler concat auth id request now db = do
  require auth conversation_update
  (c, db') ← update_conversation concat auth.actor id request now db
  ok (ok_reply (conversation_body c), db')

unfoldable pub delete_conversation_handler :
    AuthContext → (id : String) → Db → ApiResult (Reply × Db)
unfolding require delete_conversation
delete_conversation_handler auth id db = do
  require auth conversation_delete
  db' ← delete_conversation auth.actor id db
  ok (no_content, db')

unfoldable pub list_items_handler :
    AuthContext → (id : String) → (after_seq : ℤ) (limit : Option ℤ) → Db → ApiResult Reply
unfolding require list_items
list_items_handler auth id after_seq limit db = do
  require auth transcript_read
  items ← list_items auth.actor id after_seq (unwrap_or limit (pos 100)) db
  ok (ok_reply (items_body items))

unfoldable pub append_items_handler :
    AuthContext
    → (id : String) → AppendItems
    → (now : ℕ) (ulid : ℕ → String) → Db
    → ApiResult (Reply × Db)
unfolding require append_items
append_items_handler auth id request now ulid db = do
  require auth transcript_append
  (r, db') ← append_items auth.actor id request now ulid db
  ok (ok_reply (appended_body r), db')

abbrev pub is_preserve : FileDelivery → Bool
is_preserve preserve = true
is_preserve capability_url = false
is_preserve presigned_url = false
is_preserve inline = false

abbrev pub require_unless : Bool → AuthContext → Permission → ApiResult (Unit {0})
require_unless true auth p = ok tt
require_unless false auth p = require auth p

unfoldable pub replay_handler :
    (hydrate : FileDelivery → Value → ApiResult Value)
    → AuthContext
    → (id : String) → ReplayRequest
    → Db
    → ApiResult Reply
unfolding require replay
replay_handler hydrate auth id request db = do
  require auth transcript_read
  require_unless (is_preserve request.file_delivery) auth file_read
  r ← replay hydrate auth.actor id request db
  ok (ok_reply (replay_body r))

unfoldable pub agent_replay_handler :
    (to_vec_len : List Value → Option ℕ)
    → Limits
    → AuthContext
    → (conversation_id turn_id body : String) → Db
    → ApiResult Reply
unfolding require require_agent_replay_scope agent_replay
agent_replay_handler to_vec_len limits auth conversation_id turn_id body db = do
  require auth Auth.agent_replay
  reject_if (not (is_empty body)) (bad_request "agent replay does not accept a request body")
  agent_ref ← require_agent_replay_scope auth conversation_id turn_id
  r ← agent_replay to_vec_len limits auth.actor conversation_id turn_id agent_ref db
  ok (ok_reply (agent_replay_body r))

unfoldable pub truncate_conversation_handler :
    AuthContext → (id item_id : String) → (now : ℕ) → Db → ApiResult (Reply × Db)
unfolding require truncate_conversation
truncate_conversation_handler auth id item_id now db = do
  require auth conversation_truncate
  db' ← truncate_conversation auth.actor id item_id now db
  ok (no_content, db')

unfoldable pub regenerate_conversation_handler :
    AuthContext → (id : String) → (now : ℕ) → Db → ApiResult (Reply × Db)
unfolding require regenerate_conversation
regenerate_conversation_handler auth id now db = do
  require auth conversation_regenerate
  (turn_id, db') ← regenerate_conversation auth.actor id now db
  ok (ok_reply (regenerated_body turn_id), db')
