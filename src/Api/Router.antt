-- ===== src/Api/Router.antt =====
-- src/api.rs: the routes of conversations, turns and continuations, each with its handler.
use threadmark.Api.Turns.{
  get_continuation_handler, create_continuation_handler, update_turn_handler, get_turn_handler,
  get_active_turn_handler, list_turns_handler, create_turn_handler, start_turn_handler,
}
use threadmark.Api.Conversations.{
  regenerate_conversation_handler, truncate_conversation_handler, agent_replay_handler,
  replay_handler, append_items_handler, list_items_handler, delete_conversation_handler,
  update_conversation_handler, get_conversation_handler, list_conversations_handler,
  create_conversation_handler,
}
use threadmark.Store.Continuations.{CreateContinuation}
use threadmark.Model.{
  UpdateTurn, CreateTurn, StartTurn, AppendItems, UpdateConversation, CreateConversation,
}
use threadmark.Store.Replay.{ReplayRequest, FileDelivery}
use threadmark.Store.Start.Request.{Digest, TurnStartDigest}
use threadmark.Error.{ok, ◌>>=◌, ApiResult}
use threadmark.Store.Replay.Agent.{Limits}
use threadmark.Api.{Reply}
use threadmark.Common.Int.{ℤ}
use threadmark.Store.Start.{Fresh}
use threadmark.Auth.{AuthContext}
use threadmark.Db.{Db}
use threadmark.Model.Json.{Value}
use threadmark.Common.{ℕ, String, Option, List}

-- What the handlers take besides the request: `||` of `jsonb`, the delivery of files in a replay, the size
-- of its JSON, SHA-256, and the parser of the body of a turn's start.
pub record Services : Type 0 where
  pub concat : Value → Value → Value
  pub hydrate : Db → FileDelivery → Value → ApiResult Value
  pub to_vec_len : List Value → Option ℕ
  pub limits : Limits
  pub hash : TurnStartDigest → Option Digest
  pub parse_start_turn : String → ApiResult StartTurn

-- A request that has reached its handler: the path's parameters, the query's, and the JSON.
pub data Request : Type 0 where
  creates_conversation : CreateConversation → Request
  lists_conversations : Option ℤ → Request
  gets_conversation : String → Request
  updates_conversation : String → UpdateConversation → Request
  deletes_conversation : String → Request
  lists_items : String → ℤ → Option ℤ → Request
  appends_items : String → AppendItems → Request
  replays : String → ReplayRequest → Request
  replays_for_agent : (conversation_id turn_id body : String) → Request
  truncates : (id item_id : String) → Request
  regenerates : String → Request
  starts_turn : (body : String) → Request
  creates_turn : String → CreateTurn → Request
  lists_turns : String → Request
  gets_active_turn : String → Request
  gets_turn : String → Request
  updates_turn : String → UpdateTurn → Request
  creates_continuation : String → CreateContinuation → Request
  gets_continuation : (response_id agent_ref : String) → Request

-- A handler that only reads.
abbrev pub reading : ApiResult Reply → Db → ApiResult (Reply × Db)
reading r db = do reply ← r; ok (reply, db)

-- `between` is what others do between the two statements of `create_continuation`.
module _ (services : Services) (auth : AuthContext) (fresh : Fresh) (between : Db → Db) where
  unfoldable pub handle : Request → Db → ApiResult (Reply × Db)
  unfolding create_conversation_handler list_conversations_handler get_conversation_handler
      update_conversation_handler delete_conversation_handler list_items_handler
      append_items_handler replay_handler agent_replay_handler truncate_conversation_handler
      regenerate_conversation_handler start_turn_handler create_turn_handler list_turns_handler
      get_active_turn_handler get_turn_handler update_turn_handler create_continuation_handler
      get_continuation_handler
  handle (creates_conversation r) db =
      create_conversation_handler auth r fresh.now fresh.conversation_ulid db
  handle (lists_conversations limit) db = reading (list_conversations_handler auth limit db) db
  handle (gets_conversation id) db = reading (get_conversation_handler auth id db) db
  handle (updates_conversation id r) db =
      update_conversation_handler services.concat auth id r fresh.now db
  handle (deletes_conversation id) db = delete_conversation_handler auth id db
  handle (lists_items id after_seq limit) db =
      reading (list_items_handler auth id after_seq limit db) db
  handle (appends_items id r) db = append_items_handler auth id r fresh.now fresh.item_ulid db
  handle (replays id r) db = reading (replay_handler (services.hydrate db) auth id r db) db
  handle (replays_for_agent id turn_id body) db =
      reading (agent_replay_handler services.to_vec_len services.limits auth id turn_id body db) db
  handle (truncates id item_id) db = truncate_conversation_handler auth id item_id fresh.now db
  handle (regenerates id) db = regenerate_conversation_handler auth id fresh.now db
  handle (starts_turn body) db =
      start_turn_handler services.hash services.parse_start_turn auth body fresh db
  handle (creates_turn id r) db =
      create_turn_handler auth id r fresh.now fresh.turn_ulid fresh.snapshot_ulid db
  handle (lists_turns id) db = reading (list_turns_handler auth id db) db
  handle (gets_active_turn id) db = reading (get_active_turn_handler auth id db) db
  handle (gets_turn id) db = reading (get_turn_handler auth id db) db
  handle (updates_turn id r) db = update_turn_handler auth id r fresh.now db
  handle (creates_continuation id r) db =
      create_continuation_handler between auth id r fresh.now fresh.start_ulid db
  handle (gets_continuation response_id agent_ref) db =
      reading (get_continuation_handler auth response_id agent_ref db) db
