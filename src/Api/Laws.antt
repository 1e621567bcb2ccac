-- ===== src/Api/Laws.antt =====
-- Who may call which handler of src/api.rs.
use threadmark.Common.Text.{trim}
use threadmark.Model.{StartTurn}
use threadmark.Auth.{
  require_agent, continuation_read, continuation_write, turn_update, turn_read, turn_create,
  conversation_regenerate, conversation_truncate, agent_replay, transcript_append,
  conversation_delete, conversation_update, conversation_read, conversation_list, file_read,
  conversation_create, transcript_read, Permission, require, AuthContext,
}
use threadmark.Api.Router.{
  gets_continuation, creates_continuation, updates_turn, gets_turn, gets_active_turn, lists_turns,
  creates_turn, starts_turn, regenerates, truncates, replays_for_agent, replays, appends_items,
  lists_items, deletes_conversation, updates_conversation, gets_conversation, lists_conversations,
  reading, creates_conversation, handle, Request, Services,
}
use threadmark.Api.Turns.{
  require_if, get_continuation_handler, create_continuation_handler, update_turn_handler,
  get_turn_handler, get_active_turn_handler, list_turns_handler, create_turn_handler,
  start_turn_handler,
}
use threadmark.Api.Conversations.{
  is_preserve, regenerate_conversation_handler, truncate_conversation_handler, agent_replay_handler,
  replay_handler, append_items_handler, list_items_handler, delete_conversation_handler,
  update_conversation_handler, get_conversation_handler, list_conversations_handler,
  create_conversation_handler, require_unless,
}
use threadmark.Error.{err, ok-injective, >>=-eq-ok, ok, ◌>>◌, ApiResult}
use threadmark.Db.{Db}
use threadmark.Api.{Reply}
use threadmark.Store.Start.{Fresh}
use threadmark.Common.{
  ◌≡◌, sym, ap, Bool, true, false, Option, none, some, List, [], ◌∷◌, if◌then◌else◌, is_some, All,
}

-- A turn's start needs one permission more where its body opens a conversation.
unfoldable pub start_permissions : ApiResult StartTurn → List Permission
start_permissions (err e) = turn_create ∷ transcript_append ∷ []
start_permissions (ok r) =
    if is_some r.conversation
    then turn_create ∷ transcript_append ∷ conversation_create ∷ []
    else turn_create ∷ transcript_append ∷ []

-- The permissions of `.agents/specs`: service-authorization and, for the start of a turn, atomic-turn-start.
unfoldable pub ledger_permissions : Services → Request → List Permission
unfolding start_permissions
ledger_permissions services (creates_conversation r) = conversation_create ∷ []
ledger_permissions services (lists_conversations limit) = conversation_list ∷ []
ledger_permissions services (gets_conversation id) = conversation_read ∷ []
ledger_permissions services (updates_conversation id r) = conversation_update ∷ []
ledger_permissions services (deletes_conversation id) = conversation_delete ∷ []
ledger_permissions services (lists_items id after_seq limit) = transcript_read ∷ []
ledger_permissions services (appends_items id r) = transcript_append ∷ []
ledger_permissions services (replays id r) =
    if is_preserve r.file_delivery then transcript_read ∷ [] else transcript_read ∷ file_read ∷ []
ledger_permissions services (replays_for_agent id turn_id body) = agent_replay ∷ []
ledger_permissions services (truncates id item_id) = conversation_truncate ∷ []
ledger_permissions services (regenerates id) = conversation_regenerate ∷ []
ledger_permissions services (starts_turn body) = start_permissions (services.parse_start_turn body)
ledger_permissions services (creates_turn id r) = turn_create ∷ []
ledger_permissions services (lists_turns id) = turn_read ∷ []
ledger_permissions services (gets_active_turn id) = conversation_read ∷ turn_read ∷ []
ledger_permissions services (gets_turn id) = turn_read ∷ []
ledger_permissions services (updates_turn id r) = turn_update ∷ []
ledger_permissions services (creates_continuation id r) = continuation_write ∷ []
ledger_permissions services (gets_continuation response_id agent_ref) = continuation_read ∷ []

abbrev pub Allows : AuthContext → Permission → Type 0
Allows auth p = require auth p ≡ ok tt

-- A handler that begins with a check of a permission.
pub first_check :
    {A : Type 0} (auth : AuthContext) (p : Permission) (k : ApiResult A) {x : A}
    → (require auth p >> k) ≡ ok x
    → Allows auth p × (k ≡ ok x)
first_check auth p k h = let (_, e, rest) = >>=-eq-ok (require auth p) _ h in (e, rest)

only_check :
    {A : Type 0} (auth : AuthContext) (p : Permission) (k : ApiResult A) {x : A}
    → (require auth p >> k) ≡ ok x
    → All (Allows auth) (p ∷ [])
only_check auth p k h = ((first_check auth p k h).0, tt)

pub answered :
    (r : ApiResult Reply) (db : Db) {x : Reply × Db}
    → reading r db ≡ ok x
    → (reply : Reply) × (r ≡ ok reply) × (x.1 ≡ db)
answered r db h =
    let (reply, e, k) = >>=-eq-ok r _ h in (reply, e, sym (ap (λ q. q.1) (ok-injective k)))

replay_checks :
    (b : Bool) (auth : AuthContext) {A : Type 0} (k : ApiResult A) {x : A}
    → (require auth transcript_read >> (require_unless b auth file_read >> k)) ≡ ok x
    → All (Allows auth) (if b then transcript_read ∷ [] else transcript_read ∷ file_read ∷ [])
replay_checks true auth k h = only_check auth transcript_read k h
replay_checks false auth k h =
    let (first, rest) = first_check auth transcript_read (require auth file_read >> k) h in
    (first, only_check auth file_read k rest)

start_checks :
    {A B : Type 0} (auth : AuthContext) (conversation : Option B) (k : ApiResult A) {x : A}
    → Allows auth turn_create
    → Allows auth transcript_append
    → (require_if (is_some conversation) auth conversation_create >> k) ≡ ok x
    → All (Allows auth) (
        if is_some conversation
        then turn_create ∷ transcript_append ∷ conversation_create ∷ []
        else turn_create ∷ transcript_append ∷ [])
start_checks auth none k first second h = (first, (second, tt))
start_checks auth (some c) k first second h =
    (first, (second, only_check auth conversation_create k h))

module _ (services : Services) (auth : AuthContext) (fresh : Fresh) (between : Db → Db) where
  pub handle-requires :
      (request : Request) (db : Db) {x : Reply × Db}
      → handle services auth fresh between request db ≡ ok x
      → All (Allows auth) (ledger_permissions services request)
  unfolding handle ledger_permissions create_conversation_handler list_conversations_handler
      get_conversation_handler update_conversation_handler delete_conversation_handler
      list_items_handler append_items_handler replay_handler agent_replay_handler
      truncate_conversation_handler regenerate_conversation_handler start_turn_handler
      create_turn_handler list_turns_handler get_active_turn_handler get_turn_handler
      update_turn_handler create_continuation_handler get_continuation_handler
  handle-requires (creates_conversation r) db h = only_check auth conversation_create _ h
  handle-requires (lists_conversations limit) db h =
      let (_, e, _) = answered _ db h in only_check auth conversation_list _ e
  handle-requires (gets_conversation id) db h =
      let (_, e, _) = answered _ db h in only_check auth conversation_read _ e
  handle-requires (updates_conversation id r) db h = only_check auth conversation_update _ h
  handle-requires (deletes_conversation id) db h = only_check auth conversation_delete _ h
  handle-requires (lists_items id after_seq limit) db h =
      let (_, e, _) = answered _ db h in only_check auth transcript_read _ e
  handle-requires (appends_items id r) db h = only_check auth transcript_append _ h
  handle-requires (replays id r) db h =
      let (_, e, _) = answered _ db h in replay_checks (is_preserve r.file_delivery) auth _ e
  handle-requires (replays_for_agent id turn_id body) db h =
      let (_, e, _) = answered _ db h in only_check auth agent_replay _ e
  handle-requires (truncates id item_id) db h = only_check auth conversation_truncate _ h
  handle-requires (regenerates id) db h = only_check auth conversation_regenerate _ h
  handle-requires (starts_turn body) db h =
      let (r, parsed, k) = >>=-eq-ok (services.parse_start_turn body) _ h in
      let (first, k₁) = first_check auth turn_create _ k in
      let (second, k₂) = first_check auth transcript_append _ k₁ in
      let (_, _, k₃) = >>=-eq-ok (require_agent auth (trim r.agent_ref)) _ k₂ in
      rw parsed (start_checks auth r.conversation _ first second k₃)
  handle-requires (creates_turn id r) db h = only_check auth turn_create _ h
  handle-requires (lists_turns id) db h =
      let (_, e, _) = answered _ db h in only_check auth turn_read _ e
  handle-requires (gets_active_turn id) db h =
      let (_, e, _) = answered _ db h in
      let (first, rest) = first_check auth conversation_read _ e in
      (first, only_check auth turn_read _ rest)
  handle-requires (gets_turn id) db h =
      let (_, e, _) = answered _ db h in only_check auth turn_read _ e
  handle-requires (updates_turn id r) db h = only_check auth turn_update _ h
  handle-requires (creates_continuation id r) db h = only_check auth continuation_write _ h
  handle-requires (gets_continuation response_id agent_ref) db h =
      let (_, e, _) = answered _ db h in only_check auth continuation_read _ e
