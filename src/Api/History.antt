-- ===== src/Api/History.antt =====
-- src/api.rs and src/store.rs together: what a request of conversations, turns and continuations keeps.
use threadmark.Api.Router.{
  gets_continuation, creates_continuation, updates_turn, gets_turn, gets_active_turn, lists_turns,
  creates_turn, starts_turn, regenerates, truncates, replays_for_agent, replays, appends_items,
  lists_items, deletes_conversation, updates_conversation, gets_conversation, lists_conversations,
  creates_conversation, Request, handle, Services,
}
use threadmark.Ledger.Continue.{OnlyGrows, create_continuation-IsLedger}
use threadmark.Auth.{
  continuation_write, turn_update, conversation_regenerate, conversation_truncate,
  conversation_delete, conversation_update, conversation_create, turn_create, transcript_append,
  require, Permission, require_agent, AuthContext,
}
use threadmark.Api.{
  continuation_body, turn_body, regenerated_body, appended_body, ok_reply, conversation_body,
  created_reply, started_body, StartTurnResult, Reply,
}
use threadmark.Ledger.Turns.Same.{create_turn-IsLedger, update_turn-IsLedger}
use threadmark.Ledger.Change.{delete_conversation-IsLedger, update_conversation-IsLedger}
use threadmark.Ledger.Start.Whole.{start_turn-IsLedger}
use threadmark.Ledger.Regenerate.{regenerate_conversation-IsLedger}
use threadmark.Ledger.Truncate.{truncate_conversation-IsLedger}
use threadmark.Store.Edit.{truncate_conversation}
use threadmark.Ledger.Append.{append_items-IsLedger}
use threadmark.Store.Conversations.{delete_conversation}
use mathlib.Core.Path.{subst}
use threadmark.Api.Laws.{answered, first_check}
use threadmark.Ledger.Create.{create_conversation-IsLedger}
use threadmark.Api.Turns.{
  create_continuation_handler, start_status, update_turn_handler, create_turn_handler, require_if,
  start_turn_handler,
}
use threadmark.Api.Conversations.{
  regenerate_conversation_handler, truncate_conversation_handler, append_items_handler,
  delete_conversation_handler, update_conversation_handler, create_conversation_handler,
}
use threadmark.Common.Text.{trim}
use threadmark.Ledger.Turns.{db_of_pair}
use threadmark.Model.{StartTurnResult, StartTurn}
use threadmark.Error.{>>=-eq-ok, ok, ◌>>◌, ◌>>=◌, ApiResult}
use threadmark.Store.Start.{start_turn, Fresh}
use threadmark.Ledger.{IsLedger}
use threadmark.Db.{Db}
use threadmark.Common.{String, ◌≡◌, sym, ap, ◌∙◌, is_some}

module _ (services : Services) (auth : AuthContext) (fresh : Fresh) (between : Db → Db) where
  pub checked :
      {A : Type 0} (p : Permission) (k : ApiResult A) {x : A}
      → (require auth p >> k) ≡ ok x
      → k ≡ ok x
  checked p k h = (first_check auth p k h).1

  -- A handler that answers what an operation of the store gives.
  pub operated :
      {A : Type 0} (op : ApiResult (A × Db)) (answer : A → Reply) {reply : Reply} {db' : Db}
      → ◌>>=◌ {Next = Reply × Db} op (λ (a, d). ok (answer a, d)) ≡ ok (reply, db')
      → (a : A) × (op ≡ ok (a, db'))
  operated op answer h =
      let ((a, d), e, k) = >>=-eq-ok op (λ (a, d). ok (answer a, d)) h in
      (a, e ∙ ap (λ d. ok (a, d)) (db_of_pair k))

  pub agent_checked :
      {A : Type 0} (agent_ref : String) (k : ApiResult A) {x : A}
      → (require_agent auth agent_ref >> k) ≡ ok x
      → k ≡ ok x
  agent_checked agent_ref k h =
      let (_, _, rest) = >>=-eq-ok (require_agent auth agent_ref) _ h in rest

  -- What `start_turn` was called with, where its handler has answered.
  pub started :
      (body : String) (db : Db) {reply : Reply} {db' : Db}
      → start_turn_handler services.hash services.parse_start_turn auth body fresh db
        ≡ ok (reply, db')
      → (request : StartTurn) × (r : StartTurnResult) × (start_turn services.hash auth.actor
            auth.client_id request fresh db
          ≡ ok (r, db'))
  unfolding start_turn_handler
  started body db h =
      let (request, _, k₀) = >>=-eq-ok (services.parse_start_turn body) _ h in
      let k₁ = checked transcript_append _ (checked turn_create _ k₀) in
      let k₂ = agent_checked (trim request.agent_ref) _ k₁ in
      let (_, _, k₃) =
        >>=-eq-ok (require_if (is_some request.conversation) auth conversation_create) _ k₂ in
      let (r, e) =
        operated (start_turn services.hash auth.actor auth.client_id request fresh db)
          (λ r. record { status = start_status r.replayed; body = started_body r }) k₃ in
      (request, r, e)

  -- A request that is answered keeps the tables a ledger.
  pub handle-IsLedger :
      (request : Request) (db : Db) {reply : Reply} {db' : Db}
      → OnlyGrows between
      → IsLedger db
      → handle services auth fresh between request db ≡ ok (reply, db')
      → IsLedger db'
  unfolding handle create_conversation_handler update_conversation_handler
      delete_conversation_handler append_items_handler truncate_conversation_handler
      regenerate_conversation_handler start_turn_handler create_turn_handler update_turn_handler
      create_continuation_handler
  handle-IsLedger (creates_conversation r) db calm l h =
      let (c, e) =
        operated _ (λ c. created_reply (conversation_body c)) (checked conversation_create _ h) in
      create_conversation-IsLedger auth.actor r fresh.now fresh.conversation_ulid db l e
  handle-IsLedger (lists_conversations limit) db calm l h =
      let (_, _, e) = answered _ db h in subst IsLedger (sym e) l
  handle-IsLedger (gets_conversation id) db calm l h =
      let (_, _, e) = answered _ db h in subst IsLedger (sym e) l
  handle-IsLedger (updates_conversation id r) db calm l h =
      let (c, e) =
        operated _ (λ c. ok_reply (conversation_body c)) (checked conversation_update _ h) in
      update_conversation-IsLedger services.concat auth.actor id r fresh.now db l e
  handle-IsLedger (deletes_conversation id) db calm l h =
      let (d, e, k) =
        >>=-eq-ok (delete_conversation auth.actor id db) _ (checked conversation_delete _ h) in
      subst IsLedger (db_of_pair k) (delete_conversation-IsLedger auth.actor id db l e)
  handle-IsLedger (lists_items id after_seq limit) db calm l h =
      let (_, _, e) = answered _ db h in subst IsLedger (sym e) l
  handle-IsLedger (appends_items id r) db calm l h =
      let (_, e) = operated _ (λ r. ok_reply (appended_body r)) (checked transcript_append _ h) in
      append_items-IsLedger auth.actor id r fresh.now fresh.item_ulid db l e
  handle-IsLedger (replays id r) db calm l h =
      let (_, _, e) = answered _ db h in subst IsLedger (sym e) l
  handle-IsLedger (replays_for_agent id turn_id body) db calm l h =
      let (_, _, e) = answered _ db h in subst IsLedger (sym e) l
  handle-IsLedger (truncates id item_id) db calm l h =
      let (d, e, k) =
        >>=-eq-ok (truncate_conversation auth.actor id item_id fresh.now db) _
          (checked conversation_truncate _ h) in
      subst IsLedger (db_of_pair k)
        (truncate_conversation-IsLedger auth.actor id item_id fresh.now db l e)
  handle-IsLedger (regenerates id) db calm l h =
      let (_, e) =
        operated _ (λ t. ok_reply (regenerated_body t)) (checked conversation_regenerate _ h) in
      regenerate_conversation-IsLedger auth.actor id fresh.now db l e
  handle-IsLedger (starts_turn body) db calm l h =
      let (request, _, e) = started body db h in
      start_turn-IsLedger services.hash auth.actor auth.client_id request fresh db l e
  handle-IsLedger (creates_turn id r) db calm l h =
      let (_, e) =
        operated _ (λ t. created_reply (turn_body t))
          (agent_checked (trim r.agent_ref) _ (checked turn_create _ h)) in
      create_turn-IsLedger auth.actor id r fresh.now fresh.turn_ulid fresh.snapshot_ulid db l e
  handle-IsLedger (lists_turns id) db calm l h =
      let (_, _, e) = answered _ db h in subst IsLedger (sym e) l
  handle-IsLedger (gets_active_turn id) db calm l h =
      let (_, _, e) = answered _ db h in subst IsLedger (sym e) l
  handle-IsLedger (gets_turn id) db calm l h =
      let (_, _, e) = answered _ db h in subst IsLedger (sym e) l
  handle-IsLedger (updates_turn id r) db calm l h =
      let (_, e) = operated _ (λ t. ok_reply (turn_body t)) (checked turn_update _ h) in
      update_turn-IsLedger auth.actor id r fresh.now db l e
  handle-IsLedger (creates_continuation id r) db calm l h =
      let (_, e) =
        operated _ (λ k. created_reply (continuation_body k)) (checked continuation_write _ h) in
      (create_continuation-IsLedger between auth.actor id r fresh.now fresh.start_ulid db calm l
        e).0
  handle-IsLedger (gets_continuation response_id agent_ref) db calm l h =
      let (_, _, e) = answered _ db h in subst IsLedger (sym e) l
