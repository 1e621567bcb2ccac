-- ===== src/Store/Start.antt =====
-- src/store.rs: `start_turn`, and the digest of its request.
pub mod Request
pub mod Existing
pub mod Laws
use threadmark.Common.Int.{pos}
use threadmark.Error.{
  ApiError, ApiResult, ok, err, ◌>>=◌, ◌>>◌, reject_if, ok_or, coded_conflict, database, violates,
}
use threadmark.Ids.{new_id}
use threadmark.Model.{Actor, Conversation, CreateConversation, Item, StartTurn, StartTurnResult}
use threadmark.Model.Json.{Value}
use threadmark.Db.{Db, TurnStart, TurnStartItem, max_i64, insert_conversation, insert_turn}
use threadmark.Store.References.{batch_file_ids}
use threadmark.Store.Conversations.{new_conversation, lock_conversation}
use threadmark.Store.Items.{Batch, insert_items, set_next_seq}
use threadmark.Store.Snapshots.{lock_turn_files, create_turn_file_snapshot}
use threadmark.Store.Turns.{has_active, active_turn_exists, as_conflict, map_err, pending_turn}
use Request.{Digest, TurnStartDigest, normalize_request, turn_start_digest_v1}
use Existing.{find_start, existing_result}
use threadmark.Common.{
  ℕ, zero, suc, ◌+◌, ◌-◌, ◌*◌, ◌/◌, ◌%◌, ◌^◌, ◌≤◌, ◌<◌, min, String, ◌≡◌, refl, sym, ap, ◌∙◌, ◌≢◌,
  ◌↔◌, ◌⊎◌, inl, inr, Bool, true, false, ◌&&◌, ◌||◌, not, Option, none, some, List, [], ◌∷◌, ◌++◌,
  map, append-nil, append_assoc, arith, ◌==◌, eq_iff, eq_refl, ltb, leb, eqb, if◌then◌else◌,
  some_eq, is_some, unwrap_or, ltb→lt, leb→le, leb-false, Bool-cases, Option-cases, eq-of-some_eq,
  length, length-append, take, length-take_le, All, All-append, All-append_left, All-of_forall,
  All-map, filter, find, any, all, remove, update, or_else, filter-append, find-append, any-append,
  filter_none, filter-All, All-not_of_any, any-of_All, find_sound, any-of_find, find-none, All-find,
  All-filter, All-remove, All-passed,
}

-- What the clock and the generator of ULIDs give to one call.
pub record Fresh : Type 0 where
  pub now : ℕ
  pub conversation_ulid : String
  pub turn_ulid : String
  pub snapshot_ulid : String
  pub start_ulid : String
  pub item_ulid : ℕ → String

-- The locked conversation, or the new one.
unfoldable pub open_conversation : Actor → StartTurn → Fresh → Db → ApiResult (Conversation × Db)
unfolding lock_conversation insert_conversation
open_conversation actor request fresh db = elim request.conversation_id [
  | some id ↦ do c ← lock_conversation actor id db; ok (c, db)
  | none ↦ elim request.conversation [
    | some r ↦ do
      let c =
          new_conversation fresh.conversation_ulid actor (unwrap_or r.title "") r.metadata fresh.now
      db' ← insert_conversation c db
      ok (c, db')
    | none ↦ err (database (violates "unreachable"))
  ]
]

-- INSERT INTO turn_starts, with its keys.
unfoldable pub insert_start : TurnStart → Db → ApiResult Db
insert_start s db = do
  reject_if (any (λ t. t.id == s.id) db.turn_starts) (database (violates "turn_starts_pkey"))
  reject_if (any (λ t. t.turn_id == s.turn_id) db.turn_starts)
      (database (violates "turn_starts_turn_id_key"))
  reject_if
      (any
        (λ t.
          t.tenant_id == s.tenant_id
          && t.owner_ref == s.owner_ref
          && t.client_id == s.client_id
          && t.idempotency_key == s.idempotency_key)
        db.turn_starts)
      (database (violates "turn_starts_tenant_id_owner_ref_client_id_idempotency_key_key"))
  ok (record db { turn_starts = db.turn_starts ++ s ∷ [] })

-- for (ordinal, item_id) in item_ids.iter().enumerate() { INSERT INTO turn_start_items … }
unfoldable pub insert_start_items :
    String → (first_seq ordinal : ℕ) → List String → Db → ApiResult Db
insert_start_items start_id first_seq ordinal [] db = ok db
insert_start_items start_id first_seq ordinal (item_id ∷ rest) db = do
  let row : TurnStartItem = record {
    turn_start_id = start_id;
    ordinal = ordinal;
    item_id = item_id;
    seq = first_seq + ordinal;
  }
  reject_if
      (any
        (λ r.
          r.turn_start_id == start_id
          && (eqb r.ordinal row.ordinal || r.item_id == item_id || eqb r.seq row.seq))
        db.turn_start_items)
      (database (violates "turn_start_items_pkey"))
  insert_start_items start_id first_seq (suc ordinal) rest
      (record db { turn_start_items = db.turn_start_items ++ row ∷ [] })

-- The records of the start, written last.
unfoldable pub record_start : TurnStart → List String → Db → ApiResult Db
unfolding insert_start insert_start_items
record_start s item_ids db = do
  db' ← insert_start s db
  insert_start_items s.id s.first_seq 0 item_ids db'

-- From the conversation on: the turn, its snapshot and its items.
unfoldable pub write_turn :
    Actor
    → (client_id : String) → StartTurn
    → Digest
    → Fresh
    → Conversation
    → Db
    → ApiResult (StartTurnResult × Db)
unfolding lock_turn_files batch_file_ids insert_turn create_turn_file_snapshot insert_items
    set_next_seq record_start
write_turn actor client_id request digest fresh conversation db = do
  reject_if (has_active conversation.id db) active_turn_exists
  lock_turn_files actor conversation.id (batch_file_ids request.items) db
  let turn = pending_turn fresh.turn_ulid conversation.id request.agent_ref none fresh.now
  db₁ ← map_err as_conflict (insert_turn turn db)
  db₂ ← create_turn_file_snapshot conversation.id turn.id fresh.snapshot_ulid db₁
  let first_seq = conversation.next_seq
  let next_seq = first_seq + length request.items
  reject_if (ltb max_i64 next_seq)
      (coded_conflict "sequence_space_exhausted" "sequence space exhausted")
  let batch : Batch = record {
    conversation_id = conversation.id;
    turn_id = some turn.id;
    source = "user";
    now = fresh.now;
    ulid = fresh.item_ulid;
  }
  (rows, db₃) ← insert_items batch first_seq 0 request.items db₂
  db₄ ← set_next_seq conversation.id (pos next_seq) fresh.now db₃
  let item_ids = map (λ (i : Item). i.id) rows
  db₅ ←
      record_start
        (record {
          id = new_id "tstart" fresh.start_ulid;
          tenant_id = actor.tenant_id;
          owner_ref = actor.principal_id;
          client_id = client_id;
          idempotency_key = request.idempotency_key;
          request_version = 1;
          request_digest = digest;
          conversation_id = conversation.id;
          turn_id = turn.id;
          first_seq = first_seq;
          last_seq = next_seq - 1;
        })
        item_ids db₄
  ok (
    record {
      conversation_id = conversation.id;
      turn_id = turn.id;
      item_ids = item_ids;
      first_seq = first_seq;
      last_seq = next_seq - 1;
      replayed = false;
    },
    db₅,
  )

-- The transaction after the lookup of the idempotency key has found nothing.
unfoldable pub start_new :
    Actor
    → (client_id : String) → StartTurn
    → Digest
    → Fresh
    → Db
    → ApiResult (StartTurnResult × Db)
unfolding open_conversation write_turn
start_new actor client_id request digest fresh db = do
  (conversation, db') ← open_conversation actor request fresh db
  write_turn actor client_id request digest fresh conversation db'

-- `hash` is SHA-256 of the canonical JSON; `none` where the JSON cannot be made canonical.
module _ (hash : TurnStartDigest → Option Digest) where
  unfoldable pub start_turn :
      Actor → (client_id : String) → StartTurn → Fresh → Db → ApiResult (StartTurnResult × Db)
  unfolding normalize_request turn_start_digest_v1 find_start existing_result start_new
  start_turn actor client_id request fresh db = do
    r ← normalize_request request
    digest ← turn_start_digest_v1 hash r
    elim (find_start actor client_id r.idempotency_key db) [
      | some s ↦ do result ← existing_result actor r digest s db; ok (result, db)
      | none ↦ start_new actor client_id r digest fresh db
    ]
