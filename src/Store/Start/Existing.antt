-- ===== src/Store/Start/Existing.antt =====
-- src/store.rs: the part of `start_turn` that answers for a start on record.
use threadmark.Common.Order.{order_by}
use threadmark.Error.{ApiResult, ok, err, ◌>>◌, reject_if, not_found, coded_conflict}
use threadmark.Model.{Actor, StartTurn, StartTurnResult}
use threadmark.Db.{Db, TurnStart, TurnStartItem}
use threadmark.Store.Conversations.{owned_as}
use threadmark.Store.Start.Request.{Digest}
use threadmark.Common.{
  ℕ, suc, ◌+◌, ◌-◌, String, Bool, true, false, ◌&&◌, ◌||◌, not, Option, none, some, List, [], ◌∷◌,
  map, ◌==◌, ltb, eqb, if◌then◌else◌, some_eq, length, filter, find, any,
}

unfoldable pub find_start : Actor → (client_id key : String) → Db → Option TurnStart
find_start actor client_id key db =
    find
      (λ s.
        s.tenant_id == actor.tenant_id
        && s.owner_ref == actor.principal_id
        && s.client_id == client_id
        && s.idempotency_key == key)
      db.turn_starts

-- A recorded item, and whether the transcript still has it.
pub record Child : Type 0 where
  pub ordinal : ℕ
  pub item_id : String
  pub seq : ℕ
  pub present : Option String

-- … LEFT JOIN conversation_items i ON i.id = tsi.item_id AND …
abbrev pub join_item : TurnStart → Db → TurnStartItem → Child
join_item s db r = record {
  ordinal = r.ordinal;
  item_id = r.item_id;
  seq = r.seq;
  present =
      if any
        (λ i.
          i.id == r.item_id
          && i.conversation_id == s.conversation_id
          && some_eq i.turn_id s.turn_id
          && eqb i.seq r.seq)
        db.conversation_items
      then some r.item_id
      else none;
}

unfoldable pub start_children : TurnStart → Db → List Child
unfolding order_by
start_children s db =
    map (join_item s db)
      (order_by (λ r. r.ordinal) (filter (λ r. r.turn_start_id == s.id) db.turn_start_items))

-- children.iter().enumerate().all(…)
unfoldable pub children_match : (first_seq index : ℕ) → List Child → Bool
children_match first_seq index [] = true
children_match first_seq index (c ∷ cs) =
    (eqb c.ordinal index && eqb c.seq (first_seq + index) && some_eq c.present c.item_id)
    && children_match first_seq (suc index) cs

unfoldable pub valid_children : TurnStart → List Child → Bool
unfolding children_match
valid_children s children =
    let expected_count = s.last_seq + 1 - s.first_seq in
    ltb 0 expected_count
    && eqb (length children) expected_count
    && children_match s.first_seq 0 children

-- The request differs from the one on record.
abbrev pub key_reused : Actor → StartTurn → Db → ApiResult (Unit {0})
key_reused actor request db = do
  reject_if
      (elim request.conversation_id [
        | none ↦ false
        | some id ↦ not (any (owned_as actor id) db.conversations)
      ])
      (not_found "Conversation not found.")
  err (
      coded_conflict "idempotency_key_reused"
        "idempotency_key was already used for a different request")

unfoldable pub existing_result :
    Actor → StartTurn → Digest → TurnStart → Db → ApiResult StartTurnResult
unfolding start_children valid_children
existing_result actor request digest s db = do
  reject_if (not (eqb s.request_version 1)) (
      coded_conflict "idempotency_version_unsupported"
        "the original request version is not supported by this server")
  if s.request_digest == digest then ok tt else key_reused actor request db
  let children = start_children s db
  reject_if
      (not (any (owned_as actor s.conversation_id) db.conversations)
        || not (valid_children s children))
      (coded_conflict "idempotency_result_deleted"
        "the original turn start result is no longer available")
  ok (record {
    conversation_id = s.conversation_id;
    turn_id = s.turn_id;
    item_ids = map (λ (c : Child). c.item_id) children;
    first_seq = s.first_seq;
    last_seq = s.last_seq;
    replayed = true;
  })
