-- ===== src/Store/Append.antt =====
-- src/store.rs: `append_items`.
pub mod Laws
use Prim.Native.String.{len}
use threadmark.Common.Text.{trim, is_empty}
use threadmark.Common.Order.{order_by}
use threadmark.Common.Int.{wrap_i64}
use threadmark.Error.{
  ApiResult, ok, ◌>>=◌, ◌>>◌, reject_if, bad_request, not_found, database, violates,
}
use threadmark.Model.{Actor, Conversation, Item, AppendItems, AppendResult}
use threadmark.Model.Json.{Value, is_object}
use threadmark.Db.{Db, AppendBatch}
use threadmark.Store.References.{batch_file_ids}
use threadmark.Store.Conversations.{lock_conversation}
use threadmark.Store.Items.{Batch, insert_items, set_next_seq}
use threadmark.Common.{
  ℕ, zero, suc, ◌+◌, ◌-◌, ◌*◌, ◌/◌, ◌%◌, ◌^◌, ◌≤◌, ◌<◌, min, String, ◌≡◌, refl, sym, ap, ◌∙◌, ◌≢◌,
  ◌↔◌, ◌⊎◌, inl, inr, Bool, true, false, ◌&&◌, ◌||◌, not, Option, none, some, List, [], ◌∷◌, ◌++◌,
  map, append-nil, append_assoc, arith, ◌==◌, eq_iff, eq_refl, ltb, leb, eqb, if◌then◌else◌,
  some_eq, is_some, unwrap_or, ltb→lt, leb→le, leb-false, Bool-cases, Option-cases, eq-of-some_eq,
  length, length-append, take, length-take_le, All, All-append, All-append_left, All-of_forall,
  All-map, filter, find, any, all, remove, update, or_else, filter-append, find-append, any-append,
  filter_none, filter-All, All-not_of_any, any-of_All, find_sound, any-of_find, find-none, All-find,
  All-filter, All-remove, All-passed, any-update, find-update_ne, find-update, All-update, any_mono,
  filter-remove_spared, filter-remove, remove_congr, remove_none, All-removed, All-both,
  some-eq-some, filter_none_under,
}

abbrev pub is_source : String → Bool
is_source s = s == "user" || s == "agent" || s == "system"

-- The checks of `start_turn` and `append_items` on the items of a request.
unfoldable pub check_items : List Value → ApiResult (Unit {0})
check_items items = do
  reject_if (eqb (length items) 0 || ltb 100 (length items))
      (bad_request "items must contain between 1 and 100 entries")
  reject_if (any (λ v. not (is_object v)) items) (bad_request "each item must be a JSON object")

unfoldable pub check_append : AppendItems → ApiResult (Unit {0})
unfolding trim check_items
check_append request = do
  reject_if (is_empty (trim request.idempotency_key) || ltb 200 (len request.idempotency_key))
      (bad_request "idempotency_key must contain 1 to 200 characters")
  reject_if (not (is_source request.source)) (bad_request "source must be user, agent, or system")
  check_items request.items

unfoldable pub find_batch : String → String → Db → Option AppendBatch
find_batch conversation_id key db =
    find (λ b. b.conversation_id == conversation_id && b.idempotency_key == key) db.append_batches

-- WHERE conversation_id = $1 AND seq BETWEEN $2 AND $3
abbrev pub in_batch : String → (first_seq last_seq : ℕ) → Item → Bool
in_batch conversation_id first_seq last_seq i =
    i.conversation_id == conversation_id && leb first_seq i.seq && leb i.seq last_seq

-- The items of an earlier batch, as the transcript has them now.
unfoldable pub batch_items : String → (first_seq last_seq : ℕ) → Db → List Item
unfolding order_by
batch_items conversation_id first_seq last_seq db =
    order_by (λ i. i.seq)
      (filter (in_batch conversation_id first_seq last_seq) db.conversation_items)

abbrev pub turn_is_foreign : Option String → String → Db → Bool
turn_is_foreign none conversation_id db = false
turn_is_foreign (some turn_id) conversation_id db =
    not (any (λ t. t.id == turn_id && t.conversation_id == conversation_id) db.turns)

-- Every named file is a file of the actor.
unfoldable pub check_files : Actor → List String → Db → ApiResult (Unit {0})
check_files actor [] db = ok tt
check_files actor (id ∷ ids) db = do
  reject_if
      (not (
        any (λ f. f.id == id && f.tenant_id == actor.tenant_id && f.owner_ref == actor.principal_id)
          db.files))
      (not_found "File not found.")
  check_files actor ids db

-- INSERT INTO append_batches, with its primary key.
unfoldable pub insert_batch : AppendBatch → Db → ApiResult Db
insert_batch b db = do
  reject_if
      (any (λ d. d.conversation_id == b.conversation_id && d.idempotency_key == b.idempotency_key)
        db.append_batches)
      (database (violates "append_batches_pkey"))
  ok (record db { append_batches = db.append_batches ++ b ∷ [] })

-- The transaction's part after the lookup of the idempotency key has found nothing.
unfoldable pub append_new :
    Actor
    → Conversation
    → String
    → AppendItems
    → (now : ℕ) (ulid : ℕ → String) → Db
    → ApiResult (AppendResult × Db)
unfolding check_files batch_file_ids insert_items insert_batch set_next_seq wrap_i64
append_new actor conversation conversation_id request now ulid db = do
  reject_if (turn_is_foreign request.turn_id conversation_id db)
      (bad_request "turn_id does not belong to this conversation")
  check_files actor (batch_file_ids request.items) db
  let first_seq = conversation.next_seq
  let last_seq = first_seq + length request.items - 1
  let batch : Batch = record {
    conversation_id = conversation_id;
    turn_id = request.turn_id;
    source = request.source;
    now = now;
    ulid = ulid;
  }
  (inserted, db₁) ← insert_items batch first_seq 0 request.items db
  db₂ ←
      insert_batch
        (record {
          conversation_id = conversation_id;
          idempotency_key = request.idempotency_key;
          first_seq = first_seq;
          last_seq = last_seq;
          created_at = now;
        })
        db₁
  db₃ ← set_next_seq conversation_id (wrap_i64 (last_seq + 1)) now db₂
  ok (record { items = inserted; replayed = false }, db₃)

unfoldable pub append_items :
    Actor
    → String
    → AppendItems
    → (now : ℕ) (ulid : ℕ → String) → Db
    → ApiResult (AppendResult × Db)
append_items actor conversation_id request now ulid db = do
  check_append request
  conversation ← lock_conversation actor conversation_id db
  elim (find_batch conversation_id request.idempotency_key db) [
    | some b ↦ ok (
      record { items = batch_items conversation_id b.first_seq b.last_seq db; replayed = true },
      db,
    )
    | none ↦ append_new actor conversation conversation_id request now ulid db
  ]
