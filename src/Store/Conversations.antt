-- ===== src/Store/Conversations.antt =====
-- src/store.rs: conversations.
use Prim.Native.String.{count}
use threadmark.Common.Text.{trim, is_empty}
use threadmark.Common.Order.{order_by, sort_by}
use threadmark.Common.Int.{ℤ, max_zero, clamp_limit}
use threadmark.Error.{ApiResult, ok, err, ◌>>=◌, ◌>>◌, reject_if, ok_or, bad_request, not_found}
use threadmark.Ids.{new_id}
use threadmark.Model.{Actor, Conversation, CreateConversation, UpdateConversation, Item}
use threadmark.Model.Json.{Value, is_object}
use threadmark.Db.{Db, insert_conversation}
use threadmark.Common.{
  ℕ, String, Bool, false, ◌&&◌, ◌||◌, not, Option, none, some, List, ◌==◌, ltb, leb, if◌then◌else◌,
  is_some, unwrap_or, take, filter, find, any, remove, update,
}

unfoldable pub normalize_title : Option String → ApiResult String
unfolding trim
normalize_title value =
    let title = trim (unwrap_or value "New conversation") in
    if is_empty title || ltb 200 (count title)
    then err (bad_request "title must contain 1 to 200 characters")
    else ok title

abbrev pub new_conversation : String → Actor → String → Value → ℕ → Conversation
new_conversation ulid actor title metadata now = record {
  id = new_id "conv" ulid;
  tenant_id = actor.tenant_id;
  owner_ref = actor.principal_id;
  title = title;
  metadata = metadata;
  next_seq = 1;
  created_at = now;
  updated_at = now;
}

-- WHERE id = $1 AND tenant_id = $2 AND owner_ref = $3
abbrev pub owned_as : Actor → String → Conversation → Bool
owned_as actor id c =
    c.id == id && c.tenant_id == actor.tenant_id && c.owner_ref == actor.principal_id

unfoldable pub create_conversation :
    Actor → CreateConversation → (now : ℕ) (ulid : String) → Db → ApiResult (Conversation × Db)
unfolding normalize_title insert_conversation
create_conversation actor request now ulid db = do
  reject_if (not (is_object request.metadata)) (bad_request "metadata must be a JSON object")
  title ← normalize_title request.title
  let c = new_conversation ulid actor title request.metadata now
  db' ← insert_conversation c db
  ok (c, db')

-- ORDER BY updated_at DESC LIMIT
unfoldable pub list_conversations : Actor → ℤ → Db → List Conversation
unfolding sort_by clamp_limit
list_conversations actor limit db = take (clamp_limit limit) (
    sort_by (λ c d. leb d.updated_at c.updated_at)
      (filter (λ c. c.tenant_id == actor.tenant_id && c.owner_ref == actor.principal_id)
        db.conversations))

unfoldable pub get_conversation : Actor → String → Db → ApiResult Conversation
get_conversation actor id db =
    ok_or (find (owned_as actor id) db.conversations) (not_found "Conversation not found.")

-- The same row, locked for the rest of the transaction.
unfoldable pub lock_conversation : Actor → String → Db → ApiResult Conversation
lock_conversation actor id db =
    ok_or (find (owned_as actor id) db.conversations) (not_found "Conversation not found.")

abbrev pub normalize_new_title : Option String → ApiResult (Option String)
normalize_new_title none = ok none
normalize_new_title (some t) = do t' ← normalize_title (some t); ok (some t')

abbrev pub metadata_is_bad : Option Value → Bool
metadata_is_bad none = false
metadata_is_bad (some m) = not (is_object m)

-- `jsonb` concatenation, `a || b`, is the database's.
abbrev pub concat_some : (Value → Value → Value) → Value → Option Value → Value
concat_some concat old none = old
concat_some concat old (some m) = concat old m

unfoldable pub update_conversation :
    (concat : Value → Value → Value)
    → Actor
    → String
    → UpdateConversation
    → (now : ℕ) → Db
    → ApiResult (Conversation × Db)
unfolding normalize_title
update_conversation concat actor id request now db = do
  reject_if (not (is_some request.title) && not (is_some request.metadata))
      (bad_request "No conversation changes supplied.")
  title ← normalize_new_title request.title
  reject_if (metadata_is_bad request.metadata) (bad_request "metadata must be a JSON object")
  c ← ok_or (find (owned_as actor id) db.conversations) (not_found "Conversation not found.")
  let change = λ (d : Conversation). record d {
    title = unwrap_or title d.title;
    metadata = concat_some concat d.metadata request.metadata;
    updated_at = now;
  }
  ok (change c, record db { conversations = update (owned_as actor id) change db.conversations })

-- DELETE FROM conversation_items, and ON DELETE CASCADE the references of the items.
unfoldable pub delete_items : (Item → Bool) → Db → Db
delete_items p db = record db {
  conversation_items = remove p db.conversation_items;
  conversation_item_files =
      remove (λ r. any (λ i. p i && i.id == r.item_id) db.conversation_items)
        db.conversation_item_files;
}

-- ON DELETE CASCADE: the turns of a conversation, their snapshots and the files of these.
unfoldable pub delete_turns : String → Db → Db
delete_turns id db =
    let gone =
      λ (turn_id : String). any (λ t. t.conversation_id == id && t.id == turn_id) db.turns in
    record db {
      turns = remove (λ t. t.conversation_id == id) db.turns;
      turn_file_snapshots = remove (λ s. gone s.turn_id) db.turn_file_snapshots;
      turn_file_snapshot_files =
          remove (λ r. any (λ s. gone s.turn_id && s.id == r.snapshot_id) db.turn_file_snapshots)
            db.turn_file_snapshot_files;
    }

-- ON DELETE CASCADE from a conversation.
unfoldable pub cascade : String → Db → Db
unfolding delete_items delete_turns
cascade id db =
    let db' = delete_turns id (delete_items (λ i. i.conversation_id == id) db) in
    record db' {
      append_batches = remove (λ b. b.conversation_id == id) db'.append_batches;
      continuations = remove (λ k. k.conversation_id == id) db'.continuations;
    }

unfoldable pub delete_conversation : Actor → String → Db → ApiResult Db
unfolding cascade
delete_conversation actor id db = do
  reject_if (not (any (owned_as actor id) db.conversations)) (not_found "Conversation not found.")
  let db' = cascade id db
  ok (record db' { conversations = remove (owned_as actor id) db'.conversations })

-- The rows of one conversation.
abbrev pub transcript : Db → String → List Item
transcript db id = filter (λ i. i.conversation_id == id) db.conversation_items

unfoldable pub list_items : Actor → String → (after_seq limit : ℤ) → Db → ApiResult (List Item)
unfolding get_conversation order_by clamp_limit max_zero
list_items actor id after_seq limit db = do
  _ ← get_conversation actor id db
  ok (
      take (clamp_limit limit) (
        order_by (λ i. i.seq)
          (filter (λ i. i.conversation_id == id && ltb (max_zero after_seq) i.seq)
            db.conversation_items)))
