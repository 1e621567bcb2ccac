-- ===== src/Store/Items.antt =====
-- src/store.rs: what `append_items` and `start_turn` share: the rows of a batch.
pub mod Laws
use threadmark.Common.Int.{ℤ, pos, negsuc}
use threadmark.Error.{ApiResult, ok, err, ◌>>=◌, database, violates}
use threadmark.Ids.{new_id}
use threadmark.Model.{Item}
use threadmark.Model.Json.{Value}
use threadmark.Db.{Db, insert_item, insert_item_file}
use threadmark.Store.References.{referenced_file_ids}
use threadmark.Common.{ℕ, zero, suc, ◌+◌, String, Option, List, [], ◌∷◌, ◌==◌, update}

-- The columns that the rows of a batch have in common, and the ULIDs of the rows.
pub record Batch : Type 0 where
  pub conversation_id : String
  pub turn_id : Option String
  pub source : String
  pub now : ℕ
  pub ulid : ℕ → String

-- for file_id in file_ids { INSERT INTO conversation_item_files … }
unfoldable pub insert_references : String → List String → Db → ApiResult Db
unfolding insert_item_file
insert_references item_id [] db = ok db
insert_references item_id (f ∷ fs) db = do
  db' ← insert_item_file (record { item_id = item_id; file_id = f }) db
  insert_references item_id fs db'

-- The row of the item at `offset`.
abbrev pub batch_row : Batch → ℕ → ℕ → Value → Item
batch_row b first_seq offset payload = record {
  id = new_id "item" (b.ulid offset);
  conversation_id = b.conversation_id;
  turn_id = b.turn_id;
  seq = first_seq + offset;
  source = b.source;
  payload = payload;
  created_at = b.now;
}

-- for (offset, payload) in request.items.into_iter().enumerate() { … }
-- A batch that runs past the largest `bigint` is refused by `set_next_seq` in the same transaction.
unfoldable pub insert_items :
    Batch → (first_seq offset : ℕ) → List Value → Db → ApiResult (List Item × Db)
unfolding insert_references insert_item referenced_file_ids
insert_items b first_seq offset [] db = ok ([], db)
insert_items b first_seq offset (payload ∷ rest) db = do
  let row = batch_row b first_seq offset payload
  db₁ ← insert_item row db
  db₂ ← insert_references row.id (referenced_file_ids payload) db₁
  (rows, db₃) ← insert_items b first_seq (suc offset) rest db₂
  ok (row ∷ rows, db₃)

-- UPDATE conversations SET next_seq = $2, updated_at = now() WHERE id = $1, with its CHECK.
abbrev pub write_next_seq : String → ℕ → ℕ → Db → Db
write_next_seq id next_seq now db = record db {
  conversations =
      update (λ c. c.id == id) (λ c. record c { next_seq = next_seq; updated_at = now })
        db.conversations;
}

unfoldable pub set_next_seq : String → ℤ → (now : ℕ) → Db → ApiResult Db
set_next_seq id (pos zero) now db = err (database (violates "conversations_next_seq_check"))
set_next_seq id (pos (suc n)) now db = ok (write_next_seq id (suc n) now db)
set_next_seq id (negsuc n) now db = err (database (violates "conversations_next_seq_check"))
