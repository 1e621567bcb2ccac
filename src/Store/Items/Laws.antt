-- ===== src/Store/Items/Laws.antt =====
-- What the rows of a batch do to the tables.
use threadmark.Error.{ok, >>=-eq-ok}
use threadmark.Model.{Item}
use threadmark.Model.Json.{Value}
use threadmark.Db.{Db, ItemFile, insert_item, insert_item_file}
use threadmark.Store.References.{referenced_file_ids}
use threadmark.Store.Items.{Batch, batch_row, insert_references, insert_items}
use threadmark.Common.{
  ℕ, suc, String, ◌≡◌, ap, ◌∙◌, List, [], ◌∷◌, ◌++◌, append-nil, append_assoc, arith,
}

-- The rows of a batch, and the references of each, as plain lists.
abbrev pub batch_rows : Batch → (first_seq offset : ℕ) → List Value → List Item
batch_rows b first_seq offset [] = []
batch_rows b first_seq offset (v ∷ vs) =
    batch_row b first_seq offset v ∷ batch_rows b first_seq (suc offset) vs

abbrev pub reference_rows : String → List String → List ItemFile
reference_rows item_id [] = []
reference_rows item_id (f ∷ fs) =
    record { item_id = item_id; file_id = f } ∷ reference_rows item_id fs

abbrev pub batch_references : List Item → List ItemFile
batch_references [] = []
batch_references (i ∷ is) =
    reference_rows i.id (referenced_file_ids i.payload) ++ batch_references is

abbrev pub with_rows : Db → List Item → List ItemFile → Db
with_rows db rows refs = record db {
  conversation_items = db.conversation_items ++ rows;
  conversation_item_files = db.conversation_item_files ++ refs;
}

insert_item-ok :
    (i : Item) (db : Db) {db' : Db} → insert_item i db ≡ ok db' → db' ≡ with_rows db (i ∷ []) []
unfolding insert_item
insert_item-ok i db h = ground (arith, append-nil db.conversation_item_files)

insert_item_file-ok :
    (r : ItemFile) (db : Db) {db' : Db}
    → insert_item_file r db ≡ ok db'
    → db' ≡ with_rows db [] (r ∷ [])
unfolding insert_item_file
insert_item_file-ok r db h = ground (arith, append-nil db.conversation_items)

with_rows-with_rows :
    (db : Db) (is js : List Item) (rs ss : List ItemFile)
    → with_rows (with_rows db is rs) js ss ≡ with_rows db (is ++ js) (rs ++ ss)
with_rows-with_rows db is js rs ss = simp append_assoc

pub insert_references-ok :
    (item_id : String) (fs : List String) (db : Db) {db' : Db}
    → insert_references item_id fs db ≡ ok db'
    → db' ≡ with_rows db [] (reference_rows item_id fs)
unfolding insert_references
insert_references-ok item_id [] db h =
    ground (arith, append-nil db.conversation_items, append-nil db.conversation_item_files)
insert_references-ok item_id (f ∷ fs) db {db'} h =
    let r : ItemFile = record { item_id = item_id; file_id = f } in
    let (db₁, e, k) = >>=-eq-ok (insert_item_file r db) _ h in
    insert_references-ok item_id fs db₁ k
    ∙ ap (λ d. with_rows d [] (reference_rows item_id fs)) (insert_item_file-ok r db e)
    ∙ with_rows-with_rows db [] [] (r ∷ []) (reference_rows item_id fs)

-- A batch that is inserted has put exactly its rows and their references at the ends of the two tables.
pub insert_items-ok :
    (b : Batch) (first_seq offset : ℕ) (vs : List Value) (db : Db) {rows : List Item} {db' : Db}
    → insert_items b first_seq offset vs db ≡ ok (rows, db')
    → let all_rows = batch_rows b first_seq offset vs in
      (rows ≡ all_rows) × (db' ≡ with_rows db all_rows (batch_references all_rows))
unfolding insert_items
insert_items-ok b first_seq offset [] db h =
    ground (arith, append-nil db.conversation_items, append-nil db.conversation_item_files)
insert_items-ok b first_seq offset (v ∷ vs) db {rows} {db'} h =
    let row = batch_row b first_seq offset v in
    let refs = reference_rows row.id (referenced_file_ids v) in
    let later = batch_rows b first_seq (suc offset) vs in
    let (db₁, e₁, k₁) = >>=-eq-ok (insert_item row db) _ h in
    let (db₂, e₂, k₂) = >>=-eq-ok (insert_references row.id (referenced_file_ids v) db₁) _ k₁ in
    let (p, e₃, k₃) = >>=-eq-ok (insert_items b first_seq (suc offset) vs db₂) _ k₂ in
    let (same_rows, same_db) = insert_items-ok b first_seq (suc offset) vs db₂ e₃ in
    let last : db' ≡ with_rows db₂ later (batch_references later) = cc in
    (
      cc,
      last
          ∙ ap (λ d. with_rows d later (batch_references later))
              (insert_references-ok row.id (referenced_file_ids v) db₁ e₂
                ∙ ap (λ d. with_rows d [] refs) (insert_item-ok row db e₁)
                ∙ with_rows-with_rows db (row ∷ []) [] [] refs)
          ∙ with_rows-with_rows db (row ∷ []) later refs (batch_references later),
    )
