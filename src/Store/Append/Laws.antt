-- ===== src/Store/Append/Laws.antt =====
-- `append_items`, by how it ends.
use threadmark.Model.Json.{Value}
use threadmark.Common.Int.{ℤ, pos, wrap_i64}
use threadmark.Error.{ok_or-eq-ok, ok, reject_if-ok, >>=-eq-ok, ok-injective}
use threadmark.Model.{Actor, Conversation, Item, AppendItems, AppendResult}
use threadmark.Store.Conversations.{owned_as, lock_conversation}
use threadmark.Db.{Db, AppendBatch, max_i64}
use threadmark.Store.References.{batch_file_ids}
use threadmark.Store.Items.{Batch, insert_items, set_next_seq, write_next_seq}
use threadmark.Store.Items.Laws.{batch_rows, batch_references, with_rows, insert_items-ok}
use threadmark.Store.Append.{
  check_items, check_append, find_batch, batch_items, append_items, is_source, turn_is_foreign,
  check_files, insert_batch, append_new,
}
use threadmark.Common.{
  ℕ, zero, suc, ◌+◌, ◌-◌, ◌^◌, ◌≤◌, ◌<◌, String, ◌≡◌, refl, sym, ap, ◌∙◌, ◌⊎◌, inl, inr, true,
  false, not, none, some, List, [], ◌∷◌, ◌++◌, arith, Option-cases, length, find,
}

-- What a new batch has in common, and its record.
abbrev pub append_batch : String → AppendItems → (now : ℕ) → (ℕ → String) → Batch
append_batch conversation_id request now ulid = record {
  conversation_id = conversation_id;
  turn_id = request.turn_id;
  source = request.source;
  now = now;
  ulid = ulid;
}

abbrev pub batch_record : String → AppendItems → (first_seq now : ℕ) → AppendBatch
batch_record conversation_id request first_seq now = record {
  conversation_id = conversation_id;
  idempotency_key = request.idempotency_key;
  first_seq = first_seq;
  last_seq = first_seq + length request.items - 1;
  created_at = now;
}

abbrev pub appended_rows : String → AppendItems → (first_seq now : ℕ) → (ℕ → String) → List Item
appended_rows conversation_id request first_seq now ulid =
    batch_rows (append_batch conversation_id request now ulid) first_seq 0 request.items

abbrev pub with_batch : AppendBatch → Db → Db
with_batch b db = record db { append_batches = db.append_batches ++ b ∷ [] }

-- The tables after a new batch that begins at `first_seq`.
abbrev pub appended : String → AppendItems → (first_seq now : ℕ) → (ℕ → String) → Db → Db
appended conversation_id request first_seq now ulid db =
    let rows = appended_rows conversation_id request first_seq now ulid in
    write_next_seq conversation_id (first_seq + length request.items) now (
      with_batch (batch_record conversation_id request first_seq now)
        (with_rows db rows (batch_references rows)))

insert_batch-ok :
    (b : AppendBatch) (db : Db) {db' : Db} → insert_batch b db ≡ ok db' → db' ≡ with_batch b db
unfolding insert_batch
insert_batch-ok b db h = ground arith

pub set_next_seq-ok :
    (id : String) (z : ℤ) (now : ℕ) (db : Db) {db' : Db}
    → set_next_seq id z now db ≡ ok db'
    → (n : ℕ) × (z ≡ pos (suc n)) × (db' ≡ write_next_seq id (suc n) now db)
unfolding set_next_seq
set_next_seq-ok id (pos zero) now db h = absurd (ground arith)
set_next_seq-ok id (pos (suc n)) now db h = (n, refl, ground arith)
set_next_seq-ok id (ℤ.negsuc n) now db h = absurd (ground arith)

-- Below 2 ^ 64 a wrapped number that is positive has not wrapped.
wrapped_pos : (m n : ℕ) → m < 2 ^ 64 → wrap_i64 m ≡ pos n → (m ≡ n) × (m ≤ max_i64)
unfolding wrap_i64
wrapped_pos m n l h = ground arith

pub append_new-ok :
    (actor : Actor) (conv : Conversation) (id : String) (request : AppendItems) (now : ℕ)
    (ulid : ℕ → String) (db : Db) {r : AppendResult} {db' : Db}
    → 1 ≤ length request.items
    → length request.items ≤ 100
    → conv.next_seq ≤ max_i64
    → append_new actor conv id request now ulid db ≡ ok (r, db')
    → (r ≡ record { items = appended_rows id request conv.next_seq now ulid; replayed = false })
      × (db' ≡ appended id request conv.next_seq now ulid db)
      × (conv.next_seq + length request.items ≤ max_i64)
unfolding append_new
append_new-ok actor conv id request now ulid db {r} {db'} some_items few fits h =
    let first_seq = conv.next_seq in
    let n = length request.items in
    let batch = append_batch id request now ulid in
    let b = batch_record id request first_seq now in
    let rows = appended_rows id request first_seq now ulid in
    let (_, k₀) = reject_if-ok (turn_is_foreign request.turn_id id db) _ _ h in
    let (_, e₁, k₁) = >>=-eq-ok (check_files actor (batch_file_ids request.items) db) _ k₀ in
    let (p, e₂, k₂) = >>=-eq-ok (insert_items batch first_seq 0 request.items db) _ k₁ in
    let (db₂, e₃, k₃) = >>=-eq-ok (insert_batch b p.1) _ k₂ in
    let (db₃, e₄, k₄) =
      >>=-eq-ok (set_next_seq id (wrap_i64 (first_seq + n - 1 + 1)) now db₂) _ k₃ in
    let (same_rows, same_db) = insert_items-ok batch first_seq 0 request.items db e₂ in
    let (m, wrapped, written) = set_next_seq-ok id (wrap_i64 (first_seq + n - 1 + 1)) now db₂ e₄ in
    let (exact, small) = wrapped_pos (first_seq + n - 1 + 1) (suc m) (omega arith) wrapped in
    let next : suc m ≡ first_seq + n = omega arith in
    let last : db₂ ≡ with_batch b (with_rows db rows (batch_references rows)) =
      insert_batch-ok b p.1 e₃ ∙ ap (with_batch b) same_db in
    let both = ok-injective k₄ in
    (
      sym (ap (λ q. q.0) both) ∙ ap (λ is. record { items = is; replayed = false }) same_rows,
      sym (ap (λ q. q.1) both)
          ∙ written
          ∙ ap (λ t. write_next_seq id t now db₂) next
          ∙ ap (write_next_seq id (first_seq + n) now) last,
      omega arith,
    )

-- The checks of a request leave between 1 and 100 items, each a JSON object.
check_items-ok :
    (items : List Value) {u : Unit {0}}
    → check_items items ≡ ok u
    → (1 ≤ length items) × (length items ≤ 100)
unfolding check_items
check_items-ok items h = ground arith

check_append-ok :
    (request : AppendItems) {u : Unit {0}}
    → check_append request ≡ ok u
    → (1 ≤ length request.items) × (length request.items ≤ 100)
unfolding check_append
check_append-ok request h =
    let (_, k₀) = reject_if-ok _ _ _ h in
    let (_, k₁) = reject_if-ok (not (is_source request.source)) _ _ k₀ in
    check_items-ok request.items k₁

-- A successful call has found the conversation, and has either found the key or written a new batch.
pub record Answered (actor : Actor) (id : String) (request : AppendItems) (now : ℕ)
    (ulid : ℕ → String) (db : Db) (r : AppendResult) (db' : Db) : Type 0 where
  pub conv : Conversation
  pub found : find (owned_as actor id) db.conversations ≡ some conv
  pub some_items : 1 ≤ length request.items
  pub few_items : length request.items ≤ 100
  pub how :
      ((b : AppendBatch) × (find_batch id request.idempotency_key db ≡ some b)
        × (r ≡ record { items = batch_items id b.first_seq b.last_seq db; replayed = true })
        × (db' ≡ db))
      ⊎ ((find_batch id request.idempotency_key db ≡ none)
          × (append_new actor conv id request now ulid db ≡ ok (r, db')))

pub append_items-ok :
    (actor : Actor) (id : String) (request : AppendItems) (now : ℕ) (ulid : ℕ → String) (db : Db)
    {r : AppendResult} {db' : Db}
    → append_items actor id request now ulid db ≡ ok (r, db')
    → Answered actor id request now ulid db r db'
unfolding append_items lock_conversation
append_items-ok actor id request now ulid db {r} {db'} h =
    let (u, e₁, k₁) = >>=-eq-ok (check_append request) _ h in
    let (conv, e₂, k₂) = >>=-eq-ok (lock_conversation actor id db) _ k₁ in
    let (some_items, few_items) = check_append-ok request e₁ in
    record {
      conv = conv;
      found = ok_or-eq-ok (find (owned_as actor id) db.conversations) _ e₂;
      some_items = some_items;
      few_items = few_items;
      how = elim (Option-cases (find_batch id request.idempotency_key db)) [
        | inl missing ↦ inr (missing, rw missing at k₂)
        | inr (b, known) ↦
            let both = ok-injective (rw known at k₂) in
            inl (b, known, sym (ap (λ q. q.0) both), sym (ap (λ q. q.1) both))
      ];
    }

-- A key that is on record is answered from the transcript, and nothing is written.
pub append_items-replay :
    (actor : Actor) (id : String) (request : AppendItems) (now : ℕ) (ulid : ℕ → String) (db : Db)
    {conv : Conversation} {b : AppendBatch}
    → check_append request ≡ ok tt
    → find (owned_as actor id) db.conversations ≡ some conv
    → find_batch id request.idempotency_key db ≡ some b
    → append_items actor id request now ulid db
      ≡ ok (record { items = batch_items id b.first_seq b.last_seq db; replayed = true }, db)
unfolding append_items lock_conversation
append_items-replay actor id request now ulid db valid found known = rw (valid, found, known)
