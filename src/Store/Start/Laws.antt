-- ===== src/Store/Start/Laws.antt =====
-- `start_turn` of src/store.rs: what a successful start has written.
use threadmark.Db.{is_active, same_key, TurnStartItem, TurnStart, Db, insert_turn}
use threadmark.Ids.{new_id}
use threadmark.Store.Start.{new_id, map_err, insert_start_items, insert_start, record_start}
use threadmark.Error.{err, ok-injective, >>=-eq-ok, reject_if-ok, ApiResult, ok, ApiError}
use threadmark.Store.Snapshots.{conversation_files, create_turn_file_snapshot}
use mathlib.Core.Path.{subst}
use threadmark.Store.References.{sort_dedup}
use threadmark.Store.Turns.{map_err}
use threadmark.Model.{Turn}
use threadmark.Common.{
  ℕ, suc, ◌+◌, String, ◌≡◌, refl, sym, ap, ◌∙◌, ◌&&◌, ◌||◌, not, List, [], ◌∷◌, ◌++◌, append-nil,
  append_assoc, arith, ◌==◌, eqb, any, all,
}

-- Two states of the tables that agree on the transcripts and what refers to their positions, the second
-- with the turns `new` besides.
pub record SameLedger (new : List Turn) (db db' : Db) : Type 0 where
  pub conversations : db'.conversations ≡ db.conversations
  pub items : db'.conversation_items ≡ db.conversation_items
  pub batches : db'.append_batches ≡ db.append_batches
  pub checkpoints : db'.continuations ≡ db.continuations
  pub turns : db'.turns ≡ db.turns ++ new

same_refl : (db : Db) → SameLedger [] db db
same_refl db = record {
  conversations = refl;
  items = refl;
  batches = refl;
  checkpoints = refl;
  turns = sym (append-nil db.turns);
}

pub same_trans :
    (new more : List Turn) {a b c : Db}
    → SameLedger new a b
    → SameLedger more b c
    → SameLedger (new ++ more) a c
same_trans new more {a} p q = record {
  conversations = q.conversations ∙ p.conversations;
  items = q.items ∙ p.items;
  batches = q.batches ∙ p.batches;
  checkpoints = q.checkpoints ∙ p.checkpoints;
  turns = q.turns ∙ ap (λ ts. ts ++ more) p.turns ∙ append_assoc a.turns new more;
}

same_ok : (new : List Turn) {a b c : Db} → SameLedger new a b → ok b ≡ ok c → SameLedger new a c
same_ok new {a} p e = subst (SameLedger new a) (ok-injective e) p

pub insert_turn-SameLedger :
    (t : Turn) (db : Db) {db' : Db} → insert_turn t db ≡ ok db' → SameLedger (t ∷ []) db db'
unfolding insert_turn
insert_turn-SameLedger t db h =
    let (_, k₀) = reject_if-ok (any (λ u. u.id == t.id) db.turns) _ _ h in
    let (_, k₁) =
      reject_if-ok
        (any (λ u. u.conversation_id == t.conversation_id && same_key t.idempotency_key u) db.turns)
        _ _ k₀ in
    let (_, k₂) =
      reject_if-ok
        (is_active t && any (λ u. u.conversation_id == t.conversation_id && is_active u) db.turns) _
        _ k₁ in
    same_ok (t ∷ [])
      (record {
        conversations = refl;
        items = refl;
        batches = refl;
        checkpoints = refl;
        turns = refl;
      })
      k₂

pub map_err-ok :
    {A : Type 0} (f : ApiError → ApiError) (r : ApiResult A) {a : A} → map_err f r ≡ ok a → r ≡ ok a
map_err-ok f (ok x) h = h
map_err-ok f (err e) h = absurd (ground arith)

pub create_turn_file_snapshot-SameLedger :
    (conversation_id turn_id ulid : String) (db : Db) {db' : Db}
    → create_turn_file_snapshot conversation_id turn_id ulid db ≡ ok db'
    → SameLedger [] db db'
unfolding create_turn_file_snapshot
create_turn_file_snapshot-SameLedger conversation_id turn_id ulid db h =
    let file_ids = sort_dedup (conversation_files conversation_id db) in
    let (_, k₀) =
      reject_if-ok (any (λ s. s.id == new_id "fsnap" ulid) db.turn_file_snapshots) _ _ h in
    let (_, k₁) = reject_if-ok (any (λ s. s.turn_id == turn_id) db.turn_file_snapshots) _ _ k₀ in
    let (_, k₂) = reject_if-ok (not (all (λ id. any (λ f. f.id == id) db.files) file_ids)) _ _ k₁ in
    same_ok []
      (record {
        conversations = refl;
        items = refl;
        batches = refl;
        checkpoints = refl;
        turns = sym (append-nil db.turns);
      })
      k₂

insert_start-SameLedger :
    (s : TurnStart) (db : Db) {db' : Db} → insert_start s db ≡ ok db' → SameLedger [] db db'
unfolding insert_start
insert_start-SameLedger s db h =
    let (_, k₀) = reject_if-ok (any (λ t. t.id == s.id) db.turn_starts) _ _ h in
    let (_, k₁) = reject_if-ok (any (λ t. t.turn_id == s.turn_id) db.turn_starts) _ _ k₀ in
    let (_, k₂) =
      reject_if-ok
        (any
          (λ t.
            t.tenant_id == s.tenant_id
            && t.owner_ref == s.owner_ref
            && t.client_id == s.client_id
            && t.idempotency_key == s.idempotency_key)
          db.turn_starts)
        _ _ k₁ in
    same_ok []
      (record {
        conversations = refl;
        items = refl;
        batches = refl;
        checkpoints = refl;
        turns = sym (append-nil db.turns);
      })
      k₂

insert_start_items-SameLedger :
    (start_id : String) (first_seq ordinal : ℕ) (ids : List String) (db : Db) {db' : Db}
    → insert_start_items start_id first_seq ordinal ids db ≡ ok db'
    → SameLedger [] db db'
unfolding insert_start_items
insert_start_items-SameLedger start_id first_seq ordinal [] db h = same_ok [] (same_refl db) h
insert_start_items-SameLedger start_id first_seq ordinal (id ∷ ids) db h =
    let row : TurnStartItem = record {
      turn_start_id = start_id;
      ordinal = ordinal;
      item_id = id;
      seq = first_seq + ordinal;
    } in
    let (_, k) =
      reject_if-ok
        (any
          (λ r.
            r.turn_start_id == start_id
            && (eqb r.ordinal ordinal || r.item_id == id || eqb r.seq (first_seq + ordinal)))
          db.turn_start_items)
        _ _ h in
    let rest =
      insert_start_items-SameLedger start_id first_seq (suc ordinal) ids
        (record db { turn_start_items = db.turn_start_items ++ row ∷ [] }) k in
    record {
      conversations = rest.conversations;
      items = rest.items;
      batches = rest.batches;
      checkpoints = rest.checkpoints;
      turns = rest.turns;
    }

pub record_start-SameLedger :
    (s : TurnStart) (ids : List String) (db : Db) {db' : Db}
    → record_start s ids db ≡ ok db'
    → SameLedger [] db db'
unfolding record_start
record_start-SameLedger s ids db h =
    let (db₁, e, k) = >>=-eq-ok (insert_start s db) _ h in
    same_trans [] [] (insert_start-SameLedger s db e)
      (insert_start_items-SameLedger s.id s.first_seq 0 ids db₁ k)
