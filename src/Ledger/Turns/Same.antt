-- ===== src/Ledger/Turns/Same.antt =====
-- `create_turn` and `update_turn` of src/store.rs against the ledger.
use threadmark.Store.Start.Laws.{
  same_trans, create_turn_file_snapshot-SameLedger, map_err-ok, insert_turn-SameLedger,
}
use threadmark.Store.Snapshots.{create_turn_file_snapshot, lock_turn_files}
use threadmark.Db.{insert_turn, is_active, Db}
use threadmark.Store.Turns.{
  as_conflict, map_err, has_active, pending_turn, updated_turn, is_status, turn_is_owned,
  create_turn, update_turn,
}
use Prim.Native.String.{count}
use threadmark.Common.Text.{is_empty, trim}
use threadmark.Ledger.Turns.{db_of_pair, answered_turn}
use threadmark.Store.Conversations.{lock_conversation}
use threadmark.Model.{Turn, CreateTurn, UpdateTurn, Actor}
use threadmark.Error.{not_found, ok_or, >>=-eq-ok, reject_if-ok, ok}
use mathlib.Core.Path.{subst}
use threadmark.Ledger.{IsLedger}
use threadmark.Common.{
  ℕ, String, ◌≡◌, sym, ap, inl, inr, ◌&&◌, ◌||◌, not, some, [], ◌∷◌, ◌==◌, ltb, some_eq,
  Option-cases, find, any,
}

-- The four tables that a ledger is made of stay.
pub same-IsLedger :
    (db db' : Db)
    → db'.conversations ≡ db.conversations
    → db'.conversation_items ≡ db.conversation_items
    → db'.append_batches ≡ db.append_batches
    → db'.continuations ≡ db.continuations
    → IsLedger db
    → IsLedger db'
same-IsLedger db db' e is bs ks l = record {
  unique = rw e l.unique;
  items_owned = rw (e, is) l.items_owned;
  batches_owned = rw (e, bs) l.batches_owned;
  checkpoints_owned = rw (e, ks) l.checkpoints_owned;
  fits = rw (e, is, bs, ks) l.fits;
}

-- On tables that are a ledger, a successful `create_turn` leaves a ledger.
pub create_turn-IsLedger :
    (actor : Actor) (id : String) (request : CreateTurn) (now : ℕ)
    (turn_ulid snapshot_ulid : String) (db : Db) {t : Turn} {db' : Db}
    → IsLedger db
    → create_turn actor id request now turn_ulid snapshot_ulid db ≡ ok (t, db')
    → IsLedger db'
unfolding create_turn
create_turn-IsLedger actor id request now turn_ulid snapshot_ulid db l h =
    let key = request.idempotency_key in
    let agent_ref = trim request.agent_ref in
    let (_, e₀, k₀) = >>=-eq-ok (lock_conversation actor id db) _ h in
    elim (Option-cases
      (find (λ t. t.conversation_id == id && some_eq t.idempotency_key key) db.turns)) [
        | inr (t, known) ↦
            subst IsLedger
              (answered_turn
                (not (t.agent_ref == request.agent_ref) && not (t.agent_ref == agent_ref)) _ (t, db)
                (rw known at k₀))
              l
        | inl missing ↦
            let turn = pending_turn turn_ulid id agent_ref (some key) now in
            let (_, k₁) =
              reject_if-ok
                (is_empty agent_ref
                  || ltb 200 (count agent_ref)
                  || is_empty (trim key)
                  || ltb 200 (count key))
                _ _ (rw missing at k₀) in
            let (_, k₂) = reject_if-ok (has_active id db) _ _ k₁ in
            let (_, e₃, k₃) = >>=-eq-ok (lock_turn_files actor id [] db) _ k₂ in
            let (db₁, e₄, k₄) = >>=-eq-ok (map_err as_conflict (insert_turn turn db)) _ k₃ in
            let (db₂, e₅, k₅) =
              >>=-eq-ok (create_turn_file_snapshot id turn.id snapshot_ulid db₁) _ k₄ in
            let first = insert_turn-SameLedger turn db (map_err-ok as_conflict _ e₄) in
            let second = create_turn_file_snapshot-SameLedger id turn.id snapshot_ulid db₁ e₅ in
            let both = same_trans (turn ∷ []) [] first second in
            subst IsLedger (db_of_pair k₅)
              (same-IsLedger db db₂ both.conversations both.items both.batches both.checkpoints l)
      ]

-- On tables that are a ledger, a successful `update_turn` leaves a ledger.
pub update_turn-IsLedger :
    (actor : Actor) (turn_id : String) (request : UpdateTurn) (now : ℕ) (db : Db) {t : Turn}
    {db' : Db}
    → IsLedger db
    → update_turn actor turn_id request now db ≡ ok (t, db')
    → IsLedger db'
unfolding update_turn
update_turn-IsLedger actor turn_id request now db {t} {db'} l h =
    let hit = λ (t : Turn). t.id == turn_id && turn_is_owned actor db t in
    let (_, k₀) = reject_if-ok (not (is_status request.status)) _ _ h in
    let (t, e₁, k₁) = >>=-eq-ok (ok_or (find hit db.turns) (not_found "Turn not found.")) _ k₀ in
    let active = is_active (updated_turn request now t) in
    let rival = λ (u : Turn).
      u.conversation_id == t.conversation_id && not (u.id == turn_id) && is_active u in
    let (alone, k₂) = reject_if-ok (active && any rival db.turns) _ _ k₁ in
    let same = db_of_pair k₂ in
    same-IsLedger db db' (sym (ap (λ d. d.conversations) same))
      (sym (ap (λ d. d.conversation_items) same)) (sym (ap (λ d. d.append_batches) same))
      (sym (ap (λ d. d.continuations) same)) l
