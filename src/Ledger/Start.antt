-- ===== src/Ledger/Start.antt =====
-- `start_turn` of src/store.rs against the ledger.
pub mod Whole
mod Tests
use threadmark.Ledger.Turns.{db_of_pair}
use threadmark.Model.{Item, StartTurnResult, Conversation, StartTurn, Actor}
use threadmark.Ledger.Append.{batch_rows-hit, batch_rows-GapFree, GapFreeItems}
use threadmark.Ledger.Extend.{moved_to, has_id, Extends, extended-IsLedger}
use threadmark.Store.Items.Laws.{batch_references, with_rows, insert_items-ok, batch_rows}
use threadmark.Store.Items.{write_next_seq, set_next_seq, insert_items, Batch}
use threadmark.Store.Append.Laws.{set_next_seq-ok}
use threadmark.Store.Start.Laws.{
  record_start-SameLedger, create_turn_file_snapshot-SameLedger, map_err-ok, insert_turn-SameLedger,
  same_trans,
}
use threadmark.Store.Start.{
  record_start, start_new, start_turn, open_conversation, write_turn, Fresh,
}
use threadmark.Store.Start.Existing.{existing_result, find_start}
use threadmark.Ledger.Create.{insert_conversation-IsLedger}
use threadmark.Store.Snapshots.{create_turn_file_snapshot, lock_turn_files}
use threadmark.Store.Start.Request.{
  turn_start_digest_v1, normalize_request, TurnStartDigest, Digest,
}
use threadmark.Db.{insert_conversation, insert_turn, max_i64, Db}
use threadmark.Ledger.Frame.{eq_of_owned}
use threadmark.Store.Conversations.{new_conversation, owned_as, lock_conversation}
use threadmark.Store.Turns.{as_conflict, map_err, has_active, pending_turn}
use threadmark.Error.{ok-injective, ok_or-eq-ok, >>=-eq-ok, reject_if-ok, ok}
use mathlib.Core.Path.{subst}
use threadmark.Store.References.{batch_file_ids}
use threadmark.Ledger.{IsLedger}
use threadmark.Ids.{new_id}
use threadmark.Model.Json.{Value}
use threadmark.Common.Int.{max_zero, pos}
use threadmark.Common.{
  ℕ, zero, suc, ◌+◌, ◌-◌, ◌*◌, ◌/◌, ◌%◌, ◌^◌, ◌≤◌, ◌<◌, min, String, ◌≡◌, refl, sym, ap, ◌∙◌, ◌≢◌,
  ◌↔◌, ◌⊎◌, inl, inr, Bool, true, false, ◌&&◌, ◌||◌, not, Option, none, some, List, [], ◌∷◌, ◌++◌,
  map, append-nil, append_assoc, arith, ◌==◌, eq_iff, eq_refl, ltb, leb, eqb, if◌then◌else◌,
  some_eq, is_some, unwrap_or, ltb→lt, leb→le, leb-false, Bool-cases, Option-cases, eq-of-some_eq,
  length, length-append, take, length-take_le, All, All-append, All-append_left, All-of_forall,
  All-map, filter, find, any, all, remove, update, or_else, filter-append, find-append, any-append,
  filter_none, filter-All, All-not_of_any, any-of_All, find_sound, any-of_find, find-none, All-find,
  All-filter, All-remove, All-passed, any-update, find-update_ne, find-update, All-update, any_mono,
  filter-remove_spared, filter-remove, remove_congr, remove_none, All-removed, All-both,
  some-eq-some, filter_none_under, find-filter, length-remove_le, length-remove_lt,
}

-- The rows of a started turn's input have this in common.
abbrev pub start_batch : Fresh → String → Batch
start_batch fresh conversation_id = record {
  conversation_id = conversation_id;
  turn_id = some (new_id "turn" fresh.turn_ulid);
  source = "user";
  now = fresh.now;
  ulid = fresh.item_ulid;
}

abbrev pub start_rows : Fresh → Conversation → List Value → List Item
start_rows fresh conversation items =
    batch_rows (start_batch fresh conversation.id) conversation.next_seq 0 items

pos-injective : {m n : ℕ} → pos m ≡ pos n → m ≡ n
unfolding max_zero
pos-injective e = ap max_zero e

module _ (actor : Actor) (client_id : String) (request : StartTurn) (digest : Digest)
    (fresh : Fresh) (conv : Conversation) (db : Db) where
  -- What a turn's start has written into the transcript.
  pub write_turn-Extends :
      {r : StartTurnResult} {db' : Db}
      → write_turn actor client_id request digest fresh conv db ≡ ok (r, db')
      → Extends conv.id
          (conv.next_seq + length request.items)
          fresh.now
          (start_rows fresh conv request.items)
          []
          db
          db'
        × (conv.next_seq + length request.items ≤ max_i64)
  unfolding write_turn
  write_turn-Extends {r} {db'} h =
      let turn = pending_turn fresh.turn_ulid conv.id request.agent_ref none fresh.now in
      let next_seq = conv.next_seq + length request.items in
      let batch = start_batch fresh conv.id in
      let rows = start_rows fresh conv request.items in
      let (_, k₀) = reject_if-ok (has_active conv.id db) _ _ h in
      let (_, e₁, k₁) =
        >>=-eq-ok (lock_turn_files actor conv.id (batch_file_ids request.items) db) _ k₀ in
      let (db₁, e₂, k₂) = >>=-eq-ok (map_err as_conflict (insert_turn turn db)) _ k₁ in
      let (db₂, e₃, k₃) =
        >>=-eq-ok (create_turn_file_snapshot conv.id turn.id fresh.snapshot_ulid db₁) _ k₂ in
      let (fits, k₄) = reject_if-ok (ltb max_i64 next_seq) _ _ k₃ in
      let (p, e₅, k₅) = >>=-eq-ok (insert_items batch conv.next_seq 0 request.items db₂) _ k₄ in
      let (db₄, e₆, k₆) = >>=-eq-ok (set_next_seq conv.id (pos next_seq) fresh.now p.1) _ k₅ in
      let (db₅, e₇, k₇) = >>=-eq-ok (record_start _ (map (λ (i : Item). i.id) p.0) db₄) _ k₆ in
      let before =
        same_trans (turn ∷ []) [] (insert_turn-SameLedger turn db (map_err-ok as_conflict _ e₂))
          (create_turn_file_snapshot-SameLedger conv.id turn.id fresh.snapshot_ulid db₁ e₃) in
      let after = record_start-SameLedger _ _ db₄ e₇ in
      let (same_rows, same_db) = insert_items-ok batch conv.next_seq 0 request.items db₂ e₅ in
      let (m, number, written) = set_next_seq-ok conv.id (pos next_seq) fresh.now p.1 e₆ in
      let db₄-eq : db₄
          ≡ write_next_seq conv.id next_seq fresh.now (with_rows db₂ rows (batch_references rows)) =
        written
        ∙ ap (λ n. write_next_seq conv.id n fresh.now p.1) (sym (pos-injective number))
        ∙ ap (write_next_seq conv.id next_seq fresh.now) same_db in
      let snapshot =
        create_turn_file_snapshot-SameLedger conv.id turn.id fresh.snapshot_ulid db₁ e₃ in
      let last : db' ≡ db₅ = sym (ap (λ q. q.1) (ok-injective k₇)) in
      (
        record {
          conversations =
              ap (λ d. d.conversations) last
              ∙ after.conversations
              ∙ ap (λ d. d.conversations) db₄-eq
              ∙ ap (update (has_id conv.id) (moved_to next_seq fresh.now)) before.conversations;
          items =
              ap (λ d. d.conversation_items) last
              ∙ after.items
              ∙ ap (λ d. d.conversation_items) db₄-eq
              ∙ ap (λ is. is ++ rows) before.items;
          batches_grow =
              ap (λ d. d.append_batches) last
              ∙ after.batches
              ∙ ap (λ d. d.append_batches) db₄-eq
              ∙ before.batches
              ∙ sym (append-nil db.append_batches);
          checkpoints =
              ap (λ d. d.continuations) last
              ∙ after.checkpoints
              ∙ ap (λ d. d.continuations) db₄-eq
              ∙ before.checkpoints;
          rows_hit = batch_rows-hit batch conv.next_seq 0 request.items;
          batches_hit = tt;
          batches_fit = tt;
        },
        ground arith,
      )

  start_run :
      GapFreeItems conv.next_seq
        (conv.next_seq + length request.items)
        (start_rows fresh conv request.items)
  start_run =
      let zero_offset : conv.next_seq + 0 ≡ conv.next_seq = omega arith in
      rw zero_offset at
        (batch_rows-GapFree (start_batch fresh conv.id) conv.next_seq 0 request.items)

  pub write_turn-IsLedger :
      (q : Conversation → Bool) {r : StartTurnResult} {db' : Db}
      → ((c : Conversation) → q c ≡ true → c.id ≡ conv.id)
      → find q db.conversations ≡ some conv
      → IsLedger db
      → write_turn actor client_id request digest fresh conv db ≡ ok (r, db')
      → IsLedger db'
  write_turn-IsLedger q hit found l h =
      let (e, small) = write_turn-Extends h in
      extended-IsLedger e q hit found (omega arith) small start_run l
