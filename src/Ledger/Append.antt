-- ===== src/Ledger/Append.antt =====
-- `append_items` of src/store.rs against the ledger: order, gaps, and the repetition of a request.
use threadmark.Ledger.Frame.{eq_of_owned}
use threadmark.Common.Order.{GapFree-append, GapFree}
use threadmark.Ledger.Extend.{transcript-extended, has_id, moved_to, extended-IsLedger, Extends}
use threadmark.Store.Append.Laws.{
  append_new-ok, append_items-ok, appended, batch_record, append_batch, appended_rows,
}
use threadmark.Store.Conversations.{transcript, owned_as}
use threadmark.Ledger.{FitsIn, IsLedger}
use threadmark.Error.{ok}
use threadmark.Store.Append.{append_items}
use threadmark.Model.{AppendResult, Conversation, AppendItems, Actor, Item}
use threadmark.Db.{Db}
use threadmark.Store.Items.Laws.{batch_rows}
use threadmark.Model.Json.{Value}
use threadmark.Store.Items.{Batch}
use threadmark.Common.{
  ℕ, suc, ◌+◌, ◌≤◌, String, ◌≡◌, refl, sym, ◌∙◌, inl, inr, true, some, List, [], ◌∷◌, arith, ◌==◌,
  eq_iff, eq_refl, length, All, find, All-find, find-update, some-eq-some,
}

abbrev pub GapFreeItems : ℕ → ℕ → List Item → Type 0
GapFreeItems = GapFree (λ (i : Item). i.seq)

pub batch_rows-GapFree :
    (b : Batch) (first_seq offset : ℕ) (vs : List Value)
    → GapFreeItems
        (first_seq + offset)
        (first_seq + offset + length vs)
        (batch_rows b first_seq offset vs)
batch_rows-GapFree b first_seq offset [] = omega arith
batch_rows-GapFree b first_seq offset (v ∷ vs) =
    let ih = batch_rows-GapFree b first_seq (suc offset) vs in
    let start : first_seq + suc offset ≡ suc (first_seq + offset) = omega arith in
    let stop : suc (first_seq + offset) + length vs ≡ first_seq + offset + suc (length vs) =
      omega arith in
    let moved = rw start at ih in (refl, rw stop at moved)

pub batch_rows-hit :
    (b : Batch) (first_seq offset : ℕ) (vs : List Value)
    → All
        (λ (i : Item). (i.conversation_id == b.conversation_id) ≡ true)
        (batch_rows b first_seq offset vs)
batch_rows-hit b first_seq offset [] = tt
batch_rows-hit b first_seq offset (v ∷ vs) =
    (eq_refl b.conversation_id, batch_rows-hit b first_seq (suc offset) vs)

module _ (actor : Actor) (id : String) (request : AppendItems) (now : ℕ) (ulid : ℕ → String) where
  pub appended-Extends :
      (first_seq : ℕ) (db : Db)
      → 1 ≤ length request.items
      → Extends id
          (first_seq + length request.items)
          now
          (appended_rows id request first_seq now ulid)
          (batch_record id request first_seq now ∷ [])
          db
          (appended id request first_seq now ulid db)
  appended-Extends first_seq db some_items = record {
    conversations = refl;
    items = refl;
    batches_grow = refl;
    checkpoints = refl;
    rows_hit = batch_rows-hit (append_batch id request now ulid) first_seq 0 request.items;
    batches_hit = (eq_refl id, tt);
    batches_fit = (omega arith, tt);
  }

  pub appended-run :
      (first_seq : ℕ)
      → GapFreeItems first_seq
          (first_seq + length request.items)
          (appended_rows id request first_seq now ulid)
  appended-run first_seq =
      let zero_offset : first_seq + 0 ≡ first_seq = omega arith in
      rw zero_offset at
        (batch_rows-GapFree (append_batch id request now ulid) first_seq 0 request.items)

  -- On tables that are a ledger, a successful `append_items` leaves a ledger: conversations with their own
  -- identifiers, no row without its conversation, and in each conversation positions that rise below
  -- `next_seq`, which is no larger than an `i64`.
  pub append_items-IsLedger :
      (db : Db) {r : AppendResult} {db' : Db}
      → IsLedger db
      → append_items actor id request now ulid db ≡ ok (r, db')
      → IsLedger db'
  append_items-IsLedger db l h =
      let a = append_items-ok actor id request now ulid db h in
      elim a.how [
        | inl (b, known, result, same) ↦ rw same l
        | inr (missing, new) ↦
            let range = All-find _ (FitsIn db) db.conversations l.fits a.found in
            let (result, written, small) =
              append_new-ok actor a.conv id request now ulid db a.some_items a.few_items
                range.representable new in
            rw written (
              extended-IsLedger (appended-Extends a.conv.next_seq db a.some_items)
                (owned_as actor id) (eq_of_owned actor id) a.found (omega arith) small
                (appended-run a.conv.next_seq) l)
      ]

  -- On a ledger, where the transcript of the actor's conversation has no gap before a successful
  -- `append_items`, it has none after, up to the new `next_seq`.
  pub append_items-GapFree :
      (db : Db) {r : AppendResult} {db' : Db} (conv : Conversation)
      → IsLedger db
      → find (owned_as actor id) db.conversations ≡ some conv
      → GapFreeItems 1 conv.next_seq (transcript db id)
      → append_items actor id request now ulid db ≡ ok (r, db')
      → (next : Conversation) × (find (owned_as actor id) db'.conversations ≡ some next)
        × GapFreeItems 1 next.next_seq (transcript db' id)
  append_items-GapFree db conv l found run h =
      let a = append_items-ok actor id request now ulid db h in
      let same : a.conv ≡ conv = some-eq-some (sym a.found ∙ found) in
      elim a.how [
        | inl (b, known, result, stays) ↦ (conv, rw stays found, rw stays run)
        | inr (missing, new) ↦
            let range = All-find _ (FitsIn db) db.conversations l.fits a.found in
            let (result, written, small) =
              append_new-ok actor a.conv id request now ulid db a.some_items a.few_items
                range.representable new in
            let e = appended-Extends a.conv.next_seq db a.some_items in
            (
              moved_to (a.conv.next_seq + length request.items) now a.conv,
              rw written (
                  find-update (has_id id) (moved_to (a.conv.next_seq + length request.items) now)
                    (owned_as actor id) (λ c. refl)
                    (λ c hit. (eq_iff c.id id).1 (eq_of_owned actor id c hit)) db.conversations
                    a.found),
              rw (written, transcript-extended e)
                  (GapFree-append (λ (i : Item). i.seq) 1 a.conv.next_seq
                    (a.conv.next_seq + length request.items) (transcript db id)
                    (appended_rows id request a.conv.next_seq now ulid) (rw (← same) at run)
                    (appended-run a.conv.next_seq)),
            )
      ]
