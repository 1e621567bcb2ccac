-- ===== src/Ledger/Retry.antt =====
-- A repeated `append_items` is answered with the items of the first call.
use threadmark.Ledger.Frame.{eq_of_owned}
use threadmark.Ledger.Append.{appended-run, appended-Extends, GapFreeItems}
use threadmark.Store.Conversations.{owned_as, transcript}
use threadmark.Ledger.Extend.{moved_to, has_id, Extends}
use threadmark.Store.Append.Laws.{batch_record, append_new-ok, append_items-replay, append_items-ok}
use threadmark.Ledger.{FitsIn, IsLedger}
use threadmark.Store.Append.{find_batch, in_batch, check_append, append_items, batch_items}
use threadmark.Common.Order.{
  order_by_of_Ascending, order_by, Ascending-from, Ascending-below, Ascending-of_GapFree, Ascending,
}
use threadmark.Error.{ok}
use threadmark.Model.{AppendResult, Actor, Item, AppendItems}
use threadmark.Db.{AppendBatch, Db}
use threadmark.Common.{
  ℕ, suc, ◌+◌, ◌≤◌, ◌<◌, String, ◌≡◌, refl, sym, ap, ◌∙◌, inl, inr, true, ◌&&◌, none, some, List,
  [], ◌∷◌, ◌++◌, arith, ◌==◌, eq_iff, length, All, All-map, filter, find, or_else, filter-append,
  find-append, filter-All, find_sound, All-find, find-update, All-both, filter_none_under,
}

module _ (id : String) where
  -- What the lookup of a batch selects: none of the rows before it.
  old_rows_outside :
      (first_seq last_seq : ℕ) (items : List Item)
      → Ascending (λ (i : Item). i.seq) 1 first_seq (filter (λ i. i.conversation_id == id) items)
      → filter (in_batch id first_seq last_seq) items ≡ []
  old_rows_outside first_seq last_seq items rising =
      filter_none_under (λ i. i.conversation_id == id) _ (λ i h. ground arith) items
        (All-map (λ (i : Item). i.seq < first_seq) _ (λ i below. ground arith)
          (filter (λ i. i.conversation_id == id) items)
          (Ascending-below (λ (i : Item). i.seq) 1 first_seq _ rising))

  -- All of its own rows.
  new_rows_inside :
      (lo hi last_seq : ℕ) (rows : List Item)
      → hi ≤ suc last_seq
      → All (λ (i : Item). (i.conversation_id == id) ≡ true) rows
      → GapFreeItems lo hi rows
      → filter (in_batch id lo last_seq) rows ≡ rows
  new_rows_inside lo hi last_seq rows to hits run =
      let up = Ascending-of_GapFree (λ (i : Item). i.seq) lo hi rows run in
      filter-All _ rows (
        All-map (λ (i : Item). ((i.conversation_id == id) ≡ true) × ((lo ≤ i.seq) × (i.seq < hi))) _
          (λ i h. ground arith) rows
          (All-both _ _ rows hits (
            All-both _ _ rows (Ascending-from (λ (i : Item). i.seq) lo hi rows up)
              (Ascending-below (λ (i : Item). i.seq) lo hi rows up))))

  -- The rows of a fresh batch are found again, in their order.
  batch_items-extended :
      (first_seq hi last_seq now : ℕ) (rows : List Item) (bs : List AppendBatch) (db db' : Db)
      → hi ≡ suc last_seq
      → Extends id hi now rows bs db db'
      → Ascending (λ (i : Item). i.seq) 1 first_seq (transcript db id)
      → GapFreeItems first_seq hi rows
      → batch_items id first_seq last_seq db' ≡ rows
  unfolding batch_items
  batch_items-extended first_seq hi last_seq now rows bs db db' to e rising run =
      let old = filter (in_batch id first_seq last_seq) db.conversation_items in
      let new = filter (in_batch id first_seq last_seq) rows in
      let none_old : old ≡ [] = old_rows_outside first_seq last_seq db.conversation_items rising in
      let all_new : new ≡ rows =
        new_rows_inside first_seq hi last_seq rows (omega arith) e.rows_hit run in
      let selected : filter (in_batch id first_seq last_seq) db'.conversation_items ≡ rows =
        ap (filter (in_batch id first_seq last_seq)) e.items
        ∙ filter-append (in_batch id first_seq last_seq) db.conversation_items rows
        ∙ ap (λ is. is ++ new) none_old
        ∙ all_new in
      ap (order_by (λ (i : Item). i.seq)) selected
      ∙ order_by_of_Ascending (λ (i : Item). i.seq) first_seq hi rows
          (Ascending-of_GapFree (λ (i : Item). i.seq) first_seq hi rows run)

-- The batch that was written last answers for its key.
find_batch-appended :
    (id key : String) (db db' : Db) (b : AppendBatch)
    → db'.append_batches ≡ db.append_batches ++ b ∷ []
    → b.conversation_id ≡ id
    → b.idempotency_key ≡ key
    → find_batch id key db ≡ none
    → find_batch id key db' ≡ some b
unfolding find_batch find
find_batch-appended id key db db' b grown same_id same_key missing =
    let hit = λ (d : AppendBatch). d.conversation_id == id && d.idempotency_key == key in
    let last : find hit (b ∷ []) ≡ some b =
      ground (arith, eq_iff b.conversation_id id, eq_iff b.idempotency_key key) in
    ap (find hit) grown
    ∙ find-append hit db.append_batches (b ∷ [])
    ∙ ap (λ o. or_else o (find hit (b ∷ []))) missing
    ∙ last

-- On a ledger, once an append has succeeded, a valid request with its key that comes next, on the tables
-- that the append left, is answered the items of the first and changes nothing; neither its items nor its
-- source nor its turn are compared with those of the first.
pub append_items-append_items :
    (actor : Actor) (id : String) (request again : AppendItems) (now later : ℕ)
    (ulid ulid' : ℕ → String) (db : Db) {r : AppendResult} {db' : Db}
    → IsLedger db
    → append_items actor id request now ulid db ≡ ok (r, db')
    → check_append again ≡ ok tt
    → again.idempotency_key ≡ request.idempotency_key
    → append_items actor id again later ulid' db'
      ≡ ok (record { items = r.items; replayed = true }, db')
append_items-append_items actor id request again now later ulid ulid' db {r} {db'} l h valid
      same_key =
    let a = append_items-ok actor id request now ulid db h in
    elim a.how [
      | inl (b, known, result, stays) ↦
          rw (stays, result)
            (append_items-replay actor id again later ulid' db {b = b} valid a.found
              (rw same_key known))
      | inr (missing, new) ↦
          let first_seq = a.conv.next_seq in
          let same_id =
            eq_of_owned actor id a.conv (find_sound (owned_as actor id) db.conversations a.found) in
          let range = All-find _ (FitsIn db) db.conversations l.fits a.found in
          let (result, written, small) =
            append_new-ok actor a.conv id request now ulid db a.some_items a.few_items
              range.representable new in
          let e =
            rw (← written) at
              (appended-Extends actor id request now ulid first_seq db a.some_items) in
          let b = batch_record id request first_seq now in
          let found' =
            find-update (has_id id) (moved_to (first_seq + length request.items) now)
              (owned_as actor id) (λ c. refl)
              (λ c hit. (eq_iff c.id id).1 (eq_of_owned actor id c hit)) db.conversations a.found in
          let same_items : batch_items id b.first_seq b.last_seq db' ≡ r.items =
            batch_items-extended id first_seq (first_seq + length request.items) b.last_seq now _ _
              db db' (let some_items = a.some_items in omega arith) e (rw same_id at range.rising)
              (appended-run actor id request now ulid first_seq)
            ∙ sym (ap (λ (t : AppendResult). t.items) result) in
          append_items-replay actor id again later ulid' db' {b = b} valid
            (ap (find (owned_as actor id)) e.conversations ∙ found')
            (find_batch-appended id again.idempotency_key db db' b e.batches_grow refl
              (sym same_key) (rw same_key missing))
          ∙ ap (λ is. ok (record { items = is; replayed = true }, db')) same_items
    ]
