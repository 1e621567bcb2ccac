-- ===== src/Ledger/Truncate.antt =====
-- `truncate_conversation` of src/store.rs against the ledger.
use threadmark.Ledger.{continuations_of, batches_of, FitsIn, IsLedger}
use threadmark.Model.{Continuation, Item, Conversation, Actor}
use threadmark.Common.Order.{GapFree-cut, Ascending-below, Ascending-cut}
use threadmark.Db.{AppendBatch, max_i64, Db}
use threadmark.Ledger.Extend.{has_id, moved_to}
use threadmark.Ledger.Append.{GapFreeItems}
use threadmark.Ledger.Frame.{change-IsLedger, eq_of_owned, SameRows}
use threadmark.Store.Edit.Laws.{truncate_conversation-ok, cut_at, Truncated}
use threadmark.Error.{ok}
use threadmark.Store.Conversations.{owned_as, transcript, delete_items}
use threadmark.Store.Edit.{truncate_conversation}
use threadmark.Common.{
  ℕ, ◌≤◌, ◌<◌, String, ◌≡◌, refl, sym, ap, ◌∙◌, Bool, true, false, ◌&&◌, some, List, arith, ◌==◌,
  eq_iff, leb, leb-false, All, All-map, filter, find, remove, find_sound, All-find, All-remove,
  All-passed, find-update, filter-remove_spared, filter-remove, remove_congr, All-removed,
  some-eq-some, find-filter,
}

-- What a cut leaves of one conversation's rows.
module _ (id : String) where
  cut_rows {ℓ} :
      {A : Type ℓ} (of : A → String) (key : A → ℕ) (seq : ℕ) (rows : List A)
      → filter (λ a. of a == id) (remove (λ a. of a == id && leb seq (key a)) rows)
        ≡ remove (λ a. leb seq (key a)) (filter (λ a. of a == id) rows)
  cut_rows of key seq rows =
      filter-remove (λ a. of a == id && leb seq (key a)) (λ a. of a == id) rows
      ∙ remove_congr (λ a. of a == id && leb seq (key a)) (λ a. leb seq (key a))
          (filter (λ a. of a == id) rows)
          (All-map (λ a. (of a == id) ≡ true) _ (λ a h. rw h) (filter (λ a. of a == id) rows)
            (All-passed (λ a. of a == id) rows))

  other_rows {ℓ} :
      {A : Type ℓ} (of : A → String) (key : A → ℕ) (seq : ℕ) (other : String)
      → (other == id) ≡ false
      → (rows : List A)
      → filter (λ a. of a == other) (remove (λ a. of a == id && leb seq (key a)) rows)
        ≡ filter (λ a. of a == other) rows
  other_rows of key seq other ne rows =
      filter-remove_spared (λ a. of a == id && leb seq (key a)) (λ a. of a == other)
        (λ a h. ground (arith, eq_iff (of a) id, eq_iff (of a) other, eq_iff other id)) rows

below_cut {ℓ} :
    {A : Type ℓ} (key : A → ℕ) (seq : ℕ) (rows : List A)
    → All (λ a. key a < seq) (remove (λ a. leb seq (key a)) rows)
below_cut key seq rows =
    All-map (λ a. leb seq (key a) ≡ false) _ (λ a h. leb-false seq (key a) h) _
      (All-removed (λ a. leb seq (key a)) rows)

module _ (id : String) (seq now : ℕ) (db : Db) where
  pub transcript-cut_at :
      transcript (cut_at id seq now db) id ≡ remove (λ i. leb seq i.seq) (transcript db id)
  unfolding delete_items
  transcript-cut_at = cut_rows id (λ i. i.conversation_id) (λ i. i.seq) seq db.conversation_items

  cut_at-SameRows :
      (other : String) → (other == id) ≡ false → SameRows other db (cut_at id seq now db)
  unfolding delete_items
  cut_at-SameRows other ne = record {
    items = other_rows id (λ i. i.conversation_id) (λ i. i.seq) seq other ne db.conversation_items;
    batches =
        other_rows id (λ b. b.conversation_id) (λ b. b.last_seq) seq other ne db.append_batches;
    checkpoints =
        other_rows id (λ k. k.conversation_id) (λ k. k.through_seq) seq other ne db.continuations;
  }

  cut_at-FitsIn :
      (conv : Conversation)
      → conv.id ≡ id
      → 1 ≤ seq
      → seq ≤ max_i64
      → FitsIn db conv
      → FitsIn (cut_at id seq now db) (moved_to seq now conv)
  unfolding delete_items
  cut_at-FitsIn conv same positive small f = rw same (record {
    positive = positive;
    representable = small;
    rising = rw transcript-cut_at (
        Ascending-cut (λ (i : Item). i.seq) seq 1 conv.next_seq (transcript db id) positive
          (rw same at f.rising));
    batches_end =
        rw
          (cut_rows id (λ (b : AppendBatch). b.conversation_id) (λ b. b.last_seq) seq
            db.append_batches)
          (below_cut (λ (b : AppendBatch). b.last_seq) seq (batches_of db id));
    checkpoints_end =
        rw
          (cut_rows id (λ (k : Continuation). k.conversation_id) (λ k. k.through_seq) seq
            db.continuations)
          (below_cut (λ (k : Continuation). k.through_seq) seq (continuations_of db id));
  })

  pub cut_at-IsLedger :
      (q : Conversation → Bool) {conv : Conversation}
      → ((c : Conversation) → q c ≡ true → c.id ≡ id)
      → find q db.conversations ≡ some conv
      → 1 ≤ seq
      → seq ≤ max_i64
      → IsLedger db
      → IsLedger (cut_at id seq now db)
  unfolding delete_items
  cut_at-IsLedger q {conv} hit found positive small l =
      change-IsLedger id (moved_to seq now) (λ c. refl) db (cut_at id seq now db) q hit found refl
        cut_at-SameRows (All-remove _ _ db.conversation_items l.items_owned)
        (All-remove _ _ db.append_batches l.batches_owned)
        (All-remove _ _ db.continuations l.checkpoints_owned)
        (cut_at-FitsIn conv (hit conv (find_sound q db.conversations found)) positive small) l

module _ (actor : Actor) (id item_id : String) (now : ℕ) (db : Db) {db' : Db}
    (l : IsLedger db) where
  -- The item at which the transcript is cut lies below `next_seq`.
  cut-lt-next :
      (t : Truncated actor id item_id now db db')
      → (FitsIn db t.conv) × (t.conv.id ≡ id) × (t.item.seq < t.conv.next_seq)
  cut-lt-next t =
      let fit = All-find _ (FitsIn db) db.conversations l.fits t.found in
      let same =
        eq_of_owned actor id t.conv (find_sound (owned_as actor id) db.conversations t.found) in
      let in_transcript =
        find-filter (λ (i : Item). i.conversation_id == id)
          (λ i. i.id == item_id && i.conversation_id == id) (λ i h. ground arith)
          db.conversation_items
        ∙ t.item_found in
      (
        fit,
        same,
        All-find _ (λ (i : Item). i.seq < t.conv.next_seq) (transcript db id)
            (Ascending-below (λ (i : Item). i.seq) 1 t.conv.next_seq (transcript db id)
              (rw same at fit.rising))
            in_transcript,
      )

  -- On tables that are a ledger, a successful `truncate_conversation` leaves a ledger: no batch and no
  -- continuation reaches past the new `next_seq`.
  pub truncate_conversation-IsLedger :
      truncate_conversation actor id item_id now db ≡ ok db' → IsLedger db'
  truncate_conversation-IsLedger h =
      let t = truncate_conversation-ok actor id item_id now db h in
      let (fit, same, below) = cut-lt-next t in
      let small = fit.representable in
      rw t.cut (
        cut_at-IsLedger id t.item.seq now db (owned_as actor id) (eq_of_owned actor id) t.found
          t.positive (omega arith) l)

  -- On a ledger, where the transcript of the actor's conversation has no gap before a successful
  -- `truncate_conversation`, it has none after: it ends right before the item that was named, whose
  -- position is the new `next_seq`.
  pub truncate_conversation-GapFree :
      (conv : Conversation)
      → find (owned_as actor id) db.conversations ≡ some conv
      → GapFreeItems 1 conv.next_seq (transcript db id)
      → truncate_conversation actor id item_id now db ≡ ok db'
      → (i : Item) × (next : Conversation) × (find
            (λ (i : Item). i.id == item_id && i.conversation_id == id)
            db.conversation_items
          ≡ some i)
        × (find (owned_as actor id) db'.conversations ≡ some next)
        × (next.next_seq ≡ i.seq)
        × GapFreeItems 1 next.next_seq (transcript db' id)
  unfolding delete_items
  truncate_conversation-GapFree conv found run h =
      let t = truncate_conversation-ok actor id item_id now db h in
      let (fit, same, below) = cut-lt-next t in
      let same_conv : t.conv ≡ conv = some-eq-some (sym t.found ∙ found) in
      let next_found =
        find-update (has_id id) (moved_to t.item.seq now) (owned_as actor id) (λ c. refl)
          (λ c hit. (eq_iff c.id id).1 (eq_of_owned actor id c hit)) db.conversations t.found in
      let kept =
        GapFree-cut (λ (i : Item). i.seq) t.item.seq 1 t.conv.next_seq (transcript db id) t.positive
          (omega arith) (rw (← same_conv) at run) in
      (
        t.item,
        moved_to t.item.seq now t.conv,
        t.item_found,
        ap (λ d. find (owned_as actor id) d.conversations) t.cut ∙ next_found,
        refl,
        rw (t.cut, transcript-cut_at id t.item.seq now db) kept,
      )
