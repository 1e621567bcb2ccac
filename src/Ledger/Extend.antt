-- ===== src/Ledger/Extend.antt =====
-- A transaction that appends rows to one conversation: what `append_items` and `start_turn` share.
use threadmark.Common.Order.{GapFree, Ascending-append_GapFree}
use threadmark.Model.{Conversation, Item, Continuation}
use threadmark.Db.{Db, AppendBatch, max_i64}
use threadmark.Store.Conversations.{transcript}
use threadmark.Ledger.{FitsIn, IsLedger, batches_of, continuations_of, has_conversation}
use threadmark.Ledger.Frame.{SameRows, change-IsLedger}
use threadmark.Common.{
  ℕ, ◌≤◌, ◌<◌, String, ◌≡◌, refl, ap, ◌∙◌, Bool, true, false, some, List, ◌++◌, append-nil, arith,
  ◌==◌, eq_iff, All, All-append, All-map, filter, find, update, filter-append, filter_none,
  filter-All, find_sound, any-of_find, any_mono,
}

abbrev pub has_id : String → Conversation → Bool
has_id k c = c.id == k

abbrev pub moved_to : ℕ → ℕ → Conversation → Conversation
moved_to next_seq now c = record c { next_seq = next_seq; updated_at = now }

-- The conversation `k` has grown by `rows` and `batches`, up to `next_seq`.
pub record Extends (k : String) (next_seq now : ℕ) (rows : List Item) (batches : List AppendBatch)
    (db db' : Db) : Type 0 where
  pub conversations : db'.conversations ≡ update (has_id k) (moved_to next_seq now) db.conversations
  pub items : db'.conversation_items ≡ db.conversation_items ++ rows
  pub batches_grow : db'.append_batches ≡ db.append_batches ++ batches
  pub checkpoints : db'.continuations ≡ db.continuations
  pub rows_hit : All (λ (i : Item). (i.conversation_id == k) ≡ true) rows
  pub batches_hit : All (λ (b : AppendBatch). (b.conversation_id == k) ≡ true) batches
  pub batches_fit : All (λ (b : AppendBatch). b.last_seq < next_seq) batches

misses : (s k id : String) → (id == k) ≡ false → (s == k) ≡ true → (s == id) ≡ false
misses s k id ne hit = ground (arith, eq_iff s k, eq_iff s id, eq_iff id k)

module _ {k : String} {next_seq now : ℕ} {rows : List Item} {batches : List AppendBatch}
    {db db' : Db} (e : Extends k next_seq now rows batches db db') where
  pub transcript-extended : transcript db' k ≡ transcript db k ++ rows
  transcript-extended =
      ap (filter (λ i. i.conversation_id == k)) e.items
      ∙ filter-append (λ i. i.conversation_id == k) db.conversation_items rows
      ∙ ap (λ t. transcript db k ++ t) (filter-All (λ i. i.conversation_id == k) rows e.rows_hit)

  pub batches-extended : batches_of db' k ≡ batches_of db k ++ batches
  batches-extended =
      ap (filter (λ b. b.conversation_id == k)) e.batches_grow
      ∙ filter-append (λ b. b.conversation_id == k) db.append_batches batches
      ∙ ap (λ t. batches_of db k ++ t)
          (filter-All (λ b. b.conversation_id == k) batches e.batches_hit)

  -- The other conversations' rows stay as they are.
  pub SameRows-extended : (id : String) → (id == k) ≡ false → SameRows id db db'
  SameRows-extended id ne = record {
    items =
        ap (filter (λ i. i.conversation_id == id)) e.items
        ∙ filter-append (λ i. i.conversation_id == id) db.conversation_items rows
        ∙ ap (λ t. transcript db id ++ t)
            (filter_none (λ i. i.conversation_id == id) rows
              (All-map (λ (i : Item). (i.conversation_id == k) ≡ true) _
                (λ i hit. misses i.conversation_id k id ne hit) rows e.rows_hit))
        ∙ append-nil (transcript db id);
    batches =
        ap (filter (λ b. b.conversation_id == id)) e.batches_grow
        ∙ filter-append (λ b. b.conversation_id == id) db.append_batches batches
        ∙ ap (λ t. batches_of db id ++ t)
            (filter_none (λ b. b.conversation_id == id) batches
              (All-map (λ (b : AppendBatch). (b.conversation_id == k) ≡ true) _
                (λ b hit. misses b.conversation_id k id ne hit) batches e.batches_hit))
        ∙ append-nil (batches_of db id);
    checkpoints = ap (filter (λ c. c.conversation_id == id)) e.checkpoints;
  }

  extended-FitsIn :
      (conv : Conversation)
      → conv.id ≡ k
      → conv.next_seq ≤ next_seq
      → next_seq ≤ max_i64
      → GapFree (λ (i : Item). i.seq) conv.next_seq next_seq rows
      → FitsIn db conv
      → FitsIn db' (moved_to next_seq now conv)
  extended-FitsIn conv same grows small run f = rw same (record {
    positive = let h = f.positive in omega arith;
    representable = small;
    rising = rw transcript-extended (
        Ascending-append_GapFree (λ i. i.seq) 1 conv.next_seq next_seq (transcript db k) rows
          (rw same at f.rising) run);
    batches_end = rw batches-extended (
        All-append _ (batches_of db k) batches
          (All-map (λ (b : AppendBatch). b.last_seq < conv.next_seq) _ (λ b h. omega arith)
            (batches_of db k) (rw same at f.batches_end))
          e.batches_fit);
    checkpoints_end = rw (ap (filter (λ c. c.conversation_id == k)) e.checkpoints) (
        All-map (λ (n : Continuation). n.through_seq < conv.next_seq) _ (λ n h. omega arith)
          (continuations_of db k) (rw same at f.checkpoints_end));
  })

  owned_hits :
      {A : Type 0} (of : A → String) (new : List A)
      → has_conversation db k ≡ true
      → All (λ a. (of a == k) ≡ true) new
      → All (λ a. has_conversation db (of a) ≡ true) new
  owned_hits of new has h =
      All-map (λ a. (of a == k) ≡ true) _
        (λ a hit. ap (has_conversation db) ((eq_iff (of a) k).0 hit) ∙ has) new h

  pub extended-IsLedger :
      (q : Conversation → Bool) {conv : Conversation}
      → ((c : Conversation) → q c ≡ true → c.id ≡ k)
      → find q db.conversations ≡ some conv
      → conv.next_seq ≤ next_seq
      → next_seq ≤ max_i64
      → GapFree (λ (i : Item). i.seq) conv.next_seq next_seq rows
      → IsLedger db
      → IsLedger db'
  extended-IsLedger q {conv} hit found grows small run l =
      let has : has_conversation db k ≡ true =
        any_mono q (has_id k) (λ c h. (eq_iff c.id k).1 (hit c h)) db.conversations
          (any-of_find q db.conversations found) in
      change-IsLedger k (moved_to next_seq now) (λ c. refl) db db' q hit found e.conversations
        SameRows-extended
        (rw e.items (
          All-append _ db.conversation_items rows l.items_owned
            (owned_hits (λ i. i.conversation_id) rows has e.rows_hit)))
        (rw e.batches_grow (
          All-append _ db.append_batches batches l.batches_owned
            (owned_hits (λ b. b.conversation_id) batches has e.batches_hit)))
        (rw e.checkpoints l.checkpoints_owned)
        (extended-FitsIn conv (hit conv (find_sound q db.conversations found)) grows small run) l
