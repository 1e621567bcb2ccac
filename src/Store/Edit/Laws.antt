-- ===== src/Store/Edit/Laws.antt =====
-- The destructive edits, by how they end.
use threadmark.Error.{not_found, ok-injective, ok_or-eq-ok, ok_or, >>=-eq-ok, ok}
use threadmark.Store.Edit.{
  drop_output, latest_turn, truncate_at, regenerate_conversation, truncate_conversation,
}
use threadmark.Model.{Item, Turn, Conversation, Actor}
use threadmark.Store.Conversations.{owned_as, delete_items, lock_conversation}
use threadmark.Store.Items.{write_next_seq}
use threadmark.Db.{Db}
use threadmark.Common.{
  ℕ, zero, suc, ◌≤◌, String, ◌≡◌, sym, ap, ◌⊎◌, inl, inr, ◌&&◌, Option, none, some, arith, ◌==◌,
  leb, Option-cases, find, remove,
}

-- The tables after a cut at `seq`.
abbrev pub cut_at : String → (seq now : ℕ) → Db → Db
cut_at id seq now db =
    let db₁ = delete_items (λ i. i.conversation_id == id && leb seq i.seq) db in
    write_next_seq id seq now (record db₁ {
      append_batches =
          remove (λ b. b.conversation_id == id && leb seq b.last_seq) db₁.append_batches;
      continuations =
          remove (λ k. k.conversation_id == id && leb seq k.through_seq) db₁.continuations;
    })

truncate_at-ok :
    (id : String) (seq now : ℕ) (db : Db) {db' : Db}
    → truncate_at id seq now db ≡ ok db'
    → (1 ≤ seq) × (db' ≡ cut_at id seq now db)
unfolding truncate_at
truncate_at-ok id zero now db h = absurd (ground arith)
truncate_at-ok id (suc n) now db h = (omega arith, sym (ok-injective h))

pub record Truncated (actor : Actor) (id item_id : String) (now : ℕ) (db db' : Db) : Type 0 where
  pub conv : Conversation
  pub found : find (owned_as actor id) db.conversations ≡ some conv
  pub item : Item
  pub item_found :
      find (λ (i : Item). i.id == item_id && i.conversation_id == id) db.conversation_items
      ≡ some item
  pub positive : 1 ≤ item.seq
  pub cut : db' ≡ cut_at id item.seq now db

pub truncate_conversation-ok :
    (actor : Actor) (id item_id : String) (now : ℕ) (db : Db) {db' : Db}
    → truncate_conversation actor id item_id now db ≡ ok db'
    → Truncated actor id item_id now db db'
unfolding truncate_conversation lock_conversation
truncate_conversation-ok actor id item_id now db h =
    let (conv, e₁, k₁) = >>=-eq-ok (lock_conversation actor id db) _ h in
    let (i, e₂, k₂) =
      >>=-eq-ok
        (ok_or
          (find (λ (i : Item). i.id == item_id && i.conversation_id == id) db.conversation_items)
          (not_found "Item not found in conversation."))
        _ k₁ in
    let (positive, cut) = truncate_at-ok id i.seq now db k₂ in
    record {
      conv = conv;
      found = ok_or-eq-ok (find (owned_as actor id) db.conversations) _ e₁;
      item = i;
      item_found = ok_or-eq-ok _ _ e₂;
      positive = positive;
      cut = cut;
    }

-- A regeneration finds the conversation, and drops the output of its latest turn, if it has one.
pub record Regenerated (actor : Actor) (id : String) (now : ℕ) (db : Db) (r : Option String)
    (db' : Db) : Type 0 where
  pub conv : Conversation
  pub found : find (owned_as actor id) db.conversations ≡ some conv
  pub how :
      ((t : Turn) × (latest_turn id db ≡ some t)
        × (r ≡ some t.id)
        × (db' ≡ drop_output id t.id now db))
      ⊎ ((r ≡ none) × (db' ≡ db))

pub regenerate_conversation-ok :
    (actor : Actor) (id : String) (now : ℕ) (db : Db) {r : Option String} {db' : Db}
    → regenerate_conversation actor id now db ≡ ok (r, db')
    → Regenerated actor id now db r db'
unfolding regenerate_conversation lock_conversation
regenerate_conversation-ok actor id now db h =
    let (conv, e₁, k₁) = >>=-eq-ok (lock_conversation actor id db) _ h in
    record {
      conv = conv;
      found = ok_or-eq-ok (find (owned_as actor id) db.conversations) _ e₁;
      how = elim (Option-cases (latest_turn id db)) [
        | inl missing ↦
            let both = ok-injective (rw missing at k₁) in
            inr (sym (ap (λ q. q.0) both), sym (ap (λ q. q.1) both))
        | inr (t, last) ↦
            let both = ok-injective (rw last at k₁) in
            inl (t, last, sym (ap (λ q. q.0) both), sym (ap (λ q. q.1) both))
      ];
    }
