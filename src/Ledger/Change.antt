-- ===== src/Ledger/Change.antt =====
-- `update_conversation` and `delete_conversation` of src/store.rs against the ledger.
use threadmark.Db.{AppendBatch, Db}
use threadmark.Store.Conversations.{
  delete_items, delete_turns, cascade, delete_conversation, concat_some, metadata_is_bad,
  normalize_new_title, owned_as, update_conversation,
}
use threadmark.Model.{Continuation, Item, UpdateConversation, Actor, Conversation}
use threadmark.Error.{ok-injective, not_found, ok_or, >>=-eq-ok, reject_if-ok, ok}
use mathlib.Core.Path.{subst}
use threadmark.Ledger.{FitsIn, Continuation, Item, IsLedger, UniqueIds, has_conversation}
use threadmark.Ledger.Frame.{UniqueIds-update}
use threadmark.Model.Json.{Value}
use threadmark.Common.{
  ℕ, String, ◌≡◌, refl, ap, ◌∙◌, inl, inr, Bool, true, false, ◌&&◌, not, List, [], ◌∷◌, arith, ◌==◌,
  eq_iff, if◌then◌else◌, is_some, unwrap_or, Bool-cases, All, All-map, filter, find, any, remove,
  update, All-not_of_any, any-of_All, All-remove, any-update, All-update, All-removed, All-both,
}

-- Rows change that keep their identifier and their `next_seq`.
module _ (p : Conversation → Bool) (f : Conversation → Conversation)
    (same_id : (c : Conversation) → (f c).id ≡ c.id)
    (same_next : (c : Conversation) → (f c).next_seq ≡ c.next_seq) (db : Db) where
  abbrev renamed : Db
  renamed = record db { conversations = update p f db.conversations }

  owned_renamed :
      {A : Type 0} (of : A → String) (rows : List A)
      → All (λ a. has_conversation db (of a) ≡ true) rows
      → All (λ a. has_conversation renamed (of a) ≡ true) rows
  owned_renamed of rows h =
      All-map (λ a. has_conversation db (of a) ≡ true) (λ a. has_conversation renamed (of a) ≡ true)
        (λ a there.
          any-update p f (λ c. c.id == of a) (λ c. ap (λ s. s == of a) (same_id c)) db.conversations
          ∙ there)
        rows h

  renamed-IsLedger : IsLedger db → IsLedger renamed
  renamed-IsLedger l = record {
    unique = UniqueIds-update p f same_id db.conversations l.unique;
    items_owned =
        owned_renamed (λ (i : Item). i.conversation_id) db.conversation_items l.items_owned;
    batches_owned =
        owned_renamed (λ (b : AppendBatch). b.conversation_id) db.append_batches l.batches_owned;
    checkpoints_owned =
        owned_renamed (λ (k : Continuation). k.conversation_id) db.continuations
          l.checkpoints_owned;
    fits =
        All-update p f (FitsIn db) (FitsIn renamed) (λ c hit h. rw (same_id c, same_next c) h)
          (λ c miss h. h) db.conversations l.fits;
  }

-- On tables that are a ledger, a successful `update_conversation` leaves a ledger.
pub update_conversation-IsLedger :
    (concat : Value → Value → Value) (actor : Actor) (id : String) (request : UpdateConversation)
    (now : ℕ) (db : Db) {c : Conversation} {db' : Db}
    → IsLedger db
    → update_conversation concat actor id request now db ≡ ok (c, db')
    → IsLedger db'
unfolding update_conversation
update_conversation-IsLedger concat actor id request now db l h =
    let (_, k₀) =
      reject_if-ok (not (is_some request.title) && not (is_some request.metadata)) _ _ h in
    let (title, _, k₁) = >>=-eq-ok (normalize_new_title request.title) _ k₀ in
    let (_, k₂) = reject_if-ok (metadata_is_bad request.metadata) _ _ k₁ in
    let (c, _, k₃) =
      >>=-eq-ok
        (ok_or (find (owned_as actor id) db.conversations) (not_found "Conversation not found.")) _
        k₂ in
    subst IsLedger (ap (λ q. q.1) (ok-injective k₃)) (
      renamed-IsLedger (owned_as actor id)
        (λ d. record d {
          title = unwrap_or title d.title;
          metadata = concat_some concat d.metadata request.metadata;
          updated_at = now;
        })
        (λ d. refl) (λ d. refl) db l)

UniqueIds-remove :
    (p : Conversation → Bool) (cs : List Conversation) → UniqueIds cs → UniqueIds (remove p cs)
unfolding remove
UniqueIds-remove p [] u = tt
UniqueIds-remove p (c ∷ cs) (fresh, u) = elim (Bool-cases (p c)) [
  | inl hit ↦ rw hit (UniqueIds-remove p cs u)
  | inr miss ↦ rw miss (
    any-of_All (λ d. d.id == c.id) (remove p cs)
        (All-remove p _ cs (All-not_of_any (λ d. d.id == c.id) cs fresh)),
    UniqueIds-remove p cs u,
  )
]

module _ (actor : Actor) (id : String) (db : Db) where
  -- What `delete_conversation` leaves of the four tables.
  record Deleted (db' : Db) : Type 0 where
    conversations : db'.conversations ≡ remove (owned_as actor id) db.conversations
    items : db'.conversation_items ≡ remove (λ i. i.conversation_id == id) db.conversation_items
    batches : db'.append_batches ≡ remove (λ b. b.conversation_id == id) db.append_batches
    checkpoints : db'.continuations ≡ remove (λ k. k.conversation_id == id) db.continuations

  any_spared :
      (other : String)
      → (other == id) ≡ false
      → (cs : List Conversation)
      → any (λ c. c.id == other) (remove (owned_as actor id) cs) ≡ any (λ c. c.id == other) cs
  unfolding any remove
  any_spared other apart [] = refl
  any_spared other apart (c ∷ cs) =
      ground (arith, any_spared other apart cs, eq_iff c.id id, eq_iff c.id other, eq_iff other id)

  module _ (db' : Db) (d : Deleted db') where
    owned_spared :
        {A : Type 0} (of : A → String) (rows : List A)
        → All (λ a. has_conversation db (of a) ≡ true) rows
        → All (λ a. has_conversation db' (of a) ≡ true) (remove (λ a. of a == id) rows)
    owned_spared of rows h =
        All-map (λ a. ((of a == id) ≡ false) × (has_conversation db (of a) ≡ true))
          (λ a. has_conversation db' (of a) ≡ true)
          (λ a (apart, there).
            rw d.conversations (any_spared (of a) apart db.conversations ∙ there))
          (remove (λ a. of a == id) rows)
          (All-both _ _ (remove (λ a. of a == id) rows) (All-removed (λ a. of a == id) rows)
            (All-remove (λ a. of a == id) _ rows h))

    rows_left :
        {A : Type 0} (of : A → String) (rows : List A) (other : String)
        → filter (λ a. of a == other) (remove (λ a. of a == id) rows)
          ≡ (if other == id then [] else filter (λ a. of a == other) rows)
    unfolding filter remove
    rows_left of [] other = ground arith
    rows_left of (a ∷ rows) other =
        ground
          (arith, rows_left of rows other, eq_iff (of a) id, eq_iff (of a) other, eq_iff other id)

    fits_spared : (c : Conversation) → FitsIn db c → FitsIn db' c
    fits_spared c f =
        let is =
          ap (filter (λ i. i.conversation_id == c.id)) d.items
          ∙ rows_left (λ (i : Item). i.conversation_id) db.conversation_items c.id in
        let bs =
          ap (filter (λ b. b.conversation_id == c.id)) d.batches
          ∙ rows_left (λ (b : AppendBatch). b.conversation_id) db.append_batches c.id in
        let ks =
          ap (filter (λ k. k.conversation_id == c.id)) d.checkpoints
          ∙ rows_left (λ (k : Continuation). k.conversation_id) db.continuations c.id in
        elim (Bool-cases (c.id == id)) [
          | inl gone ↦ record {
            positive = f.positive;
            representable = f.representable;
            rising = rw (is, gone) f.positive;
            batches_end = rw (bs, gone) tt;
            checkpoints_end = rw (ks, gone) tt;
          }
          | inr spared ↦ record {
            positive = f.positive;
            representable = f.representable;
            rising = rw (is, spared) f.rising;
            batches_end = rw (bs, spared) f.batches_end;
            checkpoints_end = rw (ks, spared) f.checkpoints_end;
          }
        ]

    Deleted-IsLedger : IsLedger db → IsLedger db'
    Deleted-IsLedger l = record {
      unique = rw d.conversations (UniqueIds-remove (owned_as actor id) db.conversations l.unique);
      items_owned =
          rw d.items
            (owned_spared (λ (i : Item). i.conversation_id) db.conversation_items l.items_owned);
      batches_owned =
          rw d.batches (
            owned_spared (λ (b : AppendBatch). b.conversation_id) db.append_batches
              l.batches_owned);
      checkpoints_owned = rw d.checkpoints (
          owned_spared (λ (k : Continuation). k.conversation_id) db.continuations
            l.checkpoints_owned);
      fits = rw d.conversations (
          All-map (FitsIn db) (FitsIn db') fits_spared (remove (owned_as actor id) db.conversations)
            (All-remove (owned_as actor id) (FitsIn db) db.conversations l.fits));
    }

-- On tables that are a ledger, a successful `delete_conversation` leaves a ledger.
pub delete_conversation-IsLedger :
    (actor : Actor) (id : String) (db : Db) {db' : Db}
    → IsLedger db
    → delete_conversation actor id db ≡ ok db'
    → IsLedger db'
unfolding delete_conversation cascade delete_turns delete_items
delete_conversation-IsLedger actor id db l h =
    let (_, k) = reject_if-ok (not (any (owned_as actor id) db.conversations)) _ _ h in
    subst IsLedger (ok-injective k) (
      Deleted-IsLedger actor id db _
        (record { conversations = refl; items = refl; batches = refl; checkpoints = refl }) l)
