-- ===== src/Ledger/Create.antt =====
-- `create_conversation` of src/store.rs against the ledger: a new conversation has no rows.
use threadmark.Ledger.{
  FitsIn, Fits, Continuation, continuations_of, batches_of, Item, transcript, IsLedger, UniqueIds,
  has_conversation,
}
use threadmark.Model.{Continuation, Item, CreateConversation, Actor, Conversation}
use threadmark.Store.Conversations.{
  new_conversation, normalize_title, transcript, create_conversation,
}
use threadmark.Db.{AppendBatch, Db, insert_conversation}
use threadmark.Error.{>>=-eq-ok, ok-injective, reject_if-ok, ok}
use threadmark.Model.Json.{is_object}
use threadmark.Ledger.Extend.{has_id}
use threadmark.Common.{
  ℕ, String, ◌≡◌, refl, sym, ap, ◌∙◌, inl, inr, true, false, not, some, List, [], ◌∷◌, ◌++◌, arith,
  ◌==◌, eq_iff, eq_refl, Bool-cases, All, All-append, All-map, filter, find, any, any-append,
  filter_none,
}

UniqueIds-append :
    (cs : List Conversation) (c : Conversation)
    → UniqueIds cs
    → any (has_id c.id) cs ≡ false
    → UniqueIds (cs ++ c ∷ [])
unfolding any
UniqueIds-append [] c u fresh = (refl, tt)
UniqueIds-append (d ∷ cs) c (first, u) fresh =
    let rest : any (has_id c.id) cs ≡ false = ground arith in
    let other : (c.id == d.id) ≡ false = ground (arith, eq_iff c.id d.id, eq_iff d.id c.id) in
    (any-append (has_id d.id) cs (c ∷ []) ∙ rw (first, other), UniqueIds-append cs c u rest)

abbrev with_conversation : Conversation → Db → Db
with_conversation c db = record db { conversations = db.conversations ++ c ∷ [] }

-- The rows of a table whose conversations exist, of a conversation that does not.
rows_none :
    {A : Type 0} (of : A → String) (db : Db) (id : String)
    → has_conversation db id ≡ false
    → (rows : List A) → All (λ a. has_conversation db (of a) ≡ true) rows
    → filter (λ a. of a == id) rows ≡ []
rows_none of db id missing rows h =
    filter_none (λ a. of a == id) rows
      (All-map (λ a. has_conversation db (of a) ≡ true) (λ a. (of a == id) ≡ false)
        (λ a there. elim (Bool-cases (of a == id)) [
          | inl hit ↦
              let same = (eq_iff (of a) id).0 hit in
              absurd (let t = rw same at there in ground arith)
          | inr miss ↦ miss
        ])
        rows h)

owned_still :
    {A : Type 0} (of : A → String) (c : Conversation) (db : Db) (rows : List A)
    → All (λ a. has_conversation db (of a) ≡ true) rows
    → All (λ a. has_conversation (with_conversation c db) (of a) ≡ true) rows
owned_still of c db rows h =
    All-map (λ a. has_conversation db (of a) ≡ true) _
      (λ a there. any-append (has_id (of a)) db.conversations (c ∷ []) ∙ rw there) rows h

with_conversation-IsLedger :
    (c : Conversation) (db : Db)
    → c.next_seq ≡ 1
    → has_conversation db c.id ≡ false
    → IsLedger db
    → IsLedger (with_conversation c db)
with_conversation-IsLedger c db starts fresh l =
    let no_items : transcript db c.id ≡ [] =
      rows_none (λ (i : Item). i.conversation_id) db c.id fresh db.conversation_items
        l.items_owned in
    let no_batches : batches_of db c.id ≡ [] =
      rows_none (λ (b : AppendBatch). b.conversation_id) db c.id fresh db.append_batches
        l.batches_owned in
    let no_checkpoints : continuations_of db c.id ≡ [] =
      rows_none (λ (k : Continuation). k.conversation_id) db c.id fresh db.continuations
        l.checkpoints_owned in
    let empty_fits : Fits 1 [] [] [] = record {
      positive = omega arith;
      representable = omega arith;
      rising = omega arith;
      batches_end = tt;
      checkpoints_end = tt;
    } in
    record {
      unique = UniqueIds-append db.conversations c l.unique fresh;
      items_owned = owned_still (λ i. i.conversation_id) c db db.conversation_items l.items_owned;
      batches_owned = owned_still (λ b. b.conversation_id) c db db.append_batches l.batches_owned;
      checkpoints_owned =
          owned_still (λ k. k.conversation_id) c db db.continuations l.checkpoints_owned;
      fits =
          All-append (FitsIn (with_conversation c db)) db.conversations (c ∷ []) l.fits
            ((rw (starts, no_items, no_batches, no_checkpoints) empty_fits), tt);
    }

find_last :
    (c : Conversation) (cs : List Conversation)
    → any (has_id c.id) cs ≡ false
    → find (has_id c.id) (cs ++ c ∷ []) ≡ some c
unfolding any find
find_last c [] h = rw (eq_refl c.id)
find_last c (d ∷ cs) h = ground (arith, find_last c cs)

-- A conversation that is inserted is found under its identifier, and has no rows.
pub insert_conversation-IsLedger :
    (c : Conversation) (db : Db) {db' : Db}
    → c.next_seq ≡ 1
    → insert_conversation c db ≡ ok db'
    → IsLedger db
    → IsLedger db' × (find (has_id c.id) db'.conversations ≡ some c)
unfolding insert_conversation
insert_conversation-IsLedger c db starts h l =
    let (fresh, k) = reject_if-ok (any (λ d. d.id == c.id) db.conversations) _ _ h in
    rw (sym (ok-injective k))
      (with_conversation-IsLedger c db starts fresh l, find_last c db.conversations fresh)

-- On tables that are a ledger, a successful `create_conversation` leaves a ledger.
pub create_conversation-IsLedger :
    (actor : Actor) (request : CreateConversation) (now : ℕ) (ulid : String) (db : Db)
    {c : Conversation} {db' : Db}
    → IsLedger db
    → create_conversation actor request now ulid db ≡ ok (c, db')
    → IsLedger db'
unfolding create_conversation
create_conversation-IsLedger actor request now ulid db l h =
    let (_, k₀) = reject_if-ok (not (is_object request.metadata)) _ _ h in
    let (title, e₁, k₁) = >>=-eq-ok (normalize_title request.title) _ k₀ in
    let new = new_conversation ulid actor title request.metadata now in
    let (db₁, e₂, k₂) = >>=-eq-ok (insert_conversation new db) _ k₁ in
    let same = ap (λ q. q.1) (ok-injective k₂) in
    rw (sym same) (insert_conversation-IsLedger new db refl e₂ l).0
