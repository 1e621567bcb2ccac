-- ===== src/Ledger/Frame.antt =====
-- A transaction that changes the rows of one conversation keeps the ledger if that conversation's rows fit.
use threadmark.Store.Conversations.{owned_as, transcript}
use threadmark.Model.{Actor, Conversation, Item, Continuation}
use mathlib.Core.Path.{subst}
use threadmark.Db.{Db, AppendBatch}
use threadmark.Ledger.{batches_of, continuations_of, FitsIn, UniqueIds, has_conversation, IsLedger}
use threadmark.Common.{
  String, ◌≡◌, sym, ap, ◌∙◌, ◌≢◌, inl, inr, Bool, true, false, some, List, [], ◌∷◌, arith, ◌==◌,
  eq_iff, Bool-cases, All, All-map, find, any, update, All-not_of_any, any-of_find, All-find,
  any-update, All-update, any_mono, All-both,
}

-- The rows of the conversation `id` are the same in both.
pub record SameRows (id : String) (db db' : Db) : Type 0 where
  pub items : transcript db' id ≡ transcript db id
  pub batches : batches_of db' id ≡ batches_of db id
  pub checkpoints : continuations_of db' id ≡ continuations_of db id

eq_false-of_eq : (s t : String) → (s == t) ≡ false → s ≢ t
eq_false-of_eq s t h e = ground (arith, eq_iff s t)

-- With unique identifiers, a row with the identifier of the row that is found is that row.
pub unique_found :
    (q : Conversation → Bool) (k : String)
    → ((c : Conversation) → q c ≡ true → c.id ≡ k)
    → (cs : List Conversation) {conv : Conversation} → UniqueIds cs
    → find q cs ≡ some conv
    → All (λ c. (c.id == k) ≡ true → c ≡ conv) cs
unfolding find any
unique_found q k hit [] u e = tt
unique_found q k hit (c ∷ cs) {conv} (fresh, u) e = elim (Bool-cases (q c)) [
  | inl here ↦
      let same : c ≡ conv = ground arith in
      (
        λ _. same,
        All-map (λ d. (d.id == c.id) ≡ false) (λ d. (d.id == k) ≡ true → d ≡ conv)
            (λ d other hit_d. ground (arith, eq_iff d.id c.id, eq_iff d.id k, hit c here)) cs
            (All-not_of_any (λ d. d.id == c.id) cs fresh),
      )
  | inr there ↦
      let found : find q cs ≡ some conv = ground arith in
      (
        λ hit_c.
            let again =
              any_mono q (λ d. d.id == c.id)
                (λ d h. ground (arith, hit d h, eq_iff d.id c.id, eq_iff c.id k)) cs
                (any-of_find q cs found) in
            absurd (ground arith),
        unique_found q k hit cs u found,
      )
]

pub UniqueIds-update :
    (p : Conversation → Bool) (f : Conversation → Conversation)
    → ((c : Conversation) → (f c).id ≡ c.id)
    → (cs : List Conversation) → UniqueIds cs
    → UniqueIds (update p f cs)
unfolding update
UniqueIds-update p f same [] u = tt
UniqueIds-update p f same (c ∷ cs) (fresh, u) = elim (Bool-cases (p c)) [
  | inl hit ↦ rw hit (
    any-update p f (λ d. d.id == (f c).id) (λ d. ap (λ s. s == (f c).id) (same d)) cs
        ∙ rw (same c) fresh,
    UniqueIds-update p f same cs u,
  )
  | inr miss ↦ rw miss (
    any-update p f (λ d. d.id == c.id) (λ d. ap (λ s. s == c.id) (same d)) cs ∙ fresh,
    UniqueIds-update p f same cs u,
  )
]

-- The conversations of the next database: one row is changed, which keeps its identifier.
module _ (k : String) (f : Conversation → Conversation)
    (same_id : (c : Conversation) → (f c).id ≡ c.id) where
  pub has_conversation-update :
      (db db' : Db)
      → db'.conversations ≡ update (λ c. c.id == k) f db.conversations
      → (id : String) → has_conversation db' id ≡ has_conversation db id
  has_conversation-update db db' e id =
      ap (λ cs. any (λ c. c.id == id) cs) e
      ∙ any-update (λ c. c.id == k) f (λ c. c.id == id) (λ c. ap (λ s. s == id) (same_id c))
          db.conversations

  pub owned_update :
      {A : Type 0} (db db' : Db)
      → db'.conversations ≡ update (λ c. c.id == k) f db.conversations
      → (of : A → String) (rows : List A) → All (λ a. has_conversation db (of a) ≡ true) rows
      → All (λ a. has_conversation db' (of a) ≡ true) rows
  owned_update db db' e of rows h =
      All-map (λ a. has_conversation db (of a) ≡ true) (λ a. has_conversation db' (of a) ≡ true)
        (λ a t. has_conversation-update db db' e (of a) ∙ t) rows h

  fits_update :
      (db db' : Db) (conv : Conversation)
      → ((id : String) → (id == k) ≡ false → SameRows id db db')
      → FitsIn db' (f conv)
      → (cs : List Conversation) → All (λ c. (c.id == k) ≡ true → c ≡ conv) cs
      → All (FitsIn db) cs
      → All (FitsIn db') (update (λ c. c.id == k) f cs)
  fits_update db db' conv others fit cs found h =
      All-update (λ c. c.id == k) f (λ c. ((c.id == k) ≡ true → c ≡ conv) × FitsIn db c)
        (FitsIn db') (λ c hit h. rw (h.0 hit) fit)
        (λ c miss h.
          let same = others c.id miss in rw (same.items, same.batches, same.checkpoints) h.1)
        cs (All-both _ _ cs found h)

  -- The conversation that `q` finds is changed, with its rows; the other conversations' rows stay.
  pub change-IsLedger :
      (db db' : Db) (q : Conversation → Bool) {conv : Conversation}
      → ((c : Conversation) → q c ≡ true → c.id ≡ k)
      → find q db.conversations ≡ some conv
      → db'.conversations ≡ update (λ c. c.id == k) f db.conversations
      → ((id : String) → (id == k) ≡ false → SameRows id db db')
      → All (λ (i : Item). has_conversation db i.conversation_id ≡ true) db'.conversation_items
      → All (λ (b : AppendBatch). has_conversation db b.conversation_id ≡ true) db'.append_batches
      → All (λ (n : Continuation). has_conversation db n.conversation_id ≡ true) db'.continuations
      → (FitsIn db conv → FitsIn db' (f conv))
      → IsLedger db
      → IsLedger db'
  change-IsLedger db db' q {conv} hit found e others is bs ks fit l = record {
    unique =
        subst UniqueIds (sym e)
          (UniqueIds-update (λ c. c.id == k) f same_id db.conversations l.unique);
    items_owned = owned_update db db' e (λ i. i.conversation_id) db'.conversation_items is;
    batches_owned = owned_update db db' e (λ b. b.conversation_id) db'.append_batches bs;
    checkpoints_owned = owned_update db db' e (λ n. n.conversation_id) db'.continuations ks;
    fits = subst (All (FitsIn db')) (sym e) (
        fits_update db db' conv others (fit (All-find q (FitsIn db) db.conversations l.fits found))
          db.conversations (unique_found q k hit db.conversations l.unique found) l.fits);
  }

-- A row that is owned under an identifier has it.
pub eq_of_owned :
    (actor : Actor) (id : String) (c : Conversation) → owned_as actor id c ≡ true → c.id ≡ id
eq_of_owned actor id c h = ground (arith, eq_iff c.id id)
