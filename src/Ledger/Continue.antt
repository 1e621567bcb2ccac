-- ===== src/Ledger/Continue.antt =====
-- `create_continuation` of src/store.rs against the ledger.
use threadmark.Store.Continuations.{
  insert_continuation, CreateContinuation, create_continuation, in_transcript,
}
use threadmark.Error.{ok-injective, bad_request, ok_or, reject_if-ok, ok_or-eq-ok, >>=-eq-ok, ok}
use threadmark.Common.Text.{trim, is_empty}
use threadmark.Ledger.Frame.{unique_found, eq_of_owned}
use threadmark.Ledger.Extend.{has_id}
use threadmark.Ledger.{has_conversation, IsLedger, continuations_of, FitsIn}
use threadmark.Common.Int.{pos, ℤ}
use threadmark.Store.Conversations.{owned_as, get_conversation}
use threadmark.Db.{Db}
use threadmark.Model.{Conversation, Actor, Continuation}
use threadmark.Common.{
  ℕ, ◌≤◌, ◌<◌, String, ◌≡◌, refl, sym, ap, inl, inr, Bool, true, ◌&&◌, ◌||◌, not, Option, none,
  some, [], ◌∷◌, ◌++◌, arith, ◌==◌, eq_iff, Bool-cases, All, All-append, All-map, filter, find, any,
  filter-append, any-of_find, any_mono, All-both,
}

one_row :
    {A : Type 0} (p : A → Bool) (Q : A → Type 0) (x : A)
    → (p x ≡ true → Q x)
    → All Q (filter p (x ∷ []))
unfolding filter
one_row p Q x q = elim (Bool-cases (p x)) [ inl hit ↦ rw hit (q hit, tt) | inr miss ↦ rw miss tt ]

abbrev with_checkpoint : Continuation → Db → Db
with_checkpoint k db = record db { continuations = db.continuations ++ k ∷ [] }

-- A checkpoint below `next_seq` of its conversation fits.
with_checkpoint-FitsIn :
    (k : Continuation) (db : Db) (c : Conversation)
    → ((k.conversation_id == c.id) ≡ true → k.through_seq < c.next_seq)
    → FitsIn db c
    → FitsIn (with_checkpoint k db) c
with_checkpoint-FitsIn k db c inside f = record {
  positive = f.positive;
  representable = f.representable;
  rising = f.rising;
  batches_end = f.batches_end;
  checkpoints_end = rw (filter-append (λ n. n.conversation_id == c.id) db.continuations (k ∷ [])) (
      All-append (λ (n : Continuation). n.through_seq < c.next_seq) (continuations_of db c.id) _
        f.checkpoints_end
        (one_row (λ n. n.conversation_id == c.id) (λ (n : Continuation). n.through_seq < c.next_seq)
          k inside));
}

with_checkpoint-IsLedger :
    (actor : Actor) (id : String) (k : Continuation) (db : Db) {conv : Conversation}
    → find (owned_as actor id) db.conversations ≡ some conv
    → k.conversation_id ≡ id
    → k.through_seq < conv.next_seq
    → IsLedger db
    → IsLedger (with_checkpoint k db)
with_checkpoint-IsLedger actor id k db {conv} found own below l =
    let has : has_conversation db id ≡ true =
      any_mono (owned_as actor id) (has_id id)
        (λ c h. (eq_iff c.id id).1 (eq_of_owned actor id c h)) db.conversations
        (any-of_find (owned_as actor id) db.conversations found) in
    record {
      unique = l.unique;
      items_owned = l.items_owned;
      batches_owned = l.batches_owned;
      checkpoints_owned =
          All-append (λ (n : Continuation). has_conversation db n.conversation_id ≡ true)
            db.continuations (k ∷ []) l.checkpoints_owned (rw own has, tt);
      fits =
          All-map (λ c. ((c.id == id) ≡ true → c ≡ conv) × FitsIn db c)
            (FitsIn (with_checkpoint k db))
            (λ c (only, f).
              with_checkpoint-FitsIn k db c
                (λ hit.
                  let same = only (ground (arith, eq_iff k.conversation_id c.id, eq_iff c.id id)) in
                  rw same below)
                f)
            db.conversations
            (All-both _ _ db.conversations
              (unique_found (owned_as actor id) id (eq_of_owned actor id) db.conversations l.unique
                found)
              l.fits);
    }

in_transcript-lt :
    (c : Conversation) (o : Option ℤ) {n : ℕ} → in_transcript c o ≡ some n → n < c.next_seq
unfolding in_transcript
in_transcript-lt c none h = ground arith
in_transcript-lt c (some (pos m)) h = ground arith
in_transcript-lt c (some (ℤ.negsuc m)) h = absurd (ground arith)

-- What others do keeps a ledger, and keeps every conversation of an owner with a `next_seq` that is no lower:
-- appends do, truncations do not.
pub record OnlyGrows (between : Db → Db) : Type 0 where
  pub keeps : (db : Db) → IsLedger db → IsLedger (between db)
  pub grows :
      (actor : Actor) (id : String) (db : Db) (conv : Conversation)
      → find (owned_as actor id) db.conversations ≡ some conv
      → (next : Conversation) × (find (owned_as actor id) (between db).conversations ≡ some next)
        × (conv.next_seq ≤ next.next_seq)

insert_continuation-ok :
    (k : Continuation) (db : Db) {j : Continuation} {db' : Db}
    → insert_continuation k db ≡ ok (j, db')
    → (j ≡ k) × (db' ≡ with_checkpoint k db)
unfolding insert_continuation
insert_continuation-ok k db h =
    let (_, k₀) =
      reject_if-ok
        (any
          (λ j.
            j.tenant_id == k.tenant_id
            && j.agent_ref == k.agent_ref
            && j.response_id == k.response_id)
          db.continuations)
        _ _ h in
    let (_, k₁) = reject_if-ok (any (λ j. j.id == k.id) db.continuations) _ _ k₀ in
    let (_, k₂) =
      reject_if-ok (not (any (λ c. c.id == k.conversation_id) db.conversations)) _ _ k₁ in
    (
      sym (ap (λ q. q.0) (ok-injective k₂)),
      sym (ap (λ (q : Continuation × Db). q.1) (ok-injective k₂)),
    )

-- On tables that are a ledger, a successful `create_continuation` leaves a ledger, and the continuation
-- that it answers ends before the `next_seq` that the actor's conversation then has, where what others do
-- between its look at the conversation and its INSERT keeps a ledger, keeps the conversations and lowers no
-- `next_seq`.
pub create_continuation-IsLedger :
    (between : Db → Db) (actor : Actor) (id : String) (request : CreateContinuation) (now : ℕ)
    (ulid : String) (db : Db) {k : Continuation} {db' : Db}
    → OnlyGrows between
    → IsLedger db
    → create_continuation between actor id request now ulid db ≡ ok (k, db')
    → IsLedger db'
      × ((conv : Conversation) × (find (owned_as actor id) db'.conversations ≡ some conv)
          × (k.through_seq < conv.next_seq))
unfolding create_continuation get_conversation
create_continuation-IsLedger between actor id request now ulid db {k} {db'} calm l h =
    let (conv, e₁, k₁) = >>=-eq-ok (get_conversation actor id db) _ h in
    let found = ok_or-eq-ok (find (owned_as actor id) db.conversations) _ e₁ in
    let (_, k₂) =
      reject_if-ok (is_empty (trim request.agent_ref) || is_empty (trim request.response_id)) _ _
        k₁ in
    let (n, e₃, k₃) =
      >>=-eq-ok
        (ok_or (in_transcript conv request.through_seq)
          (bad_request "through_seq is outside the conversation transcript"))
        _ k₂ in
    let below = in_transcript-lt conv request.through_seq (ok_or-eq-ok _ _ e₃) in
    let (next, still, higher) = calm.grows actor id db conv found in
    let (same, written) = insert_continuation-ok _ (between db) k₃ in
    (
      rw written (
          with_checkpoint-IsLedger actor id _ (between db) still refl (omega arith)
            (calm.keeps db l)),
      (next, rw written still, rw same (omega arith)),
    )
