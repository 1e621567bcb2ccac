-- ===== src/Ledger/Start/Whole.antt =====
-- `start_turn` of src/store.rs: the whole transaction against the ledger.
use threadmark.Ledger.Start.{write_turn-IsLedger}
use threadmark.Ledger.Extend.{has_id}
use threadmark.Store.Start.Existing.{existing_result, find_start}
use threadmark.Error.{ok-injective, >>=-eq-ok, ok_or-eq-ok, ok}
use threadmark.Ledger.Create.{insert_conversation-IsLedger}
use threadmark.Ledger.Frame.{eq_of_owned}
use threadmark.Store.Conversations.{new_conversation, owned_as, lock_conversation}
use threadmark.Store.Start.Request.{
  turn_start_digest_v1, normalize_request, Digest, TurnStartDigest,
}
use threadmark.Model.{StartTurnResult, StartTurn, Actor, Conversation}
use threadmark.Store.Start.{Fresh, start_new, start_turn, open_conversation}
use mathlib.Core.Path.{subst}
use threadmark.Ledger.{IsLedger}
use threadmark.Db.{Db, insert_conversation}
use threadmark.Common.{
  String, ◌≡◌, refl, sym, ap, ◌∙◌, inl, inr, Bool, true, Option, some, arith, eq_iff, unwrap_or,
  Option-cases, find, find_sound,
}

-- A conversation that is found in a ledger.
abbrev Found : Conversation → Db → Type 0
Found conv db =
    IsLedger db
    × ((q : Conversation → Bool) × ((c : Conversation) → q c ≡ true → c.id ≡ conv.id)
        × (find q db.conversations ≡ some conv))

Found-of_eq : {a b : Conversation × Db} → Found a.0 a.1 → a ≡ b → Found b.0 b.1
Found-of_eq f e = subst (λ (p : Conversation × Db). Found p.0 p.1) e f

lock_conversation-Found :
    (actor : Actor) (id : String) (db : Db) {conv : Conversation}
    → IsLedger db
    → lock_conversation actor id db ≡ ok conv
    → Found conv db
unfolding lock_conversation
lock_conversation-Found actor id db {conv} l h =
    let found = ok_or-eq-ok (find (owned_as actor id) db.conversations) _ h in
    let same = eq_of_owned actor id conv (find_sound (owned_as actor id) db.conversations found) in
    (l, (owned_as actor id, (λ c hit. eq_of_owned actor id c hit ∙ sym same), found))

-- The conversation that a start opens is found in a ledger.
open_conversation-ok :
    (actor : Actor) (request : StartTurn) (fresh : Fresh) (db : Db) {conv : Conversation} {db' : Db}
    → open_conversation actor request fresh db ≡ ok (conv, db')
    → IsLedger db
    → Found conv db'
unfolding open_conversation
open_conversation-ok actor request fresh db {conv} {db'} h l =
    elim (Option-cases request.conversation_id) [
      | inr (id, known) ↦
          let (c, e, k) = >>=-eq-ok (lock_conversation actor id db) _ (rw known at h) in
          Found-of_eq {a = (c, db)} {b = (conv, db')} (lock_conversation-Found actor id db l e)
            (ok-injective k)
      | inl unknown ↦ elim (Option-cases request.conversation) [
        | inr (asked, given) ↦
            let new =
              new_conversation fresh.conversation_ulid actor (unwrap_or asked.title "")
                asked.metadata fresh.now in
            let (db₁, e, k) = >>=-eq-ok (insert_conversation new db) _ (rw (unknown, given) at h) in
            let (kept, found) = insert_conversation-IsLedger new db refl e l in
            Found-of_eq {a = (new, db₁)} {b = (conv, db')}
              (kept, (has_id new.id, (λ c hit. (eq_iff c.id new.id).0 hit), found)) (ok-injective k)
        | inl missing ↦ absurd (let t = rw (unknown, missing) at h in ground arith)
      ]
    ]

module _ (hash : TurnStartDigest → Option Digest) where
  -- On tables that are a ledger, a successful `start_turn`, whether it starts a turn, opens a conversation
  -- for it or repeats the answer of an earlier start, leaves a ledger.
  pub start_turn-IsLedger :
      (actor : Actor) (client_id : String) (request : StartTurn) (fresh : Fresh) (db : Db)
      {r : StartTurnResult} {db' : Db}
      → IsLedger db
      → start_turn hash actor client_id request fresh db ≡ ok (r, db')
      → IsLedger db'
  unfolding start_turn start_new
  start_turn-IsLedger actor client_id request fresh db l h =
      let (normal, e₁, k₁) = >>=-eq-ok (normalize_request request) _ h in
      let (digest, e₂, k₂) = >>=-eq-ok (turn_start_digest_v1 hash normal) _ k₁ in
      elim (Option-cases (find_start actor client_id normal.idempotency_key db)) [
        | inr (s, known) ↦
            let (result, e, k) =
              >>=-eq-ok (existing_result actor normal digest s db) _ (rw known at k₂) in
            rw (sym (ap (λ q. q.1) (ok-injective k))) l
        | inl missing ↦
            let (p, e, k) =
              >>=-eq-ok (open_conversation actor normal fresh db) _ (rw missing at k₂) in
            let (kept, (q, hit, found)) = open_conversation-ok actor normal fresh db e l in
            write_turn-IsLedger actor client_id normal digest fresh p.0 p.1 q hit found kept k
      ]
