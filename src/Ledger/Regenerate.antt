-- ===== src/Ledger/Regenerate.antt =====
-- `regenerate_conversation` of src/store.rs against the ledger: order stays, and gaps may open.
use threadmark.Common.Order.{
  sort_by-LedByTop, later, LedByTop, sort_by, All-of_sorted, length-GapFree, Ascending-remove,
}
use mathlib.Core.Path.{subst}
use threadmark.Store.Turns.{first}
use threadmark.Model.{Turn, Continuation, Conversation, Actor, Item}
use threadmark.Store.Edit.{latest_turn, regenerate_conversation, drop_output}
use threadmark.Db.{AppendBatch, Db}
use threadmark.Ledger.Frame.{eq_of_owned, owned_update, UniqueIds-update}
use threadmark.Ledger.Extend.{has_id}
use threadmark.Ledger.{continuations_of, FitsIn, IsLedger}
use threadmark.Store.Edit.Laws.{regenerate_conversation-ok}
use threadmark.Error.{ok}
use threadmark.Ledger.Append.{GapFreeItems}
use threadmark.Store.Conversations.{owned_as, transcript}
use threadmark.Common.{
  ℕ, ◌≤◌, String, ◌≡◌, refl, sym, ap, ◌∙◌, ◌⊎◌, inl, inr, Bool, true, false, ◌&&◌, Option, none,
  some, List, [], ◌∷◌, arith, ◌==◌, eq_iff, some_eq, length, All, filter, find, any, remove,
  any-of_All, All-remove, find-update, All-update, filter-remove, All-removed, some-eq-some,
  length-remove_lt,
}

-- The items that the regeneration of a turn deletes.
abbrev pub is_output : String → Item → Bool
is_output turn_id i = some_eq i.turn_id turn_id && i.source == "agent"

module _ (id turn_id : String) (now : ℕ) (db : Db) where
  pub transcript-drop_output :
      (other : String)
      → transcript (drop_output id turn_id now db) other
        ≡ remove (is_output turn_id) (transcript db other)
  unfolding drop_output
  transcript-drop_output other =
      filter-remove (is_output turn_id) (λ i. i.conversation_id == other) db.conversation_items

  abbrev touched : Conversation → Conversation
  touched c = record c { updated_at = now }

  drop_output-FitsIn : (c : Conversation) → FitsIn db c → FitsIn (drop_output id turn_id now db) c
  unfolding drop_output
  drop_output-FitsIn c f = record {
    positive = f.positive;
    representable = f.representable;
    rising = rw transcript-drop_output (
        Ascending-remove (λ (i : Item). i.seq) (is_output turn_id) 1 c.next_seq (transcript db c.id)
          f.rising);
    batches_end = f.batches_end;
    checkpoints_end =
        rw filter-remove (All-remove _ _ (continuations_of db c.id) f.checkpoints_end);
  }

  drop_output-IsLedger : IsLedger db → IsLedger (drop_output id turn_id now db)
  unfolding drop_output
  drop_output-IsLedger l = record {
    unique = UniqueIds-update (has_id id) touched (λ c. refl) db.conversations l.unique;
    items_owned =
        owned_update id touched (λ c. refl) db (drop_output id turn_id now db) refl
          (λ (i : Item). i.conversation_id) _ (All-remove _ _ db.conversation_items l.items_owned);
    batches_owned =
        owned_update id touched (λ c. refl) db (drop_output id turn_id now db) refl
          (λ (b : AppendBatch). b.conversation_id) _ l.batches_owned;
    checkpoints_owned =
        owned_update id touched (λ c. refl) db (drop_output id turn_id now db) refl
          (λ (k : Continuation). k.conversation_id) _
          (All-remove _ _ db.continuations l.checkpoints_owned);
    fits =
        All-update (has_id id) touched (FitsIn db) (FitsIn (drop_output id turn_id now db))
          (λ c hit f.
            let g = drop_output-FitsIn c f in
            record {
              positive = g.positive;
              representable = g.representable;
              rising = g.rising;
              batches_end = g.batches_end;
              checkpoints_end = g.checkpoints_end;
            })
          (λ c miss f. drop_output-FitsIn c f) db.conversations l.fits;
  }

module _ (actor : Actor) (id : String) (now : ℕ) (db : Db) {db' : Db} where
  -- On tables that are a ledger, a successful `regenerate_conversation` leaves a ledger.
  pub regenerate_conversation-IsLedger :
      {r : Option String}
      → IsLedger db
      → regenerate_conversation actor id now db ≡ ok (r, db')
      → IsLedger db'
  regenerate_conversation-IsLedger l h =
      let g = regenerate_conversation-ok actor id now db h in
      elim g.how [
        | inl (t, last, result, dropped) ↦ rw dropped (drop_output-IsLedger id t.id now db l)
        | inr (nothing, same) ↦ rw same l
      ]

  -- A successful `regenerate_conversation` that deletes an item of a transcript without gaps leaves a
  -- transcript with a gap before `next_seq`.
  pub regenerate_conversation_gap :
      (conv : Conversation) (turn_id : String)
      → find (owned_as actor id) db.conversations ≡ some conv
      → GapFreeItems 1 conv.next_seq (transcript db id)
      → any (is_output turn_id) (transcript db id) ≡ true
      → regenerate_conversation actor id now db ≡ ok (some turn_id, db')
      → (next : Conversation) × (find (owned_as actor id) db'.conversations ≡ some next)
        × ¬ GapFreeItems 1 next.next_seq (transcript db' id)
  unfolding drop_output
  regenerate_conversation_gap conv turn_id found run output h =
      let g = regenerate_conversation-ok actor id now db h in
      let same_conv : g.conv ≡ conv = some-eq-some (sym g.found ∙ found) in
      elim g.how [
        | inl (t, last, result, dropped) ↦
            let same : turn_id ≡ t.id = some-eq-some result in
            let hit = rw same at output in
            let before =
              length-GapFree (λ (i : Item). i.seq) 1 conv.next_seq (transcript db id) run in
            let shorter = length-remove_lt (is_output t.id) (transcript db id) hit in
            let next : Conversation = record conv { updated_at = now } in
            let next_found =
              find-update (has_id id) (λ c. record c { updated_at = now }) (owned_as actor id)
                (λ c. refl) (λ c owned. (eq_iff c.id id).1 (eq_of_owned actor id c owned))
                db.conversations found in
            (
              next,
              ap (λ d. find (owned_as actor id) d.conversations) dropped ∙ next_found,
              λ after.
                  let rows : transcript db' id ≡ remove (is_output t.id) (transcript db id) =
                    ap (λ d. transcript d id) dropped ∙ transcript-drop_output id t.id now db id in
                  let left =
                    length-GapFree (λ (i : Item). i.seq) 1 conv.next_seq (transcript db' id)
                      after in
                  let moved = ap length rows in omega arith,
            )
        | inr (nothing, same) ↦ absurd (ground arith)
      ]

first-LedByTop :
    (ys : List Turn) {t : Turn}
    → first ys ≡ some t
    → LedByTop (λ (u : Turn). u.created_at) ys
    → All (λ u. u.created_at ≤ t.created_at) ys
first-LedByTop [] h top = tt
first-LedByTop (y ∷ ys) h top =
    subst (λ (t : Turn). All (λ u. u.created_at ≤ t.created_at) (y ∷ ys)) (some-eq-some h) top

latest_turn-last :
    (id : String) (db : Db) {t : Turn}
    → latest_turn id db ≡ some t
    → All (λ u. u.created_at ≤ t.created_at) (filter (λ u. u.conversation_id == id) db.turns)
unfolding latest_turn
latest_turn-last id db {t} h =
    let rows = filter (λ (u : Turn). u.conversation_id == id) db.turns in
    let key = λ (u : Turn). u.created_at in
    All-of_sorted key (λ u. u.created_at ≤ t.created_at) rows
      (first-LedByTop (sort_by (later key) rows) h (sort_by-LedByTop key rows))

module _ (actor : Actor) (id : String) (now : ℕ) (db : Db) {db' : Db} where
  dropped-rows :
      (t : Turn)
      → db' ≡ drop_output id t.id now db
      → ((other : String)
          → transcript db' other
            ≡ remove (λ i. some_eq i.turn_id t.id && i.source == "agent") (transcript db other))
        × (any (λ k. k.conversation_id == id) db'.continuations ≡ false)
  unfolding drop_output
  dropped-rows t e =
      let gone =
        any-of_All (λ k. k.conversation_id == id)
          (remove (λ k. k.conversation_id == id) db.continuations)
          (All-removed (λ (k : Continuation). k.conversation_id == id) db.continuations) in
      rw e ((λ other. transcript-drop_output id t.id now db other), gone)

  pub regenerate_conversation-transcript :
      {r : Option String}
      → regenerate_conversation actor id now db ≡ ok (r, db')
      → ((t : Turn) × (r ≡ some t.id)
          × All (λ u. u.created_at ≤ t.created_at) (filter (λ u. u.conversation_id == id) db.turns)
          × ((other : String)
              → transcript db' other
                ≡ remove (λ i. some_eq i.turn_id t.id && i.source == "agent") (transcript db other))
          × (any (λ k. k.conversation_id == id) db'.continuations ≡ false))
        ⊎ ((r ≡ none) × (db' ≡ db))
  regenerate_conversation-transcript h =
      let g = regenerate_conversation-ok actor id now db h in
      elim g.how [
        | inl (t, last, result, dropped) ↦
            let (rows, gone) = dropped-rows t dropped in
            inl (t, result, latest_turn-last id db last, rows, gone)
        | inr (nothing, same) ↦ inr (nothing, same)
      ]
