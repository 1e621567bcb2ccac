-- ===== src/Store/Edit.antt =====
-- src/store.rs: the destructive edits of a transcript.
pub mod Laws
use threadmark.Common.Order.{sort_by}
use threadmark.Common.Int.{pos}
use threadmark.Error.{ApiResult, ok, ◌>>=◌, ok_or, not_found}
use threadmark.Model.{Actor, Turn}
use threadmark.Db.{Db}
use threadmark.Store.Conversations.{lock_conversation, delete_items}
use threadmark.Store.Items.{set_next_seq}
use threadmark.Store.Turns.{first}
use threadmark.Common.{
  ℕ, zero, suc, ◌+◌, ◌-◌, ◌*◌, ◌/◌, ◌%◌, ◌^◌, ◌≤◌, ◌<◌, min, String, ◌≡◌, refl, sym, ap, ◌∙◌, ◌≢◌,
  ◌↔◌, ◌⊎◌, inl, inr, Bool, true, false, ◌&&◌, ◌||◌, not, Option, none, some, List, [], ◌∷◌, ◌++◌,
  map, append-nil, append_assoc, arith, ◌==◌, eq_iff, eq_refl, ltb, leb, eqb, if◌then◌else◌,
  some_eq, is_some, unwrap_or, ltb→lt, leb→le, leb-false, Bool-cases, Option-cases, eq-of-some_eq,
  length, length-append, take, length-take_le, All, All-append, All-append_left, All-of_forall,
  All-map, filter, find, any, all, remove, update, or_else, filter-append, find-append, any-append,
  filter_none, filter-All, All-not_of_any, any-of_All, find_sound, any-of_find, find-none, All-find,
  All-filter, All-remove, All-passed, any-update, find-update_ne, find-update, All-update, any_mono,
  filter-remove_spared, filter-remove, remove_congr, remove_none, All-removed, All-both,
  some-eq-some, filter_none_under, find-filter,
}

-- The four statements after the item's position is known.
unfoldable pub truncate_at : String → (seq now : ℕ) → Db → ApiResult Db
unfolding delete_items set_next_seq
truncate_at conversation_id seq now db =
    let db₁ = delete_items (λ i. i.conversation_id == conversation_id && leb seq i.seq) db in
    set_next_seq conversation_id (pos seq) now (record db₁ {
      append_batches =
          remove (λ b. b.conversation_id == conversation_id && leb seq b.last_seq)
            db₁.append_batches;
      continuations =
          remove (λ k. k.conversation_id == conversation_id && leb seq k.through_seq)
            db₁.continuations;
    })

unfoldable pub truncate_conversation : Actor → String → String → (now : ℕ) → Db → ApiResult Db
truncate_conversation actor conversation_id item_id now db = do
  _ ← lock_conversation actor conversation_id db
  i ←
      ok_or
        (find (λ i. i.id == item_id && i.conversation_id == conversation_id) db.conversation_items)
        (not_found "Item not found in conversation.")
  truncate_at conversation_id i.seq now db

-- SELECT id FROM turns … ORDER BY created_at DESC LIMIT 1
unfoldable pub latest_turn : String → Db → Option Turn
unfolding sort_by
latest_turn conversation_id db = first (
    sort_by (λ t u. leb u.created_at t.created_at)
      (filter (λ t. t.conversation_id == conversation_id) db.turns))

-- The statements that drop the latest turn's output.
unfoldable pub drop_output : String → String → ℕ → Db → Db
unfolding delete_items
drop_output conversation_id turn_id now db =
    let db₁ = delete_items (λ i. some_eq i.turn_id turn_id && i.source == "agent") db in
    record db₁ {
      continuations = remove (λ k. k.conversation_id == conversation_id) db₁.continuations;
      conversations =
          update (λ c. c.id == conversation_id) (λ c. record c { updated_at = now })
            db₁.conversations;
    }

unfoldable pub regenerate_conversation :
    Actor → String → (now : ℕ) → Db → ApiResult (Option String × Db)
regenerate_conversation actor conversation_id now db = do
  _ ← lock_conversation actor conversation_id db
  elim (latest_turn conversation_id db) [
    | some t ↦ ok (some t.id, drop_output conversation_id t.id now db)
    | none ↦ ok (none, db)
  ]
