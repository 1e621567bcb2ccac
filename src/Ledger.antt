-- ===== src/Ledger.antt =====
-- What the tables of src/store.rs keep between transactions.
pub mod Frame
pub mod Extend
pub mod Append
pub mod Retry
pub mod Truncate
pub mod Regenerate
pub mod Create
pub mod Change
pub mod Start
pub mod Turns
pub mod Continue
mod Tests
use threadmark.Common.Order.{Ascending}
use threadmark.Model.{Conversation, Item, Continuation}
use threadmark.Db.{Db, AppendBatch, max_i64}
use threadmark.Store.Conversations.{transcript}
use threadmark.Common.{
  ℕ, zero, suc, ◌+◌, ◌-◌, ◌*◌, ◌/◌, ◌%◌, ◌^◌, ◌≤◌, ◌<◌, min, String, ◌≡◌, refl, sym, ap, ◌∙◌, ◌≢◌,
  ◌↔◌, ◌⊎◌, inl, inr, Bool, true, false, ◌&&◌, ◌||◌, not, Option, none, some, List, [], ◌∷◌, ◌++◌,
  map, append-nil, append_assoc, arith, ◌==◌, eq_iff, eq_refl, ltb, leb, eqb, if◌then◌else◌,
  some_eq, is_some, unwrap_or, ltb→lt, leb→le, leb-false, Bool-cases, Option-cases, eq-of-some_eq,
  length, length-append, take, length-take_le, All, All-append, All-append_left, All-of_forall,
  All-map, filter, find, any, all, remove, update, or_else, filter-append, find-append, any-append,
  filter_none, filter-All, All-not_of_any, any-of_All, find_sound, any-of_find, find-none, All-find,
  All-filter, All-remove, All-passed, any-update, find-update_ne, find-update, All-update, any_mono,
  filter-remove_spared, filter-remove, remove_congr, remove_none, All-removed, All-both,
}

abbrev pub batches_of : Db → String → List AppendBatch
batches_of db id = filter (λ b. b.conversation_id == id) db.append_batches

abbrev pub continuations_of : Db → String → List Continuation
continuations_of db id = filter (λ k. k.conversation_id == id) db.continuations

-- The rows of one conversation against its `next_seq`.
pub record Fits (next_seq : ℕ) (items : List Item) (batches : List AppendBatch)
    (checkpoints : List Continuation) : Type 0 where
  pub positive : 1 ≤ next_seq
  pub representable : next_seq ≤ max_i64
  pub rising : Ascending (λ (i : Item). i.seq) 1 next_seq items
  pub batches_end : All (λ (b : AppendBatch). b.last_seq < next_seq) batches
  pub checkpoints_end : All (λ (k : Continuation). k.through_seq < next_seq) checkpoints

abbrev pub FitsIn : Db → Conversation → Type 0
FitsIn db c = Fits c.next_seq (transcript db c.id) (batches_of db c.id) (continuations_of db c.id)

-- The primary key of the conversations.
abbrev pub UniqueIds : List Conversation → Type 0
UniqueIds [] = Unit
UniqueIds (c ∷ cs) = (any (λ d. d.id == c.id) cs ≡ false) × UniqueIds cs

abbrev pub has_conversation : Db → String → Bool
has_conversation db id = any (λ c. c.id == id) db.conversations

-- Every conversation has its own identifier; every item, batch and continuation has its conversation
-- (the foreign keys); the rows of every conversation fit its `next_seq`.
pub record IsLedger (db : Db) : Type 0 where
  pub unique : UniqueIds db.conversations
  pub items_owned :
      All (λ (i : Item). has_conversation db i.conversation_id ≡ true) db.conversation_items
  pub batches_owned :
      All (λ (b : AppendBatch). has_conversation db b.conversation_id ≡ true) db.append_batches
  pub checkpoints_owned :
      All (λ (k : Continuation). has_conversation db k.conversation_id ≡ true) db.continuations
  pub fits : All (FitsIn db) db.conversations
