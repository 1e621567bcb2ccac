-- ===== src/Ledger/Tests.antt =====
-- The ledger's theorems at a small conversation.
pub mod Answered
use threadmark.Ledger.Continue.{create_continuation-IsLedger}
use threadmark.Ledger.{Continuation, IsLedger}
use threadmark.Model.{
  Continuation, Item, Turn, Actor, AppendItems, AppendResult, Conversation, FileRecord,
}
use threadmark.Store.Continuations.{CreateContinuation, create_continuation}
use threadmark.Error.{ok}
use threadmark.Ledger.Append.{append_items-GapFree, append_items-IsLedger, GapFreeItems}
use threadmark.Ledger.Regenerate.{
  regenerate_conversation_gap, regenerate_conversation-IsLedger, is_output,
}
use threadmark.Ledger.Truncate.{truncate_conversation-GapFree, truncate_conversation-IsLedger}
use threadmark.Store.Conversations.{transcript, owned_as, lock_conversation, create_conversation}
use threadmark.Ledger.Retry.{append_items-append_items}
use threadmark.Store.Edit.Laws.{cut_at}
use threadmark.Store.Edit.{
  drop_output, latest_turn, regenerate_conversation, truncate_at, truncate_conversation,
}
use threadmark.Model.Json.{nil, cons, array, string, end, field, object, Value}
use threadmark.Store.Append.{append_new, batch_items, find_batch, check_append, append_items}
use threadmark.Db.{empty_db, Db}
use threadmark.Store.Append.Laws.{appended_rows, appended}
use threadmark.Ids.{new_id}
use threadmark.Common.{
  ℕ, zero, suc, ◌+◌, ◌-◌, ◌*◌, ◌/◌, ◌%◌, ◌^◌, ◌≤◌, ◌<◌, min, String, ◌≡◌, refl, sym, ap, ◌∙◌, ◌≢◌,
  ◌↔◌, ◌⊎◌, inl, inr, Bool, true, false, ◌&&◌, ◌||◌, not, Option, none, some, List, [], ◌∷◌, ◌++◌,
  map, append-nil, append_assoc, arith, ◌==◌, eq_iff, eq_refl, ltb, leb, eqb, if◌then◌else◌,
  some_eq, is_some, unwrap_or, ltb→lt, leb→le, leb-false, Bool-cases, Option-cases, eq-of-some_eq,
  length, length-append, take, length-take_le, All, All-append, All-append_left, All-of_forall,
  All-map, filter, find, any, all, remove, update, or_else, filter-append, find-append, any-append,
  filter_none, filter-All, All-not_of_any, any-of_All, find_sound, any-of_find, find-none, All-find,
  All-filter, All-remove, All-passed, any-update, find-update_ne, find-update, All-update, any_mono,
  filter-remove_spared, filter-remove, remove_congr, remove_none, All-removed, All-both,
  some-eq-some, filter_none_under, find-filter, length-remove_le, length-remove_lt,
}

abbrev pub ann : Actor
ann = record { tenant_id = "acme"; principal_id = "ann" }

abbrev pub text_item : String → Value
text_item s = object (field "type" (string "message") (field "content" (string s) end))

abbrev pub file_item : Value
file_item = object (
    field "content"
      (array (cons (object (field "file_url" (string "threadmark://files/file_1") end)) nil)) end)

abbrev pub ulids : ℕ → String
ulids zero = "i0"
ulids (suc n) = "i1"

-- The functions that the tests run.
unfoldable pub runs : Unit {0}
unfolding new_id create_conversation append_items check_append lock_conversation find_batch
    batch_items append_new truncate_conversation truncate_at regenerate_conversation latest_turn
    drop_output any all find filter remove update
runs = tt

abbrev pub a_file : FileRecord
a_file = record {
  id = "file_1";
  tenant_id = "acme";
  owner_ref = "ann";
  filename = "a.txt";
  mime_type = "text/plain";
  size = 3;
  storage_key = "k1";
  created_at = 1;
}

abbrev pub with_file : Db
with_file = record empty_db { files = a_file ∷ [] }

abbrev pub conversation₁ : Conversation
conversation₁ = record {
  id = "conv_c1";
  tenant_id = "acme";
  owner_ref = "ann";
  title = "New conversation";
  metadata = object end;
  next_seq = 1;
  created_at = 5;
  updated_at = 5;
}

abbrev pub db₁ : Db
db₁ = record with_file { conversations = conversation₁ ∷ [] }

pub created :
    create_conversation ann (record { title = none; metadata = object end }) 5 "c1" with_file
    ≡ ok (conversation₁, db₁)
unfolding runs
created = refl

abbrev two_items : AppendItems
two_items = record {
  idempotency_key = "k1";
  turn_id = none;
  source = "user";
  items = text_item "hi" ∷ file_item ∷ [];
}

abbrev db₂ : Db
db₂ = appended "conv_c1" two_items 1 6 ulids db₁

abbrev result₁ : AppendResult
result₁ = record { items = appended_rows "conv_c1" two_items 1 6 ulids; replayed = false }

appended_once : append_items ann "conv_c1" two_items 6 ulids db₁ ≡ ok (result₁, db₂)
unfolding runs
appended_once = refl

db₁-IsLedger : IsLedger db₁
unfolding runs
db₁-IsLedger = record {
  unique = (refl, tt);
  items_owned = tt;
  batches_owned = tt;
  checkpoints_owned = tt;
  fits = (
    record {
      positive = omega arith;
      representable = omega arith;
      rising = omega arith;
      batches_end = tt;
      checkpoints_end = tt;
    },
    tt,
  );
}

append_items-IsLedger_example : IsLedger db₂
append_items-IsLedger_example =
    append_items-IsLedger ann "conv_c1" two_items 6 ulids db₁ db₁-IsLedger appended_once

found₁ : find (owned_as ann "conv_c1") db₁.conversations ≡ some conversation₁
unfolding runs
found₁ = refl

gap_free₁ : GapFreeItems 1 1 (transcript db₁ "conv_c1")
unfolding runs
gap_free₁ = refl

append_items-GapFree_example :
    (next : Conversation) × (find (owned_as ann "conv_c1") db₂.conversations ≡ some next)
    × GapFreeItems 1 next.next_seq (transcript db₂ "conv_c1")
append_items-GapFree_example =
    append_items-GapFree ann "conv_c1" two_items 6 ulids db₁ conversation₁ db₁-IsLedger found₁
      gap_free₁ appended_once

abbrev other_items : AppendItems
other_items = record two_items { items = text_item "else" ∷ [] }

other_valid : check_append other_items ≡ ok tt
unfolding runs
other_valid = refl

append_items-append_items_example :
    append_items ann "conv_c1" other_items 9 ulids db₂
    ≡ ok (record { items = result₁.items; replayed = true }, db₂)
append_items-append_items_example =
    append_items-append_items ann "conv_c1" two_items other_items 6 9 ulids ulids db₁ db₁-IsLedger
      appended_once other_valid refl

abbrev conversation₂ : Conversation
conversation₂ = record conversation₁ { next_seq = 3; updated_at = 6 }

found₂ : find (owned_as ann "conv_c1") db₂.conversations ≡ some conversation₂
unfolding runs
found₂ = refl

gap_free₂ : GapFreeItems 1 3 (transcript db₂ "conv_c1")
unfolding runs
gap_free₂ = (refl, (refl, refl))

abbrev db_cut : Db
db_cut = cut_at "conv_c1" 2 8 db₂

truncated : truncate_conversation ann "conv_c1" "item_i1" 8 db₂ ≡ ok db_cut
unfolding runs
truncated = refl

truncate_conversation-IsLedger_example : IsLedger db_cut
truncate_conversation-IsLedger_example =
    truncate_conversation-IsLedger ann "conv_c1" "item_i1" 8 db₂ append_items-IsLedger_example
      truncated

truncate_conversation-GapFree_example :
    (i : Item) × (next : Conversation) × (find
        (λ (i : Item). i.id == "item_i1" && i.conversation_id == "conv_c1")
        db₂.conversation_items
      ≡ some i)
    × (find (owned_as ann "conv_c1") db_cut.conversations ≡ some next)
    × (next.next_seq ≡ i.seq)
    × GapFreeItems 1 next.next_seq (transcript db_cut "conv_c1")
truncate_conversation-GapFree_example =
    truncate_conversation-GapFree ann "conv_c1" "item_i1" 8 db₂ append_items-IsLedger_example
      conversation₂ found₂ gap_free₂ truncated
