-- ===== src/Ledger/Tests/Answered.antt =====
-- The ledger's theorems at a conversation with an agent's answer.
use threadmark.Store.Continuations.{insert_continuation, create_continuation, CreateContinuation}
use threadmark.Error.{ok}
use threadmark.Ledger.Continue.{OnlyGrows, create_continuation-IsLedger}
use threadmark.Ledger.Regenerate.{
  regenerate_conversation_gap, regenerate_conversation-transcript, is_output,
}
use threadmark.Ledger.Tests.{
  create_continuation-IsLedger, ok, ann, conversation₁, GapFreeItems, create_continuation, db₁,
  drop_output, is_output, owned_as, regenerate_conversation, text_item, runs,
}
use threadmark.Ledger.{transcript, IsLedger}
use threadmark.Store.Conversations.{transcript, owned_as}
use threadmark.Ledger.Append.{GapFreeItems}
use threadmark.Store.Edit.{drop_output, regenerate_conversation}
use threadmark.Db.{Db}
use threadmark.Model.{Continuation, Conversation, Item, Turn}
use threadmark.Common.{
  ◌≤◌, ◌<◌, String, ◌≡◌, refl, ◌⊎◌, true, false, ◌&&◌, Option, none, some, [], ◌∷◌, arith, ◌==◌,
  some_eq, All, filter, find, any, remove,
}

abbrev pub a_turn : Turn
a_turn = record {
  id = "turn_1";
  conversation_id = "conv_c1";
  agent_ref = "bot";
  idempotency_key = some "t1";
  status = "completed";
  response_id = none;
  error = none;
  usage = none;
  created_at = 7;
  completed_at = some 8;
}

abbrev an_answer : Item
an_answer = record {
  id = "item_a";
  conversation_id = "conv_c1";
  turn_id = some "turn_1";
  seq = 1;
  source = "agent";
  payload = text_item "hello";
  created_at = 8;
}

abbrev pub db_answered : Db
db_answered = record db₁ {
  conversations = record conversation₁ { next_seq = 2 } ∷ [];
  turns = a_turn ∷ [];
  conversation_items = an_answer ∷ [];
}

db_answered-IsLedger : IsLedger db_answered
unfolding runs
db_answered-IsLedger = record {
  unique = (refl, tt);
  items_owned = (refl, tt);
  batches_owned = tt;
  checkpoints_owned = tt;
  fits = (
    record {
      positive = omega arith;
      representable = omega arith;
      rising = (omega arith, omega arith);
      batches_end = tt;
      checkpoints_end = tt;
    },
    tt,
  );
}

abbrev db_dropped : Db
db_dropped = drop_output "conv_c1" "turn_1" 9 db_answered

regenerated : regenerate_conversation ann "conv_c1" 9 db_answered ≡ ok (some "turn_1", db_dropped)
unfolding runs
regenerated = refl

abbrev the_turn : Option String
the_turn = some "turn_1"

regenerate_conversation-transcript_example :
    ((t : Turn) × (the_turn ≡ some t.id)
      × All
          (λ u. u.created_at ≤ t.created_at)
          (filter (λ u. u.conversation_id == "conv_c1") db_answered.turns)
      × ((other : String)
          → transcript db_dropped other
            ≡ remove
                (λ i. some_eq i.turn_id t.id && i.source == "agent")
                (transcript db_answered other))
      × (any (λ k. k.conversation_id == "conv_c1") db_dropped.continuations ≡ false))
    ⊎ ((the_turn ≡ none) × (db_dropped ≡ db_answered))
regenerate_conversation-transcript_example =
    regenerate_conversation-transcript ann "conv_c1" 9 db_answered regenerated

found_answered :
    find (owned_as ann "conv_c1") db_answered.conversations
    ≡ some (record conversation₁ { next_seq = 2 })
unfolding runs
found_answered = refl

gap_free_answered : GapFreeItems 1 2 (transcript db_answered "conv_c1")
unfolding runs
gap_free_answered = (refl, refl)

output_answered : any (is_output "turn_1") (transcript db_answered "conv_c1") ≡ true
unfolding runs
output_answered = refl

regenerate_conversation_gap_example :
    (next : Conversation) × (find (owned_as ann "conv_c1") db_dropped.conversations ≡ some next)
    × ¬ GapFreeItems 1 next.next_seq (transcript db_dropped "conv_c1")
regenerate_conversation_gap_example =
    regenerate_conversation_gap ann "conv_c1" 9 db_answered (record conversation₁ { next_seq = 2 })
      "turn_1" found_answered gap_free_answered output_answered regenerated

abbrev a_checkpoint : CreateContinuation
a_checkpoint = record {
  agent_ref = "bot";
  response_id = "r1";
  parent_response_id = none;
  through_seq = none;
  state = none;
}

abbrev checkpoint : Continuation
checkpoint = record {
  id = "cont_k1";
  tenant_id = "acme";
  conversation_id = "conv_c1";
  agent_ref = "bot";
  response_id = "r1";
  parent_response_id = none;
  through_seq = 1;
  state = none;
  created_at = 9;
}

abbrev db_checkpoint : Db
db_checkpoint = record db_answered { continuations = checkpoint ∷ [] }

abbrev alone : Db → Db
alone db = db

alone-OnlyGrows : OnlyGrows alone
alone-OnlyGrows = record {
  keeps = λ db l. l;
  grows = λ actor id db conv found. (conv, found, omega arith);
}

checkpoint_made :
    create_continuation alone ann "conv_c1" a_checkpoint 9 "k1" db_answered
    ≡ ok (checkpoint, db_checkpoint)
unfolding runs create_continuation insert_continuation
checkpoint_made = refl

create_continuation-IsLedger_example :
    IsLedger db_checkpoint
    × ((conv : Conversation) × (find (owned_as ann "conv_c1") db_checkpoint.conversations
          ≡ some conv)
        × (checkpoint.through_seq < conv.next_seq))
create_continuation-IsLedger_example =
    create_continuation-IsLedger alone ann "conv_c1" a_checkpoint 9 "k1" db_answered alone-OnlyGrows
      db_answered-IsLedger checkpoint_made
