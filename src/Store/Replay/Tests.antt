-- ===== src/Store/Replay/Tests.antt =====
-- The replay of a small transcript.
use threadmark.Store.Replay.Agent.{
  strip_item, context_limit, payloads_up_to, unsupported, is_snapshot_complete, AgentReplayResult,
  Limits, agent_replay, build_agent_projection,
}
use threadmark.Store.Conversations.{owned_as, transcript}
use threadmark.Db.{TurnStart, empty_db, Db}
use threadmark.Store.Replay.Laws.{agent_replay-ok, recorded}
use threadmark.Ledger.{IsLedger}
use threadmark.Model.{Item, Actor}
use threadmark.Store.References.{contains_threadmark_uri}
use threadmark.Files.Uri.{parse_uri}
use threadmark.Model.Json.{nil, cons, array, string, end, field, object, Value}
use threadmark.Error.{err, ok}
use threadmark.Common.{
  ℕ, ◌+◌, ◌≡◌, refl, true, false, ◌&&◌, Option, none, some, List, [], ◌∷◌, map, arith, ◌==◌, ltb,
  eqb, some_eq, length, All, filter, find, any, all, remove,
}

abbrev ann : Actor
ann = record { tenant_id = "acme"; principal_id = "ann" }

abbrev text_part : Value
text_part = object (field "type" (string "input_text") (field "text" (string "hi") end))

abbrev text_message : Value
text_message = object (
    field "type" (string "message") (
      field "id" (string "m1")
        (field "role" (string "user") (field "content" (array (cons text_part nil)) end))))

abbrev shown_message : Value
shown_message = object (
    field "type" (string "message")
      (field "role" (string "user") (field "content" (array (cons text_part nil)) end)))

abbrev image : Value
image = object (
    field "type" (string "message") (
      field "role" (string "user") (
        field "content" (array (cons (object (field "type" (string "input_image") end)) nil)) end)))

runs : Unit {0}
unfolding agent_replay build_agent_projection is_snapshot_complete payloads_up_to context_limit find
    filter any all
runs = tt

abbrev ten_bytes : List Value → Option ℕ
ten_bytes vs = some 10

projected :
    build_agent_projection ten_bytes (text_message ∷ []) ("id" ∷ []) 1 10 ≡ ok (shown_message ∷ [])
unfolding runs parse_uri
projected = refl

over_bytes :
    build_agent_projection ten_bytes (text_message ∷ []) ("id" ∷ []) 1 9
    ≡ err (context_limit "serialized byte")
unfolding runs parse_uri
over_bytes = refl

no_image : build_agent_projection ten_bytes (image ∷ []) [] 1 10 ≡ err unsupported
unfolding runs parse_uri
no_image = refl

abbrev limits : Limits
limits = record { strip_top_level_fields = "id" ∷ []; max_items = 5; max_bytes = 100 }

abbrev db : Db
db = record empty_db {
  conversations =
      record {
        id = "conv_1";
        tenant_id = "acme";
        owner_ref = "ann";
        title = "T";
        metadata = object end;
        next_seq = 2;
        created_at = 5;
        updated_at = 5;
      }
      ∷ [];
  turns =
      record {
        id = "turn_1";
        conversation_id = "conv_1";
        agent_ref = "bot";
        idempotency_key = none;
        status = "pending";
        response_id = none;
        error = none;
        usage = none;
        created_at = 7;
        completed_at = none;
      }
      ∷ [];
  conversation_items =
      record {
        id = "item_1";
        conversation_id = "conv_1";
        turn_id = some "turn_1";
        seq = 1;
        source = "user";
        payload = text_message;
        created_at = 7;
      }
      ∷ [];
  turn_starts =
      record {
        id = "start_1";
        tenant_id = "acme";
        owner_ref = "ann";
        client_id = "cli";
        idempotency_key = "k";
        request_version = 1;
        request_digest = "d";
        conversation_id = "conv_1";
        turn_id = "turn_1";
        first_seq = 1;
        last_seq = 1;
      }
      ∷ [];
  turn_start_items =
      record { turn_start_id = "start_1"; ordinal = 0; item_id = "item_1"; seq = 1 } ∷ [];
}

abbrev answer : AgentReplayResult
answer = record {
  conversation_id = "conv_1";
  turn_id = "turn_1";
  through_seq = 1;
  input = shown_message ∷ [];
}

answered : agent_replay ten_bytes limits ann "conv_1" "turn_1" "bot" db ≡ ok answer
unfolding runs parse_uri
answered = refl

db-IsLedger : IsLedger db
unfolding any filter
db-IsLedger = record {
  unique = (refl, tt);
  items_owned = (refl, tt);
  batches_owned = tt;
  checkpoints_owned = tt;
  fits = (
    record {
      positive = omega arith;
      representable = omega arith;
      rising = (omega arith, omega arith);
      batches_end = tt;
      checkpoints_end = tt;
    },
    tt,
  );
}

agent_replay-ok_example :
    (start : TurnStart) × ((start.turn_id == "turn_1") ≡ true)
    × ((start.conversation_id == "conv_1") ≡ true)
    × (any (λ t. t.id == "turn_1" && t.conversation_id == "conv_1" && t.agent_ref == "bot") db.turns
        ≡ true)
    × (any (owned_as ann "conv_1") db.conversations ≡ true)
    × (any (λ i. i.conversation_id == "conv_1" && eqb i.seq start.last_seq) db.conversation_items
        ≡ true)
    × (length (recorded "turn_1" db) + start.first_seq ≡ start.last_seq + 1)
    × All
        (λ k.
          any
            (λ i.
              i.id == k.item_id
              && i.conversation_id == "conv_1"
              && eqb i.seq k.seq
              && some_eq i.turn_id "turn_1")
            db.conversation_items
          ≡ true)
        (recorded "turn_1" db)
    × (answer.input
        ≡ map (strip_item limits.strip_top_level_fields) (
            map
              (λ (i : Item). i.payload)
              (remove (λ i. ltb start.last_seq i.seq) (transcript db "conv_1"))))
    × All
        (λ v. contains_threadmark_uri v ≡ false)
        (map
          (λ (i : Item). i.payload)
          (remove (λ i. ltb start.last_seq i.seq) (transcript db "conv_1")))
agent_replay-ok_example =
    agent_replay-ok ten_bytes limits ann "conv_1" "turn_1" "bot" db db-IsLedger answered
