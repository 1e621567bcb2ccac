-- ===== src/Ledger/Start/Tests.antt =====
-- The opening of conversations and turns, at small tables.
use threadmark.Error.{violates, database, err, ok, ApiResult}
use threadmark.Ledger.Tests.{file_item, created, text_item, ann, db₁, ulids, with_file, runs}
use threadmark.Ledger.Tests.Answered.{a_turn, db_answered}
use threadmark.Db.{empty_db, Db}
use threadmark.Store.Turns.{updated_turn, create_turn, pending_turn, update_turn}
use threadmark.Ledger.Create.{create_conversation-IsLedger}
use threadmark.Model.Json.{end, object}
use threadmark.Ledger.Start.Whole.{start_turn-IsLedger}
use threadmark.Store.Start.Request.{Digest, TurnStartDigest}
use threadmark.Store.Start.{start_turn, Fresh}
use threadmark.Ledger.{IsLedger}
use threadmark.Model.{CreateTurn, StartTurnResult, StartTurn, Turn, UpdateTurn}
use threadmark.Common.{◌≡◌, refl, false, Option, none, some, [], ◌∷◌}

empty-IsLedger : IsLedger with_file
unfolding runs
empty-IsLedger = record {
  unique = tt;
  items_owned = tt;
  batches_owned = tt;
  checkpoints_owned = tt;
  fits = tt;
}

create_conversation-IsLedger_example : IsLedger db₁
create_conversation-IsLedger_example =
    create_conversation-IsLedger ann (record { title = none; metadata = object end }) 5 "c1"
      with_file empty-IsLedger created

abbrev sha : TurnStartDigest → Option Digest
sha d = some "digest"

abbrev fresh : Fresh
fresh = record {
  now = 6;
  conversation_ulid = "c9";
  turn_ulid = "t1";
  snapshot_ulid = "s1";
  start_ulid = "b1";
  item_ulid = ulids;
}

abbrev a_start : StartTurn
a_start = record {
  idempotency_key = "start-1";
  conversation_id = none;
  conversation = some (record { title = none; metadata = object end });
  agent_ref = "bot";
  items = text_item "hi" ∷ file_item ∷ [];
}

abbrev started : StartTurnResult
started = record {
  conversation_id = "conv_c9";
  turn_id = "turn_t1";
  item_ids = "item_i0" ∷ "item_i1" ∷ [];
  first_seq = 1;
  last_seq = 2;
  replayed = false;
}

abbrev db_of : ApiResult (StartTurnResult × Db) → Db
db_of (ok (r, db)) = db
db_of (err e) = empty_db

abbrev db_started : Db
db_started = db_of (start_turn sha ann "cli" a_start fresh with_file)

start_ok : start_turn sha ann "cli" a_start fresh with_file ≡ ok (started, db_started)
unfolding runs start_turn
start_ok = refl

start_turn-IsLedger_example : IsLedger db_started
start_turn-IsLedger_example =
    start_turn-IsLedger sha ann "cli" a_start fresh with_file empty-IsLedger start_ok

abbrev a_request : CreateTurn
a_request = record { idempotency_key = "t2"; agent_ref = "bot" }

abbrev turn_db : ApiResult (Turn × Db) → Db
turn_db (ok (t, db)) = db
turn_db (err e) = empty_db

abbrev new_turn : Turn
new_turn = pending_turn "t2" "conv_c1" "bot" (some "t2") 9

abbrev db_new_turn : Db
db_new_turn = turn_db (create_turn ann "conv_c1" a_request 9 "t2" "s2" db_answered)

turn_created :
    create_turn ann "conv_c1" a_request 9 "t2" "s2" db_answered ≡ ok (new_turn, db_new_turn)
unfolding runs create_turn
turn_created = refl

abbrev reopened : UpdateTurn
reopened = record { status = "streaming"; response_id = none; error = none; usage = none }

abbrev db_reopened : Db
db_reopened = turn_db (update_turn ann "turn_1" reopened 10 db_answered)

turn_reopened :
    update_turn ann "turn_1" reopened 10 db_answered
    ≡ ok (updated_turn reopened 10 a_turn, db_reopened)
unfolding runs update_turn
turn_reopened = refl

no_second :
    update_turn ann "turn_1" reopened 10 db_new_turn
    ≡ err (database (violates "turns_one_active_per_conversation_idx"))
unfolding runs create_turn update_turn
no_second = refl
