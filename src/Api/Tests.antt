-- ===== src/Api/Tests.antt =====
-- Requests that are decided.
use threadmark.Ids.{new_id}
use threadmark.Store.Append.{append_new, batch_items, find_batch, check_append, append_items}
use threadmark.Store.Conversations.{lock_conversation, create_conversation}
use threadmark.Uploads.Outbox.{owned_upload}
use threadmark.Uploads.Complete.{complete}
use threadmark.Api.Conversations.{
  append_items_handler, create_conversation_handler, agent_replay_handler,
  delete_conversation_handler,
}
use threadmark.Api.Uploads.{complete_file_upload_handler}
use threadmark.Api.Headers.{Web}
use threadmark.Api.Routes.{
  Answered, completes_upload, gets_file, Outcome, of_files, of_public, replied, serve, AnyRequest,
  Call, PublicRequest, of_ledger, route_file, route, Draws,
}
use threadmark.Api.Files.{get_file_handler}
use threadmark.Objects.{broken}
use threadmark.Auth.{
  file_create, conversation_delete, require_agent_replay_scope, transcript_read, delegated_agent,
  require, transcript_append, conversation_create, AuthContext, owner_session,
}
use threadmark.Capability.{Signing}
use threadmark.Uploads.Initiate.{Outside}
use threadmark.Files.Uri.{parse_uri}
use threadmark.Store.Replay.Agent.{
  context_limit, payloads_up_to, is_snapshot_complete, build_agent_projection, agent_replay, Limits,
}
use threadmark.Model.Json.{end, nil, cons, array, string, field, object, Value}
use threadmark.Error.{forbidden, not_found, bad_request, err, ok}
use threadmark.Api.Router.{
  appends_items, deletes_conversation, creates_conversation, Request, Services, handle,
  replays_for_agent,
}
use threadmark.Auth.Claims.{
  collect_permissions, has_bad_ids, context_of, has_bad_times, one, Claims, Settings, context,
}
use threadmark.Api.Laws.{Allows}
use threadmark.Api.Routes.Laws.{route-requires, route_permissions, is_direct_upload}
use threadmark.Api.{agent_replay_body, ok_reply, Reply}
use threadmark.Api.Routes.Delegated.{route-delegated}
use threadmark.Api.Routes.History.{serve-IsLedger}
use threadmark.Ledger.Continue.{OnlyGrows}
use threadmark.Uploads.Samples.{config, objects}
use threadmark.Db.{empty_db, Db}
use threadmark.Ledger.{IsLedger}
use threadmark.Store.Start.{Fresh}
use threadmark.Common.{
  String, ◌≡◌, refl, ◌⊎◌, Bool, true, false, Option, none, some, List, [], ◌∷◌, arith, All, filter,
  find, any, all, remove, update,
}

abbrev settings : Settings
settings = record {
  issuer = "https://id";
  audience = "threadmark";
  max_owner_seconds = 3600;
  max_delegated_seconds = 300;
}

abbrev token : Claims
token = record {
  iss = "https://id";
  aud = one "threadmark";
  sub = "ann";
  client_id = "cli";
  iat = 100;
  nbf = 100;
  exp = 400;
  jti = "j1";
  token_kind = "delegated_agent";
  tenant = "acme";
  principal = "ann";
  permissions = "transcript:read" ∷ [];
  agent_ref = some "bot";
  conversation_id = some "conv_1";
  turn_id = some "turn_1";
}

abbrev session : AuthContext
session = context_of token delegated_agent (transcript_read ∷ [])

accepted : context settings 110 token ≡ some session
unfolding context has_bad_times has_bad_ids collect_permissions
accepted = refl

abbrev text_part : Value
text_part = object (field "type" (string "input_text") (field "text" (string "hi") end))

abbrev text_message : Value
text_message = object (
    field "type" (string "message") (
      field "id" (string "m1")
        (field "role" (string "user") (field "content" (array (cons text_part nil)) end))))

abbrev shown_message : Value
shown_message = object (
    field "type" (string "message")
      (field "role" (string "user") (field "content" (array (cons text_part nil)) end)))

abbrev limits : Limits
limits = record { strip_top_level_fields = "id" ∷ []; max_items = 5; max_bytes = 100 }

abbrev db : Db
db = record empty_db {
  conversations =
      record {
        id = "conv_1";
        tenant_id = "acme";
        owner_ref = "ann";
        title = "T";
        metadata = object end;
        next_seq = 2;
        created_at = 5;
        updated_at = 5;
      }
      ∷ [];
  turns =
      record {
        id = "turn_1";
        conversation_id = "conv_1";
        agent_ref = "bot";
        idempotency_key = none;
        status = "pending";
        response_id = none;
        error = none;
        usage = none;
        created_at = 7;
        completed_at = none;
      }
      ∷ [];
  conversation_items =
      record {
        id = "item_1";
        conversation_id = "conv_1";
        turn_id = some "turn_1";
        seq = 1;
        source = "user";
        payload = text_message;
        created_at = 7;
      }
      ∷ [];
  turn_starts =
      record {
        id = "start_1";
        tenant_id = "acme";
        owner_ref = "ann";
        client_id = "cli";
        idempotency_key = "k";
        request_version = 1;
        request_digest = "d";
        conversation_id = "conv_1";
        turn_id = "turn_1";
        first_seq = 1;
        last_seq = 1;
      }
      ∷ [];
  turn_start_items =
      record { turn_start_id = "start_1"; ordinal = 0; item_id = "item_1"; seq = 1 } ∷ [];
}

abbrev services : Services
services = record {
  concat = λ old new. new;
  hydrate = λ d delivery v. ok v;
  to_vec_len = λ vs. some 10;
  limits = limits;
  hash = λ input. none;
  parse_start_turn = λ body. err (bad_request body);
}

abbrev fresh : Fresh
fresh = record {
  now = 9;
  conversation_ulid = "c9";
  turn_ulid = "t9";
  snapshot_ulid = "s9";
  start_ulid = "k9";
  item_ulid = λ n. "i9";
}

abbrev alone : Db → Db
alone db = db

abbrev asked : Request
asked = replays_for_agent "conv_1" "turn_1" ""

abbrev replayed : Reply
replayed = ok_reply (
    agent_replay_body (record {
      conversation_id = "conv_1";
      turn_id = "turn_1";
      through_seq = 1;
      input = shown_message ∷ [];
    }))

agent_served : handle services session fresh alone asked db ≡ ok (replayed, db)
unfolding handle agent_replay_handler require require_agent_replay_scope agent_replay
    build_agent_projection is_snapshot_complete payloads_up_to context_limit find filter any all
    parse_uri
agent_served = refl

-- The agent asks for another turn, and for a change.
agent_refused :
    handle services session fresh alone (replays_for_agent "conv_1" "turn_2" "") db
    ≡ err (not_found "Agent replay not found.")
unfolding handle agent_replay_handler require require_agent_replay_scope any
agent_refused = refl

agent_forbidden :
    handle services session fresh alone (deletes_conversation "conv_1") db ≡ err forbidden
unfolding handle delete_conversation_handler require any
agent_forbidden = refl

abbrev web_out : Outside String
web_out = record {
  hash_request = λ filename mime_type size. "h";
  component = λ s. s;
  presigned_post = λ u expires_at. broken;
  max_time = 100000;
}

abbrev signing : Signing
signing = record {
  mac = λ key text. text;
  encode = λ s. s;
  decode = λ s. some s;
  is_representable = λ seconds. true;
  url_of = λ base path query. path;
}

abbrev web : Web
web = record { percent_encode_filename = λ s. s; is_header_value = λ s. true }

abbrev draws : Draws Bool
draws = record {
  fresh = fresh;
  file_ulid = "f9";
  upload = record { upload_ulid = "1"; object_ulid = "2"; file_ulid = "3" };
  attempt = record {
    lease_ulid = "1";
    attempt_ulid = "a";
    object_ulid = "o";
    outbox_ulid = λ n. "d";
    seen = 100;
    claimed = 100;
    inspected = 105;
    published = 110;
  };
  between = λ n db. db;
  changes = λ n s. s;
  fuel = 2;
}

abbrev routed : AuthContext → AnyRequest → Db → Option (Outcome (Answered String) Bool)
routed auth request tables =
    route services web_out config objects web signing auth draws request tables false

agent_routed : routed session (of_ledger asked) db ≡ some ((ok (replied replayed), db), false)
unfolding route handle agent_replay_handler require require_agent_replay_scope agent_replay
    build_agent_projection is_snapshot_complete payloads_up_to context_limit find filter any all
    parse_uri
agent_routed = refl

-- The agent asks for a file.
agent_no_file :
    routed session (of_files (gets_file "file_1")) db ≡ some ((err forbidden, db), false)
unfolding route route_file get_file_handler require any
agent_no_file = refl

route-delegated_example :
    (((r : PublicRequest) × (of_ledger asked ≡ of_public r))
      ⊎ ((id : String) × (turn_id : String) × (body : String) × (of_ledger asked
            ≡ of_ledger (replays_for_agent id turn_id body))
          × (some "conv_1" ≡ some id)
          × (some "turn_1" ≡ some turn_id)))
    × (db ≡ db)
    × (false ≡ false)
route-delegated_example =
    route-delegated services web_out config objects web signing session draws settings 110 token
      (of_ledger asked) db false accepted refl agent_routed

route-requires_example :
    All (Allows session) (route_permissions services (of_ledger asked))
    × (is_direct_upload (of_ledger asked) ≡ true → session.agent_ref ≡ none)
route-requires_example =
    route-requires services web_out config objects web signing session draws (of_ledger asked) db
      false agent_routed

abbrev ann : AuthContext
ann = record {
  actor = record { tenant_id = "acme"; principal_id = "ann" };
  client_id = "cli";
  agent_ref = none;
  conversation_id = none;
  turn_id = none;
  token_kind = owner_session;
  permissions = conversation_create ∷ transcript_append ∷ conversation_delete ∷ file_create ∷ [];
}

-- A conversation is opened, an item is appended, another agent is refused, and the conversation is deleted.
abbrev calls : List (Call Bool)
calls =
    record {
      auth = ann;
      draws = draws;
      request =
          of_ledger (creates_conversation (record { title = some "T"; metadata = object end }));
    }
    ∷ record {
      auth = ann;
      draws = draws;
      request = of_ledger (
          appends_items "conv_c9" (record {
            idempotency_key = "k";
            turn_id = none;
            source = "user";
            items = text_message ∷ [];
          }));
    }
    ∷ record { auth = session; draws = draws; request = of_ledger (deletes_conversation "conv_c9") }
    ∷ record { auth = ann; draws = draws; request = of_files (completes_upload "upload_1") }
    ∷ []

empty-IsLedger : IsLedger empty_db
empty-IsLedger = record {
  unique = tt;
  items_owned = tt;
  batches_owned = tt;
  checkpoints_owned = tt;
  fits = tt;
}

quiet : OnlyGrows alone
quiet = record { keeps = λ db l. l; grows = λ actor id db conv found. (conv, found, omega arith) }

abbrev served : List (Call Bool) → Option (Db × Bool)
served calls = serve services web_out config objects web signing calls empty_db false

abbrev tables_of : Option (Db × Bool) → Db
tables_of none = empty_db
tables_of (some (db', s)) = db'

all_served : served calls ≡ some (tables_of (served calls), false)
unfolding serve route handle route_file create_conversation_handler delete_conversation_handler
    complete_file_upload_handler append_items_handler require complete owned_upload find any
    create_conversation append_items check_append lock_conversation find_batch batch_items
    append_new filter remove update new_id
all_served = refl

serve-IsLedger_example : IsLedger (tables_of (served calls))
serve-IsLedger_example =
    serve-IsLedger services web_out config objects web signing calls empty_db false
      ((λ n. quiet), ((λ n. quiet), ((λ n. quiet), ((λ n. quiet), tt)))) empty-IsLedger all_served
