-- ===== src/Store/Replay/Agent.antt =====
-- src/store.rs: `agent_replay`, the transcript up to a turn's input as the turn's agent may see it.
use threadmark.Error.{
  coded_conflict, not_found, bad_request, ok_or, reject_if, ◌>>=◌, err, ok, ◌>>◌, ApiResult,
  coded_bad_request, coded_payload_too_large, ApiError,
}
use threadmark.Store.Conversations.{owned_as}
use threadmark.Db.{TurnStartItem, TurnStart, Db}
use threadmark.Common.Order.{order_by}
use threadmark.Model.{Actor, Item}
use threadmark.Model.Json.{
  end, nil, null, string, number, bool, array, as_str, cons, field, object, Fields, Values, Value,
  get, remove_key,
}
use Prim.Native.String
use threadmark.Store.References.{contains_threadmark_uri}
use threadmark.Common.{
  ℕ, ◌+◌, String, Bool, true, false, ◌&&◌, ◌||◌, not, Option, none, some, List, [], ◌∷◌, map, ◌==◌,
  ltb, leb, eqb, if◌then◌else◌, some_eq, is_some, length, filter, find, any, all,
}

abbrev pub unsupported : ApiError
unsupported =
    coded_bad_request "unsupported_agent_replay_item"
      "Agent replay supports only user input_text and assistant output_text messages."

unfoldable pub context_limit : String → ApiError
context_limit limit =
    coded_payload_too_large "context_limit_exceeded"
      (String.◌++◌ "Agent replay exceeds the configured " (String.◌++◌ limit " limit."))

-- `object.get(key).and_then(Value::as_str) == Some(text)`
abbrev pub has_text : Fields → String → String → Bool
has_text fs key text = elim (get fs key) [ none ↦ false | some v ↦ some_eq (as_str v) text ]

abbrev pub as_array : Option Value → Option Values
as_array (some (array vs)) = some vs
as_array _ = none

-- The kind of part that a role's message is made of.
abbrev pub expected_part : Fields → Option String
expected_part fs =
    if has_text fs "role" "user"
    then some "input_text"
    else if has_text fs "role" "assistant"
    then some "output_text"
    else none

abbrev pub is_allowed_field : String → String → Bool
is_allowed_field part key =
    key == "type" || key == "text" || not (part == "input_text") && key == "annotations"

unfoldable pub all_keys : (String → Bool) → Fields → Bool
all_keys p end = true
all_keys p (field k v fs) = p k && all_keys p fs

abbrev is_string_field : Option Value → Bool
is_string_field none = false
is_string_field (some v) = is_some (as_str v)

-- The negation of the closure that `any` runs.
unfoldable pub is_good_part : String → Value → Bool
unfolding get all_keys
is_good_part part (object fs) =
    all_keys (is_allowed_field part) fs
    && has_text fs "type" part
    && is_string_field (get fs "text")
is_good_part part null = false
is_good_part part (bool b) = false
is_good_part part (number n) = false
is_good_part part (string s) = false
is_good_part part (array vs) = false

unfoldable pub all_good : String → Values → Bool
unfolding is_good_part
all_good part nil = true
all_good part (cons v vs) = is_good_part part v && all_good part vs

abbrev pub is_good_content : String → Option Values → Bool
is_good_content part none = false
is_good_content part (some nil) = false
is_good_content part (some (cons v vs)) = all_good part (cons v vs)

abbrev pub is_message : Fields → Bool
is_message fs = has_text fs "type" "message" && elim (expected_part fs) [
  | none ↦ false
  | some part ↦ is_good_content part (as_array (get fs "content"))
]

abbrev pub is_text_message : Value → Bool
is_text_message (object fs) = is_message fs
is_text_message _ = false

unfoldable pub validate_agent_text_item : Value → ApiResult (Unit {0})
unfolding get all_good contains_threadmark_uri
validate_agent_text_item item =
    if contains_threadmark_uri item || not (is_text_message item) then err unsupported else ok tt

unfoldable pub strip_fields : List String → Fields → Fields
unfolding remove_key
strip_fields [] fs = fs
strip_fields (k ∷ ks) fs = strip_fields ks (remove_key k fs)

abbrev pub strip_item : List String → Value → Value
strip_item ks (object fs) = object (strip_fields ks fs)
strip_item ks v = v

unfoldable pub project_rows : List String → List Value → ApiResult (List Value)
unfolding strip_fields validate_agent_text_item
project_rows strip [] = ok []
project_rows strip (item ∷ items) = do
  validate_agent_text_item item
  rest ← project_rows strip items
  ok (strip_item strip item ∷ rest)

-- `serde_json::to_vec(&input)`: the number of bytes, where it succeeds.
unfoldable pub build_agent_projection :
    (to_vec_len : List Value → Option ℕ)
    → List Value
    → List String
    → (max_items max_bytes : ℕ) → ApiResult (List Value)
unfolding project_rows
build_agent_projection to_vec_len rows strip max_items max_bytes = do
  reject_if (ltb max_items (length rows)) (context_limit "item count")
  input ← project_rows strip rows
  bytes ← ok_or (to_vec_len input) (bad_request "could not serialize replay")
  reject_if (ltb max_bytes bytes) (context_limit "serialized byte")
  ok input

pub record AgentReplayResult : Type 0 where
  pub conversation_id : String
  pub turn_id : String
  pub through_seq : ℕ
  pub input : List Value

pub record Limits : Type 0 where
  pub strip_top_level_fields : List String
  pub max_items : ℕ
  pub max_bytes : ℕ

-- The join of a conversation, a turn and the record of the turn's start.
abbrev pub is_start_of : Actor → String → String → String → Db → TurnStart → Bool
is_start_of actor conversation_id turn_id agent_ref db s =
    s.turn_id == turn_id
    && s.conversation_id == conversation_id
    && any
        (λ t. t.id == turn_id && t.conversation_id == conversation_id && t.agent_ref == agent_ref)
        db.turns
    && any (owned_as actor conversation_id) db.conversations

-- The recorded items of a turn's start.
abbrev pub started_items : String → Db → List TurnStartItem
started_items turn_id db =
    filter (λ k. any (λ s. s.id == k.turn_start_id && s.turn_id == turn_id) db.turn_starts)
      db.turn_start_items

-- A recorded item stands in the transcript where it was put.
abbrev pub is_present : String → String → Db → TurnStartItem → Bool
is_present conversation_id turn_id db k =
    any
      (λ i.
        i.id == k.item_id
        && i.conversation_id == conversation_id
        && eqb i.seq k.seq
        && some_eq i.turn_id turn_id)
      db.conversation_items

unfoldable pub is_snapshot_complete : String → String → (first_seq through_seq : ℕ) → Db → Bool
unfolding any all filter
is_snapshot_complete conversation_id turn_id first_seq through_seq db =
    any (λ i. i.conversation_id == conversation_id && eqb i.seq through_seq) db.conversation_items
    && eqb (length (started_items turn_id db) + first_seq) (through_seq + 1)
    && all (is_present conversation_id turn_id db) (started_items turn_id db)

abbrev pub is_up_to : String → ℕ → Item → Bool
is_up_to conversation_id through_seq i =
    i.conversation_id == conversation_id && leb i.seq through_seq

unfoldable pub payloads_up_to : String → ℕ → Db → List Value
unfolding order_by
payloads_up_to conversation_id through_seq db =
    map (λ (i : Item). i.payload)
      (order_by (λ i. i.seq) (filter (is_up_to conversation_id through_seq) db.conversation_items))

unfoldable pub agent_replay :
    (to_vec_len : List Value → Option ℕ)
    → Limits
    → Actor
    → (conversation_id turn_id agent_ref : String) → Db
    → ApiResult AgentReplayResult
unfolding find filter
agent_replay to_vec_len limits actor conversation_id turn_id agent_ref db = do
  start ←
      ok_or (find (is_start_of actor conversation_id turn_id agent_ref db) db.turn_starts)
        (not_found "Agent replay not found.")
  reject_if (not (is_snapshot_complete conversation_id turn_id start.first_seq start.last_seq db)) (
      coded_conflict "replay_snapshot_unavailable"
        "The turn input boundary is not present in this transcript snapshot.")
  reject_if
      (ltb limits.max_items
        (length (filter (is_up_to conversation_id start.last_seq) db.conversation_items)))
      (context_limit "item count")
  input ←
      build_agent_projection to_vec_len (payloads_up_to conversation_id start.last_seq db)
        limits.strip_top_level_fields limits.max_items limits.max_bytes
  ok (record {
    conversation_id = conversation_id;
    turn_id = turn_id;
    through_seq = start.last_seq;
    input = input;
  })
