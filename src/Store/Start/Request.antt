-- ===== src/Store/Start/Request.antt =====
-- src/store.rs: how `start_turn` checks and normalises its request, and what it takes the digest of.
use Prim.Native.String.{count}
use threadmark.Common.Text.{trim, is_empty}
use threadmark.Error.{ApiResult, ok, err, ◌>>=◌, ◌>>◌, reject_if, bad_request, database, violates}
use threadmark.Model.{StartTurn, CreateConversation}
use threadmark.Model.Json.{Value, is_object}
use threadmark.Store.Conversations.{normalize_title}
use threadmark.Store.Append.{check_items}
use threadmark.Common.{String, Bool, true, false, ◌||◌, not, Option, none, some, List, ltb, is_some}

-- SHA-256, opaque
abbrev pub Digest : Type 0
Digest = String

-- The operation's name and its version, "turn_start" and 1, are the same in all digests.
pub data TurnStartDigest : Type 0 where
  existing : (conversation_id agent_ref : String) → List Value → TurnStartDigest
  create : CreateConversation → (agent_ref : String) → List Value → TurnStartDigest

unfoldable pub normalize_conversation :
    Option CreateConversation → ApiResult (Option CreateConversation)
unfolding normalize_title
normalize_conversation none = ok none
normalize_conversation (some c) = do
  reject_if (not (is_object c.metadata)) (bad_request "metadata must be a JSON object")
  title ← normalize_title c.title
  ok (some (record c { title = some title }))

abbrev pub same_bool : Bool → Bool → Bool
same_bool true b = b
same_bool false b = not b

unfoldable pub normalize_request : StartTurn → ApiResult StartTurn
unfolding trim check_items normalize_conversation
normalize_request request = do
  let key = trim request.idempotency_key
  let agent_ref = trim request.agent_ref
  reject_if (is_empty key || ltb 200 (count key))
      (bad_request "idempotency_key must contain 1 to 200 characters")
  reject_if (is_empty agent_ref || ltb 200 (count agent_ref))
      (bad_request "agent_ref must contain 1 to 200 characters")
  reject_if (same_bool (is_some request.conversation_id) (is_some request.conversation))
      (bad_request "exactly one of conversation_id and conversation is required")
  check_items request.items
  conversation ← normalize_conversation request.conversation
  ok (record request { idempotency_key = key; agent_ref = agent_ref; conversation = conversation })

-- The two modes of a request; the checks above leave no other.
unfoldable pub digest_input : StartTurn → Option TurnStartDigest
digest_input request = elim request.conversation_id [
  | some id ↦ elim request.conversation [
    | none ↦ some (existing id request.agent_ref request.items)
    | some c ↦ none
  ]
  | none ↦ elim request.conversation [
    | some c ↦ some (create c request.agent_ref request.items)
    | none ↦ none
  ]
]

abbrev hash_input :
    (hash : TurnStartDigest → Option Digest) → Option TurnStartDigest → ApiResult Digest
hash_input hash none = err (database (violates "unreachable"))
hash_input hash (some d) = elim (hash d) [
  | none ↦ err (bad_request "invalid request JSON")
  | some h ↦ ok h
]

unfoldable pub turn_start_digest_v1 :
    (hash : TurnStartDigest → Option Digest) → StartTurn → ApiResult Digest
unfolding digest_input
turn_start_digest_v1 hash request = hash_input hash (digest_input request)
