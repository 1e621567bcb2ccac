-- ===== src/Store/Continuations.antt =====
-- src/store.rs: continuations.
use threadmark.Common.Int.{ℤ, pos, negsuc}
use threadmark.Common.Text.{trim, is_empty}
use threadmark.Error.{
  ApiResult, ok, ◌>>=◌, ◌>>◌, reject_if, ok_or, bad_request, not_found, conflict, database,
  violates,
}
use threadmark.Ids.{new_id}
use threadmark.Model.{Actor, Conversation, Continuation}
use threadmark.Model.Json.{Value}
use threadmark.Db.{Db}
use threadmark.Store.Conversations.{get_conversation}
use threadmark.Common.{
  ℕ, ◌-◌, String, ◌&&◌, ◌||◌, not, Option, none, some, [], ◌∷◌, ◌++◌, ◌==◌, ltb, if◌then◌else◌,
  find, any,
}

pub record CreateContinuation : Type 0 where
  pub agent_ref : String
  pub response_id : String
  pub parent_response_id : Option String
  pub through_seq : Option ℤ
  pub state : Option Value

-- `through_seq` where it lies in the transcript, `0 ≤ through_seq < next_seq`.
unfoldable pub in_transcript : Conversation → Option ℤ → Option ℕ
in_transcript c none = let n = c.next_seq - 1 in if ltb n c.next_seq then some n else none
in_transcript c (some (pos n)) = if ltb n c.next_seq then some n else none
in_transcript c (some (negsuc n)) = none

-- INSERT INTO continuations, with its keys and its foreign key.
unfoldable pub insert_continuation : Continuation → Db → ApiResult (Continuation × Db)
insert_continuation k db = do
  reject_if
      (any
        (λ j.
          j.tenant_id == k.tenant_id
          && j.agent_ref == k.agent_ref
          && j.response_id == k.response_id)
        db.continuations)
      (conflict "Continuation response_id already exists.")
  reject_if (any (λ j. j.id == k.id) db.continuations) (database (violates "continuations_pkey"))
  reject_if (not (any (λ c. c.id == k.conversation_id) db.conversations))
      (database (violates "continuations_conversation_id_fkey"))
  ok (k, record db { continuations = db.continuations ++ k ∷ [] })

-- The SELECT takes no lock: `between` is what others do to the tables before the INSERT.
unfoldable pub create_continuation :
    (between : Db → Db)
    → Actor
    → String
    → CreateContinuation
    → (now : ℕ) (ulid : String) → Db
    → ApiResult (Continuation × Db)
unfolding get_conversation in_transcript trim insert_continuation
create_continuation between actor conversation_id request now ulid db = do
  conversation ← get_conversation actor conversation_id db
  reject_if (is_empty (trim request.agent_ref) || is_empty (trim request.response_id))
      (bad_request "agent_ref and response_id are required")
  through_seq ←
      ok_or (in_transcript conversation request.through_seq)
        (bad_request "through_seq is outside the conversation transcript")
  insert_continuation
      (record {
        id = new_id "cont" ulid;
        tenant_id = actor.tenant_id;
        conversation_id = conversation_id;
        agent_ref = request.agent_ref;
        response_id = request.response_id;
        parent_response_id = request.parent_response_id;
        through_seq = through_seq;
        state = request.state;
        created_at = now;
      })
      (between db)

unfoldable pub get_continuation :
    Actor → (response_id agent_ref : String) → Db → ApiResult Continuation
get_continuation actor response_id agent_ref db =
    ok_or
      (find
        (λ k.
          k.response_id == response_id
          && k.agent_ref == agent_ref
          && k.tenant_id == actor.tenant_id
          && any (λ c. c.id == k.conversation_id && c.owner_ref == actor.principal_id)
              db.conversations)
        db.continuations)
      (not_found "Continuation not found.")
