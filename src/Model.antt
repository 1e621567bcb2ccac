-- ===== src/Model.antt =====
-- src/model.rs: the requests and the answers of the API, and the rows that the store reads.
-- A timestamp is a number; a `bigint` that the schema keeps positive is a number too.
pub mod Json
pub mod Numbers
use threadmark.Common.{
  ℕ, zero, suc, ◌+◌, ◌-◌, ◌*◌, ◌/◌, ◌%◌, ◌^◌, ◌≤◌, ◌<◌, min, String, ◌≡◌, refl, sym, ap, ◌∙◌, ◌≢◌,
  ◌↔◌, ◌⊎◌, inl, inr, Bool, true, false, ◌&&◌, ◌||◌, not, Option, none, some, List, [], ◌∷◌, ◌++◌,
  map, append-nil, append_assoc, arith, ◌==◌, eq_iff, eq_refl, ltb, leb, eqb, if◌then◌else◌,
  some_eq, is_some, unwrap_or, ltb→lt, leb→le, leb-false, Bool-cases, Option-cases, eq-of-some_eq,
  length, length-append, take, length-take_le, All, All-append, All-append_left, All-of_forall,
  All-map, filter, find, any, all, remove, update, or_else, filter-append, find-append, any-append,
  filter_none, filter-All, All-not_of_any, any-of_All, find_sound, any-of_find, find-none, All-find,
  All-filter, All-remove, All-passed,
}
use Json.{Value}

pub record Actor : Type 0 where
  pub tenant_id : String
  pub principal_id : String

pub record Conversation : Type 0 where
  pub id : String
  pub tenant_id : String
  pub owner_ref : String
  pub title : String
  pub metadata : Value
  pub next_seq : ℕ
  pub created_at : ℕ
  pub updated_at : ℕ

pub record CreateConversation : Type 0 where
  pub title : Option String
  pub metadata : Value

pub record StartTurn : Type 0 where
  pub idempotency_key : String
  pub conversation_id : Option String
  pub conversation : Option CreateConversation
  pub agent_ref : String
  pub items : List Value

pub record StartTurnResult : Type 0 where
  pub conversation_id : String
  pub turn_id : String
  pub item_ids : List String
  pub first_seq : ℕ
  pub last_seq : ℕ
  pub replayed : Bool

pub record UpdateConversation : Type 0 where
  pub title : Option String
  pub metadata : Option Value

pub record Item : Type 0 where
  pub id : String
  pub conversation_id : String
  pub turn_id : Option String
  pub seq : ℕ
  pub source : String
  pub payload : Value
  pub created_at : ℕ

pub record AppendItems : Type 0 where
  pub idempotency_key : String
  pub turn_id : Option String
  pub source : String
  pub items : List Value

pub record AppendResult : Type 0 where
  pub items : List Item
  pub replayed : Bool

-- The table's column `idempotency_key` is no field of the source's `Turn`, which leaves it out of answers.
pub record Turn : Type 0 where
  pub id : String
  pub conversation_id : String
  pub agent_ref : String
  pub idempotency_key : Option String
  pub status : String
  pub response_id : Option String
  pub error : Option Value
  pub usage : Option Value
  pub created_at : ℕ
  pub completed_at : Option ℕ

pub record CreateTurn : Type 0 where
  pub idempotency_key : String
  pub agent_ref : String

pub record UpdateTurn : Type 0 where
  pub status : String
  pub response_id : Option String
  pub error : Option Value
  pub usage : Option Value

pub record Continuation : Type 0 where
  pub id : String
  pub tenant_id : String
  pub conversation_id : String
  pub agent_ref : String
  pub response_id : String
  pub parent_response_id : Option String
  pub through_seq : ℕ
  pub state : Option Value
  pub created_at : ℕ

pub record FileRecord : Type 0 where
  pub id : String
  pub tenant_id : String
  pub owner_ref : String
  pub filename : String
  pub mime_type : String
  pub size : ℕ
  pub storage_key : String
  pub created_at : ℕ
