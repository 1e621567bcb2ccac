-- ===== src/Api.antt =====
-- src/api.rs: what the handlers answer.
pub mod Conversations
pub mod Turns
pub mod Router
mod Tests
pub mod Laws
pub mod History
pub mod Delegated
pub mod Headers
pub mod Files
pub mod Uploads
pub mod Routes
use threadmark.Capability.{DownloadGrant}
use threadmark.Model.{
  Conversation, Item, AppendResult, Turn, StartTurnResult, Continuation, FileRecord,
}
use threadmark.Store.Replay.{ReplayResult}
use threadmark.Store.Replay.Agent.{AgentReplayResult}
use Prim.Native.String
use threadmark.Common.{
  ℕ, zero, suc, ◌+◌, ◌-◌, ◌*◌, ◌/◌, ◌%◌, ◌^◌, ◌≤◌, ◌<◌, min, String, ◌≡◌, refl, sym, ap, ◌∙◌, ◌≢◌,
  ◌↔◌, ◌⊎◌, inl, inr, Bool, true, false, ◌&&◌, ◌||◌, not, Option, none, some, List, [], ◌∷◌, ◌++◌,
  map, append-nil, append_assoc, arith, ◌==◌, eq_iff, eq_refl, ltb, leb, eqb, if◌then◌else◌,
  some_eq, is_some, unwrap_or, ltb→lt, leb→le, leb-false, Bool-cases, Option-cases, eq-of-some_eq,
  length, length-append, take, length-take_le, All, All-append, All-append_left, All-of_forall,
  All-map, filter, find, any, all, remove, update, or_else, filter-append, find-append, any-append,
  filter_none, filter-All, All-not_of_any, any-of_All, find_sound, any-of_find, find-none, All-find,
  All-filter, All-remove, All-passed, any-update, find-update_ne, find-update, All-update, any_mono,
  filter-remove_spared, filter-remove, remove_congr, remove_none, All-removed, All-both,
  some-eq-some, filter_none_under, find-filter, length-remove_le, length-remove_lt,
}

pub record FileResponse : Type 0 where
  pub id : String
  pub filename : String
  pub mime_type : String
  pub size : ℕ
  pub uri : String
  pub created_at : ℕ

-- `FileRecord::uri`
unfoldable pub uri : FileRecord → String
uri f = String.◌++◌ "threadmark://files/" f.id

-- `FileResponse::from`
unfoldable pub file_response : FileRecord → FileResponse
unfolding uri
file_response f = record {
  id = f.id;
  filename = f.filename;
  mime_type = f.mime_type;
  size = f.size;
  uri = uri f;
  created_at = f.created_at;
}

-- The values that are answered as JSON, by the handlers of conversations and turns.
pub data Body : Type 0 where
  nothing : Body
  conversation_body : Conversation → Body
  conversations_body : List Conversation → Body
  items_body : List Item → Body
  appended_body : AppendResult → Body
  replay_body : ReplayResult → Body
  agent_replay_body : AgentReplayResult → Body
  started_body : StartTurnResult → Body
  turn_body : Turn → Body
  turns_body : List Turn → Body
  active_turn_body : Option Turn → Body
  continuation_body : Continuation → Body
  regenerated_body : Option String → Body

pub record Reply : Type 0 where
  pub status : ℕ
  pub body : Body

abbrev pub ok_reply : Body → Reply
ok_reply body = record { status = 200; body = body }

abbrev pub created_reply : Body → Reply
created_reply body = record { status = 201; body = body }

abbrev pub no_content : Reply
no_content = record { status = 204; body = nothing }
