-- ===== src/Auth.antt =====
-- src/auth.rs: permissions, the context of a request, and the access rules that the API applies.
pub mod Claims
pub mod Verifier
mod Names
pub mod Laws
mod Tests
use threadmark.Error.{ok_or, ◌>>◌, forbidden, not_found, reject_if, ApiResult}
use Prim.Native.String.{len}
use threadmark.Common.Text.{is_empty, trim}
use threadmark.Model.{Actor}
use threadmark.Common.{
  ℕ, zero, suc, ◌+◌, ◌-◌, ◌*◌, ◌/◌, ◌%◌, ◌^◌, ◌≤◌, ◌<◌, min, String, ◌≡◌, refl, sym, ap, ◌∙◌, ◌≢◌,
  ◌↔◌, ◌⊎◌, inl, inr, Bool, true, false, ◌&&◌, ◌||◌, not, Option, none, some, List, [], ◌∷◌, ◌++◌,
  map, append-nil, append_assoc, arith, ◌==◌, eq_iff, eq_refl, ltb, leb, eqb, if◌then◌else◌,
  some_eq, is_some, unwrap_or, ltb→lt, leb→le, leb-false, Bool-cases, Option-cases, eq-of-some_eq,
  length, length-append, take, length-take_le, All, All-append, All-append_left, All-of_forall,
  All-map, filter, find, any, all, remove, update, or_else, filter-append, find-append, any-append,
  filter_none, filter-All, All-not_of_any, any-of_All, find_sound, any-of_find, find-none, All-find,
  All-filter, All-remove, All-passed, any-update, find-update_ne, find-update, All-update, any_mono,
  filter-remove_spared, filter-remove, remove_congr, remove_none, All-removed, All-both,
  some-eq-some, filter_none_under, find-filter, length-remove_le, length-remove_lt,
}

pub data TokenKind : Type 0 where
  owner_session delegated_agent : TokenKind

pub data Permission : Type 0 where
  conversation_list conversation_create conversation_read conversation_update : Permission
  conversation_delete conversation_truncate conversation_regenerate : Permission
  transcript_read agent_replay transcript_append : Permission
  turn_create turn_read turn_update : Permission
  continuation_read continuation_write : Permission
  file_create file_read file_delete file_grant : Permission

-- An arm of the match.
unfoldable pub arm : String → String → Permission → Option Permission → Option Permission
arm value name permission otherwise = if value == name then some permission else otherwise

-- `Permission::parse`
unfoldable pub parse : String → Option Permission
unfolding arm
parse value = arm value "conversation:list" conversation_list (
    arm value "conversation:create" conversation_create (
      arm value "conversation:read" conversation_read (
        arm value "conversation:update" conversation_update (
          arm value "conversation:delete" conversation_delete (
            arm value "conversation:truncate" conversation_truncate (
              arm value "conversation:regenerate" conversation_regenerate (
                arm value "transcript:read" transcript_read (
                  arm value "transcript:append" transcript_append (
                    arm value "turn:create" turn_create (
                      arm value "turn:read" turn_read (
                        arm value "turn:update" turn_update (
                          arm value "continuation:read" continuation_read (
                            arm value "continuation:write" continuation_write (
                              arm value "file:create" file_create (
                                arm value "file:read" file_read (
                                  arm value "file:delete" file_delete
                                    (arm value "file:grant" file_grant (none))))))))))))))))))

-- The place of a permission among the variants, by which two are compared.
abbrev pub discriminant : Permission → ℕ
discriminant conversation_list = 0
discriminant conversation_create = 1
discriminant conversation_read = 2
discriminant conversation_update = 3
discriminant conversation_delete = 4
discriminant conversation_truncate = 5
discriminant conversation_regenerate = 6
discriminant transcript_read = 7
discriminant agent_replay = 8
discriminant transcript_append = 9
discriminant turn_create = 10
discriminant turn_read = 11
discriminant turn_update = 12
discriminant continuation_read = 13
discriminant continuation_write = 14
discriminant file_create = 15
discriminant file_read = 16
discriminant file_delete = 17
discriminant file_grant = 18

abbrev pub is_permission : Permission → Permission → Bool
is_permission p q = eqb (discriminant p) (discriminant q)

abbrev pub is_delegated : TokenKind → Bool
is_delegated owner_session = false
is_delegated delegated_agent = true

-- The set of permissions is a list without repetitions.
pub record AuthContext : Type 0 where
  pub actor : Actor
  pub client_id : String
  pub agent_ref : Option String
  pub conversation_id : Option String
  pub turn_id : Option String
  pub token_kind : TokenKind
  pub permissions : List Permission

unfoldable pub require : AuthContext → Permission → ApiResult (Unit {0})
unfolding any
require auth p = reject_if (not (any (is_permission p) auth.permissions)) forbidden

abbrev is_bound_elsewhere : Option String → String → Bool
is_bound_elsewhere none agent_ref = false
is_bound_elsewhere (some bound) agent_ref = not (bound == agent_ref)

unfoldable pub require_agent : AuthContext → String → ApiResult (Unit {0})
require_agent auth agent_ref =
    reject_if (is_bound_elsewhere auth.agent_ref agent_ref) (not_found "Agent resource not found.")

unfoldable pub require_agent_replay_scope : AuthContext → String → String → ApiResult String
require_agent_replay_scope auth conversation_id turn_id = do
  reject_if
      (not (is_delegated auth.token_kind)
        || not (some_eq auth.conversation_id conversation_id)
        || not (some_eq auth.turn_id turn_id))
      (not_found "Agent replay not found.")
  ok_or auth.agent_ref (not_found "Agent replay not found.")

unfoldable pub valid_id : String → Bool
unfolding trim
valid_id value = not (is_empty (trim value)) && leb (len value) 200
