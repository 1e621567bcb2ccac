-- ===== src/Auth/Claims.antt =====
-- src/auth.rs: what the verifier demands of a token's claims.
use threadmark.Auth.{
  delegated_agent, transcript_read, agent_replay, is_delegated, is_permission, owner_session,
  AuthContext, Permission, TokenKind, parse, valid_id,
}
use threadmark.Common.{
  ℕ, ◌+◌, ◌-◌, ◌^◌, min, String, Bool, false, ◌&&◌, ◌||◌, not, Option, none, some, List, [], ◌∷◌,
  ◌==◌, ltb, leb, eqb, if◌then◌else◌, is_some, length, any,
}

pub data Audience : Type 0 where
  one : String → Audience
  many : List String → Audience

pub record Claims : Type 0 where
  pub iss : String
  pub aud : Audience
  pub sub : String
  pub client_id : String
  pub iat : ℕ
  pub nbf : ℕ
  pub exp : ℕ
  pub jti : String
  pub token_kind : String
  pub tenant : String
  pub principal : String
  pub permissions : List String
  pub agent_ref : Option String
  pub conversation_id : Option String
  pub turn_id : Option String

-- The verifier's settings that the claims are read against.
pub record Settings : Type 0 where
  pub issuer : String
  pub audience : String
  pub max_owner_seconds : ℕ
  pub max_delegated_seconds : ℕ

unfoldable pub kind_of : String → Option TokenKind
kind_of s =
    if s == "owner_session"
    then some owner_session
    else if s == "delegated_agent"
    then some delegated_agent
    else none

abbrev pub valid_audience : Audience → String → Bool
valid_audience (one value) audience = value == audience
valid_audience (many (value ∷ [])) audience = value == audience
valid_audience (many _) audience = false

abbrev pub max_seconds : TokenKind → Settings → ℕ
max_seconds owner_session v = v.max_owner_seconds
max_seconds delegated_agent v = v.max_delegated_seconds

-- `value.is_some_and(|value| !valid_id(value))`
abbrev bad_id : Option String → Bool
bad_id none = false
bad_id (some value) = not (valid_id value)

-- `u64::saturating_add`
abbrev saturating_add : ℕ → ℕ → ℕ
saturating_add m n = min (m + n) (2 ^ 64 - 1)

-- The times of the claims; a difference on ℕ is `saturating_sub`.
unfoldable pub has_bad_times : Settings → (now : ℕ) → TokenKind → Claims → Bool
has_bad_times v now kind c =
    leb c.exp c.iat
    || leb c.exp c.nbf
    || ltb (saturating_add now 30) c.iat
    || ltb (max_seconds kind v) (c.exp - c.iat)

-- The identities of the claims.
unfoldable pub has_bad_ids : Claims → Bool
unfolding valid_id
has_bad_ids c =
    not (valid_id c.sub)
    || not (valid_id c.client_id)
    || c.client_id == "threadmark:trusted-headers"
    || not (valid_id c.jti)
    || not (valid_id c.tenant)
    || not (valid_id c.principal)
    || bad_id c.agent_ref
    || bad_id c.conversation_id
    || bad_id c.turn_id

abbrev insert_permission : Permission → List Permission → List Permission
insert_permission p ps = if any (is_permission p) ps then ps else p ∷ ps

abbrev pub collect_with : Option Permission → Option (List Permission) → Option (List Permission)
collect_with (some p) (some ps) = some (insert_permission p ps)
collect_with none o = none
collect_with (some p) none = none

-- `.map(Permission::parse).collect::<Option<HashSet<_>>>()`
unfoldable pub collect_permissions : List String → Option (List Permission)
unfolding parse any
collect_permissions [] = some []
collect_permissions (value ∷ values) = collect_with (parse value) (collect_permissions values)

-- What a delegated token must name: one conversation, one turn, one agent and no more than a reading.
abbrev pub bad_delegation : Claims → List Permission → Bool
bad_delegation c permissions =
    not (is_some c.conversation_id)
    || not (is_some c.turn_id)
    || not (is_some c.agent_ref)
    || not (eqb (length permissions) 1)
    || not (any (is_permission transcript_read) permissions)

abbrev pub granted : TokenKind → List Permission → List Permission
granted owner_session permissions = permissions
granted delegated_agent permissions = agent_replay ∷ []

abbrev pub context_of : Claims → TokenKind → List Permission → AuthContext
context_of c kind permissions = record {
  actor = record { tenant_id = c.tenant; principal_id = c.principal };
  client_id = c.client_id;
  agent_ref = c.agent_ref;
  conversation_id = c.conversation_id;
  turn_id = c.turn_id;
  token_kind = kind;
  permissions = granted kind permissions;
}

-- The part of `context` after the kind of the token is known.
unfoldable pub context_as : Settings → (now : ℕ) → TokenKind → Claims → Option AuthContext
context_as v now kind c =
    if not (c.iss == v.issuer)
      || not (valid_audience c.aud v.audience)
      || has_bad_times v now kind c
      || has_bad_ids c
    then none
    else elim (collect_permissions c.permissions) [
      | none ↦ none
      | some permissions ↦
          if is_delegated kind && bad_delegation c permissions
          then none
          else some (context_of c kind permissions)
    ]

-- `Claims::context` at the time `now`, in seconds.
unfoldable pub context : Settings → (now : ℕ) → Claims → Option AuthContext
unfolding context_as kind_of
context v now c = elim (kind_of c.token_kind) [ none ↦ none | some kind ↦ context_as v now kind c ]
