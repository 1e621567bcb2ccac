-- ===== src/Auth/Tests.antt =====
-- The theorems of the tokens at one token.
use threadmark.Auth.Claims.{
  collect_permissions, has_bad_ids, has_bad_times, context_of, one, Claims, Settings, context,
}
use threadmark.Auth.Laws.{context-delegated, context-require, context-bounds}
use threadmark.Auth.{
  require_agent_replay_scope, AuthContext, Permission, require, agent_replay, delegated_agent,
  transcript_read,
}
use threadmark.Error.{ok}
use threadmark.Common.{◌≤◌, ◌<◌, String, ◌≡◌, refl, ◌≢◌, ◌↔◌, none, some, [], ◌∷◌}

abbrev settings : Settings
settings = record {
  issuer = "https://id";
  audience = "threadmark";
  max_owner_seconds = 3600;
  max_delegated_seconds = 300;
}

abbrev token : Claims
token = record {
  iss = "https://id";
  aud = one "threadmark";
  sub = "ann";
  client_id = "cli";
  iat = 100;
  nbf = 100;
  exp = 400;
  jti = "j1";
  token_kind = "delegated_agent";
  tenant = "acme";
  principal = "ann";
  permissions = "transcript:read" ∷ [];
  agent_ref = some "bot";
  conversation_id = some "conv_1";
  turn_id = some "turn_1";
}

abbrev session : AuthContext
session = context_of token delegated_agent (transcript_read ∷ [])

accepted : context settings 110 token ≡ some session
unfolding context has_bad_times has_bad_ids collect_permissions
accepted = refl

too_long : context settings 110 (record token { exp = 401 }) ≡ none
unfolding context has_bad_times has_bad_ids collect_permissions
too_long = refl

two_permissions :
    context settings 110 (record token { permissions = "transcript:read" ∷ "turn:read" ∷ [] })
    ≡ none
unfolding context has_bad_times has_bad_ids collect_permissions
two_permissions = refl

context-require_example :
    (require session agent_replay ≡ ok tt) ↔ (session.token_kind ≡ delegated_agent)
context-require_example = context-require settings 110 token accepted

context-delegated_example :
    (agent : String) × (conversation : String) × (turn : String) × (some "bot" ≡ some agent)
    × (some "conv_1" ≡ some conversation)
    × (some "turn_1" ≡ some turn)
    × ((p : Permission) → require session p ≡ ok tt → p ≡ agent_replay)
    × ((x y : String)
        → (require_agent_replay_scope session x y ≡ ok agent) ↔ ((x ≡ conversation) × (y ≡ turn)))
context-delegated_example = context-delegated settings 110 token accepted refl

context-bounds_example :
    (100 < 400)
    × (100 < 400)
    × (400 ≤ 400)
    × (100 ≤ 140)
    × (token.iss ≡ settings.issuer)
    × (session.client_id ≢ "threadmark:trusted-headers")
context-bounds_example = context-bounds settings 110 token accepted
