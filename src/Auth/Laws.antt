-- ===== src/Auth/Laws.antt =====
-- What a context says of the claims that it was made from.
use threadmark.Auth.Names.{collect_permissions-SparesAll}
use threadmark.Auth.Claims.{
  max_seconds, context_of, bad_delegation, has_bad_ids, has_bad_times, kind_of, valid_audience,
  Claims, Settings, collect_permissions, context_as, context,
}
use threadmark.Error.{reject_if-ok, ok, not_found, ok_or}
use threadmark.Auth.{
  require_agent_replay_scope, delegated_agent, require, is_delegated, AuthContext, agent_replay,
  TokenKind, is_permission, Permission, conversation_list, conversation_create, conversation_read,
  conversation_update, conversation_delete, conversation_truncate, conversation_regenerate,
  transcript_read, transcript_append, turn_create, turn_read, turn_update, continuation_read,
  continuation_write, file_create, file_read, file_delete, file_grant, owner_session,
}
use native.Mathlib.Nat.{min-le_left}
use threadmark.Common.{
  ℕ, ◌+◌, ◌-◌, ◌^◌, ◌≤◌, ◌<◌, min, String, ◌≡◌, refl, sym, ap, ◌∙◌, ◌≢◌, ◌↔◌, inl, inr, Bool, true,
  false, ◌&&◌, ◌||◌, not, Option, none, some, List, arith, ◌==◌, eq_iff, eq_refl, leb,
  if◌then◌else◌, is_some, leb→le, Option-cases, any, some-eq-some,
}

-- A context comes from claims that passed every check.
record Accepted (v : Settings) (now : ℕ) (c : Claims) (auth : AuthContext) : Type 0 where
  kind : TokenKind
  permissions : List Permission
  issuer_matches : (c.iss == v.issuer) ≡ true
  audience_matches : valid_audience c.aud v.audience ≡ true
  times : has_bad_times v now kind c ≡ false
  ids : has_bad_ids c ≡ false
  collected : collect_permissions c.permissions ≡ some permissions
  delegation : is_delegated kind ≡ true → bad_delegation c permissions ≡ false
  made : auth ≡ context_of c kind permissions

if-none :
    {A : Type 0} (b : Bool) (o : Option A) {a : A}
    → (if b then none else o) ≡ some a
    → (b ≡ false) × (o ≡ some a)
if-none true o h = absurd (ground arith)
if-none false o h = (refl, h)

context_as-Accepted :
    (v : Settings) (now : ℕ) (kind : TokenKind) (c : Claims) {auth : AuthContext}
    → context_as v now kind c ≡ some auth
    → Accepted v now c auth
unfolding context_as
context_as-Accepted v now kind c {auth} h =
    let (good, rest) =
      if-none
        (not (c.iss == v.issuer)
          || not (valid_audience c.aud v.audience)
          || has_bad_times v now kind c
          || has_bad_ids c)
        _ h in
    elim (Option-cases (collect_permissions c.permissions)) [
      | inl missing ↦ absurd (let k = rw missing at rest in ground arith)
      | inr (permissions, collected) ↦
          let (fine, made) =
            if-none (is_delegated kind && bad_delegation c permissions) _ (rw collected at rest) in
          record {
            kind = kind;
            permissions = permissions;
            issuer_matches = ground arith;
            audience_matches = ground arith;
            times = ground arith;
            ids = ground arith;
            collected = collected;
            delegation = λ d. ground arith;
            made = sym (some-eq-some made);
          }
    ]

context-Accepted :
    (v : Settings) (now : ℕ) (c : Claims) {auth : AuthContext}
    → context v now c ≡ some auth
    → Accepted v now c auth
unfolding context
context-Accepted v now c h = elim (Option-cases (kind_of c.token_kind)) [
  | inl missing ↦ absurd (let k = rw (missing, context) at h in ground arith)
  | inr (kind, known) ↦ context_as-Accepted v now kind c (rw (known, context) at h)
]

eq_of_discriminant : (p : Permission) → is_permission p agent_replay ≡ true → p ≡ agent_replay
eq_of_discriminant conversation_list h = absurd (ground arith)
eq_of_discriminant conversation_create h = absurd (ground arith)
eq_of_discriminant conversation_read h = absurd (ground arith)
eq_of_discriminant conversation_update h = absurd (ground arith)
eq_of_discriminant conversation_delete h = absurd (ground arith)
eq_of_discriminant conversation_truncate h = absurd (ground arith)
eq_of_discriminant conversation_regenerate h = absurd (ground arith)
eq_of_discriminant transcript_read h = absurd (ground arith)
eq_of_discriminant agent_replay h = refl
eq_of_discriminant transcript_append h = absurd (ground arith)
eq_of_discriminant turn_create h = absurd (ground arith)
eq_of_discriminant turn_read h = absurd (ground arith)
eq_of_discriminant turn_update h = absurd (ground arith)
eq_of_discriminant continuation_read h = absurd (ground arith)
eq_of_discriminant continuation_write h = absurd (ground arith)
eq_of_discriminant file_create h = absurd (ground arith)
eq_of_discriminant file_read h = absurd (ground arith)
eq_of_discriminant file_delete h = absurd (ground arith)
eq_of_discriminant file_grant h = absurd (ground arith)

require_iff :
    (c : Claims) (kind : TokenKind) (permissions : List Permission)
    → any (is_permission agent_replay) permissions ≡ false
    → (require (context_of c kind permissions) agent_replay ≡ ok tt) ↔ (kind ≡ delegated_agent)
unfolding require any
require_iff c owner_session permissions none_collected =
    ((λ k. absurd (let e = rw none_collected at k in ground arith)), (λ k. absurd (ground arith)))
require_iff c delegated_agent permissions none_collected = ((λ k. refl), (λ k. refl))

-- A context that a token gives may use the agent's replay exactly where the token is a delegated one.
pub context-require :
    (v : Settings) (now : ℕ) (c : Claims) {auth : AuthContext}
    → context v now c ≡ some auth
    → (require auth agent_replay ≡ ok tt) ↔ (auth.token_kind ≡ delegated_agent)
context-require v now c h =
    let a = context-Accepted v now c h in
    rw a.made (
      require_iff c a.kind a.permissions
        (rw a.collected at (collect_permissions-SparesAll c.permissions)))

require-replay_only :
    (c : Claims) (permissions : List Permission) (p : Permission)
    → require (context_of c delegated_agent permissions) p ≡ ok tt
    → p ≡ agent_replay
unfolding require any
require-replay_only c permissions p h = eq_of_discriminant p (ground arith)

is_some-some : (o : Option String) → is_some o ≡ true → (s : String) × (o ≡ some s)
is_some-some none h = absurd (ground arith)
is_some-some (some s) h = (s, refl)

scope_iff :
    (auth : AuthContext) {agent conversation turn : String}
    → auth.token_kind ≡ delegated_agent
    → auth.agent_ref ≡ some agent
    → auth.conversation_id ≡ some conversation
    → auth.turn_id ≡ some turn
    → (x y : String)
    → (require_agent_replay_scope auth x y ≡ ok agent) ↔ ((x ≡ conversation) × (y ≡ turn))
unfolding require_agent_replay_scope
scope_iff auth {agent} {conversation} {turn} kind bound own own_turn x y = (
  (λ h.
      let (good, rest) =
        reject_if-ok (not (conversation == x) || not (turn == y))
          (not_found "Agent replay not found.")
          (ok_or auth.agent_ref (not_found "Agent replay not found."))
          (rw (kind, own, own_turn) at h) in
      (sym ((eq_iff conversation x).0 (ground arith)), sym ((eq_iff turn y).0 (ground arith)))),
  (λ (e, k). rw (kind, own, own_turn, e, k, eq_refl conversation, eq_refl turn, bound)),
)

-- A delegated token that is accepted may do nothing but the replay of an agent, for the one agent, the one
-- conversation and the one turn that it names.
pub context-delegated :
    (v : Settings) (now : ℕ) (c : Claims) {auth : AuthContext}
    → context v now c ≡ some auth
    → auth.token_kind ≡ delegated_agent
    → (agent : String) × (conversation : String) × (turn : String) × (c.agent_ref ≡ some agent)
      × (c.conversation_id ≡ some conversation)
      × (c.turn_id ≡ some turn)
      × ((p : Permission) → require auth p ≡ ok tt → p ≡ agent_replay)
      × ((x y : String)
          → (require_agent_replay_scope auth x y ≡ ok agent) ↔ ((x ≡ conversation) × (y ≡ turn)))
context-delegated v now c {auth} h d =
    let a = context-Accepted v now c h in
    let kind : a.kind ≡ delegated_agent = sym (ap (λ x. x.token_kind) a.made) ∙ d in
    let fine = a.delegation (ap is_delegated kind) in
    let (agent, bound) = is_some-some c.agent_ref (ground arith) in
    let (conversation, own) = is_some-some c.conversation_id (ground arith) in
    let (turn, own_turn) = is_some-some c.turn_id (ground arith) in
    let made : auth ≡ context_of c delegated_agent a.permissions =
      a.made ∙ ap (λ k. context_of c k a.permissions) kind in
    (
      agent,
      conversation,
      turn,
      bound,
      own,
      own_turn,
      rw made (λ p. require-replay_only c a.permissions p),
      rw made (scope_iff (context_of c delegated_agent a.permissions) refl bound own own_turn),
    )

-- A token that is accepted expires after it is issued and after it becomes valid, lives no longer than its
-- kind allows, is issued no later than thirty seconds from now, by the configured issuer, and never has the
-- client identifier of the trusted headers.
pub context-bounds :
    (v : Settings) (now : ℕ) (c : Claims) {auth : AuthContext}
    → context v now c ≡ some auth
    → (c.iat < c.exp)
      × (c.nbf < c.exp)
      × (c.exp ≤ c.iat + max_seconds auth.token_kind v)
      × (c.iat ≤ now + 30)
      × (c.iss ≡ v.issuer)
      × (auth.client_id ≢ "threadmark:trusted-headers")
unfolding has_bad_times has_bad_ids
context-bounds v now c {auth} h =
    let a = context-Accepted v now c h in
    let kind : auth.token_kind ≡ a.kind = ap (λ x. x.token_kind) a.made in
    let client : auth.client_id ≡ c.client_id = ap (λ x. x.client_id) a.made in
    let times = a.times in
    let clock = min-le_left (now + 30) (2 ^ 64 - 1) in
    let begun : leb c.iat (min (now + 30) (2 ^ 64 - 1)) ≡ true = ground arith in
    let before = leb→le c.iat _ begun in
    let ids = a.ids in
    (
      ground arith,
      ground arith,
      rw kind (ground arith),
      omega arith,
      (eq_iff c.iss v.issuer).0 a.issuer_matches,
      λ e. let same = (eq_iff c.client_id _).1 (sym client ∙ e) in ground arith,
    )
