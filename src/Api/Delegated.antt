-- ===== src/Api/Delegated.antt =====
-- What the token of an agent can have answered by src/api.rs.
use threadmark.Api.Router.{
  gets_continuation, creates_continuation, updates_turn, gets_turn, gets_active_turn, lists_turns,
  creates_turn, starts_turn, regenerates, truncates, replays, appends_items, lists_items,
  deletes_conversation, updates_conversation, gets_conversation, handle, lists_conversations,
  creates_conversation, replays_for_agent, Request, Services,
}
use threadmark.Api.Laws.{start_permissions, first_check, answered, ledger_permissions}
use threadmark.Model.{StartTurn}
use threadmark.Error.{ApiResult, err, >>=-eq-ok, ok_or-eq-ok, ok_or, not_found, reject_if-ok, ok}
use threadmark.Api.Conversations.{is_preserve, agent_replay_handler}
use threadmark.Common.Text.{is_empty}
use threadmark.Auth.{
  is_delegated, AuthContext, discriminant, Permission, require_agent_replay_scope, agent_replay,
}
use threadmark.Api.{Reply}
use threadmark.Db.{Db}
use threadmark.Store.Start.{Fresh}
use threadmark.Common.{
  String, ◌≡◌, refl, ap, ◌≢◌, inl, inr, false, ◌||◌, not, some, arith, eqb, some_eq, is_some,
  Bool-cases, eq-of-some_eq, All,
}

pub not_replay : {p : Permission} → eqb (discriminant p) 8 ≡ false → p ≢ agent_replay
not_replay {p} other e = let d = ap discriminant e in ground arith

abbrev pub ForAgent : Request → Type 0
ForAgent request =
    (id : String) × (turn_id : String) × (body : String) × (request
      ≡ replays_for_agent id turn_id body)

not_start :
    (parsed : ApiResult StartTurn) → All (λ p. p ≡ agent_replay) (start_permissions parsed) → ⊥
unfolding start_permissions
not_start (err e) (h, _) = not_replay refl h
not_start (ok r) h = elim (Bool-cases (is_some r.conversation)) [
  | inl new ↦ not_replay refl (rw new at h).0
  | inr old ↦ not_replay refl (rw old at h).0
]

-- Of these routes, one needs no permission but the agent's.
pub replay_required :
    (services : Services) (request : Request)
    → All (λ p. p ≡ agent_replay) (ledger_permissions services request)
    → ForAgent request
unfolding ledger_permissions
replay_required services (creates_conversation r) (h, _) = absurd (not_replay refl h)
replay_required services (lists_conversations limit) (h, _) = absurd (not_replay refl h)
replay_required services (gets_conversation id) (h, _) = absurd (not_replay refl h)
replay_required services (updates_conversation id r) (h, _) = absurd (not_replay refl h)
replay_required services (deletes_conversation id) (h, _) = absurd (not_replay refl h)
replay_required services (lists_items id after_seq limit) (h, _) = absurd (not_replay refl h)
replay_required services (appends_items id r) (h, _) = absurd (not_replay refl h)
replay_required services (replays id r) h = elim (Bool-cases (is_preserve r.file_delivery)) [
  | inl plain ↦ absurd (not_replay refl (rw plain at h).0)
  | inr files ↦ absurd (not_replay refl (rw files at h).0)
]
replay_required services (replays_for_agent id turn_id body) h = (id, turn_id, body, refl)
replay_required services (truncates id item_id) (h, _) = absurd (not_replay refl h)
replay_required services (regenerates id) (h, _) = absurd (not_replay refl h)
replay_required services (starts_turn body) h =
    absurd (not_start (services.parse_start_turn body) h)
replay_required services (creates_turn id r) (h, _) = absurd (not_replay refl h)
replay_required services (lists_turns id) (h, _) = absurd (not_replay refl h)
replay_required services (gets_active_turn id) (h, _) = absurd (not_replay refl h)
replay_required services (gets_turn id) (h, _) = absurd (not_replay refl h)
replay_required services (updates_turn id r) (h, _) = absurd (not_replay refl h)
replay_required services (creates_continuation id r) (h, _) = absurd (not_replay refl h)
replay_required services (gets_continuation response_id agent_ref) (h, _) =
    absurd (not_replay refl h)

in_scope :
    (auth : AuthContext) (x y : String) {agent : String}
    → require_agent_replay_scope auth x y ≡ ok agent
    → (auth.conversation_id ≡ some x) × (auth.turn_id ≡ some y) × (auth.agent_ref ≡ some agent)
unfolding require_agent_replay_scope
in_scope auth x y h =
    let (good, rest) =
      reject_if-ok
        (not (is_delegated auth.token_kind)
          || not (some_eq auth.conversation_id x)
          || not (some_eq auth.turn_id y))
        (not_found "Agent replay not found.")
        (ok_or auth.agent_ref (not_found "Agent replay not found.")) h in
    (
      eq-of-some_eq auth.conversation_id x (ground arith),
      eq-of-some_eq auth.turn_id y (ground arith),
      ok_or-eq-ok auth.agent_ref _ rest,
    )

module _ (services : Services) (auth : AuthContext) (fresh : Fresh) (between : Db → Db) where
  pub replay_scope :
      (id turn_id body : String) (db : Db) {x : Reply × Db}
      → handle services auth fresh between (replays_for_agent id turn_id body) db ≡ ok x
      → (auth.conversation_id ≡ some id) × (auth.turn_id ≡ some turn_id) × (x.1 ≡ db)
  unfolding handle agent_replay_handler
  replay_scope id turn_id body db h =
      let (_, e, same) = answered _ db h in
      let (_, k₁) = first_check auth agent_replay _ e in
      let (_, k₂) = reject_if-ok (not (is_empty body)) _ _ k₁ in
      let (agent, scope, _) = >>=-eq-ok (require_agent_replay_scope auth id turn_id) _ k₂ in
      let (own, own_turn, _) = in_scope auth id turn_id scope in (own, own_turn, same)
