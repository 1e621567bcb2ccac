-- ===== src/Api/Routes/Delegated.antt =====
-- What the token of an agent can have answered by the router of src/api.rs.
use threadmark.Api.Delegated.{replay_scope, not_replay, replay_required}
use threadmark.Api.Routes.{
  asks_health, AnyRequest, creates_download, deletes_file, downloads_file, gets_content, ok,
  Answered, gets_file, Db, completes_upload, route_public, Draws, initiates_upload, AuthContext,
  Signing, uploads_file, Web, of_files, ObjectStore, Config, of_ledger, Outside, of_public,
  PublicRequest, Services, route,
}
use threadmark.Api.Routes.Laws.{read-answered, tables-answered, route-requires, route_permissions}
use mathlib.Core.Path.{subst}
use threadmark.Api.Laws.{Allows}
use threadmark.Auth.Laws.{context-delegated}
use threadmark.Auth.{delegated_agent, AuthContext, agent_replay}
use threadmark.Auth.Claims.{context, Claims, Settings}
use threadmark.Error.{ok}
use threadmark.Db.{Db}
use threadmark.Capability.{Signing}
use threadmark.Api.Headers.{Web}
use threadmark.Api.Router.{replays_for_agent, Services}
use threadmark.Objects.{ObjectStore}
use threadmark.Config.{Config}
use threadmark.Uploads.Initiate.{Outside}
use threadmark.Common.{
  ℕ, String, ◌≡◌, refl, sym, ap, ◌∙◌, ◌⊎◌, inl, inr, some, All, All-map, some-eq-some,
}

-- The routes that need no permission but the agent's: its replay, and those that take no token.
abbrev pub ReplayAtMost : AnyRequest → Type 0
ReplayAtMost request =
    ((r : PublicRequest) × (request ≡ of_public r))
    ⊎ ((id : String) × (turn_id : String) × (body : String) × (request
          ≡ of_ledger (replays_for_agent id turn_id body)))

request_cases :
    (services : Services) (request : AnyRequest)
    → All (λ p. p ≡ agent_replay) (route_permissions services request)
    → ReplayAtMost request
unfolding route_permissions
request_cases services (of_ledger r) h =
    let (id, turn_id, body, e) = replay_required services r h in
    inr (id, turn_id, body, ap of_ledger e)
request_cases services (of_files (uploads_file fields)) (h, _) = absurd (not_replay refl h)
request_cases services (of_files (initiates_upload r)) (h, _) = absurd (not_replay refl h)
request_cases services (of_files (completes_upload id)) (h, _) = absurd (not_replay refl h)
request_cases services (of_files (gets_file id)) (h, _) = absurd (not_replay refl h)
request_cases services (of_files (gets_content id)) (h, _) = absurd (not_replay refl h)
request_cases services (of_files (deletes_file id)) (h, _) = absurd (not_replay refl h)
request_cases services (of_files (creates_download id delivery)) (h, _) = absurd (not_replay refl h)
request_cases services (of_public r) h = inl (r, refl)

module _ {Form S : Type 0} (services : Services) (out : Outside Form) (config : Config)
    (objects : ObjectStore S) (web : Web) (signing : Signing) (auth : AuthContext)
    (d : Draws S) where
  public-unchanged :
      (r : PublicRequest) (db : Db) (s : S) {a : Answered Form} {db' : Db} {s' : S}
      → route services out config objects web signing auth d (of_public r) db s
        ≡ some ((ok a, db'), s')
      → (db' ≡ db) × (s' ≡ s)
  unfolding route route_public
  public-unchanged (downloads_file id query) db s h =
      let (_, _, e, k) = read-answered _ _ db s (some-eq-some h) in (sym e, sym k)
  public-unchanged asks_health db s h =
      let (_, _, e, k) = read-answered _ _ db s (some-eq-some h) in (sym e, sym k)

  replay-unchanged :
      (id turn_id body : String) (db : Db) (s : S) {a : Answered Form} {db' : Db} {s' : S}
      → route services out config objects web signing auth d
          (of_ledger (replays_for_agent id turn_id body))
          db
          s
        ≡ some ((ok a, db'), s')
      → (auth.conversation_id ≡ some id) × (auth.turn_id ≡ some turn_id) × (db' ≡ db) × (s' ≡ s)
  unfolding route
  replay-unchanged id turn_id body db s h =
      let (_, e, e₁, k) = tables-answered {Form = Form} _ db s (some-eq-some h) in
      let (own, own_turn, kept) =
        replay_scope services auth d.fresh (d.between 0) id turn_id body db e in
      (own, own_turn, sym e₁ ∙ kept, sym k)

  -- Of all routes of the router, an agent whose delegated token is accepted is answered, besides the two that
  -- take no token (a signed download and the health of the server), only by the replay of the conversation
  -- and the turn that its context names; and its answered requests change neither tables nor objects.
  pub route-delegated :
      (v : Settings) (now : ℕ) (c : Claims) (request : AnyRequest) (db : Db) (s : S)
      {a : Answered Form} {db' : Db} {s' : S}
      → context v now c ≡ some auth
      → auth.token_kind ≡ delegated_agent
      → route services out config objects web signing auth d request db s ≡ some ((ok a, db'), s')
      → (((r : PublicRequest) × (request ≡ of_public r))
          ⊎ ((id : String) × (turn_id : String) × (body : String) × (request
                ≡ of_ledger (replays_for_agent id turn_id body))
              × (auth.conversation_id ≡ some id)
              × (auth.turn_id ≡ some turn_id)))
        × (db' ≡ db)
        × (s' ≡ s)
  route-delegated v now c request db s {a} {db'} {s'} accepted kind h =
      let (_, _, _, _, _, _, only, _) = context-delegated v now c accepted kind in
      let (allowed, _) =
        route-requires services out config objects web signing auth d request db s h in
      let answers = λ (q : AnyRequest).
        route services out config objects web signing auth d q db s ≡ some ((ok a, db'), s') in
      elim (request_cases services request (
        All-map (Allows auth) (λ p. p ≡ agent_replay) only (route_permissions services request)
          allowed)) [
            | inl (r, same) ↦
                let (kept, still) = public-unchanged r db s (subst answers same h) in
                (inl (r, same), kept, still)
            | inr (id, turn_id, body, same) ↦
                let (own, own_turn, kept, still) =
                  replay-unchanged id turn_id body db s (subst answers same h) in
                (inr (id, turn_id, body, same, own, own_turn), kept, still)
          ]
