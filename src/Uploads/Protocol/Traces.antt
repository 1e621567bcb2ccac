-- ===== src/Uploads/Protocol/Traces.antt =====
-- What every sequence of transactions on the sessions keeps.
use threadmark.Uploads.Protocol.Laws.{
  perform-Pairwise, perform-Move, Pairwise-map, Pairwise-trans, Pairwise-refl, Writes,
}
use mathlib.Core.Path.{subst}
use threadmark.Uploads.Protocol.{
  is_abandoned, is_published, abandons, is_given_back, perform, is_leased, publishes, Pairwise,
  gives_back, stays, Move, claims, Unheld, Action, perform_all,
}
use threadmark.Db.{Db, Upload}
use threadmark.Uploads.Session.{holds_lease, is_free}
use threadmark.Common.{
  ℕ, ◌+◌, ◌<◌, String, ◌≡◌, refl, sym, ap, ◌∙◌, inl, inr, Bool, true, false, ◌||◌, Option, none,
  some, List, [], ◌∷◌, arith, ◌==◌, eq_iff, All,
}

abbrev pub is_final : Upload → Bool
is_final u = u.status == "completed" || u.status == "cleanup_pending"

-- What a session is about never changes, and a session that has ended never changes at all.
pub record Frozen (u v : Upload) : Type 0 where
  pub same_id : v.id ≡ u.id
  pub same_owner : (v.tenant_id ≡ u.tenant_id) × (v.owner_ref ≡ u.owner_ref)
  pub same_request : (v.idempotency_key ≡ u.idempotency_key) × (v.request_hash ≡ u.request_hash)
  pub same_file : (v.file_id ≡ u.file_id) × (v.expected_size ≡ u.expected_size)
  pub same_staging : v.staging_key ≡ u.staging_key
  pub same_deadline : v.expires_at ≡ u.expires_at
  pub ended : is_final u ≡ true → v ≡ u

Frozen-refl : (u : Upload) → Frozen u u
Frozen-refl u = record {
  same_id = refl;
  same_owner = (refl, refl);
  same_request = (refl, refl);
  same_file = (refl, refl);
  same_staging = refl;
  same_deadline = refl;
  ended = λ _. refl;
}

Frozen-trans : (u v w : Upload) → Frozen u v → Frozen v w → Frozen u w
Frozen-trans u v w f g = record {
  same_id = g.same_id ∙ f.same_id;
  same_owner = (g.same_owner.0 ∙ f.same_owner.0, g.same_owner.1 ∙ f.same_owner.1);
  same_request = (g.same_request.0 ∙ f.same_request.0, g.same_request.1 ∙ f.same_request.1);
  same_file = (g.same_file.0 ∙ f.same_file.0, g.same_file.1 ∙ f.same_file.1);
  same_staging = g.same_staging ∙ f.same_staging;
  same_deadline = g.same_deadline ∙ f.same_deadline;
  ended = λ final. let e = f.ended final in g.ended (ap is_final e ∙ final) ∙ e;
}

-- A row that is written as `v` and has not ended.
moved_on :
    (u : Upload) (status : String) (token : Option String) (until : Option ℕ)
    (candidate : Option String) (ended_at : Option ℕ)
    → is_final u ≡ false
    → Frozen u (record u {
      status = status;
      lease_token = token;
      lease_expires_at = until;
      candidate_key = candidate;
      completed_at = ended_at;
    })
moved_on u status token until candidate ended_at ongoing = record {
  same_id = refl;
  same_owner = (refl, refl);
  same_request = (refl, refl);
  same_file = (refl, refl);
  same_staging = refl;
  same_deadline = refl;
  ended = λ final. absurd (ground arith);
}

ongoing_of_Unheld : (now : ℕ) (u : Upload) → Unheld now u → is_final u ≡ false
ongoing_of_Unheld now u (inl pending) = rw pending refl
ongoing_of_Unheld now u (inr (e, _)) = rw e refl

ongoing_of_finalizing : (u : Upload) → u.status ≡ "finalizing" → is_final u ≡ false
ongoing_of_finalizing u e = rw e refl

Move-Frozen : (now : ℕ) (u v : Upload) → Move now u v → Frozen u v
Move-Frozen now u v (stays _) = Frozen-refl u
Move-Frozen now u v (is_leased _ token candidate _ free) =
    moved_on u "finalizing" (some token) (some (now + 120)) (some candidate) u.completed_at
      (ongoing_of_Unheld now u free)
Move-Frozen now u v (is_given_back _ e) =
    moved_on u "pending" none none u.candidate_key u.completed_at (ongoing_of_finalizing u e)
Move-Frozen now u v (is_published _ e _ _ _ _) =
    moved_on u "completed" none none u.candidate_key (some now) (ongoing_of_finalizing u e)
Move-Frozen now u v (is_abandoned _ _ free) =
    moved_on u "cleanup_pending" none none u.candidate_key u.completed_at
      (ongoing_of_Unheld now u free)

-- Whatever transactions run, in whatever order and at whatever times, every session keeps its owner, its
-- request, its file, its size, its staging key and its deadline; and a session that is completed or
-- abandoned is never changed again.
pub perform_all-Frozen :
    (steps : List (Action × ℕ)) (db : Db)
    → Pairwise Frozen db.file_uploads (perform_all steps db).file_uploads
unfolding perform_all
perform_all-Frozen [] db = Pairwise-refl Frozen Frozen-refl db.file_uploads
perform_all-Frozen ((a, now) ∷ rest) db =
    let db' = perform a now db in
    Pairwise-trans Frozen Frozen-trans db.file_uploads db'.file_uploads
      (perform_all rest db').file_uploads
      (Pairwise-map (Move now) Frozen (Move-Frozen now) db.file_uploads db'.file_uploads
        (perform-Move a now db))
      (perform_all-Frozen rest db')

-- The token that an action shows.
abbrev pub shows : Action → String → Bool
shows (claims id token candidate ulid) t = false
shows (gives_back id token) t = token == t
shows (publishes u id token candidate ulid) t = token == t
shows (abandons ulid) t = false

-- A lease of `token` that ends at `until`.
pub record Leased (token : String) (until : ℕ) (u : Upload) : Type 0 where
  pub finalizing : u.status ≡ "finalizing"
  pub holder : u.lease_token ≡ some token
  pub end : u.lease_expires_at ≡ some until

-- A session that is leased stays as it is.
abbrev pub Respects : String → ℕ → Upload → Upload → Type 0
Respects token until u v = Leased token until u → v ≡ u

not_free :
    (token : String) (until now : ℕ) (u : Upload)
    → Leased token until u
    → now < until
    → is_free now u ≡ false
not_free token until now u l early = rw (l.finalizing, l.end) (ground arith)

not_holder :
    (token other id : String) (until : ℕ) (u : Upload)
    → Leased token until u
    → (other == token) ≡ false
    → holds_lease id other u ≡ false
not_holder token other id until u l apart =
    rw (l.finalizing, l.holder) (ground (arith, eq_iff token other, eq_iff other token))

module _ (token : String) (until : ℕ) where
  perform-Respects :
      (a : Action) (now : ℕ) (db : Db)
      → now < until
      → shows a token ≡ false
      → Pairwise (Respects token until) db.file_uploads (perform a now db).file_uploads
  unfolding Writes
  perform-Respects (claims id t candidate ulid) now db early other =
      perform-Pairwise (Respects token until) now (λ u l. refl) (claims id t candidate ulid) db
        (λ u h l. absurd (let f = not_free token until now u l early in ground arith))
  perform-Respects (gives_back id t) now db early other =
      perform-Pairwise (Respects token until) now (λ u l. refl) (gives_back id t) db
        (λ u h l. absurd (let f = not_holder token t id until u l other in ground arith))
  perform-Respects (publishes f id t candidate ulid) now db early other =
      perform-Pairwise (Respects token until) now (λ u l. refl) (publishes f id t candidate ulid) db
        (λ u h l. absurd (let f = not_holder token t id until u l other in ground arith))
  perform-Respects (abandons ulid) now db early other =
      perform-Pairwise (Respects token until) now (λ u l. refl) (abandons ulid) db
        (λ u h l. absurd (let f = not_free token until now u l early in ground arith))

  -- Until a lease ends, no transactions change the leased session but those that show its token: it is
  -- neither claimed, nor given back, nor completed, nor abandoned by others.
  pub perform_all-Leased :
      (steps : List (Action × ℕ)) (db : Db)
      → All (λ (a, now). (now < until) × (shows a token ≡ false)) steps
      → Pairwise (Respects token until) db.file_uploads (perform_all steps db).file_uploads
  unfolding perform_all
  perform_all-Leased [] db h = Pairwise-refl (Respects token until) (λ u l. refl) db.file_uploads
  perform_all-Leased ((a, now) ∷ rest) db ((early, other), h) =
      let db' = perform a now db in
      Pairwise-trans (Respects token until)
        (λ u v w first second l.
          let e = first l in second (subst (Leased token until) (sym e) l) ∙ e)
        db.file_uploads db'.file_uploads (perform_all rest db').file_uploads
        (perform-Respects a now db early other) (perform_all-Leased rest db' h)
