-- ===== src/Uploads/Protocol/Laws.antt =====
-- Every transaction of src/uploads.rs is a step of the machine.
use mathlib.Core.Path.{subst}
use threadmark.Uploads.Session.{
  lapsed, runs_on, is_free, candidate_of, abandoned, is_expired, released, completed, holds_lease,
  expire_sessions, is_completable, leased, restore_pending, claim_completion, is_claimable,
  enqueue_keys, publish,
}
use threadmark.Uploads.Protocol.{
  Unheld, is_abandoned, abandons, is_published, publishes, is_given_back, gives_back, is_leased,
  stays, tables_of, Move, claims, perform, Action, Pairwise,
}
use threadmark.Uploads.Outbox.{
  enqueue_all_versions_after, enqueue_some, enqueue_all_versions, enqueue_at,
}
use threadmark.Db.{Db, insert_file, Upload}
use threadmark.Common.{
  ℕ, ◌+◌, ◌≤◌, ◌<◌, String, ◌≡◌, refl, sym, ◌∙◌, ◌⊎◌, inl, inr, Bool, true, Option, none, some,
  List, [], ◌∷◌, arith, ◌==◌, eq_iff, ltb→lt, leb→le, Bool-cases, filter, find, any, update,
}

pub Pairwise-refl :
    {A : Type 0} (R : A → A → Type 0) → ((x : A) → R x x) → (xs : List A) → Pairwise R xs xs
unfolding Pairwise
Pairwise-refl R r [] = tt
Pairwise-refl R r (x ∷ xs) = (r x, Pairwise-refl R r xs)

pub Pairwise-trans :
    {A : Type 0} (R : A → A → Type 0)
    → ((x y z : A) → R x y → R y z → R x z)
    → (xs ys zs : List A) → Pairwise R xs ys
    → Pairwise R ys zs
    → Pairwise R xs zs
unfolding Pairwise
Pairwise-trans R t [] [] [] h k = tt
Pairwise-trans R t [] [] (z ∷ zs) h k = k
Pairwise-trans R t [] (y ∷ ys) zs h k = absurd h
Pairwise-trans R t (x ∷ xs) [] zs h k = absurd h
Pairwise-trans R t (x ∷ xs) (y ∷ ys) [] h k = absurd k
Pairwise-trans R t (x ∷ xs) (y ∷ ys) (z ∷ zs) (a, h) (b, k) =
    (t x y z a b, Pairwise-trans R t xs ys zs h k)

pub Pairwise-map :
    {A : Type 0} (R Q : A → A → Type 0)
    → ((x y : A) → R x y → Q x y)
    → (xs ys : List A) → Pairwise R xs ys
    → Pairwise Q xs ys
unfolding Pairwise
Pairwise-map R Q f [] [] h = tt
Pairwise-map R Q f [] (y ∷ ys) h = h
Pairwise-map R Q f (x ∷ xs) [] h = h
Pairwise-map R Q f (x ∷ xs) (y ∷ ys) (a, h) = (f x y a, Pairwise-map R Q f xs ys h)

Pairwise-update :
    {A : Type 0} (R : A → A → Type 0) (p : A → Bool) (f : A → A)
    → ((x : A) → p x ≡ true → R x (f x))
    → ((x : A) → R x x)
    → (xs : List A) → Pairwise R xs (update p f xs)
unfolding Pairwise update
Pairwise-update R p f hit miss [] = tt
Pairwise-update R p f hit miss (x ∷ xs) = elim (Bool-cases (p x)) [
  | inl h ↦ rw h (hit x h, Pairwise-update R p f hit miss xs)
  | inr h ↦ rw h (miss x, Pairwise-update R p f hit miss xs)
]

-- A deletion that is enqueued leaves the sessions.
pub uploads-enqueue_at :
    (ulid key : String) (at : ℕ) (db : Db)
    → (enqueue_at ulid key at db).file_uploads ≡ db.file_uploads
unfolding enqueue_at
uploads-enqueue_at ulid key at db = ground arith

pub uploads-enqueue_some :
    (ulid : String) (key : Option String) (now : ℕ) (db : Db)
    → (enqueue_some ulid key now db).file_uploads ≡ db.file_uploads
unfolding enqueue_all_versions
uploads-enqueue_some ulid none now db = refl
uploads-enqueue_some ulid (some key) now db = uploads-enqueue_at ulid key now db

pub uploads-enqueue_keys :
    (ulid : ℕ → String) (k : ℕ) (us : List Upload) (now : ℕ) (db : Db)
    → (enqueue_keys ulid k us now db).file_uploads ≡ db.file_uploads
unfolding enqueue_keys enqueue_all_versions
uploads-enqueue_keys ulid k [] now db = refl
uploads-enqueue_keys ulid k (u ∷ us) now db =
    let db₁ = enqueue_all_versions (ulid k) u.staging_key now db in
    uploads-enqueue_keys ulid (k + 2) us now (enqueue_some (ulid (k + 1)) u.candidate_key now db₁)
    ∙ uploads-enqueue_some (ulid (k + 1)) u.candidate_key now db₁
    ∙ uploads-enqueue_at (ulid k) u.staging_key now db

uploads-claim_completion :
    (id token candidate ulid : String) (now : ℕ) (db : Db)
    → ((claim_completion id token candidate ulid now db).1.file_uploads ≡ db.file_uploads)
      ⊎ ((claim_completion id token candidate ulid now db).1.file_uploads
          ≡ update (is_claimable id now) (leased token candidate now) db.file_uploads)
unfolding claim_completion
uploads-claim_completion id token candidate ulid now db =
    let previous = candidate_of (find (λ u. u.id == id) db.file_uploads) in
    elim (Bool-cases (any (is_claimable id now) db.file_uploads)) [
      | inl free ↦ inr (rw free (uploads-enqueue_some ulid previous now _))
      | inr taken ↦ inl (rw taken refl)
    ]

-- The sessions after a file is published, or after the attempt to.
uploads-publish :
    (u : Upload) (id token candidate ulid : String) (now : ℕ) (db : Db)
    → ((tables_of (publish u id token candidate ulid now db) db).file_uploads ≡ db.file_uploads)
      ⊎ ((tables_of (publish u id token candidate ulid now db) db).file_uploads
          ≡ update (is_completable id token now) (completed now) db.file_uploads)
unfolding publish insert_file enqueue_all_versions_after
uploads-publish u id token candidate ulid now db =
    elim (Bool-cases (any (λ g. g.id == u.file_id) db.files)) [
      | inl taken ↦ inl (rw taken refl)
      | inr fresh ↦ elim (Bool-cases (any (λ g. g.storage_key == candidate) db.files)) [
        | inl taken ↦ inl (rw (fresh, taken) refl)
        | inr new ↦ elim (Bool-cases (any (is_completable id token now) db.file_uploads)) [
          | inr lost ↦ inl (rw (fresh, new, lost) refl)
          | inl held ↦
              inr (rw (fresh, new, held) (uploads-enqueue_at ulid u.staging_key (now + 305) _))
        ]
      ]
    ]

-- Whatever relation the rows that a transaction writes satisfy, and a row that stays, all rows satisfy.
module _ (R : Upload → Upload → Type 0) (now : ℕ) (same : (u : Upload) → R u u) where
  -- What the rows that an action writes have to satisfy.
  unfoldable pub Writes : Action → Type 0
  Writes (claims id token candidate ulid) =
      (u : Upload) → is_claimable id now u ≡ true → R u (leased token candidate now u)
  Writes (gives_back id token) = (u : Upload) → holds_lease id token u ≡ true → R u (released u)
  Writes (publishes f id token candidate ulid) =
      (u : Upload) → is_completable id token now u ≡ true → R u (completed now u)
  Writes (abandons ulid) = (u : Upload) → is_expired now u ≡ true → R u (abandoned u)

  pub perform-Pairwise :
      (a : Action) (db : Db) → Writes a → Pairwise R db.file_uploads (perform a now db).file_uploads
  unfolding perform claim_completion restore_pending expire_sessions Writes
  perform-Pairwise (claims id token candidate ulid) db w =
      elim (uploads-claim_completion id token candidate ulid now db) [
        | inl stay ↦
            subst (Pairwise R db.file_uploads) (sym stay) (Pairwise-refl R same db.file_uploads)
        | inr moved ↦ subst (Pairwise R db.file_uploads) (sym moved) (
            Pairwise-update R (is_claimable id now) (leased token candidate now) w same
              db.file_uploads)
      ]
  perform-Pairwise (gives_back id token) db w =
      Pairwise-update R (holds_lease id token) released w same db.file_uploads
  perform-Pairwise (publishes f id token candidate ulid) db w =
      elim (uploads-publish f id token candidate ulid now db) [
        | inl stay ↦
            subst (Pairwise R db.file_uploads) (sym stay) (Pairwise-refl R same db.file_uploads)
        | inr moved ↦
            subst (Pairwise R db.file_uploads) (sym moved) (
              Pairwise-update R (is_completable id token now) (completed now) w same
                db.file_uploads)
      ]
  perform-Pairwise (abandons ulid) db w =
      subst (Pairwise R db.file_uploads)
        (sym (uploads-enqueue_keys ulid 0 (filter (is_expired now) db.file_uploads) now _))
        (Pairwise-update R (is_expired now) abandoned w same db.file_uploads)

lease_over : (o : Option ℕ) (now : ℕ) → lapsed o now ≡ true → (t : ℕ) × (o ≡ some t) × (t ≤ now)
lease_over none now h = absurd (ground arith)
lease_over (some t) now h = (t, refl, leb→le t now h)

lease_on : (o : Option ℕ) (now : ℕ) → runs_on o now ≡ true → (t : ℕ) × (o ≡ some t) × (now < t)
lease_on none now h = absurd (ground arith)
lease_on (some t) now h = (t, refl, ltb→lt now t h)

unheld : (now : ℕ) (u : Upload) → is_free now u ≡ true → Unheld now u
unheld now u free = elim (Bool-cases (u.status == "pending")) [
  | inl pending ↦ inl ((eq_iff u.status "pending").0 pending)
  | inr other ↦ inr (
    (eq_iff u.status "finalizing").0 (ground arith),
    lease_over u.lease_expires_at now (ground arith),
  )
]

-- Every transaction that updates sessions (a claim, a return, a completion, an expiry) moves every session
-- along the machine of `Move`, or leaves it, whichever sessions there are.
pub perform-Move :
    (a : Action) (now : ℕ) (db : Db)
    → Pairwise (Move now) db.file_uploads (perform a now db).file_uploads
unfolding Writes
perform-Move (claims id token candidate ulid) now db =
    perform-Pairwise (Move now) now stays (claims id token candidate ulid) db
      (λ u h. is_leased u token candidate (ground arith) (unheld now u (ground arith)))
perform-Move (gives_back id token) now db =
    perform-Pairwise (Move now) now stays (gives_back id token) db
      (λ u h. is_given_back u ((eq_iff u.status "finalizing").0 (ground arith)))
perform-Move (publishes f id token candidate ulid) now db =
    perform-Pairwise (Move now) now stays (publishes f id token candidate ulid) db (λ u h.
      let (until, ends, early) = lease_on u.lease_expires_at now (ground arith) in
      is_published u ((eq_iff u.status "finalizing").0 (ground arith)) (ground arith) until ends
        early)
perform-Move (abandons ulid) now db =
    perform-Pairwise (Move now) now stays (abandons ulid) db
      (λ u h. is_abandoned u (leb→le u.expires_at now (ground arith)) (unheld now u (ground arith)))
