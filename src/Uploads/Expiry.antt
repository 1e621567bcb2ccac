-- ===== src/Uploads/Expiry.antt =====
-- src/uploads.rs: what the first transaction of `cleanup_expired` leaves to be deleted.
mod Tests
use threadmark.Uploads.Protocol.Laws.{uploads-enqueue_keys}
use threadmark.Uploads.Session.{abandoned, is_expired, enqueue_keys, expire_sessions}
use threadmark.Uploads.Outbox.{enqueue_some, enqueue_all_versions, enqueue_at}
use threadmark.Db.{Db, Upload}
use threadmark.Ids.{new_id}
use threadmark.Common.{
  ℕ, zero, suc, ◌+◌, ◌-◌, ◌*◌, ◌/◌, ◌%◌, ◌^◌, ◌≤◌, ◌<◌, min, String, ◌≡◌, refl, sym, ap, ◌∙◌, ◌≢◌,
  ◌↔◌, ◌⊎◌, inl, inr, Bool, true, false, ◌&&◌, ◌||◌, not, Option, none, some, List, [], ◌∷◌, ◌++◌,
  map, append-nil, append_assoc, arith, ◌==◌, eq_iff, eq_refl, ltb, leb, eqb, if◌then◌else◌,
  some_eq, is_some, unwrap_or, ltb→lt, leb→le, leb-false, Bool-cases, Option-cases, eq-of-some_eq,
  length, length-append, take, length-take_le, All, All-append, All-append_left, All-of_forall,
  All-map, filter, find, any, all, remove, update, or_else, filter-append, find-append, any-append,
  filter_none, filter-All, All-not_of_any, any-of_All, find_sound, any-of_find, find-none, All-find,
  All-filter, All-remove, All-passed, any-update, find-update_ne, find-update, All-update, any_mono,
  filter-remove_spared, filter-remove, remove_congr, remove_none, All-removed, All-both,
  some-eq-some, filter_none_under, find-filter, length-remove_le, length-remove_lt,
}

-- All versions of the object are to be deleted.
abbrev pub is_queued : String → Db → Bool
is_queued key db = any (λ d. d.all_versions && d.storage_key == key) db.object_deletion_outbox

abbrev pub is_used : String → Db → Bool
is_used ulid db = any (λ d. d.id == new_id "object_delete" ulid) db.object_deletion_outbox

enqueue_at-queued :
    (ulid key : String) (at : ℕ) (db : Db)
    → is_used ulid db ≡ false
    → is_queued key (enqueue_at ulid key at db) ≡ true
unfolding enqueue_at any
enqueue_at-queued ulid key at db fresh = elim (Bool-cases (is_queued key db)) [
  | inl known ↦ rw (fresh, known) known
  | inr new ↦
      rw (fresh, new)
        (any-append (λ d. d.all_versions && d.storage_key == key) db.object_deletion_outbox _
          ∙ rw (new, eq_refl key) refl)
]

enqueue_at-keeps :
    (other ulid key : String) (at : ℕ) (db : Db)
    → is_queued other db ≡ true
    → is_queued other (enqueue_at ulid key at db) ≡ true
unfolding enqueue_at any
enqueue_at-keeps other ulid key at db there =
    elim (Bool-cases (is_used ulid db || is_queued key db)) [
      | inl known ↦ rw known there
      | inr new ↦ rw new (
          any-append (λ d. d.all_versions && d.storage_key == other) db.object_deletion_outbox _
          ∙ rw there refl)
    ]

enqueue_at-unused :
    (other ulid key : String) (at : ℕ) (db : Db)
    → (new_id "object_delete" ulid == new_id "object_delete" other) ≡ false
    → is_used other db ≡ false
    → is_used other (enqueue_at ulid key at db) ≡ false
unfolding enqueue_at any
enqueue_at-unused other ulid key at db apart there =
    elim (Bool-cases (is_used ulid db || is_queued key db)) [
      | inl known ↦ rw known there
      | inr new ↦ rw new (
          any-append (λ d. d.id == new_id "object_delete" other) db.object_deletion_outbox _
          ∙ rw (there, apart) refl)
    ]

-- The identifiers that are drawn are different.
abbrev pub AreDistinct : (ℕ → String) → Type 0
AreDistinct ulid =
    (i j : ℕ) → i < j → (new_id "object_delete" (ulid i) == new_id "object_delete" (ulid j)) ≡ false

module _ (ulid : ℕ → String) (apart : AreDistinct ulid) (now : ℕ) where
  abbrev FreshFrom : ℕ → Db → Type 0
  FreshFrom k db = (j : ℕ) → k ≤ j → is_used (ulid j) db ≡ false

  FreshFrom-enqueue :
      (k : ℕ) (key : String) (db : Db)
      → FreshFrom k db
      → FreshFrom (k + 1) (enqueue_all_versions (ulid k) key now db)
  unfolding enqueue_all_versions
  FreshFrom-enqueue k key db fresh j below =
      enqueue_at-unused (ulid j) (ulid k) key now db (apart k j (omega arith))
        (fresh j (omega arith))

  FreshFrom-some :
      (k : ℕ) (key : Option String) (db : Db)
      → FreshFrom k db
      → FreshFrom (k + 1) (enqueue_some (ulid k) key now db)
  FreshFrom-some k none db fresh j below = fresh j (omega arith)
  FreshFrom-some k (some key) db fresh j below = FreshFrom-enqueue k key db fresh j below

  some-keeps :
      (other : String) (k : ℕ) (key : Option String) (db : Db)
      → is_queued other db ≡ true
      → is_queued other (enqueue_some (ulid k) key now db) ≡ true
  unfolding enqueue_all_versions
  some-keeps other k none db there = there
  some-keeps other k (some key) db there = enqueue_at-keeps other (ulid k) key now db there

  keys-keep :
      (other : String) (k : ℕ) (us : List Upload) (db : Db)
      → is_queued other db ≡ true
      → is_queued other (enqueue_keys ulid k us now db) ≡ true
  unfolding enqueue_keys enqueue_all_versions
  keys-keep other k [] db there = there
  keys-keep other k (u ∷ us) db there = keys-keep other (k + 2) us _ (
      some-keeps other (k + 1) u.candidate_key _
        (enqueue_at-keeps other (ulid k) u.staging_key now db there))

  some-queued :
      (k : ℕ) (key : String) (o : Option String) (db : Db)
      → FreshFrom k db
      → o ≡ some key
      → is_queued key (enqueue_some (ulid k) o now db) ≡ true
  unfolding enqueue_all_versions
  some-queued k key none db fresh e = absurd (ground arith)
  some-queued k key (some other) db fresh e =
      let same : other ≡ key = ground arith in
      rw same (enqueue_at-queued (ulid k) key now db (fresh k (omega arith)))

  -- The objects of the sessions are queued.
  abbrev pub IsQueued : Db → Upload → Type 0
  IsQueued db u =
      (is_queued u.staging_key db ≡ true)
      × ((key : String) → u.candidate_key ≡ some key → is_queued key db ≡ true)

  keys-IsQueued :
      (k : ℕ) (us : List Upload) (db : Db)
      → FreshFrom k db
      → All (IsQueued (enqueue_keys ulid k us now db)) us
  unfolding enqueue_keys enqueue_all_versions enqueue_at
  keys-IsQueued k [] db fresh = tt
  keys-IsQueued k (u ∷ us) db fresh =
      let db₁ = enqueue_all_versions (ulid k) u.staging_key now db in
      let db₂ = enqueue_some (ulid (k + 1)) u.candidate_key now db₁ in
      let fresh₁ = FreshFrom-enqueue k u.staging_key db fresh in
      (
        (
          keys-keep u.staging_key (k + 2) us db₂ (
              some-keeps u.staging_key (k + 1) u.candidate_key db₁
                (staging_queued k u.staging_key db fresh)),
          λ key e.
              keys-keep key (k + 2) us db₂ (some-queued (k + 1) key u.candidate_key db₁ fresh₁ e),
        ),
        keys-IsQueued (k + 2) us db₂
            (λ j below. FreshFrom-some (k + 1) u.candidate_key db₁ fresh₁ j (omega arith)),
      )
    where
      staging_queued :
          (k : ℕ) (key : String) (db : Db)
          → FreshFrom k db
          → is_queued key (enqueue_all_versions (ulid k) key now db) ≡ true
      staging_queued k key db fresh = enqueue_at-queued (ulid k) key now db (fresh k (omega arith))

none_expired :
    (now : ℕ) (us : List Upload)
    → any (is_expired now) (update (is_expired now) abandoned us) ≡ false
unfolding any update
none_expired now [] = refl
none_expired now (u ∷ us) = elim (Bool-cases (is_expired now u)) [
  | inl hit ↦ rw hit (ground (arith, none_expired now us))
  | inr miss ↦ rw miss (ground (arith, none_expired now us))
]

-- With identifiers that are new and different, the first transaction of a cleanup leaves no session that is
-- past its deadline and that nobody is finalizing; and of each that there was, the staged object and the
-- last copy are queued for deletion.
pub expire_sessions-queued :
    (ulid : ℕ → String) (now : ℕ) (db : Db)
    → AreDistinct ulid
    → ((j : ℕ) → is_used (ulid j) db ≡ false)
    → (any (is_expired now) (expire_sessions ulid now db).file_uploads ≡ false)
      × All
          (λ u.
            (is_queued u.staging_key (expire_sessions ulid now db) ≡ true)
            × ((key : String)
                → u.candidate_key ≡ some key
                → is_queued key (expire_sessions ulid now db) ≡ true))
          (filter (is_expired now) db.file_uploads)
unfolding expire_sessions
expire_sessions-queued ulid now db apart fresh =
    let moved : Db = record db {
      file_uploads = update (is_expired now) abandoned db.file_uploads;
    } in
    let due = filter (is_expired now) db.file_uploads in
    (
      ap (any (is_expired now)) (uploads-enqueue_keys ulid 0 due now moved)
          ∙ none_expired now db.file_uploads,
      keys-IsQueued ulid apart now 0 due moved (λ j _. fresh j),
    )
