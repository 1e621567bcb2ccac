-- ===== src/Files/Laws.antt =====
-- What src/files.rs deletes, and its URIs.
mod Tests
use Prim.Native.Char.{code, Char}
use threadmark.Files.Uri.{is_id_char, parse_uri}
use threadmark.Common.Text.{all_chars, is_empty, strip_prefix}
use threadmark.Error.{
  err, ApiError, ApiResult, object_store, ok_or-eq-ok, ok-injective, reject_if-ok, >>=-eq-ok, ok,
}
use threadmark.Files.Records.{
  after_row, drop_deletion, delete_pending, remove_file, is_referenced, get_owned, insert_deletion,
  remove_row,
}
use threadmark.Api.{uri}
use threadmark.Uploads.Cleanup.{delete_all_versions}
use threadmark.Objects.{ObjectStore}
use mathlib.Core.Path.{subst}
use threadmark.Db.{FileDeletion, Db}
use threadmark.Model.{FileRecord, Actor}
use Prim.Native.String
use text.Mathlib.TextEquality.{Char-path}
use text.Mathlib.TextLemmas.{nil-append, cons-append}
use threadmark.Common.{
  ℕ, zero, suc, ◌+◌, ◌-◌, ◌*◌, ◌/◌, ◌%◌, ◌^◌, ◌≤◌, ◌<◌, min, String, ◌≡◌, refl, sym, ap, ◌∙◌, ◌≢◌,
  ◌↔◌, ◌⊎◌, inl, inr, Bool, true, false, ◌&&◌, ◌||◌, not, Option, none, some, List, [], ◌∷◌, ◌++◌,
  map, append-nil, append_assoc, arith, ◌==◌, eq_iff, eq_refl, ltb, leb, eqb, if◌then◌else◌,
  some_eq, is_some, unwrap_or, ltb→lt, leb→le, leb-false, Bool-cases, Option-cases, eq-of-some_eq,
  length, length-append, take, length-take_le, All, All-append, All-append_left, All-of_forall,
  All-map, filter, find, any, all, remove, update, or_else, filter-append, find-append, any-append,
  filter_none, filter-All, All-not_of_any, any-of_All, find_sound, any-of_find, find-none, All-find,
  All-filter, All-remove, All-passed, any-update, find-update_ne, find-update, All-update, any_mono,
  filter-remove_spared, filter-remove, remove_congr, remove_none, All-removed, All-both,
  some-eq-some, filter_none_under, find-filter, length-remove_le, length-remove_lt,
}

-- The deletion of a file's object is on record.
abbrev pub is_pending : (file_id storage_key : String) → Db → Bool
is_pending file_id storage_key db =
    any (λ d. d.file_id == file_id && d.storage_key == storage_key) db.file_deletion_outbox

module _ (actor : Actor) (id : String) (now : ℕ) (db : Db) where
  record RowRemoved (file : FileRecord) (db' : Db) : Type 0 where
    owned : get_owned actor id db ≡ ok file
    unreferenced : is_referenced id db ≡ false
    gone : any (λ f. f.id == id) db'.files ≡ false
    recorded : is_pending id file.storage_key db' ≡ true
    same_id : file.id ≡ id

  remove_row-ok :
      {file : FileRecord} {db' : Db}
      → remove_row actor id now db ≡ ok (file, db')
      → RowRemoved file db'
  unfolding remove_row insert_deletion any get_owned
  remove_row-ok {file} {db'} h =
      let (f, owned, k₀) = >>=-eq-ok (get_owned actor id db) _ h in
      let (free, k₁) = reject_if-ok (is_referenced id db) _ _ k₀ in
      let entry : FileDeletion = record {
        file_id = id;
        storage_key = f.storage_key;
        created_at = now;
      } in
      let db₁ : Db = record db { files = remove (λ g. g.id == id) db.files } in
      let (db₂, inserted, k₂) = >>=-eq-ok (insert_deletion entry db₁) _ k₁ in
      let (_, written) =
        reject_if-ok (any (λ e. e.file_id == id) db.file_deletion_outbox) _ _ inserted in
      let same_file = ap (λ q. q.0) (ok-injective k₂) in
      let same_db = ok-injective written ∙ ap (λ q. q.1) (ok-injective k₂) in
      let hit = λ (g : FileRecord).
        g.id == id && g.tenant_id == actor.tenant_id && g.owner_ref == actor.principal_id in
      let found = find_sound hit db.files (ok_or-eq-ok (find hit db.files) _ owned) in
      record {
        owned = owned ∙ ap ok same_file;
        unreferenced = free;
        gone =
            subst (λ d. any (λ g. g.id == id) d.files ≡ false) same_db
              (any-of_All (λ g. g.id == id) (remove (λ g. g.id == id) db.files)
                (All-removed (λ g. g.id == id) db.files));
        recorded =
            subst (λ d. is_pending id file.storage_key d ≡ true) same_db
              (any-append (λ d. d.file_id == id && d.storage_key == file.storage_key)
                  db.file_deletion_outbox (entry ∷ [])
                ∙ rw same_file (ground (arith, eq_refl id, eq_refl file.storage_key)));
        same_id = sym (ap (λ g. g.id) same_file) ∙ (eq_iff f.id id).0 (ground arith);
      }

module _ {S : Type 0} (objects : ObjectStore S) (actor : Actor) (id : String) (now : ℕ) (db : Db)
    (s : S) where
  -- What a removal leaves, by what the object store did.
  dropped :
      (file : FileRecord) (db₁ : Db) (outcome : ApiResult (Unit {0}) × S) {r : ApiResult (Unit {0})}
      {db' : Db} {s' : S}
      → RowRemoved actor id now db file db₁
      → drop_deletion objects outcome file.id db₁ ≡ ((r, db'), s')
      → (any (λ f. f.id == id) db'.files ≡ false)
        × ((is_pending id file.storage_key db' ≡ true) ⊎ (outcome ≡ (ok tt, s')))
  dropped file db₁ (err e, t) row h =
      let same = ap (λ q. q.0.1) h in
      (
        subst (λ d. any (λ f. f.id == id) d.files ≡ false) same row.gone,
        inl (subst (λ d. is_pending id file.storage_key d ≡ true) same row.recorded),
      )
  dropped file db₁ (ok done, t) row h = (
    subst (λ d. any (λ f. f.id == id) d.files ≡ false) (ap (λ q. q.0.1) h) row.gone,
    inr (ap (λ t. (ok tt, t)) (ap (λ q. q.1) h)),
  )

  after_row-ok :
      (result : ApiResult (FileRecord × Db)) {db' : Db} {s' : S}
      → after_row objects result db s ≡ ((ok tt, db'), s')
      → (file : FileRecord) × (db₁ : Db) × (r : ApiResult (Unit {0})) × (result ≡ ok (file, db₁))
        × (drop_deletion objects (delete_all_versions objects file.storage_key s) file.id db₁
            ≡ ((r, db'), s'))
  unfolding delete_pending
  after_row-ok (err e) h = absurd (let k = ap (λ q. q.0.0) h in ground arith)
  after_row-ok (ok (file, db₁)) h =
      let outcome =
        drop_deletion objects (delete_all_versions objects file.storage_key s) file.id db₁ in
      (
        file,
        db₁,
        outcome.0.0,
        refl,
        ap (λ (q : (ApiResult (Unit {0}) × Db) × S). ((outcome.0.0, q.0.1), q.1)) h,
      )

  pub remove_file-ok :
      {db' : Db} {s' : S}
      → remove_file objects actor id now db s ≡ ((ok tt, db'), s')
      → (file : FileRecord) × (get_owned actor id db ≡ ok file)
        × (is_referenced id db ≡ false)
        × (any (λ f. f.id == id) db'.files ≡ false)
        × ((is_pending id file.storage_key db' ≡ true)
            ⊎ (delete_all_versions objects file.storage_key s ≡ (ok tt, s')))
  unfolding remove_file
  remove_file-ok h =
      let (file, db₁, r, e, k) = after_row-ok (remove_row actor id now db) h in
      let row = remove_row-ok actor id now db e in
      let (gone, deleted) =
        dropped file db₁ (delete_all_versions objects file.storage_key s) row k in
      (file, row.owned, row.unreferenced, gone, deleted)

  after_row-err :
      (result : ApiResult (FileRecord × Db)) {e : ApiError} {db' : Db} {s' : S}
      → after_row objects result db s ≡ ((err e, db'), s')
      → (db' ≡ db) × (s' ≡ s)
  unfolding delete_pending
  after_row-err (err e) h = (sym (ap (λ q. q.0.1) h), sym (ap (λ q. q.1) h))
  after_row-err (ok (file, db₁)) h = absurd (let k = ap (λ q. q.0.0) h in ground arith)

remove_row-free :
    (actor : Actor) (id : String) (now : ℕ) (db : Db) {file : FileRecord} {db' : Db}
    → remove_row actor id now db ≡ ok (file, db')
    → any (λ e. e.file_id == id) db.file_deletion_outbox ≡ false
unfolding remove_row insert_deletion
remove_row-free actor id now db h =
    let (f, _, k₀) = >>=-eq-ok (get_owned actor id db) _ h in
    let (_, k₁) = reject_if-ok (is_referenced id db) _ _ k₀ in
    let entry : FileDeletion = record {
      file_id = id;
      storage_key = f.storage_key;
      created_at = now;
    } in
    let db₁ : Db = record db { files = remove (λ g. g.id == id) db.files } in
    let (_, inserted, _) = >>=-eq-ok (insert_deletion entry db₁) _ k₁ in
    (reject_if-ok (any (λ e. e.file_id == id) db.file_deletion_outbox) _ _ inserted).0

-- The file is the actor's, no item and no snapshot of a turn refers to it, and its deletion is not on record.
pub record Removable (actor : Actor) (id : String) (db : Db) (file : FileRecord) : Type 0 where
  pub owned :
      find
        (λ f. f.id == id && f.tenant_id == actor.tenant_id && f.owner_ref == actor.principal_id)
        db.files
      ≡ some file
  pub in_no_item : any (λ r. r.file_id == id) db.conversation_item_files ≡ false
  pub in_no_snapshot : any (λ r. r.file_id == id) db.turn_file_snapshot_files ≡ false
  pub unrecorded : any (λ e. e.file_id == id) db.file_deletion_outbox ≡ false

module _ {S : Type 0} (objects : ObjectStore S) (actor : Actor) (id : String) (now : ℕ) (db : Db)
    (s : S) where
  removed_of_Removable :
      (file : FileRecord)
      → Removable actor id db file
      → (db' : Db) × (s' : S) × (remove_file objects actor id now db s ≡ ((ok tt, db'), s'))
  unfolding remove_file remove_row insert_deletion get_owned
  removed_of_Removable file r =
      let db₁ : Db = record db {
        files = remove (λ g. g.id == id) db.files;
        file_deletion_outbox =
            db.file_deletion_outbox
            ++ record { file_id = id; storage_key = file.storage_key; created_at = now } ∷ [];
      } in
      let result = delete_pending objects file.id file.storage_key db₁ s in
      (result.0.1, result.1, rw (r.owned, r.in_no_item, r.in_no_snapshot, r.unrecorded) refl)

  -- `remove` succeeds exactly where the file is the actor's, no item of a conversation and no snapshot of a
  -- turn refers to it, and no deletion of its identifier is on record; and where it answers an error it has
  -- changed neither the tables nor the objects.
  pub remove_file_iff :
      (((db' : Db) × (s' : S) × (remove_file objects actor id now db s ≡ ((ok tt, db'), s')))
        ↔ ((file : FileRecord) × Removable actor id db file))
      × ((e : ApiError) (db' : Db) (s' : S)
          → remove_file objects actor id now db s ≡ ((err e, db'), s')
          → (db' ≡ db) × (s' ≡ s))
  unfolding remove_file get_owned
  remove_file_iff = (
    (
      (λ (db', s', h).
          let (file, db₁, r, e, k) =
            after_row-ok objects actor id now db s (remove_row actor id now db) h in
          let row = remove_row-ok actor id now db e in
          let free = row.unreferenced in
          (
            file,
            record {
              owned = ok_or-eq-ok _ _ row.owned;
              in_no_item = ground arith;
              in_no_snapshot = ground arith;
              unrecorded = remove_row-free actor id now db e;
            },
          )),
      (λ (file, r). removed_of_Removable file r),
    ),
    (λ e db' s' h. after_row-err objects actor id now db s (remove_row actor id now db) h),
  )

strip_prefix-append : (p s : String) → strip_prefix (String.◌++◌ p s) p ≡ some s
unfolding strip_prefix
strip_prefix-append String.[] s = ap (λ t. strip_prefix t "") (nil-append s)
strip_prefix-append (String.◌∷◌ c p) s =
    ap (λ t. strip_prefix t (String.◌∷◌ c p)) (cons-append c p s)
    ∙ ground (arith, strip_prefix-append p s)

strip_prefix_sound : (v p : String) {s : String} → strip_prefix v p ≡ some s → v ≡ String.◌++◌ p s
unfolding strip_prefix
strip_prefix_sound v String.[] {s} h = some-eq-some h ∙ sym (nil-append s)
strip_prefix_sound String.[] (String.◌∷◌ d p) h = absurd (ground arith)
strip_prefix_sound (String.◌∷◌ c v) (String.◌∷◌ d p) {s} h =
    elim (Bool-cases (eqb (code c) (code d))) [
      | inr other ↦ absurd (let k = rw other at h in ground arith)
      | inl same ↦
          let rest = strip_prefix_sound v p (rw same at h) in
          cons_congr (Char-path c d (ground arith)) rest ∙ sym (cons-append d p s)
    ]
  where
    cons_congr : {a b : Char} {x y : String} → a ≡ b → x ≡ y → String.◌∷◌ a x ≡ String.◌∷◌ b y
    cons_congr e k = cc

-- A text is read as the identifier `id` exactly where it is the URI's prefix and `id`, which has letters,
-- digits, `_` and `-` only and at least one; so the URI of a file that has such an identifier is read back.
pub parse_uri_iff :
    (f : FileRecord) (value : String)
    → (parse_uri value ≡ some f.id)
      ↔ ((value ≡ uri f) × (is_empty f.id ≡ false) × (all_chars is_id_char f.id ≡ true))
unfolding parse_uri uri
parse_uri_iff f value = (
  (λ h. elim (Option-cases (strip_prefix value "threadmark://files/")) [
    | inl missing ↦ absurd (let k = rw missing at h in ground arith)
    | inr (id, found) ↦
        let k = rw found at h in
        elim (Bool-cases (not (is_empty id) && all_chars is_id_char id)) [
          | inr bad ↦ absurd (let t = rw bad at k in ground arith)
          | inl good ↦
              let same : id ≡ f.id = some-eq-some (rw good at k) in
              (
                strip_prefix_sound value "threadmark://files/" found
                    ∙ ap (String.◌++◌ "threadmark://files/") same,
                rw (sym same) (ground arith),
                rw (sym same) (ground arith),
              )
        ]
  ]),
  (λ (e, some_chars, good). rw (e, strip_prefix-append, some_chars, good) refl),
)
