-- ===== src/Files/Cleanup.antt =====
-- `cleanup_deletions` of src/files.rs, once the object store works.
mod Tests
use threadmark.Common.Order.{any-sort_by, order_by, sort_by}
use threadmark.Db.{Db, FileDeletion}
use threadmark.Files.Records.{delete_pending, cleanup_deletions, cleanup_each}
use threadmark.Error.{ok}
use threadmark.Uploads.Cleanup.{delete_all_versions}
use threadmark.Objects.{ObjectStore}
use threadmark.Common.{
  ℕ, zero, suc, ◌+◌, ◌-◌, ◌*◌, ◌/◌, ◌%◌, ◌^◌, ◌≤◌, ◌<◌, min, String, ◌≡◌, refl, sym, ap, ◌∙◌, ◌≢◌,
  ◌↔◌, ◌⊎◌, inl, inr, Bool, true, false, ◌&&◌, ◌||◌, not, Option, none, some, List, [], ◌∷◌, ◌++◌,
  map, append-nil, append_assoc, arith, ◌==◌, eq_iff, eq_refl, ltb, leb, eqb, if◌then◌else◌,
  some_eq, is_some, unwrap_or, ltb→lt, leb→le, leb-false, Bool-cases, Option-cases, eq-of-some_eq,
  length, length-append, take, length-take_le, All, All-append, All-append_left, All-of_forall,
  All-map, filter, find, any, all, remove, update, or_else, filter-append, find-append, any-append,
  filter_none, filter-All, All-not_of_any, any-of_All, find_sound, any-of_find, find-none, All-find,
  All-filter, All-remove, All-passed, any-update, find-update_ne, find-update, All-update, any_mono,
  filter-remove_spared, filter-remove, remove_congr, remove_none, All-removed, All-both,
  some-eq-some, filter_none_under, find-filter, length-remove_le, length-remove_lt,
}

-- The outbox has the deletion of a file.
abbrev pub is_recorded : String → Db → Bool
is_recorded id db = any (λ d. d.file_id == id) db.file_deletion_outbox

-- What others do puts no deletion of the file on record.
abbrev pub AddsNone : String → (Db → Db) → Type 0
AddsNone id f = (d : Db) → is_recorded id d ≡ false → is_recorded id (f d) ≡ false

taken_off :
    (id file_id : String) (rows : List FileDeletion)
    → (file_id == id) ≡ true
    → any (λ d. d.file_id == id) (remove (λ d. d.file_id == file_id) rows) ≡ false
taken_off id file_id rows same =
    any-of_All (λ d. d.file_id == id) (remove (λ d. d.file_id == file_id) rows)
      (All-map (λ d. (d.file_id == file_id) ≡ false) (λ d. (d.file_id == id) ≡ false)
        (λ d apart. rw (sym ((eq_iff file_id id).0 same)) apart)
        (remove (λ d. d.file_id == file_id) rows) (All-removed (λ d. d.file_id == file_id) rows))

still_off :
    (id file_id : String) (rows : List FileDeletion)
    → any (λ d. d.file_id == id) rows ≡ false
    → any (λ d. d.file_id == id) (remove (λ d. d.file_id == file_id) rows) ≡ false
still_off id file_id rows off =
    any-of_All (λ d. d.file_id == id) (remove (λ d. d.file_id == file_id) rows)
      (All-remove (λ d. d.file_id == file_id) (λ d. (d.file_id == id) ≡ false) rows
        (All-not_of_any (λ d. d.file_id == id) rows off))

module _ {S : Type 0} (objects : ObjectStore S)
    (works : (key : String) (s : S) → (s' : S) × (delete_all_versions objects key s ≡ (ok tt, s')))
    (between : ℕ → Db → Db) (id : String) (quiet : (k : ℕ) → AddsNone id (between k)) where
  -- A deletion that is off the record stays off.
  cleanup_each-off :
      (k : ℕ) (ds : List FileDeletion) (db : Db) (s : S)
      → is_recorded id db ≡ false
      → is_recorded id (cleanup_each objects between k ds db s).0 ≡ false
  unfolding cleanup_each delete_pending
  cleanup_each-off k [] db s off = off
  cleanup_each-off k (e ∷ es) db s off =
      let (s', deleted) = works e.storage_key s in
      let rows = (between k db).file_deletion_outbox in
      let db' : Db = record (between k db) {
        file_deletion_outbox = remove (λ d. d.file_id == e.file_id) rows;
      } in
      rw (deleted, cleanup_each)
        (cleanup_each-off (k + 1) es db' s' (still_off id e.file_id rows (quiet k db off)))

  cleanup_each-taken :
      (k : ℕ) (ds : List FileDeletion) (db : Db) (s : S)
      → any (λ d. d.file_id == id) ds ≡ true
      → is_recorded id (cleanup_each objects between k ds db s).0 ≡ false
  unfolding cleanup_each delete_pending any
  cleanup_each-taken k [] db s listed = absurd (ground arith)
  cleanup_each-taken k (e ∷ es) db s listed =
      let (s', deleted) = works e.storage_key s in
      let rows = (between k db).file_deletion_outbox in
      let db' : Db = record (between k db) {
        file_deletion_outbox = remove (λ d. d.file_id == e.file_id) rows;
      } in
      rw (deleted, cleanup_each)
        (elim (Bool-cases (e.file_id == id)) [
          | inl hit ↦ cleanup_each-off (k + 1) es db' s' (taken_off id e.file_id rows hit)
          | inr miss ↦ cleanup_each-taken (k + 1) es db' s' (ground arith)
        ])

  -- Where the object store can delete the versions of every object, and what others do before each DELETE
  -- puts no deletion of the file on record anew, a deletion of the file that is on record when the cleanup
  -- reads the outbox is off the record when it ends.
  pub cleanup_deletions-taken :
      (db : Db) (s : S)
      → is_recorded id db ≡ true
      → is_recorded id (cleanup_deletions objects between db s).0 ≡ false
  unfolding cleanup_deletions order_by
  cleanup_deletions-taken db s listed =
      let key = λ (d : FileDeletion). d.created_at in
      cleanup_each-taken 0 (order_by key db.file_deletion_outbox) db s (
        any-sort_by (λ x y. leb (key x) (key y)) (λ e. e.file_id == id) db.file_deletion_outbox
        ∙ listed)
