-- ===== src/Store/Snapshots.antt =====
-- src/store.rs: the files of a turn: their locks and their snapshot.
use threadmark.Error.{ApiResult, ok, ◌>>◌, reject_if, not_found, database, violates}
use threadmark.Ids.{new_id}
use threadmark.Model.{Actor}
use threadmark.Db.{Db}
use threadmark.Store.References.{sort_dedup}
use threadmark.Common.{
  String, Bool, true, ◌&&◌, not, List, [], ◌∷◌, ◌++◌, map, ◌==◌, eqb, length, filter, any, all,
}

abbrev pub listed : String → List String → Bool
listed id ids = any (λ j. j == id) ids

-- SELECT file_id FROM conversation_item_files JOIN conversation_items … WHERE conversation_id = $1
unfoldable pub conversation_files : String → Db → List String
conversation_files conversation_id db =
    map (λ r. r.file_id)
      (filter
        (λ r.
          any (λ i. i.id == r.item_id && i.conversation_id == conversation_id)
            db.conversation_items)
        db.conversation_item_files)

-- … UNION SELECT unnest($2), DISTINCT
unfoldable pub turn_files : String → List String → Db → List String
unfolding conversation_files sort_dedup
turn_files conversation_id additional db =
    sort_dedup (conversation_files conversation_id db ++ additional)

-- As many of the actor's files are locked as there are files named.
unfoldable pub lock_turn_files : Actor → String → List String → Db → ApiResult (Unit {0})
unfolding turn_files
lock_turn_files actor conversation_id additional db =
    let wanted = turn_files conversation_id additional db in
    let file_ids =
      filter
        (λ f.
          listed f.id wanted && f.tenant_id == actor.tenant_id && f.owner_ref == actor.principal_id)
        db.files in
    reject_if (not (eqb (length file_ids) (length wanted))) (not_found "File not found.")

-- The snapshot's row and one row for each file that the transcript names, with their constraints.
unfoldable pub create_turn_file_snapshot : String → String → (ulid : String) → Db → ApiResult Db
unfolding conversation_files sort_dedup
create_turn_file_snapshot conversation_id turn_id ulid db = do
  let snapshot_id = new_id "fsnap" ulid
  let file_ids = sort_dedup (conversation_files conversation_id db)
  reject_if (any (λ s. s.id == snapshot_id) db.turn_file_snapshots)
      (database (violates "turn_file_snapshots_pkey"))
  reject_if (any (λ s. s.turn_id == turn_id) db.turn_file_snapshots)
      (database (violates "turn_file_snapshots_turn_id_key"))
  reject_if (not (all (λ id. any (λ f. f.id == id) db.files) file_ids))
      (database (violates "turn_file_snapshot_files_file_id_fkey"))
  ok (record db {
    turn_file_snapshots =
        db.turn_file_snapshots
        ++ record { id = snapshot_id; turn_id = turn_id; authoritative = true } ∷ [];
    turn_file_snapshot_files =
        db.turn_file_snapshot_files
        ++ map (λ id. record { snapshot_id = snapshot_id; file_id = id }) file_ids;
  })
