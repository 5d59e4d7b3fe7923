-- ===== src/Transaction.antt =====
-- tx_readwrite.go: the read-write transaction, which records every file before its first change.
pub mod Operations
pub mod Run
pub mod Recoverable
pub mod Preservation
pub mod Restore
pub mod Rollback
use dalgo2ingitdb.Base.{
  ℕ, String, ◌==◌, Bool, true, false, not, Option, none, some, List, [], ◌∷◌, ◌++◌, if◌then◌else◌,
}
use dalgo2ingitdb.Base.Dict.{Dict, lookup, insert, erase}
use dalgo2ingitdb.Base.Value.{Fields, delete_field}
use dalgo2ingitdb.Base.Result.{
  Error, record_exists, quoted, failure, wrapped, Result, ok, err, is_unknown_collection,
}
use dalgo2ingitdb.Schema.{
  Ingitdb, CollectionInfo, RecordFile, RecordType, single_record, map_of_records, list_of_records,
  Definition, Bytes,
}
use dalgo2ingitdb.Deps.{Deps}
use dalgo2ingitdb.Records.{Key, key_collection, Target, resolve_collection, record_path}
use dalgo2ingitdb.Columns.{ordered_computed_columns}
use dalgo2ingitdb.Disk.{Os, Stat, found, missing, clean_text}
use dalgo2ingitdb.Disk.Action.{Action, pure, raise, lift, ◌>>=◌, ◌>>◌, map_result, wrap_error}
use dalgo2ingitdb.RecordIo.{
  Io, delete_single_record_file, read_map_of_records_file, write_single_record_file,
  write_map_of_records_file,
}
use dalgo2ingitdb.Readers.{or_empty}
use dalgo2ingitdb.ForeignKeys.{
  foreign_key_target_exists, is_some, validate_write, validate_write_foreign_keys,
  validate_computed_write_foreign_keys,
}
use dalgo2ingitdb.ForeignKeys.Deletion.{validate_delete}
use dalgo2ingitdb.Updates.{Update, apply_updates}
use dalgo2ingitdb.Reading.{get_record}

-- `fileSnapshot`: nothing where there was no file
pub record FileSnapshot : Type 0 where
  pub mode : ℕ
  pub contents : Bytes

abbrev pub Snapshots : Type 0
Snapshots = Dict (Option FileSnapshot)

-- The disk, and the two collections that the transaction shares with its operations.
pub record TxState (os : Os) : Type 0 where
  pub disk : os.State
  pub written : List String
  pub snapshots : Snapshots

module _ (os : Os) where
  abbrev pub Tx : Type 0 → Type 0
  Tx A = Action (TxState os) A

  unfoldable pub on_disk : {A : Type 0} → Io os A → Tx A
  on_disk m s = let (r, disk') = m s.disk in (r, record s { disk = disk' })

  abbrev pub add_snapshot : String → Option FileSnapshot → TxState os → TxState os
  add_snapshot path snap s = record s { snapshots = insert path snap s.snapshots }

  -- The first snapshot of a path, which is cleaned.
  unfoldable pub take_snapshot : String → Tx (Unit {0})
  unfolding insert
  take_snapshot path s = elim (os.stat path s.disk) [
    | missing ↦ (ok tt, add_snapshot path none s)
    | Stat.failed e ↦ (err (wrapped "snapshot stat" e), s)
    | found mode ↦ elim (os.read_file path s.disk) [
      | err e ↦ (err (wrapped "snapshot read" e), s)
      | ok content ↦
          (ok tt, add_snapshot path (some (record { mode = mode; contents = content })) s)
    ]
  ]

  unfoldable pub snapshot : String → Tx (Unit {0})
  unfolding lookup take_snapshot clean_text
  snapshot path s = elim (lookup (clean_text path) s.snapshots) [
    | some snap ↦ (ok tt, s)
    | none ↦ take_snapshot (clean_text path) s
  ]

  unfoldable pub track : String → Tx (Unit {0})
  track path s = (ok tt, record s { written = s.written ++ path ∷ [] })

  -- The changes of one record file, and whether there are any.
  unfoldable pub commit_change : String → Io os Bool → Tx (Unit {0})
  unfolding snapshot track on_disk
  commit_change path change = do
    snapshot path
    changed ← on_disk change
    if changed then track path else pure tt
