-- ===== src/Transaction/Operations.antt =====
-- tx_readwrite.go, lines 97 to 374: the operations of a read-write transaction. A record's data
-- come as the map that `record.DataToMap` makes of them.
use dalgo2ingitdb.Base.{String, Bool, true, false, Option, none, some, List, [], ◌∷◌, if◌then◌else◌}
use dalgo2ingitdb.Base.Dict.{Dict, lookup, insert, erase}
use dalgo2ingitdb.Base.Value.{Fields, delete_field}
use dalgo2ingitdb.Base.Result.{
  record_exists, failure, wrapped, Result, ok, err, is_unknown_collection,
}
use dalgo2ingitdb.Schema.{RecordType, single_record, map_of_records, Definition}
use dalgo2ingitdb.Deps.{Deps}
use dalgo2ingitdb.Records.{Key, key_collection, Target, resolve_collection, record_path}
use dalgo2ingitdb.Columns.{ordered_computed_columns}
use dalgo2ingitdb.Disk.{Stat, found, missing}
use dalgo2ingitdb.Disk.Action.{pure, raise, lift, ◌>>=◌, ◌>>◌, map_result, wrap_error}
use dalgo2ingitdb.RecordIo.{
  Io, delete_single_record_file, read_map_of_records_file, write_single_record_file,
  write_map_of_records_file,
}
use dalgo2ingitdb.Readers.{or_empty}
use dalgo2ingitdb.ForeignKeys.{
  foreign_key_target_exists, is_some, validate_write, validate_write_foreign_keys,
  validate_computed_write_foreign_keys,
}
use dalgo2ingitdb.ForeignKeys.Deletion.{validate_delete}
use dalgo2ingitdb.Updates.{Update, apply_updates}
use dalgo2ingitdb.Reading.{get_record}
use dalgo2ingitdb.Transaction.{Tx, on_disk, commit_change}

-- `os.Stat` for a file that is to be made, or to be deleted
abbrev pub stat_result : Stat → Result Bool
stat_result (found mode) = ok true
stat_result missing = ok false
stat_result (Stat.failed e) = err (wrapped "stat" e)

unfoldable pub delete_fields : List String → Fields → Fields
unfolding delete_field
delete_fields [] data' = data'
delete_fields (k ∷ ks) data' = delete_fields ks (delete_field k data')

module _ (d : Deps) where
  abbrev pub path_of : Target → String
  path_of t = record_path d.lib d.rt d.goos t

  abbrev pub stat_file : String → Io d.os Bool
  stat_file path s = (stat_result (d.os.stat path s), s)

  abbrev pub write_single : Target → Fields → Io d.os Bool
  write_single t data' = do write_single_record_file d.lib d.os (path_of t) t.col data'; pure true

  -- The row is written in the locale form; the other rows stay as they were read.
  abbrev pub write_row : Target → Fields → Option (Dict Fields) → Io d.os Bool
  write_row t data' rows = do
    write_map_of_records_file d.lib d.os (path_of t) t.col t.file
        (insert t.key (d.lib.apply_locale_to_write data' t.col.columns) (or_empty rows))
    pure true

  unfoldable pub set_as : Target → Fields → RecordType → Io d.os Bool
  unfolding insert
  set_as t data' single_record = write_single t data'
  set_as t data' map_of_records = do
    rows ← read_map_of_records_file d.lib d.os (path_of t) t.file.format
    write_row t data' rows
  set_as t data' _ = raise (failure "Set not implemented for record type")

  unfoldable pub set_change : Target → Fields → Io d.os Bool
  unfolding set_as
  set_change t data' = set_as t data' t.file.record_type

  abbrev pub refuse_existing : Bool → Io d.os Bool → Io d.os Bool
  refuse_existing exists m = if exists then raise record_exists else m

  unfoldable pub insert_as : Target → Fields → RecordType → Io d.os Bool
  unfolding insert lookup
  insert_as t data' single_record = do
    exists ← stat_file (path_of t)
    refuse_existing exists (write_single t data')
  insert_as t data' map_of_records = do
    rows ← read_map_of_records_file d.lib d.os (path_of t) t.file.format
    refuse_existing (is_some (lookup t.key (or_empty rows))) (write_row t data' rows)
  insert_as t data' _ = raise (failure "Insert not implemented for record type")

  unfoldable pub insert_change : Target → Fields → Io d.os Bool
  unfolding insert_as
  insert_change t data' = insert_as t data' t.file.record_type

  abbrev pub delete_file : Target → Bool → Io d.os Bool
  delete_file t exists =
      if exists then (do delete_single_record_file d.os (path_of t); pure true) else pure false

  abbrev pub delete_row : Target → Option (Dict Fields) → Io d.os Bool
  delete_row t rows =
      if is_some (lookup t.key (or_empty rows))
      then (do
        write_map_of_records_file d.lib d.os (path_of t) t.col t.file (erase t.key (or_empty rows))
        pure true)
      else pure false

  -- Deleting a missing record changes nothing.
  unfoldable pub delete_as : Target → RecordType → Io d.os Bool
  unfolding erase lookup
  delete_as t single_record = do exists ← stat_file (path_of t); delete_file t exists
  delete_as t map_of_records = do
    rows ← read_map_of_records_file d.lib d.os (path_of t) t.file.format
    delete_row t rows
  delete_as t _ = raise (failure "Delete not implemented for record type")

  unfoldable pub delete_change : Target → Io d.os Bool
  unfolding delete_as
  delete_change t = delete_as t t.file.record_type

  unfoldable pub set_record : Definition → Option Key → Fields → Tx d.os (Unit {0})
  unfolding resolve_collection validate_write set_change on_disk commit_change
  set_record def key data' = do
    t ← lift (resolve_collection d.lib d.rt d.goos (some def) key)
    on_disk d.os (validate_write d def t.col data')
    commit_change d.os (path_of t) (set_change t data')

  unfoldable pub insert_record : Definition → Option Key → Fields → Tx d.os (Unit {0})
  unfolding resolve_collection validate_write insert_change on_disk commit_change
  insert_record def key data' = do
    t ← lift (resolve_collection d.lib d.rt d.goos (some def) key)
    on_disk d.os (validate_write d def t.col data')
    commit_change d.os (path_of t) (insert_change t data')

  abbrev pub check_unreferenced : Definition → Option Key → Target → Bool → Io d.os (Unit {0})
  check_unreferenced def none t exists = pure tt
  check_unreferenced def (some key) t exists =
      if exists then validate_delete d def (key_collection key) t.key else pure tt

  abbrev pub delete_target : Definition → Option Key → Target → Tx d.os (Unit {0})
  delete_target def key t = do
    exists ← on_disk d.os (
        map_result (wrap_error (wrapped "Delete foreign key lookup failed"))
          (foreign_key_target_exists d t.col t.key))
    on_disk d.os (check_unreferenced def key t exists)
    commit_change d.os (path_of t) (delete_change t)

  -- A record in an unknown collection cannot exist, so its deletion is done.
  abbrev pub delete_resolved : Definition → Option Key → Result Target → Tx d.os (Unit {0})
  delete_resolved def key (ok t) = delete_target def key t
  delete_resolved def key (err e) = if is_unknown_collection e then pure tt else raise e

  unfoldable pub delete_record : Definition → Option Key → Tx d.os (Unit {0})
  unfolding resolve_collection foreign_key_target_exists validate_delete delete_change on_disk
      commit_change
  delete_record def key =
      delete_resolved def key (resolve_collection d.lib d.rt d.goos (some def) key)

  -- The end of both updates: the one map is checked, and the other one stored.
  abbrev pub checked_set : Definition → Option Key → Target → Fields → Fields → Tx d.os (Unit {0})
  checked_set def key t checked data' = do
    on_disk d.os (validate_write_foreign_keys d def t.col checked)
    on_disk d.os (validate_computed_write_foreign_keys d def t.col checked)
    set_record def key data'

  -- No preconditions are given. `now` is the current time.
  unfoldable pub update_stored :
      Bool → String → Definition → Option Key → List Update → Tx d.os (Unit {0})
  unfolding get_record apply_updates set_record ordered_computed_columns delete_fields
  update_stored stored_only now def key updates = do
    fields ← on_disk d.os (get_record d stored_only (some def) key)
    updated ← lift (apply_updates d.rt now updates fields)
    t ← lift (resolve_collection d.lib d.rt d.goos (some def) key)
    let stored = delete_fields (ordered_computed_columns t.col) updated
    checked_set def key t stored stored

  -- `data'` is what `DataToMap` makes of the record in memory. The record is stored again as it then
  -- is: with the updates where its data is that map, without them where `DataToMap` made a copy.
  unfoldable pub update_record :
      String → Definition → Option Key → Bool → Fields → List Update → Tx d.os (Unit {0})
  unfolding apply_updates set_record
  update_record now def key is_map data' updates = do
    updated ← lift (apply_updates d.rt now updates data')
    t ← lift (resolve_collection d.lib d.rt d.goos (some def) key)
    checked_set def key t updated (if is_map then updated else data')
