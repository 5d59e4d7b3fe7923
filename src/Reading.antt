-- ===== src/Reading.antt =====
-- tx_readonly.go, lines 38 to 190: reading one record. The error that is set on a record is the
-- error that is returned.
pub mod Frame
use dalgo2ingitdb.Base.{
  String, ◌==◌, Bool, true, false, Option, none, some, List, [], ◌∷◌, if◌then◌else◌,
}
use dalgo2ingitdb.Base.Dict.{Dict, lookup}
use dalgo2ingitdb.Base.Value.{Fields}
use dalgo2ingitdb.Base.Result.{
  Error, record_not_found, quoted, Result, ok, err, is_unknown_collection, is_not_found,
}
use dalgo2ingitdb.Schema.{
  Ingitdb, CollectionInfo, RecordFile, RecordType, single_record, map_of_records, list_of_records,
  Definition,
}
use dalgo2ingitdb.Deps.{Deps}
use dalgo2ingitdb.Records.{Key, Target, resolve_collection, record_path}
use dalgo2ingitdb.Disk.Action.{pure, raise, lift, ◌>>=◌, ◌>>◌}
use dalgo2ingitdb.Formula.{apply_formulas_to_read}
use dalgo2ingitdb.RecordIo.{Io, read_single_record_file, read_map_of_records_file}
use dalgo2ingitdb.Readers.Stored.{KeyedStored, decode_source_transport}
use dalgo2ingitdb.Readers.{read_all_list_stored, or_empty}
use dalgo2ingitdb.ForeignKeys.{is_some}

-- The first record with the key.
unfoldable pub find_stored : String → List KeyedStored → Option Fields
find_stored key [] = none
find_stored key (item ∷ items) = if item.key == key then some item.stored else find_stored key items

abbrev pub or_not_found : Option Fields → Result Fields
or_not_found none = err record_not_found
or_not_found (some fields) = ok fields

-- A record in an unknown collection cannot exist.
abbrev pub as_not_found {ℓ} : {A : Type ℓ} → Result A → Result A
as_not_found (ok a) = ok a
as_not_found (err e) = if is_unknown_collection e then err record_not_found else err e

-- `stored_only` is the flag `storedOnlyReads` of the database.
module _ (d : Deps) (stored_only : Bool) where
  unfoldable pub apply_derived_values : CollectionInfo → Fields → Result Fields
  unfolding apply_formulas_to_read
  apply_derived_values col fields =
      if stored_only then ok fields else apply_formulas_to_read d.lib d.rt fields col.columns

  abbrev pub path_of : Target → String
  path_of t = record_path d.lib d.rt d.goos t

  abbrev pub read_target_map : Target → Io d.os (Option Fields)
  read_target_map t = do
    rows ← read_map_of_records_file d.lib d.os (path_of t) t.file.format
    pure (lookup t.key (or_empty rows))

  abbrev pub read_target_list : Target → Io d.os (Option Fields)
  read_target_list t = do
    items ← read_all_list_stored d t.col t.file
    pure (find_stored t.key items)

  unfoldable pub read_target_as : Target → RecordType → Io d.os Fields
  unfolding find_stored lookup apply_derived_values decode_source_transport
  read_target_as t single_record = do
    found ← read_single_record_file d.lib d.os (path_of t) t.col
    data' ← lift (or_not_found found)
    lift (apply_derived_values t.col (d.lib.apply_locale_to_read data' t.col.columns))
  read_target_as t map_of_records = do
    found ← read_target_map t
    data' ← lift (or_not_found found)
    decoded ←
        lift (decode_source_transport d.rt t.col (d.lib.apply_locale_to_read data' t.col.columns))
    lift (apply_derived_values t.col decoded)
  read_target_as t list_of_records = do
    found ← read_target_list t
    data' ← lift (or_not_found found)
    lift (apply_derived_values t.col data')
  read_target_as t (RecordType.other kind) =
      raise (quoted "Get not implemented for record type" kind)

  unfoldable pub read_target : Target → Io d.os Fields
  unfolding read_target_as
  read_target t = read_target_as t t.file.record_type

  -- The context is not cancelled.
  unfoldable pub get_record : Option Definition → Option Key → Io d.os Fields
  unfolding read_target resolve_collection
  get_record def key = do
    target ← lift (as_not_found (resolve_collection d.lib d.rt d.goos def key))
    read_target target

  unfoldable pub target_exists_as : Target → RecordType → Io d.os Bool
  unfolding find_stored lookup
  target_exists_as t single_record = do
    found ← read_single_record_file d.lib d.os (path_of t) t.col
    pure (is_some found)
  target_exists_as t map_of_records = do found ← read_target_map t; pure (is_some found)
  target_exists_as t list_of_records = do found ← read_target_list t; pure (is_some found)
  target_exists_as t (RecordType.other kind) =
      raise (quoted "Exists not implemented for record type" kind)

  unfoldable pub target_exists : Target → Io d.os Bool
  unfolding target_exists_as
  target_exists t = target_exists_as t t.file.record_type

  unfoldable pub record_exists : Option Definition → Option Key → Io d.os Bool
  unfolding target_exists resolve_collection
  record_exists def key = do
    target ← lift (resolve_collection d.lib d.rt d.goos def key)
    target_exists target
