-- ===== src/ForeignKeys.antt =====
-- foreign_keys.go and write_validation.go: the checks before a write and before a deletion.
pub mod Deletion
pub mod Scanning
pub mod References
use dalgo2ingitdb.Base.{
  String, ◌==◌, Bool, true, false, not, ◌||◌, Option, none, some, List, [], ◌∷◌, contains,
  if◌then◌else◌,
}
use dalgo2ingitdb.Base.Order.{str_leb}
use dalgo2ingitdb.Base.Sort.{sort}
use dalgo2ingitdb.Base.Dict.{Dict, lookup}
use dalgo2ingitdb.Base.Value.{Value, null, string, Fields, get_field, or_null, Runtime}
use dalgo2ingitdb.Base.Result.{Error, failure, quoted, wrapped, Result, ok, err}
use dalgo2ingitdb.Schema.{
  Ingitdb, CollectionInfo, RecordFile, RecordType, single_record, map_of_records, ColumnType,
  ColumnDef, Collection, info, Definition,
}
use dalgo2ingitdb.Deps.{Deps}
use dalgo2ingitdb.Records.{resolve_record_path, validate_record_file_key}
use dalgo2ingitdb.Columns.{
  ordered_foreign_key_fields, ordered_computed_columns, foreign_key_fields_referencing,
  computed_foreign_key_fields_referencing, ordered_collection_ids,
  validate_no_stored_computed_values,
}
use dalgo2ingitdb.Disk.{Os}
use dalgo2ingitdb.Disk.Action.{Action, pure, raise, lift, ◌>>=◌, ◌>>◌, map_result, wrap_error}
use dalgo2ingitdb.RecordIo.{Io, read_single_record_file, read_map_of_records_file}
use dalgo2ingitdb.Readers.Stored.{KeyedStored}
use dalgo2ingitdb.Readers.{read_all_records_from_disk, or_empty}

abbrev pub is_some : {A : Type 0} → Option A → Bool
is_some none = false
is_some (some a) = true

abbrev pub column : CollectionInfo → String → ColumnDef
column col field = elim (lookup field col.columns) [
  | some (some c) ↦ c
  | _ ↦ record { type = ColumnType.empty; required = false; foreign_key = ""; formula = "" }
]

abbrev pub is_empty_foreign_key_value : Value → Bool
is_empty_foreign_key_value null = true
is_empty_foreign_key_value (string s) = s == ""
is_empty_foreign_key_value v = false

module _ (rt : Runtime) where
  unfoldable pub computed_foreign_key_string : Value → String
  computed_foreign_key_string null = ""
  computed_foreign_key_string (string s) = s
  computed_foreign_key_string v = rt.show v

module _ (d : Deps) where
  abbrev pub read_rows : CollectionInfo → RecordFile → String → Io d.os (Dict Fields)
  read_rows col file key = do
    rows ←
        read_map_of_records_file d.lib d.os (resolve_record_path d.lib d.rt d.goos col file key)
          file.format
    pure (or_empty rows)

  unfoldable pub target_in_file_as :
      CollectionInfo → RecordFile → String → RecordType → Io d.os Bool
  target_in_file_as parent file key single_record = do
    data' ←
        read_single_record_file d.lib d.os (resolve_record_path d.lib d.rt d.goos parent file key)
          parent
    pure (is_some data')
  target_in_file_as parent file key map_of_records = do
    rows ← read_rows parent file key
    pure (is_some (lookup key rows))
  target_in_file_as parent file key _ =
      raise (quoted "configuration error: unsupported record type" parent.id)

  abbrev pub target_in_file : CollectionInfo → RecordFile → String → Io d.os Bool
  target_in_file parent file key = target_in_file_as parent file key file.record_type

  -- A definition holds no nil collection.
  unfoldable pub foreign_key_target_exists : CollectionInfo → String → Io d.os Bool
  unfolding lookup
  foreign_key_target_exists parent key = elim parent.record_file [
    | none ↦ raise (quoted "configuration error: no record_file definition" parent.id)
    | some file ↦ elim (validate_record_file_key d.lib d.rt d.goos parent file key) [
      | err e ↦ pure false
      | ok u ↦ target_in_file parent file key
    ]
  ]

  abbrev pub require_found : String → Bool → Io d.os (Unit {0})
  require_found key true = pure tt
  require_found key false = raise (quoted "foreign key violation: parent record not found" key)

  unfoldable pub require_target : CollectionInfo → String → Io d.os (Unit {0})
  unfolding foreign_key_target_exists
  require_target parent key = do
    exists ←
        map_result (wrap_error (wrapped "foreign key lookup failed"))
          (foreign_key_target_exists parent key)
    require_found key exists

  unfoldable pub require_targets : CollectionInfo → List String → Io d.os (Unit {0})
  unfolding require_target
  require_targets parent [] = pure tt
  require_targets parent (key ∷ rest) = require_target parent key >> require_targets parent rest

  abbrev pub parent_of : Definition → String → Result CollectionInfo
  parent_of def name = elim (lookup name def.collections) [
    | none ↦ err (quoted "configuration error: missing foreign_key collection" name)
    | some c ↦ ok (info c)
  ]

  -- The keys that one stored foreign key refers to.
  abbrev pub check_keys :
      Definition → ColumnDef → String → List String × List Error → Io d.os (Unit {0})
  check_keys def c field (keys, e ∷ es) = raise (wrapped "foreign key element must be a scalar" e)
  check_keys def c field ([], []) =
      if c.required
      then raise (quoted "required foreign key field missing or empty" field)
      else pure tt
  check_keys def c field (key ∷ keys, []) = do
    parent ← lift (parent_of def c.foreign_key)
    require_targets parent (key ∷ keys)

  unfoldable pub check_foreign_keys :
      Definition → CollectionInfo → List String → Fields → Io d.os (Unit {0})
  unfolding require_targets get_field
  check_foreign_keys def child [] data' = pure tt
  check_foreign_keys def child (field ∷ fields) data' =
      check_keys def (column child field) field
        (d.lib.foreign_key_elements (or_null (get_field field data')))
      >> check_foreign_keys def child fields data'

  unfoldable pub validate_write_foreign_keys :
      Definition → CollectionInfo → Fields → Io d.os (Unit {0})
  unfolding check_foreign_keys ordered_foreign_key_fields
  validate_write_foreign_keys def child data' =
      check_foreign_keys def child (ordered_foreign_key_fields child) data'

  abbrev pub check_computed : Definition → ColumnDef → Fields → Io d.os (Unit {0})
  check_computed def c data' = if c.foreign_key == "" then pure tt else (do
    result ← lift (
        wrap_error (wrapped "computed foreign key evaluation failed")
          (d.lib.evaluate_formula c.formula data'))
    parent ← lift (parent_of def c.foreign_key)
    require_target parent (computed_foreign_key_string d.rt result))

  unfoldable pub check_computed_foreign_keys :
      Definition → CollectionInfo → List String → Fields → Io d.os (Unit {0})
  unfolding require_target computed_foreign_key_string
  check_computed_foreign_keys def child [] data' = pure tt
  check_computed_foreign_keys def child (field ∷ fields) data' =
      check_computed def (column child field) data'
      >> check_computed_foreign_keys def child fields data'

  unfoldable pub validate_computed_write_foreign_keys :
      Definition → CollectionInfo → Fields → Io d.os (Unit {0})
  unfolding check_computed_foreign_keys ordered_computed_columns
  validate_computed_write_foreign_keys def child data' =
      check_computed_foreign_keys def child (ordered_computed_columns child) data'

  unfoldable pub validate_write : Definition → CollectionInfo → Fields → Io d.os (Unit {0})
  unfolding validate_no_stored_computed_values validate_write_foreign_keys
      validate_computed_write_foreign_keys
  validate_write def child data' = do
    lift (validate_no_stored_computed_values child data')
    validate_write_foreign_keys def child data'
    validate_computed_write_foreign_keys def child data'
