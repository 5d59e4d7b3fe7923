-- ===== src/ForeignKeys/Deletion.antt =====
-- foreign_keys.go, lines 107 to 199: no record may still refer to the one that is deleted.
use dalgo2ingitdb.Base.{
  String, ◌==◌, Bool, false, not, ◌&&◌, Option, none, some, List, [], ◌∷◌, contains, if◌then◌else◌,
}
use dalgo2ingitdb.Base.Order.{str_leb}
use dalgo2ingitdb.Base.Sort.{sort}
use dalgo2ingitdb.Base.Dict.{lookup}
use dalgo2ingitdb.Base.Value.{string, Fields, get_field, or_null}
use dalgo2ingitdb.Base.Result.{failure, quoted, wrapped, Result, ok, err}
use dalgo2ingitdb.Schema.{CollectionInfo, RecordFile, info, Definition}
use dalgo2ingitdb.Deps.{Deps}
use dalgo2ingitdb.Columns.{
  foreign_key_fields_referencing, computed_foreign_key_fields_referencing, ordered_collection_ids,
}
use dalgo2ingitdb.Disk.Action.{pure, raise, lift, ◌>>=◌, ◌>>◌, map_result, wrap_error}
use dalgo2ingitdb.RecordIo.{Io}
use dalgo2ingitdb.Readers.Stored.{KeyedStored}
use dalgo2ingitdb.Readers.{read_all_records_from_disk}
use dalgo2ingitdb.ForeignKeys.{is_empty_foreign_key_value, computed_foreign_key_string}

module _ (d : Deps) where
  -- The record at `fields` refers to the parent key through this stored column.
  unfoldable pub refers_stored : String → Fields → String → Bool
  unfolding get_field
  refers_stored key fields field =
      contains (d.lib.foreign_key_elements (or_null (get_field field fields))).0 key

  unfoldable pub refers_computed : String → Fields → String → Bool
  unfolding get_field computed_foreign_key_string
  refers_computed key fields field = elim (get_field field fields) [
    | none ↦ false
    | some v ↦ not (is_empty_foreign_key_value v) && computed_foreign_key_string d.rt v == key
  ]

  -- The loop over the columns of one record.
  unfoldable pub check_columns :
      (Fields → String → Bool) → KeyedStored → List String → Result (Unit {0})
  check_columns refers rec [] = ok tt
  check_columns refers rec (field ∷ fields) =
      let rest = check_columns refers rec fields in
      if refers rec.stored field
      then err (quoted "foreign key violation: is referenced by record" rec.key)
      else rest

  unfoldable pub check_records :
      (Fields → String → Bool) → List String → List KeyedStored → Result (Unit {0})
  unfolding check_columns
  check_records refers fields [] = ok tt
  check_records refers fields (rec ∷ recs) = elim (check_columns refers rec fields) [
    | err e ↦ err e
    | ok u ↦ check_records refers fields recs
  ]

  -- `sort.SliceStable` by the printed key
  unfoldable pub sort_records : List KeyedStored → List KeyedStored
  unfolding sort
  sort_records = sort (λ r s. str_leb (d.rt.show (string r.key)) (d.rt.show (string s.key)))

  -- Where the child has no record file, the source dereferences a nil pointer.
  abbrev pub scan_records :
      (Fields → String → Bool)
      → CollectionInfo
      → List String
      → Option RecordFile
      → Io d.os (Unit {0})
  scan_records refers child fields none = raise (failure "panic: nil record_file")
  scan_records refers child fields (some file) = do
    records ←
        map_result (wrap_error (wrapped "foreign key scan failed"))
          (read_all_records_from_disk d child file)
    lift (check_records refers fields (sort_records records))

  abbrev pub scan_child :
      (Fields → String → Bool) → CollectionInfo → List String → Io d.os (Unit {0})
  scan_child refers child [] = pure tt
  scan_child refers child (field ∷ fields) =
      scan_records refers child (field ∷ fields) child.record_file

  -- The loop over the collections of the definition. Every ID is a key of the map.
  unfoldable pub scan_children :
      (Fields → String → Bool)
      → (CollectionInfo → List String)
      → Definition
      → List String
      → Io d.os (Unit {0})
  unfolding lookup check_records sort_records
  scan_children refers fields def [] = pure tt
  scan_children refers fields def (id ∷ ids) = elim (lookup id def.collections) [
    | none ↦ scan_children refers fields def ids
    | some c ↦ scan_child refers (info c) (fields (info c)) >> scan_children refers fields def ids
  ]

  unfoldable pub validate_delete_foreign_keys : Definition → String → String → Io d.os (Unit {0})
  unfolding scan_children refers_stored ordered_collection_ids foreign_key_fields_referencing
  validate_delete_foreign_keys def parent key =
      scan_children (refers_stored key) (λ c. foreign_key_fields_referencing c parent) def
        (ordered_collection_ids def.collections)

  unfoldable pub validate_delete_computed_foreign_keys :
      Definition → String → String → Io d.os (Unit {0})
  unfolding scan_children refers_computed ordered_collection_ids
      computed_foreign_key_fields_referencing
  validate_delete_computed_foreign_keys def parent key =
      scan_children (refers_computed key) (λ c. computed_foreign_key_fields_referencing c parent)
        def (ordered_collection_ids def.collections)

  unfoldable pub validate_delete : Definition → String → String → Io d.os (Unit {0})
  unfolding validate_delete_foreign_keys validate_delete_computed_foreign_keys
  validate_delete def parent key =
      validate_delete_foreign_keys def parent key
      >> validate_delete_computed_foreign_keys def parent key
