-- ===== src/Reading/Frame.antt =====
-- Reading a record, and the checks before a write or a deletion, change no file.
use dalgo2ingitdb.Base.{
  String, ◌==◌, Option, none, some, Bool, true, false, List, [], ◌∷◌, inl, inr, Option-cases,
}
use dalgo2ingitdb.Base.Dict.{lookup}
use dalgo2ingitdb.Base.Value.{Fields, get_field, or_null}
use dalgo2ingitdb.Base.Result.{Result-cases, Error, wrapped}
use dalgo2ingitdb.Schema.{
  CollectionInfo, RecordFile, RecordType, single_record, map_of_records, list_of_records, Bytes,
  ColumnDef, Definition, info,
}
use dalgo2ingitdb.Deps.{Deps}
use dalgo2ingitdb.Records.{Key, Target, validate_record_file_key}
use dalgo2ingitdb.Columns.{foreign_key_fields_referencing, computed_foreign_key_fields_referencing}
use dalgo2ingitdb.Disk.Laws.{IsLawful}
use dalgo2ingitdb.Disk.Action.{
  Action, Keeps-bind, Keeps-lift, Keeps-pure, Keeps-raise, Keeps-if, Keeps-map_result, wrap_error,
}
use dalgo2ingitdb.RecordIo.Frame.{read_single_record_file-Holds, read_map_of_records_file-Holds}
use dalgo2ingitdb.RecordIo.{read_single_record_file, read_map_of_records_file}
use dalgo2ingitdb.Readers.Frame.{Kept, list-Kept, all_records-Kept}
use dalgo2ingitdb.Reading.{
  read_target_as, read_target, get_record, target_exists_as, target_exists, record_exists,
  read_target_map, read_target_list,
}
use dalgo2ingitdb.ForeignKeys.{
  column, target_in_file_as, foreign_key_target_exists, require_found, require_target,
  require_targets, check_keys, check_foreign_keys, validate_write_foreign_keys, check_computed,
  check_computed_foreign_keys, validate_computed_write_foreign_keys, validate_write,
}
use dalgo2ingitdb.ForeignKeys.Deletion.{
  refers_stored, refers_computed, scan_records, scan_child, scan_children,
  validate_delete_foreign_keys, validate_delete_computed_foreign_keys, validate_delete,
}

module _ (d : Deps) (content : d.os.State → String → Option Bytes) (L : IsLawful d.os content)
    (q : String) (v : Option Bytes) where
  abbrev Same : {A : Type 0} → Action d.os.State A → Type 0
  Same m = Kept d content L q v m

  single-Same :
      (path : String) (col : CollectionInfo) → Same (read_single_record_file d.lib d.os path col)
  single-Same = read_single_record_file-Holds d.os content L q v d.lib

  map-Same : (path format : String) → Same (read_map_of_records_file d.lib d.os path format)
  map-Same = read_map_of_records_file-Holds d.os content L q v d.lib

  module _ (stored_only : Bool) where
    target_map-Same : (t : Target) → Same (read_target_map d stored_only t)
    target_map-Same t = Keeps-bind _ _ (map-Same _ _) (λ _. Keeps-pure _)

    target_list-Same : (t : Target) → Same (read_target_list d stored_only t)
    target_list-Same t = Keeps-bind _ _ (list-Kept d content L q v _ _) (λ _. Keeps-pure _)

    target_as-Same : (t : Target) (k : RecordType) → Same (read_target_as d stored_only t k)
    unfolding read_target_as
    target_as-Same t single_record =
        Keeps-bind _ _ (single-Same _ _) (λ _. Keeps-bind _ _ (Keeps-lift _) (λ _. Keeps-lift _))
    target_as-Same t map_of_records = Keeps-bind _ _ (target_map-Same t) (λ _.
        Keeps-bind _ _ (Keeps-lift _) (λ _. Keeps-bind _ _ (Keeps-lift _) (λ _. Keeps-lift _)))
    target_as-Same t list_of_records =
        Keeps-bind _ _ (target_list-Same t) (λ _. Keeps-bind _ _ (Keeps-lift _) (λ _. Keeps-lift _))
    target_as-Same t (RecordType.other kind) = Keeps-raise _

    pub get_record-Same :
        (def : Option Definition) (key : Option Key) → Same (get_record d stored_only def key)
    unfolding get_record read_target
    get_record-Same def key =
        Keeps-bind _ _ (Keeps-lift _) (λ t. target_as-Same t t.file.record_type)

    exists_as-Same : (t : Target) (k : RecordType) → Same (target_exists_as d stored_only t k)
    unfolding target_exists_as
    exists_as-Same t single_record = Keeps-bind _ _ (single-Same _ _) (λ _. Keeps-pure _)
    exists_as-Same t map_of_records = Keeps-bind _ _ (target_map-Same t) (λ _. Keeps-pure _)
    exists_as-Same t list_of_records = Keeps-bind _ _ (target_list-Same t) (λ _. Keeps-pure _)
    exists_as-Same t (RecordType.other kind) = Keeps-raise _

    pub record_exists-Same :
        (def : Option Definition) (key : Option Key) → Same (record_exists d stored_only def key)
    unfolding record_exists target_exists
    record_exists-Same def key =
        Keeps-bind _ _ (Keeps-lift _) (λ t. exists_as-Same t t.file.record_type)

  in_file-Same :
      (p : CollectionInfo) (file : RecordFile) (key : String) (k : RecordType)
      → Same (target_in_file_as d p file key k)
  unfolding target_in_file_as
  in_file-Same p file key single_record = Keeps-bind _ _ (single-Same _ _) (λ _. Keeps-pure _)
  in_file-Same p file key map_of_records =
      Keeps-bind _ _ (Keeps-bind _ _ (map-Same _ _) (λ _. Keeps-pure _)) (λ _. Keeps-pure _)
  in_file-Same p file key list_of_records = Keeps-raise _
  in_file-Same p file key (RecordType.other t) = Keeps-raise _

  pub target_exists-Same :
      (p : CollectionInfo) (key : String) → Same (foreign_key_target_exists d p key)
  unfolding foreign_key_target_exists
  target_exists-Same p key = elim (Option-cases p.record_file) [
    | inl e ↦ rw (e, foreign_key_target_exists) (Keeps-raise _)
    | inr (file, e) ↦ elim (Result-cases (validate_record_file_key d.lib d.rt d.goos p file key)) [
      | inl (u, valid) ↦
          rw (e, valid, foreign_key_target_exists) (in_file-Same p file key file.record_type)
      | inr (w, invalid) ↦ rw (e, invalid, foreign_key_target_exists) (Keeps-pure _)
    ]
  ]

  found-Same : (key : String) (b : Bool) → Same (require_found d key b)
  found-Same key true = Keeps-pure _
  found-Same key false = Keeps-raise _

  target-Same : (p : CollectionInfo) (key : String) → Same (require_target d p key)
  unfolding require_target
  target-Same p key =
      Keeps-bind _ _
        (Keeps-map_result (wrap_error (wrapped "foreign key lookup failed")) _
          (target_exists-Same p key))
        (found-Same key)

  targets-Same : (p : CollectionInfo) (keys : List String) → Same (require_targets d p keys)
  unfolding require_targets
  targets-Same p [] = Keeps-pure _
  targets-Same p (key ∷ keys) = Keeps-bind _ _ (target-Same p key) (λ _. targets-Same p keys)

  keys-Same :
      (def : Definition) (c : ColumnDef) (field : String) (ks : List String × List Error)
      → Same (check_keys d def c field ks)
  keys-Same def c field (keys, e ∷ es) = Keeps-raise _
  keys-Same def c field ([], []) = Keeps-if c.required _ _ (Keeps-raise _) (Keeps-pure _)
  keys-Same def c field (key ∷ keys, []) =
      Keeps-bind _ _ (Keeps-lift _) (λ p. targets-Same p (key ∷ keys))

  checks-Same :
      (def : Definition) (child : CollectionInfo) (fields : List String) (data' : Fields)
      → Same (check_foreign_keys d def child fields data')
  unfolding check_foreign_keys
  checks-Same def child [] data' = Keeps-pure _
  checks-Same def child (f ∷ fields) data' =
      Keeps-bind _ _
        (keys-Same def (column child f) f
          (d.lib.foreign_key_elements (or_null (get_field f data'))))
        (λ _. checks-Same def child fields data')

  pub stored_checks-Same :
      (def : Definition) (child : CollectionInfo) (data' : Fields)
      → Same (validate_write_foreign_keys d def child data')
  unfolding validate_write_foreign_keys
  stored_checks-Same def child data' = checks-Same def child _ data'

  computed-Same :
      (def : Definition) (c : ColumnDef) (data' : Fields) → Same (check_computed d def c data')
  computed-Same def c data' =
      Keeps-if (c.foreign_key == "") _ _ (Keeps-pure _)
        (Keeps-bind _ _ (Keeps-lift _) (λ r. Keeps-bind _ _ (Keeps-lift _) (λ p. target-Same p _)))

  computed_all-Same :
      (def : Definition) (child : CollectionInfo) (fields : List String) (data' : Fields)
      → Same (check_computed_foreign_keys d def child fields data')
  unfolding check_computed_foreign_keys
  computed_all-Same def child [] data' = Keeps-pure _
  computed_all-Same def child (f ∷ fields) data' =
      Keeps-bind _ _ (computed-Same def (column child f) data')
        (λ _. computed_all-Same def child fields data')

  pub computed_checks-Same :
      (def : Definition) (child : CollectionInfo) (data' : Fields)
      → Same (validate_computed_write_foreign_keys d def child data')
  unfolding validate_computed_write_foreign_keys
  computed_checks-Same def child data' = computed_all-Same def child _ data'

  pub validate_write-Same :
      (def : Definition) (child : CollectionInfo) (data' : Fields)
      → Same (validate_write d def child data')
  unfolding validate_write
  validate_write-Same def child data' = Keeps-bind _ _ (Keeps-lift _) (λ _.
      Keeps-bind _ _ (stored_checks-Same def child data')
        (λ _. computed_checks-Same def child data'))

  scan_records-Same :
      (refers : Fields → String → Bool) (child : CollectionInfo) (fields : List String)
      (file : Option RecordFile)
      → Same (scan_records d refers child fields file)
  scan_records-Same refers child fields none = Keeps-raise _
  scan_records-Same refers child fields (some file) =
      Keeps-bind _ _
        (Keeps-map_result (wrap_error (wrapped "foreign key scan failed")) _
          (all_records-Kept d content L q v child file))
        (λ _. Keeps-lift _)

  pub scan_child-Same :
      (refers : Fields → String → Bool) (child : CollectionInfo) (fields : List String)
      → Same (scan_child d refers child fields)
  scan_child-Same refers child [] = Keeps-pure _
  scan_child-Same refers child (f ∷ fields) =
      scan_records-Same refers child (f ∷ fields) child.record_file

  pub scan_children-Same :
      (refers : Fields → String → Bool) (fields : CollectionInfo → List String) (def : Definition)
      (ids : List String)
      → Same (scan_children d refers fields def ids)
  unfolding scan_children
  scan_children-Same refers fields def [] = Keeps-pure _
  scan_children-Same refers fields def (id ∷ ids) =
      elim (Option-cases (lookup id def.collections)) [
        | inl e ↦ rw (e, scan_children) (scan_children-Same refers fields def ids)
        | inr (c, e) ↦
            rw (e, scan_children)
              (Keeps-bind _ _ (scan_child-Same refers (info c) (fields (info c)))
                (λ _. scan_children-Same refers fields def ids))
      ]

  pub validate_delete-Same :
      (def : Definition) (parent key : String) → Same (validate_delete d def parent key)
  unfolding validate_delete validate_delete_foreign_keys validate_delete_computed_foreign_keys
  validate_delete-Same def parent key =
      Keeps-bind _ _
        (scan_children-Same (refers_stored d key) (λ c. foreign_key_fields_referencing c parent) def
          _)
        (λ _.
          scan_children-Same (refers_computed d key)
            (λ c. computed_foreign_key_fields_referencing c parent) def _)
