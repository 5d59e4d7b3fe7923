-- ===== src/Ddl/Describe.antt =====
-- schema_reader.go, describeCollectionDefinition: a native definition as a portable schema.
use dalgo2ingitdb.Base.{
  ℕ, suc, String, Bool, true, false, not, ◌&&◌, ◌||◌, ◌==◌, eqb, Option, none, some, List, [], ◌∷◌,
  length, map, if◌then◌else◌,
}
use dalgo2ingitdb.Base.Dict.{Dict, lookup, keys}
use dalgo2ingitdb.Base.Sort.{sort_strings}
use dalgo2ingitdb.Base.Value.{ℤ, pos, int, int64, float64, Value, integer, floating, string, bytes}
use dalgo2ingitdb.Base.Result.{failure, quoted, wrapped, Result, ok, err, ◌>>=◌, ◌>>◌}
use dalgo2ingitdb.Disk.Action.{wrap_error}
use dalgo2ingitdb.Schema.{
  ColumnDef, SourceField, SourceIndex, SourceForeignKey, SourceSchema, CollectionInfo, RecordFile,
}
use dalgo2ingitdb.TypeMapping.{DbType, ingitdb_type_to_dbschema}
use dalgo2ingitdb.Ddl.{
  Default, no_default, current_timestamp, literal, FieldDef, IndexDef, ForeignKeyDef, JsonValue,
  Dbschema, CollectionDef,
}

abbrev pub pk_field_name : String
pk_field_name = "$key"

abbrev pub or_sorted : List String → Dict (Option ColumnDef) → List String
or_sorted [] columns = sort_strings (keys columns)
or_sorted (name ∷ names) columns = name ∷ names

-- The transport key of an imported typed CSV file is no field.
abbrev pub is_typed_csv : Option RecordFile → Option SourceSchema → Bool
is_typed_csv (some file) (some schema) =
    file.format == "csv" && file.csv_cell_encoding == "json-v1" && not (schema.key_mode == "")
is_typed_csv file schema = false

unfoldable pub source_field_type : String → Option DbType
source_field_type name =
    if name == "bool"
    then some DbType.bool
    else if name == "int"
    then some DbType.int
    else if name == "float"
    then some DbType.float
    else if name == "string"
    then some DbType.string
    else if name == "bytes"
    then some DbType.bytes
    else if name == "time"
    then some DbType.time
    else if name == "decimal"
    then some DbType.decimal
    else none

-- A column that is nil makes the source panic.
abbrev pub described_field : String → Option (Option ColumnDef) → Result FieldDef
described_field name none = err (quoted "columns_order references unknown column" name)
described_field name (some none) = err (quoted "nil column" name)
described_field name (some (some col)) =
    wrap_error (wrapped "field") (ingitdb_type_to_dbschema col.type) >>= λ type. ok (record {
      name = name;
      type = type;
      nullable = not col.required;
      auto_increment = false;
      length = pos 0;
      default = no_default;
      precision = none;
    })

unfoldable pub describe_fields :
    Bool → Dict (Option ColumnDef) → List String → Result (List FieldDef)
unfolding lookup ingitdb_type_to_dbschema
describe_fields typed_csv columns [] = ok []
describe_fields typed_csv columns (name ∷ names) =
    let rest = describe_fields typed_csv columns names in
    if name == "$ID" && typed_csv
    then rest
    else if name == pk_field_name
    then rest
    else (described_field name (lookup name columns) >>= λ f. rest >>= λ fs. ok (f ∷ fs))

unfoldable pub names_match : List SourceField → List FieldDef → Bool
names_match [] [] = true
names_match (s ∷ ss) (f ∷ fs) = let rest = names_match ss fs in s.name == f.name && rest
names_match ss fs = false

-- The last position of a name, as the map of positions has it.
unfoldable pub position_of : ℕ → String → List FieldDef → Option ℕ
position_of i name [] = none
position_of i name (f ∷ fs) = elim (position_of (suc i) name fs) [
  | some j ↦ some j
  | none ↦ if f.name == name then some i else none
]

abbrev pub precision_of : ℤ → ℤ → Option (ℤ × ℤ)
precision_of (pos (suc total)) scale = some (pos (suc total), scale)
precision_of total scale = none

module _ (db : Dbschema) where
  -- A default literal by its Go type; a number is converted, and the others have to have the type.
  abbrev pub literal_of : String → String → JsonValue → Result Value
  literal_of type json value =
      if type == "[]uint8"
      then (db.decode_bytes json >>= λ bs. ok (bytes bs))
      else if type == "int"
      then elim value [
        | JsonValue.number n ↦ db.parse_int64 n >>= λ i. ok (integer int i)
        | _ ↦ err (failure "integer default is not numeric")
      ]
      else if type == "int64"
      then elim value [
        | JsonValue.number n ↦ db.parse_int64 n >>= λ i. ok (integer int64 i)
        | _ ↦ err (failure "integer default is not numeric")
      ]
      else if type == "<nil>"
      then elim value [ JsonValue.null ↦ ok Value.null | _ ↦ err (failure "nil default has value") ]
      else if type == "string"
      then elim value [
        | JsonValue.string s ↦ ok (string s)
        | _ ↦ err (failure "string default is not a string")
      ]
      else if type == "bool"
      then elim value [
        | JsonValue.bool b ↦ ok (Value.bool b)
        | _ ↦ err (failure "bool default is not a bool")
      ]
      else if type == "float64"
      then elim value [
        | JsonValue.number n ↦ db.parse_float64 n >>= λ x. ok (floating float64 x)
        | _ ↦ err (failure "float default is not numeric")
      ]
      else err (quoted "unknown default literal type" type)

  unfoldable pub read_default : String → String → String → Result Default
  read_default kind json type =
      if kind == ""
      then ok no_default
      else if kind == "current-timestamp"
      then ok current_timestamp
      else if kind == "literal"
      then (db.decode_default json >>= λ value. literal_of type json value >>= λ v. ok (literal v))
      else err (quoted "unknown default kind" kind)

  abbrev pub source_type : String → Result DbType
  source_type name = elim (source_field_type name) [
    | some t ↦ ok t
    | none ↦ err (quoted "unsupported source type" name)
  ]

  -- A field with the metadata of its source.
  unfoldable pub merge_source : SourceField → FieldDef → Result FieldDef
  unfolding source_field_type read_default
  merge_source s f = do
    type ← source_type s.type
    default ← read_default s.default_kind s.default_json s.default_type
    ok (record {
      name = f.name;
      type = type;
      nullable = s.nullable;
      auto_increment = s.auto_increment;
      length = s.length;
      default = default;
      precision = precision_of s.precision s.scale;
    })

  abbrev pub check_position : ℕ → String → Option ℕ → Result (Unit {0})
  check_position i name none = err (quoted "source schema field missing from columns" name)
  check_position i name (some j) =
      if eqb j i then ok tt else err (quoted "source schema field out of order" name)

  -- As many sources as fields.
  unfoldable pub merge_sources :
      List FieldDef → ℕ → List SourceField → List FieldDef → Result (List FieldDef)
  unfolding merge_source position_of
  merge_sources all i (s ∷ ss) (f ∷ fs) = do
    check_position i s.name (position_of 0 s.name all)
    merged ← merge_source s f
    rest ← merge_sources all (suc i) ss fs
    ok (merged ∷ rest)
  merge_sources all i ss fs = ok fs

  abbrev pub is_strict : SourceSchema → Bool
  is_strict schema = not (schema.key_mode == "")

  unfoldable pub source_fields : SourceSchema → List FieldDef → Result (List FieldDef)
  unfolding merge_sources names_match
  source_fields schema fields =
      if is_strict schema && not (eqb (length schema.fields) (length fields))
      then err (failure "source schema fields do not match columns")
      else if is_strict schema || names_match schema.fields fields
      then merge_sources fields 0 schema.fields fields
      else ok fields

  abbrev pub index_of_source : String → SourceIndex → IndexDef
  index_of_source name idx = record {
    name = idx.name;
    collection = name;
    fields = idx.fields;
    unique = idx.unique;
  }

  abbrev pub foreign_key_of_source : SourceForeignKey → ForeignKeyDef
  foreign_key_of_source fk = record {
    name = fk.name;
    fields = fk.fields;
    referenced_collection = fk.referenced_collection;
    referenced_namespace = fk.referenced_namespace;
    referenced_fields = fk.referenced_fields;
    enforcement = fk.source_enforcement;
    on_update = fk.on_update;
    on_delete = fk.on_delete;
  }

  abbrev pub read_definition : String → Result (Option db.SourceDefinition)
  read_definition text =
      if text == ""
      then ok none
      else (wrap_error (wrapped "source definition") (db.decode_definition text) >>= λ d.
          ok (some d))

  abbrev pub read_rights : String → Result (List db.SourceRight)
  read_rights text =
      if text == "" then ok [] else wrap_error (wrapped "source rights") (db.decode_rights text)

  unfoldable pub primary_key_from_col_def : List String → List String
  primary_key_from_col_def [] = pk_field_name ∷ []
  primary_key_from_col_def (f ∷ fs) = f ∷ fs

  unfoldable pub with_source :
      String → List String → List FieldDef → Option SourceSchema → Result (CollectionDef db)
  unfolding source_fields primary_key_from_col_def
  with_source name pk fields none = ok (record {
    name = name;
    fields = fields;
    primary_key = primary_key_from_col_def pk;
    indexes = [];
    foreign_keys = [];
    source_definition = none;
    source_rights = [];
  })
  with_source name pk fields (some schema) = do
    merged ← source_fields schema fields
    definition ← read_definition schema.source_definition_json
    rights ← read_rights schema.source_rights_json
    ok (record {
      name = name;
      fields = merged;
      primary_key = if schema.key_mode == "export-ordinal" then [] else primary_key_from_col_def pk;
      indexes = map (index_of_source name) schema.indexes;
      foreign_keys = map foreign_key_of_source schema.foreign_keys;
      source_definition = definition;
      source_rights = rights;
    })

  unfoldable pub describe_collection_definition :
      String → CollectionInfo → Result (CollectionDef db)
  unfolding describe_fields with_source
  describe_collection_definition name col = do
    fields ←
        describe_fields (is_typed_csv col.record_file col.source_schema) col.columns
          (or_sorted col.columns_order col.columns)
    with_source name col.primary_key fields col.source_schema
