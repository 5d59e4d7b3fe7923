-- ===== src/Ddl/Build.antt =====
-- schema_modifier.go, buildIngitdbCollectionDef: a portable schema as a native definition.
use dalgo2ingitdb.Base.{String, Bool, not, Option, none, some, List, [], ◌∷◌, map}
use dalgo2ingitdb.Base.Dict.{Dict, insert}
use dalgo2ingitdb.Base.Value.{
  ℤ, pos, int, int64, float64, Value, null, integer, floating, string, bytes,
}
use dalgo2ingitdb.Base.Result.{failure, wrapped, Result, ok, err, ◌>>=◌}
use dalgo2ingitdb.Disk.Action.{wrap_error}
use dalgo2ingitdb.Schema.{
  ColumnType, ColumnDef, SourceField, SourceIndex, SourceForeignKey, SourceSchema, CollectionInfo,
  RecordFile, single_record,
}
use dalgo2ingitdb.TypeMapping.{DbType, dbschema_type_to_ingitdb}
use dalgo2ingitdb.Ddl.{
  Default, no_default, current_timestamp, literal, FieldDef, IndexDef, ForeignKeyDef, Dbschema,
  CollectionDef,
}

abbrev pub default_record_file : RecordFile
default_record_file = record {
  name = "{key}.yaml";
  format = "yaml";
  record_type = single_record;
  csv_cell_encoding = "";
}

abbrev pub new_column : ColumnType → Bool → ColumnDef
new_column type nullable = record {
  type = type;
  required = not nullable;
  foreign_key = "";
  formula = "";
}

abbrev pub source_index : IndexDef → SourceIndex
source_index idx = record { name = idx.name; fields = idx.fields; unique = idx.unique }

abbrev pub source_foreign_key : ForeignKeyDef → SourceForeignKey
source_foreign_key fk = record {
  name = fk.name;
  fields = fk.fields;
  referenced_collection = fk.referenced_collection;
  referenced_namespace = fk.referenced_namespace;
  referenced_fields = fk.referenced_fields;
  source_enforcement = fk.enforcement;
  on_update = fk.on_update;
  on_delete = fk.on_delete;
}

abbrev pub encoding_of : DbType → String
encoding_of DbType.decimal = "decimal-string"
encoding_of DbType.bytes = "base64"
encoding_of t = ""

abbrev pub total_of : Option (ℤ × ℤ) → ℤ
total_of none = pos 0
total_of (some (total, scale)) = total

abbrev pub scale_of : Option (ℤ × ℤ) → ℤ
scale_of none = pos 0
scale_of (some (total, scale)) = scale

-- The kind, the JSON text and the Go type of a default.
abbrev pub DefaultText : Type 0
DefaultText = String × (String × String)

-- The Go types that a default literal may have, by their `%T`.
abbrev pub literal_type : Value → Option String
literal_type null = some "<nil>"
literal_type (integer int n) = some "int"
literal_type (integer int64 n) = some "int64"
literal_type (floating float64 x) = some "float64"
literal_type (string s) = some "string"
literal_type (Value.bool b) = some "bool"
literal_type (bytes bs) = some "[]uint8"
literal_type v = none

module _ (db : Dbschema) where
  unfoldable pub default_text : Default → Result DefaultText
  default_text no_default = ok ("", ("", ""))
  default_text current_timestamp = ok ("current-timestamp", ("", ""))
  default_text (literal v) = elim (literal_type v) [
    | none ↦ err (failure "default literal has unsupported value type")
    | some type ↦ db.marshal_default v >>= λ text. ok ("literal", (text, type))
  ]
  default_text Default.other = err (failure "default has unsupported type")

  abbrev pub made_field : FieldDef → DefaultText → SourceField
  made_field f (kind, (json, type)) = record {
    name = f.name;
    type = db.type_string f.type;
    nullable = f.nullable;
    auto_increment = f.auto_increment;
    length = f.length;
    default_kind = kind;
    default_json = json;
    default_type = type;
    precision = total_of f.precision;
    scale = scale_of f.precision;
    encoding = encoding_of f.type;
  }

  -- The columns, their order, and the metadata of the fields.
  pub record Built : Type 0 where
    pub columns : Dict (Option ColumnDef)
    pub order : List String
    pub sources : List SourceField

  -- One field after another; a later field of the same name takes the place of its column.
  unfoldable pub build_fields : Dict (Option ColumnDef) → List FieldDef → Result Built
  unfolding default_text dbschema_type_to_ingitdb insert
  build_fields columns [] = ok (record { columns = columns; order = []; sources = [] })
  build_fields columns (f ∷ fs) = do
    type ← wrap_error (wrapped "field") (dbschema_type_to_ingitdb f.type)
    text ← wrap_error (wrapped "field default") (default_text f.default)
    rest ← build_fields (insert f.name (some (new_column type f.nullable)) columns) fs
    ok (record {
      columns = rest.columns;
      order = f.name ∷ rest.order;
      sources = made_field f text ∷ rest.sources;
    })

  abbrev pub definition_text : Option db.SourceDefinition → String
  definition_text none = ""
  definition_text (some d) = db.marshal_definition d

  abbrev pub rights_text : List db.SourceRight → String
  rights_text [] = ""
  rights_text (r ∷ rs) = db.marshal_rights (r ∷ rs)

  abbrev pub source_of : CollectionDef db → List SourceField → SourceSchema
  source_of c fields = record {
    key_mode = "";
    fields = fields;
    indexes = map source_index c.indexes;
    foreign_keys = map source_foreign_key c.foreign_keys;
    source_definition_json = definition_text c.source_definition;
    source_rights_json = rights_text c.source_rights;
  }

  unfoldable pub build_ingitdb_collection_def : CollectionDef db → Result CollectionInfo
  unfolding build_fields
  build_ingitdb_collection_def c = do
    built ← build_fields [] c.fields
    ok (record {
      id = c.name;
      dir_path = "";
      record_file = some default_record_file;
      columns = built.columns;
      columns_order = built.order;
      primary_key = c.primary_key;
      source_schema = some (source_of c built.sources);
    })

  abbrev pub with_key_mode : String → Option SourceSchema → Option SourceSchema
  with_key_mode mode none = none
  with_key_mode mode (some s) = some (record s { key_mode = mode })

  abbrev pub key_mode_of : List String → String
  key_mode_of [] = "export-ordinal"
  key_mode_of (f ∷ fs) = "source-primary-key"

  unfoldable pub export_collection_definition : CollectionDef db → Result CollectionInfo
  unfolding build_ingitdb_collection_def
  export_collection_definition c = do
    def ← build_ingitdb_collection_def c
    ok (record def { source_schema = with_key_mode (key_mode_of c.primary_key) def.source_schema })
