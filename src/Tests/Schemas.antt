-- ===== src/Tests/Schemas.antt =====
-- The theorems on schema_modifier.go and schema_reader.go at concrete schemas.
use dalgo2ingitdb.Base.{
  refl, ◌≡◌, contains, false, true, none, some, [], ◌∷◌, String, ◌==◌, Bool-cases, inl, inr, arith,
  List,
}
use dalgo2ingitdb.Base.Dict.{lookup, insert, erase}
use dalgo2ingitdb.Base.Value.{pos, Value, string}
use dalgo2ingitdb.Base.Result.{Result, ok, err, failure, is_ok}
use dalgo2ingitdb.Schema.{ColumnType, CollectionInfo}
use dalgo2ingitdb.TypeMapping.{DbType, dbschema_type_to_ingitdb}
use dalgo2ingitdb.Ddl.{Default, literal, FieldDef, JsonValue, Dbschema, CollectionDef}
use dalgo2ingitdb.Ddl.Build.{
  made_field, default_text, build_fields, Built, source_of, default_record_file, new_column,
  build_ingitdb_collection_def,
}
use dalgo2ingitdb.Ddl.Describe.{describe_collection_definition}
use dalgo2ingitdb.Records.{resolve_scoped_collection}
use dalgo2ingitdb.Ddl.Listing.{list_collections, list_collections_iff}
use dalgo2ingitdb.Ddl.RoundTrip.{IsCodec}
use dalgo2ingitdb.Ddl.RoundTrip.Whole.{
  IsPortable, describe_collection_definition-build_ingitdb_collection_def,
}
use dalgo2ingitdb.Ddl.Alter.{
  rename_field, Applied, apply_op, apply_rename_field, rename_key, flushed,
}
use dalgo2ingitdb.Ddl.Alter.Consistency.{IsConsistent, has_column, apply_op-IsConsistent}
use dalgo2ingitdb.Tests.World.{users_info, text_column, simple_lib, simple_runtime, project}

-- No default literals and no source metadata.
abbrev type_names : DbType → String
type_names DbType.bool = "bool"
type_names DbType.int = "int"
type_names DbType.float = "float"
type_names DbType.decimal = "decimal"
type_names DbType.string = "string"
type_names DbType.bytes = "bytes"
type_names DbType.time = "time"
type_names t = "null"

abbrev bare_dbschema : Dbschema
bare_dbschema = record {
  SourceDefinition = Unit {0};
  SourceRight = Unit {0};
  type_string = type_names;
  marshal_default = λ v. err (failure "no default");
  decode_default = λ s. err (failure "no default");
  decode_bytes = λ s. err (failure "no bytes");
  parse_int64 = λ s. ok (pos 0);
  parse_float64 = λ s. ok 0;
  marshal_definition = λ d. "{}";
  decode_definition = λ s. ok tt;
  marshal_rights = λ rs. "[{}]";
  decode_rights = λ s. ok (tt ∷ []);
}

-- A text column `name`, alone in the order.
abbrev one_column : CollectionInfo
one_column = record users_info {
  columns = ("name", some (text_column "")) ∷ [];
  columns_order = "name" ∷ [];
}

abbrev after_rename : Applied
after_rename = record {
  def = record one_column {
    columns = ("title", some (text_column "")) ∷ [];
    columns_order = "title" ∷ [];
  };
  source_fields_updated = false;
  rewrite = some (rename_key "name" "title");
}

one_column-IsConsistent : IsConsistent one_column
unfolding lookup
one_column-IsConsistent name h = elim (Bool-cases ("name" == name)) [
  | inl e ↦ rw (e, has_column) refl
  | inr e ↦ absurd (ground (arith, e, h))
]

apply_op-IsConsistent_example : IsConsistent (flushed after_rename)
unfolding apply_op apply_rename_field lookup insert erase
apply_op-IsConsistent_example =
    apply_op-IsConsistent bare_dbschema (rename_field "name" "title") one_column after_rename
      one_column-IsConsistent refl

-- Texts are the default literals, each encoded as itself.
abbrev text_default : Value → Result String
text_default (string s) = ok s
text_default v = err (failure "no default")

abbrev text_dbschema : Dbschema
text_dbschema = record bare_dbschema {
  marshal_default = text_default;
  decode_default = λ s. ok (JsonValue.string s);
}

text_back :
    (s text : String)
    → text_default (string s) ≡ ok text
    → text_dbschema.decode_default text ≡ ok (JsonValue.string s)
text_back s text h = let same : text ≡ s = cc h in rw same refl

text_dbschema-IsCodec : IsCodec text_dbschema
text_dbschema-IsCodec = record {
  bool_name = refl;
  int_name = refl;
  float_name = refl;
  string_name = refl;
  bytes_name = refl;
  time_name = refl;
  decimal_name = refl;
  null_default = λ text h. cc h;
  bool_default = λ b text h. cc h;
  string_default = text_back;
  int_default = λ n text h. cc h;
  int64_default = λ n text h. cc h;
  float_default = λ x text h. cc h;
  bytes_default = λ bs text h. cc h;
  definitions = λ d. (refl, refl);
}

abbrev price_field : FieldDef
price_field = record {
  name = "price";
  type = DbType.decimal;
  nullable = true;
  auto_increment = false;
  length = pos 0;
  default = literal (string "0");
  precision = some (pos 9, pos 2);
}

abbrev at_field : FieldDef
at_field = record {
  name = "at";
  type = DbType.time;
  nullable = false;
  auto_increment = false;
  length = pos 0;
  default = Default.current_timestamp;
  precision = none;
}

abbrev price_schema : CollectionDef text_dbschema
price_schema = record {
  name = "prices";
  fields = price_field ∷ at_field ∷ [];
  primary_key = "at" ∷ [];
  indexes =
      record { name = "by_price"; collection = "prices"; fields = "price" ∷ []; unique = false }
      ∷ [];
  foreign_keys = [];
  source_definition = some tt;
  source_rights = tt ∷ [];
}

abbrev price_built : Built text_dbschema
price_built = record {
  columns =
      ("price", some (new_column ColumnType.string true))
      ∷ ("at", some (new_column ColumnType.date_time false))
      ∷ [];
  order = "price" ∷ "at" ∷ [];
  sources =
      made_field text_dbschema price_field ("literal", ("0", "string"))
      ∷ made_field text_dbschema at_field ("current-timestamp", ("", ""))
      ∷ [];
}

abbrev price_info : CollectionInfo
price_info = record {
  id = "prices";
  dir_path = "";
  record_file = some default_record_file;
  columns = price_built.columns;
  columns_order = price_built.order;
  primary_key = "at" ∷ [];
  source_schema = some (source_of text_dbschema price_schema price_built.sources);
}

price_schema-IsPortable : IsPortable text_dbschema price_schema
price_schema-IsPortable = record {
  distinct = (refl, (refl, tt));
  no_key = (refl, (refl, tt));
  precise = ((8, refl), (tt, tt));
  keyed = ("at", [], refl);
  own_indexes = (refl, tt);
  rights = (refl, refl);
}

describe_collection_definition-build_ingitdb_collection_def_example :
    describe_collection_definition text_dbschema "prices" price_info ≡ ok price_schema
unfolding build_ingitdb_collection_def build_fields default_text dbschema_type_to_ingitdb insert
describe_collection_definition-build_ingitdb_collection_def_example =
    describe_collection_definition-build_ingitdb_collection_def text_dbschema text_dbschema-IsCodec
      price_schema price_info price_schema-IsPortable refl

list_collections_iff_example :
    (names : List String) × (list_collections (ok project) ≡ ok names)
    × ((name : String)
        → contains names name
          ≡ is_ok (
              resolve_scoped_collection simple_lib simple_runtime "linux" (some project) name none))
list_collections_iff_example = list_collections_iff simple_lib simple_runtime "linux" project
