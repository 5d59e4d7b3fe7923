-- ===== src/Schema.antt =====
-- The definitions of github.com/ingitdb/ingitdb-go/ingitdb that the adapter reads, and the
-- functions of that library as a parameter.
use dalgo2ingitdb.Base.{ℕ, String, Bool, Option, List}
use dalgo2ingitdb.Base.Dict.{Dict}
use dalgo2ingitdb.Base.Value.{ℤ, Value, Fields}
use dalgo2ingitdb.Base.Result.{Error, Result}

-- `ingitdb.ColumnType`, a string type; `other` holds any other spelling
pub data ColumnType : Type 0 where
  string int float bool date time date_time any l10n empty : ColumnType
  other : String → ColumnType

pub record ColumnDef : Type 0 where
  pub type : ColumnType
  pub required : Bool
  pub foreign_key : String
  pub formula : String

pub data RecordType : Type 0 where
  single_record map_of_records list_of_records : RecordType
  other : String → RecordType

pub record RecordFile : Type 0 where
  pub name : String
  pub format : String
  pub record_type : RecordType
  pub csv_cell_encoding : String

-- Metadata of a field of the source that a collection was made from.
pub record SourceField : Type 0 where
  pub name : String
  pub type : String
  pub nullable : Bool
  pub auto_increment : Bool
  pub length : ℤ
  pub default_kind : String
  pub default_json : String
  pub default_type : String
  pub precision : ℤ
  pub scale : ℤ
  pub encoding : String

pub record SourceIndex : Type 0 where
  pub name : String
  pub fields : List String
  pub unique : Bool

pub record SourceForeignKey : Type 0 where
  pub name : String
  pub fields : List String
  pub referenced_collection : String
  pub referenced_namespace : String
  pub referenced_fields : List String
  pub source_enforcement : String
  pub on_update : String
  pub on_delete : String

pub record SourceSchema : Type 0 where
  pub key_mode : String
  pub fields : List SourceField
  pub indexes : List SourceIndex
  pub foreign_keys : List SourceForeignKey
  pub source_definition_json : String
  pub source_rights_json : String

-- A column pointer may be nil.
pub record CollectionInfo : Type 0 where
  pub id : String
  pub dir_path : String
  pub record_file : Option RecordFile
  pub columns : Dict (Option ColumnDef)
  pub columns_order : List String
  pub primary_key : List String
  pub source_schema : Option SourceSchema

mutual
  pub data Collection : Type 0 where
    collection : CollectionInfo → SubCollections → Collection

  pub data SubCollections : Type 0 where
    end : SubCollections
    sub : String → Collection → SubCollections → SubCollections

abbrev pub info : Collection → CollectionInfo
info (collection i subs) = i

abbrev pub sub_collections : Collection → SubCollections
sub_collections (collection i subs) = subs

pub record Definition : Type 0 where
  pub collections : Dict Collection

-- File contents are bytes.
abbrev pub Bytes : Type 0
Bytes = List ℕ

-- The functions of the library that the adapter calls.
pub record Ingitdb : Type 0 where
  pub evaluate_formula : String → Fields → Result Value
  -- the keys of a stored foreign key, and the errors of its elements
  pub foreign_key_elements : Value → List String × List Error
  pub apply_locale_to_read : Fields → Dict (Option ColumnDef) → Fields
  pub apply_locale_to_write : Fields → Dict (Option ColumnDef) → Fields
  pub records_base_path : RecordFile → String
  pub parse_record_content : Bytes → CollectionInfo → Result Fields
  pub encode_record_content : Fields → CollectionInfo → Result Bytes
  pub parse_map_of_records : Bytes → String → Result (Dict Fields)
  pub encode_map_of_records : Dict Fields → String → String → List String → Result Bytes
  pub is_excluded : RecordFile → String → Bool
  pub parse_list_of_records : Bytes → String → Result (List Fields)
  -- the rows of a CSV file, which the collection parser returns under "$records"
  pub parse_csv_records : Bytes → CollectionInfo → Result (List Fields)
  pub resolve_list_record_key : Fields → CollectionInfo → Option String
