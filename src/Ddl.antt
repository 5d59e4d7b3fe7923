-- ===== src/Ddl.antt =====
-- The portable schemas of dbschema and ddl, packages of dalgo, as schema_modifier.go and
-- schema_reader.go exchange them.
pub mod Names
pub mod Build
pub mod Describe
pub mod RoundTrip
pub mod Listing
pub mod Alter
pub mod Create
use dalgo2ingitdb.Base.{ℕ, String, Bool, Option, List}
use dalgo2ingitdb.Base.Value.{ℤ, Value}
use dalgo2ingitdb.Base.Result.{Result}
use dalgo2ingitdb.TypeMapping.{DbType}

-- `dbschema.DefaultExpr`, or nil
pub data Default : Type 0 where
  no_default : Default
  current_timestamp : Default
  literal : Value → Default
  other : Default

pub record FieldDef : Type 0 where
  pub name : String
  pub type : DbType
  pub nullable : Bool
  pub auto_increment : Bool
  pub length : ℤ
  pub default : Default
  -- the total and the scale
  pub precision : Option (ℤ × ℤ)

pub record IndexDef : Type 0 where
  pub name : String
  pub collection : String
  pub fields : List String
  pub unique : Bool

pub record ForeignKeyDef : Type 0 where
  pub name : String
  pub fields : List String
  pub referenced_collection : String
  pub referenced_namespace : String
  pub referenced_fields : List String
  pub enforcement : String
  pub on_update : String
  pub on_delete : String

-- What a decoder of one JSON value with `UseNumber` delivers.
pub data JsonValue : Type 0 where
  null : JsonValue
  bool : Bool → JsonValue
  string : String → JsonValue
  number : String → JsonValue
  other : JsonValue

-- Package dbschema with its source metadata, and encoding/json.
pub record Dbschema : Type 1 where
  pub SourceDefinition : Type 0
  pub SourceRight : Type 0
  -- `Type.String()`
  pub type_string : DbType → String
  pub marshal_default : Value → Result String
  -- one value and nothing behind it
  pub decode_default : String → Result JsonValue
  pub decode_bytes : String → Result (List ℕ)
  pub parse_int64 : String → Result ℤ
  pub parse_float64 : String → Result ℕ
  pub marshal_definition : SourceDefinition → String
  pub decode_definition : String → Result SourceDefinition
  pub marshal_rights : List SourceRight → String
  pub decode_rights : String → Result (List SourceRight)

-- `dbschema.CollectionDef`
pub record CollectionDef (db : Dbschema) : Type 0 where
  pub name : String
  pub fields : List FieldDef
  pub primary_key : List String
  pub indexes : List IndexDef
  pub foreign_keys : List ForeignKeyDef
  pub source_definition : Option db.SourceDefinition
  pub source_rights : List db.SourceRight
