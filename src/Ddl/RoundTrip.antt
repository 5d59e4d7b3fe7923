-- ===== src/Ddl/RoundTrip.antt =====
-- A portable schema comes back from the definition that it is written as: buildIngitdbCollectionDef
-- of schema_modifier.go and describeCollectionDefinition of schema_reader.go.
pub mod Fields
pub mod Merge
pub mod Whole
use mathlib.Core.Path.{subst}
use dalgo2ingitdb.Base.{
  ℕ, zero, suc, String, ◌==◌, ◌≡◌, refl, sym, ap, ◌∙◌, Bool, true, false, not, ◌&&◌, ◌||◌, Option,
  none, some, List, [], ◌∷◌, map, contains, All, arith, eq_iff, eq_refl, Bool-cases, inl, inr,
  if◌then◌else◌,
}
use dalgo2ingitdb.Base.Dict.{Dict, lookup, insert, lookup-insert}
use dalgo2ingitdb.Base.Value.{ℤ, int, int64, float64, Value, integer, floating, string, bytes}
use dalgo2ingitdb.Base.Result.{Error, failure, wrapped, Result, ok, err, ◌>>=◌, >>=-eq-ok}
use dalgo2ingitdb.Disk.Action.{wrap_error, wrap_error-ok}
use dalgo2ingitdb.Schema.{ColumnType, ColumnDef, SourceField}
use dalgo2ingitdb.TypeMapping.{DbType, dbschema_type_to_ingitdb, ingitdb_type_to_dbschema}
use dalgo2ingitdb.Ddl.{
  Default, no_default, current_timestamp, literal, FieldDef, JsonValue, Dbschema,
}
use dalgo2ingitdb.Ddl.Build.{
  new_column, DefaultText, default_text, literal_type, made_field, Built, build_fields, total_of,
  scale_of,
}
use dalgo2ingitdb.Ddl.Describe.{pk_field_name}

abbrev pub names : List FieldDef → List String
names [] = []
names (f ∷ fs) = f.name ∷ names fs

abbrev pub Distinct : List String → Type 0
Distinct [] = Unit
Distinct (n ∷ ns) = (contains ns n ≡ false) × Distinct ns

-- What `Type.String()` of dbschema is documented to print, and what encoding/json and strconv
-- promise of each Go type: a value that was encoded is decoded as JSON of its kind.
pub record IsCodec (db : Dbschema) : Type 0 where
  pub bool_name : db.type_string DbType.bool ≡ "bool"
  pub int_name : db.type_string DbType.int ≡ "int"
  pub float_name : db.type_string DbType.float ≡ "float"
  pub string_name : db.type_string DbType.string ≡ "string"
  pub bytes_name : db.type_string DbType.bytes ≡ "bytes"
  pub time_name : db.type_string DbType.time ≡ "time"
  pub decimal_name : db.type_string DbType.decimal ≡ "decimal"
  pub null_default :
      (text : String)
      → db.marshal_default Value.null ≡ ok text
      → db.decode_default text ≡ ok JsonValue.null
  pub bool_default :
      (b : Bool) (text : String)
      → db.marshal_default (Value.bool b) ≡ ok text
      → db.decode_default text ≡ ok (JsonValue.bool b)
  pub string_default :
      (s text : String)
      → db.marshal_default (string s) ≡ ok text
      → db.decode_default text ≡ ok (JsonValue.string s)
  pub int_default :
      (n : ℤ) (text : String)
      → db.marshal_default (integer int n) ≡ ok text
      → (digits : String) × (db.decode_default text ≡ ok (JsonValue.number digits))
        × (db.parse_int64 digits ≡ ok n)
  pub int64_default :
      (n : ℤ) (text : String)
      → db.marshal_default (integer int64 n) ≡ ok text
      → (digits : String) × (db.decode_default text ≡ ok (JsonValue.number digits))
        × (db.parse_int64 digits ≡ ok n)
  pub float_default :
      (x : ℕ) (text : String)
      → db.marshal_default (floating float64 x) ≡ ok text
      → (digits : String) × (db.decode_default text ≡ ok (JsonValue.number digits))
        × (db.parse_float64 digits ≡ ok x)
  pub bytes_default :
      (bs : List ℕ) (text : String)
      → db.marshal_default (bytes bs) ≡ ok text
      → ((value : JsonValue) × (db.decode_default text ≡ ok value)) × (db.decode_bytes text ≡ ok bs)
  pub definitions :
      (d : db.SourceDefinition)
      → ((db.marshal_definition d == "") ≡ false)
        × (db.decode_definition (db.marshal_definition d) ≡ ok d)

-- The rights of a schema are decoded as they were encoded.
abbrev pub AreReadBack : (db : Dbschema) → List db.SourceRight → Type 0
AreReadBack db [] = Unit
AreReadBack db (r ∷ rs) =
    ((db.marshal_rights (r ∷ rs) == "") ≡ false)
    × (db.decode_rights (db.marshal_rights (r ∷ rs)) ≡ ok (r ∷ rs))

-- A column of the right type under the name of a field.
abbrev pub HasColumn : Dict (Option ColumnDef) → FieldDef → Type 0
HasColumn columns f =
    (type : ColumnType) × (dbschema_type_to_ingitdb f.type ≡ ok type)
    × (lookup f.name columns ≡ some (some (new_column type f.nullable)))

pub both_false : (a b : Bool) → (a || b) ≡ false → (a ≡ false) × (b ≡ false)
both_false false b h = (refl, h)
both_false true b h = cc h

module _ (db : Dbschema) where
  -- The sources that the fields were written as.
  abbrev pub IsMade : List FieldDef → List SourceField → Type 0
  IsMade [] [] = Unit
  IsMade (f ∷ fs) (s ∷ ss) =
      ((type : ColumnType) × (dbschema_type_to_ingitdb f.type ≡ ok type))
      × ((text : DefaultText) × (default_text db f.default ≡ ok text) × (s ≡ made_field db f text))
      × IsMade fs ss
  IsMade [] (s ∷ ss) = ⊥
  IsMade (f ∷ fs) [] = ⊥

  pub record IsBuilt (fs : List FieldDef) (columns : Dict (Option ColumnDef)) (b : Built db)
      : Type 0 where
    pub made : IsMade fs b.sources
    pub ordered : b.order ≡ names fs
    pub kept :
        (name : String)
        → contains (names fs) name ≡ false
        → lookup name b.columns ≡ lookup name columns
    pub there : Distinct (names fs) → All (HasColumn b.columns) fs

  step-IsBuilt :
      (columns : Dict (Option ColumnDef)) (f : FieldDef) (fs : List FieldDef) (type : ColumnType)
      (text : DefaultText) (rest : Built db)
      → dbschema_type_to_ingitdb f.type ≡ ok type
      → default_text db f.default ≡ ok text
      → IsBuilt fs (insert f.name (some (new_column type f.nullable)) columns) rest
      → IsBuilt (f ∷ fs) columns (record {
        columns = rest.columns;
        order = f.name ∷ rest.order;
        sources = made_field db f text ∷ rest.sources;
      })
  step-IsBuilt columns f fs type text rest typed written ih = record {
    made = ((type, typed), (text, written, refl), ih.made);
    ordered = ap (◌∷◌ f.name) ih.ordered;
    kept = λ n k.
        let (other, k') = both_false (f.name == n) (contains (names fs) n) k in
        ih.kept n k'
        ∙ lookup-insert f.name n (some (new_column type f.nullable)) columns
        ∙ rw other refl;
    there = λ d. (
      (
        type,
        typed,
        ih.kept f.name d.0
            ∙ lookup-insert f.name f.name (some (new_column type f.nullable)) columns
            ∙ rw (eq_refl f.name) refl,
      ),
      ih.there d.1,
    );
  }

  pub build_fields-IsBuilt :
      (columns : Dict (Option ColumnDef)) (fs : List FieldDef) (b : Built db)
      → build_fields db columns fs ≡ ok b
      → IsBuilt fs columns b
  unfolding build_fields
  build_fields-IsBuilt columns [] b h =
      let same : record { columns = columns; order = []; sources = [] } ≡ b = cc h in
      subst (IsBuilt [] columns) same
        (record { made = tt; ordered = refl; kept = λ n k. refl; there = λ d. tt })
  build_fields-IsBuilt columns (f ∷ fs) b h =
      let (type, e₁, h₁) =
        >>=-eq-ok (wrap_error (wrapped "field") (dbschema_type_to_ingitdb f.type)) _ h in
      let (text, e₂, h₂) =
        >>=-eq-ok (wrap_error (wrapped "field default") (default_text db f.default)) _ h₁ in
      let (rest, e₃, h₃) =
        >>=-eq-ok (build_fields db (insert f.name (some (new_column type f.nullable)) columns) fs) _
          h₂ in
      let ih =
        build_fields-IsBuilt (insert f.name (some (new_column type f.nullable)) columns) fs rest
          e₃ in
      let typed = wrap_error-ok (wrapped "field") (dbschema_type_to_ingitdb f.type) e₁ in
      let written = wrap_error-ok (wrapped "field default") (default_text db f.default) e₂ in
      subst (IsBuilt (f ∷ fs) columns) (cc h₃)
        (step-IsBuilt columns f fs type text rest typed written ih)
