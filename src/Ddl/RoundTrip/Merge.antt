-- ===== src/Ddl/RoundTrip/Merge.antt =====
-- The metadata of the sources, merged into the described fields (schema_reader.go), give back the
-- fields that they were made from.
use mathlib.Core.Path.{subst}
use dalgo2ingitdb.Base.{
  ℕ, suc, String, ◌≡◌, refl, sym, ap, ◌∙◌, true, Option, none, some, List, [], ◌∷◌, All, arith, eqb,
  eq_refl, Option-cases, inl, inr,
}
use dalgo2ingitdb.Base.Value.{ℤ, pos, int, int64, float64, Value, integer, floating, string, bytes}
use dalgo2ingitdb.Base.Result.{Result, ok, ◌>>=◌, >>=-eq-ok}
use dalgo2ingitdb.Schema.{ColumnType, SourceField}
use dalgo2ingitdb.TypeMapping.{DbType, dbschema_type_to_ingitdb}
use dalgo2ingitdb.Ddl.{
  Default, no_default, current_timestamp, literal, FieldDef, JsonValue, Dbschema,
}
use dalgo2ingitdb.Ddl.Build.{
  DefaultText, default_text, literal_type, made_field, total_of, scale_of,
}
use dalgo2ingitdb.Ddl.Describe.{
  source_field_type, source_type, literal_of, read_default, merge_source, merge_sources,
  position_of, names_match, precision_of,
}
use dalgo2ingitdb.Ddl.RoundTrip.Fields.{NamesMatch, IsPlaced}
use dalgo2ingitdb.Ddl.RoundTrip.{IsCodec, IsMade}

-- No precision, or one with a positive total; a total of 0 is not kept.
abbrev pub IsPrecise : Option (ℤ × ℤ) → Type 0
IsPrecise none = Unit
IsPrecise (some (total, scale)) = (n : ℕ) × (total ≡ pos (suc n))

precision_back : (p : Option (ℤ × ℤ)) → IsPrecise p → precision_of (total_of p) (scale_of p) ≡ p
precision_back none h = refl
precision_back (some (total, scale)) (n, e) = rw e refl

same_text : {a b : DefaultText} → ok a ≡ ok b → a ≡ b
same_text h = cc h

pub then_ok :
    {A B : Type 0} {a : A} {end : Result B} (r : Result A) (next : A → Result B)
    → r ≡ ok a
    → next a ≡ end
    → (r >>= next) ≡ end
then_ok r next h k = ap (λ x. x >>= next) h ∙ k

eqb_refl : (i : ℕ) → eqb i i ≡ true
eqb_refl i = ground arith

same_name : {a b : String} → some a ≡ some b → b ≡ a
same_name h = cc h

module _ (db : Dbschema) (codec : IsCodec db) where
  -- The name of a type that has a column type is read back as that type.
  source_type-type_string :
      (t : DbType) (type : ColumnType)
      → dbschema_type_to_ingitdb t ≡ ok type
      → source_type db (db.type_string t) ≡ ok t
  unfolding dbschema_type_to_ingitdb source_field_type
  source_type-type_string DbType.bool type h = rw codec.bool_name refl
  source_type-type_string DbType.int type h = rw codec.int_name refl
  source_type-type_string DbType.float type h = rw codec.float_name refl
  source_type-type_string DbType.decimal type h = rw codec.decimal_name refl
  source_type-type_string DbType.string type h = rw codec.string_name refl
  source_type-type_string DbType.bytes type h = rw codec.bytes_name refl
  source_type-type_string DbType.time type h = rw codec.time_name refl
  source_type-type_string DbType.null type h = cc h
  source_type-type_string (DbType.other n) type h = cc h

  -- What a literal of each Go type is decoded as.
  literal_of-literal_type :
      (v : Value) (type text : String)
      → literal_type v ≡ some type
      → db.marshal_default v ≡ ok text
      → (value : JsonValue) × (db.decode_default text ≡ ok value)
        × (literal_of db type text value ≡ ok v)
  literal_of-literal_type Value.null type text h m =
      (JsonValue.null, codec.null_default text m, rw (same_name h) refl)
  literal_of-literal_type (Value.bool b) type text h m =
      (JsonValue.bool b, codec.bool_default b text m, rw (same_name h) refl)
  literal_of-literal_type (string s) type text h m =
      (JsonValue.string s, codec.string_default s text m, rw (same_name h) refl)
  literal_of-literal_type (integer int n) type text h m =
      let (digits, d, p) = codec.int_default n text m in
      (JsonValue.number digits, d, rw (same_name h, p) refl)
  literal_of-literal_type (integer int64 n) type text h m =
      let (digits, d, p) = codec.int64_default n text m in
      (JsonValue.number digits, d, rw (same_name h, p) refl)
  literal_of-literal_type (floating float64 x) type text h m =
      let (digits, d, p) = codec.float_default x text m in
      (JsonValue.number digits, d, rw (same_name h, p) refl)
  literal_of-literal_type (bytes bs) type text h m =
      let ((value, d), p) = codec.bytes_default bs text m in (value, d, rw (same_name h, p) refl)
  literal_of-literal_type v type text h m = cc h

  read_literal :
      (v : Value) (type : String) (text : DefaultText)
      → literal_type v ≡ some type
      → (db.marshal_default v >>= λ json. ok ("literal", (json, type))) ≡ ok text
      → read_default db text.0 text.1.0 text.1.1 ≡ ok (literal v)
  unfolding read_default
  read_literal v type text e h =
      let (json, m, made) =
        >>=-eq-ok (db.marshal_default v) (λ json. ok ("literal", (json, type))) h in
      let (value, d, l) = literal_of-literal_type v type json e m in
      let same : ("literal", (json, type)) ≡ text = cc made in
      subst (λ t. read_default db t.0 t.1.0 t.1.1 ≡ ok (literal v)) same (rw (d, l) refl)

  -- A default that was written is read back.
  read_default_text :
      (d : Default) (text : DefaultText)
      → default_text db d ≡ ok text
      → read_default db text.0 text.1.0 text.1.1 ≡ ok d
  unfolding default_text read_default
  read_default_text no_default text h =
      subst (λ t. read_default db t.0 t.1.0 t.1.1 ≡ ok no_default) (same_text h) refl
  read_default_text current_timestamp text h =
      subst (λ t. read_default db t.0 t.1.0 t.1.1 ≡ ok current_timestamp) (same_text h) refl
  read_default_text (literal v) text h = elim (Option-cases (literal_type v)) [
    | inl e ↦ absurd (let h' = rw (e, default_text) at h in ground arith)
    | inr (type, e) ↦ read_literal v type text e (rw (e, default_text) at h)
  ]
  read_default_text Default.other text h = cc h

  merge_source-made_field :
      (f g : FieldDef) (type : ColumnType) (text : DefaultText)
      → dbschema_type_to_ingitdb f.type ≡ ok type
      → default_text db f.default ≡ ok text
      → g.name ≡ f.name
      → IsPrecise f.precision
      → merge_source db (made_field db f text) g ≡ ok f
  unfolding merge_source
  merge_source-made_field f g type text typed written same precise =
      let typed' : source_type db (db.type_string f.type) ≡ ok f.type =
        source_type-type_string f.type type typed in
      then_ok (source_type db (db.type_string f.type)) _ typed' (
        then_ok (read_default db text.0 text.1.0 text.1.1) _
          (read_default_text f.default text written)
          (rw (same, precision_back f.precision precise) refl))

  pub names_match-IsMade :
      (fs gs : List FieldDef) (ss : List SourceField)
      → IsMade db fs ss
      → NamesMatch fs gs
      → names_match ss gs ≡ true
  unfolding names_match
  names_match-IsMade [] [] [] m n = refl
  names_match-IsMade [] [] (s ∷ ss) m n = elim m [ ]
  names_match-IsMade [] (g ∷ gs) ss m n = elim n [ ]
  names_match-IsMade (f ∷ fs) [] ss m n = elim n [ ]
  names_match-IsMade (f ∷ fs) (g ∷ gs) [] m n = elim m [ ]
  names_match-IsMade (f ∷ fs) (g ∷ gs) (s ∷ ss) (typed, (text, written, e), m) (n, ns) =
      let named : s.name ≡ g.name = ap (λ x. x.name) e ∙ sym n in
      rw (named, eq_refl g.name, names_match-IsMade fs gs ss m ns) refl

  pub merge_sources-IsMade :
      (all : List FieldDef) (i : ℕ) (fs gs : List FieldDef) (ss : List SourceField)
      → IsMade db fs ss
      → NamesMatch fs gs
      → IsPlaced all i gs
      → All (λ f. IsPrecise f.precision) fs
      → merge_sources db all i ss gs ≡ ok fs
  unfolding merge_sources
  merge_sources-IsMade all i [] [] [] m n p q = refl
  merge_sources-IsMade all i [] [] (s ∷ ss) m n p q = elim m [ ]
  merge_sources-IsMade all i [] (g ∷ gs) ss m n p q = elim n [ ]
  merge_sources-IsMade all i (f ∷ fs) [] ss m n p q = elim n [ ]
  merge_sources-IsMade all i (f ∷ fs) (g ∷ gs) [] m n p q = elim m [ ]
  merge_sources-IsMade all i (f ∷ fs) (g ∷ gs) (s ∷ ss) ((type, typed), (text, written, e), m)
        (n, ns) (p, ps) (q, qs) =
      let named : s.name ≡ g.name = ap (λ x. x.name) e ∙ sym n in
      let placed : position_of 0 s.name all ≡ some i = ap (λ x. position_of 0 x all) named ∙ p in
      let merged : merge_source db s g ≡ ok f =
        ap (λ x. merge_source db x g) e ∙ merge_source-made_field f g type text typed written n q in
      rw (placed, eqb_refl i, merged, merge_sources-IsMade all (suc i) fs gs ss m ns ps qs) refl
