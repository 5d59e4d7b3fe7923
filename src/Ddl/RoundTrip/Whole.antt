-- ===== src/Ddl/RoundTrip/Whole.antt =====
-- buildIngitdbCollectionDef of schema_modifier.go and describeCollectionDefinition of
-- schema_reader.go, one after the other, on a whole schema.
use mathlib.Core.Path.{subst}
use dalgo2ingitdb.Base.{
  String, ◌==◌, ◌≡◌, refl, sym, ap, ◌∙◌, false, Option, none, some, List, [], ◌∷◌, map, All,
}
use dalgo2ingitdb.Base.Dict.{keys}
use dalgo2ingitdb.Base.Sort.{sort_strings}
use dalgo2ingitdb.Base.Result.{ok, >>=-eq-ok}
use dalgo2ingitdb.Schema.{SourceField, CollectionInfo}
use dalgo2ingitdb.Ddl.{FieldDef, IndexDef, ForeignKeyDef, Dbschema, CollectionDef}
use dalgo2ingitdb.Ddl.Build.{
  source_index, source_foreign_key, Built, build_fields, source_of, definition_text, rights_text,
  default_record_file, build_ingitdb_collection_def,
}
use dalgo2ingitdb.Ddl.Describe.{
  or_sorted, describe_fields, source_fields, index_of_source, foreign_key_of_source,
  read_definition, read_rights, primary_key_from_col_def, with_source,
  describe_collection_definition, pk_field_name,
}
use dalgo2ingitdb.Ddl.RoundTrip.{
  names, Distinct, IsCodec, AreReadBack, IsMade, IsBuilt, build_fields-IsBuilt,
}
use dalgo2ingitdb.Ddl.RoundTrip.Fields.{NamesMatch, describe_fields-names, placed}
use dalgo2ingitdb.Ddl.RoundTrip.Merge.{IsPrecise, then_ok, names_match-IsMade, merge_sources-IsMade}

-- What a native definition can hold of a schema: the names of the fields differ, none is that of
-- the key, a precision has a positive total, there is a primary key, and the indexes are of the
-- collection.
pub record IsPortable (db : Dbschema) (c : CollectionDef db) : Type 0 where
  pub distinct : Distinct (names c.fields)
  pub no_key : All (λ f. (f.name == pk_field_name) ≡ false) c.fields
  pub precise : All (λ f. IsPrecise f.precision) c.fields
  pub keyed : (k : String) × (ks : List String) × (c.primary_key ≡ k ∷ ks)
  pub own_indexes : All (λ idx. idx.collection ≡ c.name) c.indexes
  pub rights : AreReadBack db c.source_rights

names_of-NamesMatch : (fs gs : List FieldDef) → NamesMatch fs gs → names gs ≡ names fs
names_of-NamesMatch [] [] m = refl
names_of-NamesMatch (f ∷ fs) (g ∷ gs) (n, m) = rw (n, names_of-NamesMatch fs gs m) refl
names_of-NamesMatch [] (g ∷ gs) m = elim m [ ]
names_of-NamesMatch (f ∷ fs) [] m = elim m [ ]

indexes_back :
    (db : Dbschema) (name : String) (is : List IndexDef)
    → All (λ idx. idx.collection ≡ name) is
    → map (index_of_source db name) (map source_index is) ≡ is
indexes_back db name [] h = refl
indexes_back db name (i ∷ is) (e, h) =
    let back : index_of_source db name (source_index i) ≡ i =
      ap (λ c. record { name = i.name; collection = c; fields = i.fields; unique = i.unique })
        (sym e) in
    rw (back, indexes_back db name is h) refl

foreign_keys_back :
    (db : Dbschema) (ks : List ForeignKeyDef)
    → map (foreign_key_of_source db) (map source_foreign_key ks) ≡ ks
foreign_keys_back db [] = refl
foreign_keys_back db (k ∷ ks) = ap (◌∷◌ k) (foreign_keys_back db ks)

key_back :
    (db : Dbschema) (pk ks : List String) (k : String)
    → pk ≡ k ∷ ks
    → primary_key_from_col_def db pk ≡ pk
unfolding primary_key_from_col_def
key_back db [] ks k h = cc h
key_back db (p ∷ ps) ks k h = refl

same_info : {a b : CollectionInfo} → ok a ≡ ok b → a ≡ b
same_info h = cc h

same_built : {db : Dbschema} {a b : Built db} → ok a ≡ ok b → a ≡ b
same_built h = cc h

module _ (db : Dbschema) (codec : IsCodec db) where
  definition_back :
      (d : Option db.SourceDefinition) → read_definition db (definition_text db d) ≡ ok d
  definition_back none = refl
  definition_back (some d) = let (e, h) = codec.definitions d in rw (e, h) refl

  rights_back :
      (rs : List db.SourceRight) → AreReadBack db rs → read_rights db (rights_text db rs) ≡ ok rs
  rights_back [] h = refl
  rights_back (r ∷ rs) (e, h) = rw (e, h) refl

  -- The fields are described in the order in which they were built.
  order_back :
      (fs : List FieldDef) (b : Built db)
      → build_fields db [] fs ≡ ok b
      → or_sorted b.order b.columns ≡ names fs
  unfolding build_fields sort_strings keys
  order_back [] b h = subst (λ x. or_sorted x.order x.columns ≡ []) (same_built h) refl
  order_back (f ∷ fs) b h =
      ap (λ o. or_sorted o b.columns) (build_fields-IsBuilt db [] (f ∷ fs) b h).ordered

  fields_back :
      (c : CollectionDef db) (gs : List FieldDef) (ss : List SourceField)
      → IsPortable db c
      → IsMade db c.fields ss
      → NamesMatch c.fields gs
      → source_fields db (source_of db c ss) gs ≡ ok c.fields
  unfolding source_fields
  fields_back c gs ss p m n =
      let d = subst Distinct (sym (names_of-NamesMatch c.fields gs n)) p.distinct in
      rw
        (
          names_match-IsMade db codec c.fields gs ss m n,
          merge_sources-IsMade db codec gs 0 c.fields gs ss m n (placed [] gs d) p.precise,
        )
        refl

  abbrev definition_of : CollectionDef db → Built db → CollectionInfo
  definition_of c b = record {
    id = c.name;
    dir_path = "";
    record_file = some default_record_file;
    columns = b.columns;
    columns_order = b.order;
    primary_key = c.primary_key;
    source_schema = some (source_of db c b.sources);
  }

  with_source_back :
      (c : CollectionDef db) (b : Built db) (gs : List FieldDef)
      → IsPortable db c
      → IsBuilt db c.fields [] b
      → NamesMatch c.fields gs
      → with_source db c.name c.primary_key gs (some (source_of db c b.sources)) ≡ ok c
  unfolding with_source
  with_source_back c b gs p built n =
      let (k, ks, e) = p.keyed in
      then_ok (source_fields db (source_of db c b.sources) gs) _
        (fields_back c gs b.sources p built.made n)
        (then_ok (read_definition db (definition_text db c.source_definition)) _
          (definition_back c.source_definition)
          (then_ok (read_rights db (rights_text db c.source_rights)) _
            (rights_back c.source_rights p.rights)
            (rw
              (
                key_back db c.primary_key ks k e,
                indexes_back db c.name c.indexes p.own_indexes,
                foreign_keys_back db c.foreign_keys,
              )
              refl)))

  describe-definition_of :
      (c : CollectionDef db) (b : Built db)
      → IsPortable db c
      → build_fields db [] c.fields ≡ ok b
      → describe_collection_definition db c.name (definition_of c b) ≡ ok c
  unfolding describe_collection_definition
  describe-definition_of c b p e =
      let built = build_fields-IsBuilt db [] c.fields b e in
      let (gs, described, n) =
        describe_fields-names b.columns c.fields (built.there p.distinct) p.no_key in
      let found =
        ap (λ o. describe_fields false b.columns o) (order_back c.fields b e) ∙ described in
      then_ok (describe_fields false b.columns (or_sorted b.order b.columns)) _ found
        (with_source_back c b gs p built n)

  -- A portable schema that has been built as a native definition is described again as it was,
  -- when the types have their documented names, a value encoded as JSON is decoded as JSON of its
  -- kind, the source definition and rights are decoded as they were encoded, the names of the fields
  -- differ and none is that of the key, precisions have a positive total, there is a primary key,
  -- and the indexes are of the collection.
  pub describe_collection_definition-build_ingitdb_collection_def :
      (c : CollectionDef db) (d : CollectionInfo)
      → IsPortable db c
      → build_ingitdb_collection_def db c ≡ ok d
      → describe_collection_definition db c.name d ≡ ok c
  unfolding build_ingitdb_collection_def
  describe_collection_definition-build_ingitdb_collection_def c d p h =
      let (b, e, h') = >>=-eq-ok (build_fields db [] c.fields) _ h in
      subst (λ x. describe_collection_definition db c.name x ≡ ok c) (same_info h')
        (describe-definition_of c b p e)
