-- ===== src/ForeignKeys/References.antt =====
-- What validateDeleteForeignKeys and validateDeleteComputedForeignKeys (foreign_keys.go) guarantee
-- of the records of the collections that refer to the parent.
use dalgo2ingitdb.Base.{
  String, ◌==◌, ◌≡◌, ◌≢◌, refl, sym, ap, ◌∙◌, Bool, true, false, Bool-cases, Option, some, inl, inr,
  List, [], ◌∷◌, All, contains, eq_refl,
}
use dalgo2ingitdb.Base.Dict.{Dict, lookup, keys, NodupKeys}
use dalgo2ingitdb.Base.Value.{string, get_field, or_null}
use dalgo2ingitdb.Base.Result.{ok}
use dalgo2ingitdb.Schema.{Bytes, Collection, ColumnDef, CollectionInfo, info, Definition}
use dalgo2ingitdb.Deps.{Deps}
use dalgo2ingitdb.Disk.Laws.{IsLawful}
use dalgo2ingitdb.Disk.Action.{bind-ok}
use dalgo2ingitdb.Columns.{
  ordered_foreign_key_fields, ordered_computed_columns, is_stored_foreign_key, is_computed,
  refers_to, foreign_key_fields_referencing, computed_foreign_key_fields_referencing,
  ordered_collection_ids,
}
use dalgo2ingitdb.Columns.Membership.{
  contains-select, contains-sort_strings, contains-ordered_columns,
}
use dalgo2ingitdb.Readers.Stored.{KeyedStored}
use dalgo2ingitdb.Reading.Frame.{scan_children-Same}
use dalgo2ingitdb.ForeignKeys.{computed_foreign_key_string}
use dalgo2ingitdb.ForeignKeys.Deletion.{
  refers_stored, refers_computed, validate_delete_foreign_keys,
  validate_delete_computed_foreign_keys, validate_delete,
}
use dalgo2ingitdb.ForeignKeys.Scanning.{IsScanned, moved, scan_children-IsScanned}

-- A stored column `name` holds no key of the parent among its elements; a computed one does not
-- come out as the key.
abbrev pub IsFree : (d : Deps) → String → String → Bool → KeyedStored → Type 0
IsFree d key name true rec =
    contains (d.lib.foreign_key_elements (or_null (get_field name rec.stored))).0 key ≡ false
IsFree d key name false rec = get_field name rec.stored ≢ some (string key)

contains-keys {ℓ} :
    {V : Type ℓ} (m : Dict V) (id : String) (c : V)
    → lookup id m ≡ some c
    → contains (keys m) id ≡ true
unfolding lookup keys
contains-keys [] id c h = cc h
contains-keys ((j, v) ∷ m) id c h = elim (Bool-cases (j == id)) [
  | inl same ↦ rw same refl
  | inr other ↦ rw other (contains-keys m id c (rw (other, lookup) at h))
]

module _ (child : CollectionInfo) (parent name : String) (column : ColumnDef)
    (unique : NodupKeys child.columns) (there : lookup name child.columns ≡ some (some column))
    (refers : column.foreign_key ≡ parent) (named : (parent == "") ≡ false) where
  stored_column :
      (column.formula == "") ≡ true
      → contains (foreign_key_fields_referencing child parent) name ≡ true
  unfolding foreign_key_fields_referencing ordered_foreign_key_fields
  stored_column stored =
      contains-select (λ k. refers_to parent (lookup k child.columns))
        (ordered_foreign_key_fields child) name
      ∙ rw
          (
            contains-ordered_columns child is_stored_foreign_key name unique,
            there,
            refers,
            named,
            stored,
            eq_refl parent,
          )
          refl

  computed_column :
      (column.formula == "") ≡ false
      → contains (computed_foreign_key_fields_referencing child parent) name ≡ true
  unfolding computed_foreign_key_fields_referencing ordered_computed_columns
  computed_column computed =
      contains-select (λ k. refers_to parent (lookup k child.columns))
        (ordered_computed_columns child) name
      ∙ rw
          (
            contains-ordered_columns child is_computed name unique,
            there,
            refers,
            computed,
            eq_refl parent,
          )
          refl

refers_computed-IsFree :
    (d : Deps) (key name : String) (rec : KeyedStored)
    → (key == "") ≡ false
    → refers_computed d key rec.stored name ≡ false
    → IsFree d key name false rec
unfolding refers_computed computed_foreign_key_string
refers_computed-IsFree d key name rec k h e =
    let h' = rw (e, refers_computed, k, eq_refl key) at h in cc h'

map-All :
    {A : Type 0} (P Q : A → Type 0) (xs : List A) → ((x : A) → P x → Q x) → All P xs → All Q xs
map-All P Q [] f h = tt
map-All P Q (x ∷ xs) f (p, h) = (f x p, map-All P Q xs f h)

module _ (d : Deps) (content : d.os.State → String → Option Bytes) (L : IsLawful d.os content)
    (def : Definition) (parent key id name : String) (c : Collection) (column : ColumnDef) where
  weaken :
      (P Q : KeyedStored → Type 0) (s : d.os.State)
      → ((rec : KeyedStored) → P rec → Q rec)
      → IsScanned d content L s (info c) P
      → IsScanned d content L s (info c) Q
  weaken P Q s f scanned = record {
    at = scanned.at;
    file = scanned.file;
    records = scanned.records;
    unchanged = scanned.unchanged;
    has_file = scanned.has_file;
    read = scanned.read;
    every = map-All P Q scanned.records f scanned.every;
  }

  -- The check before a deletion accepts only where no record refers to the parent: for each column
  -- of a collection that refers to the parent's collection, stored or computed, the records of that
  -- collection, read while every file is as before the check, hold no reference to the key.
  pub validate_delete-IsFree :
      (s : d.os.State)
      → NodupKeys (info c).columns
      → lookup id def.collections ≡ some c
      → lookup name (info c).columns ≡ some (some column)
      → column.foreign_key ≡ parent
      → (parent == "") ≡ false
      → (key == "") ≡ false
      → (validate_delete d def parent key s).0 ≡ ok tt
      → IsScanned d content L s (info c) (IsFree d key name (column.formula == ""))
  unfolding validate_delete validate_delete_foreign_keys validate_delete_computed_foreign_keys
      ordered_collection_ids refers_stored
  validate_delete-IsFree s unique there has refers named keyed h =
      let listed : contains (ordered_collection_ids def.collections) id ≡ true =
        contains-sort_strings (keys def.collections) id
        ∙ contains-keys def.collections id c there in
      let (u, first, e) = bind-ok (validate_delete_foreign_keys d def parent key) _ s h in
      elim (Bool-cases (column.formula == "")) [
        | inl stored ↦ rw stored (
            scan_children-IsScanned d content L (refers_stored d key)
              (λ x. foreign_key_fields_referencing x parent) def _ id name c s first listed there
              (stored_column (info c) parent name column unique has refers named stored))
        | inr computed ↦
            let s' = (validate_delete_foreign_keys d def parent key s).1 in
            rw computed (
              weaken (λ rec. refers_computed d key rec.stored name ≡ false) _ s
                (λ rec free. refers_computed-IsFree d key name rec keyed free)
                (moved d content L s s' (info c) _
                  (λ q.
                    (scan_children-Same d content L q (content s q) (refers_stored d key)
                        (λ x. foreign_key_fields_referencing x parent) def _).at
                      s refl)
                  (scan_children-IsScanned d content L (refers_computed d key)
                    (λ x. computed_foreign_key_fields_referencing x parent) def _ id name c s'
                    (sym (ap (λ x. x.0) e) ∙ h) listed there
                    (computed_column (info c) parent name column unique has refers named
                      computed))))
      ]
