-- ===== src/Protected/Definition/Plain.antt =====
-- What a definition that the protected profile accepts does not have (protected.go).
use dalgo2ingitdb.Base.{
  String, ◌≡◌, refl, sym, ap, ◌∙◌, ◌==◌, eq_iff, none, some, List, [], ◌∷◌, arith, Bool-cases, inl,
  inr,
}
use dalgo2ingitdb.Base.Dict.{Dict, lookup}
use dalgo2ingitdb.Base.Result.{ok, >>=-eq-ok}
use dalgo2ingitdb.Schema.{
  ColumnDef, CollectionInfo, Collection, collection, SubCollections, end, sub, Definition,
}
use dalgo2ingitdb.Columns.{Columns, ordered_computed_columns}
use dalgo2ingitdb.Protected.Definition.{
  refuse_foreign_keys, refuse_computed, validate_columns, visit_collection, visit_sub_collections,
  visit_all, validate_protected_definition,
}

-- A collection occurs in another one, itself or below it.
mutual
  pub data Occurs (i : CollectionInfo) : Collection → Type 0 where
    here : {subs : SubCollections} → Occurs i (collection i subs)
    below :
        {j : CollectionInfo} {subs : SubCollections}
        → OccursBelow i subs
        → Occurs i (collection j subs)

  pub data OccursBelow (i : CollectionInfo) : SubCollections → Type 0 where
    first :
        {name : String} {col : Collection} {subs : SubCollections}
        → Occurs i col
        → OccursBelow i (sub name col subs)
    later :
        {name : String} {col : Collection} {subs : SubCollections}
        → OccursBelow i subs
        → OccursBelow i (sub name col subs)

abbrev pub OccursIn : CollectionInfo → Dict Collection → Type 0
OccursIn i cols =
    (name : String) × (col : Collection) × (lookup name cols ≡ some col) × Occurs i col

-- No computed column, and no column that refers to a collection.
pub record IsPlain (i : CollectionInfo) : Type 0 where
  pub stored : ordered_computed_columns i ≡ []
  pub unreferring :
      (name : String) (c : ColumnDef) → lookup name i.columns ≡ some (some c) → c.foreign_key ≡ ""

refuse_foreign_keys-unreferring :
    (cols : Columns)
    → refuse_foreign_keys cols ≡ ok tt
    → (name : String) (c : ColumnDef) → lookup name cols ≡ some (some c)
    → c.foreign_key ≡ ""
unfolding refuse_foreign_keys lookup
refuse_foreign_keys-unreferring [] h name c k = cc k
refuse_foreign_keys-unreferring ((j, none) ∷ cols) h name c k = cc h
refuse_foreign_keys-unreferring ((j, some b) ∷ cols) h name c k =
    let rest : refuse_foreign_keys cols ≡ ok tt
        → lookup name cols ≡ some (some c)
        → c.foreign_key ≡ "" =
      λ e there. refuse_foreign_keys-unreferring cols e name c there in
    ground (arith, eq_iff b.foreign_key "", rest)

refuse_computed_none : (names : List String) → refuse_computed names ≡ ok tt → names ≡ []
refuse_computed_none [] h = refl
refuse_computed_none (n ∷ ns) h = cc h

validate_columns-IsPlain : (i : CollectionInfo) → validate_columns i ≡ ok tt → IsPlain i
unfolding validate_columns
validate_columns-IsPlain i h =
    let (u, e, h') = >>=-eq-ok (refuse_computed (ordered_computed_columns i)) _ h in
    record {
      stored = refuse_computed_none (ordered_computed_columns i) e;
      unreferring = refuse_foreign_keys-unreferring i.columns h';
    }

mutual
  unfolding visit_collection visit_sub_collections

  visit_collection-IsPlain :
      (i : CollectionInfo) (col : Collection)
      → visit_collection col ≡ ok tt
      → Occurs i col
      → IsPlain i
  visit_collection-IsPlain i (collection j subs) h here =
      let (u, e, h') = >>=-eq-ok (validate_columns j) _ h in validate_columns-IsPlain j e
  visit_collection-IsPlain i (collection j subs) h (below o) =
      let (u, e, h') = >>=-eq-ok (validate_columns j) _ h in
      visit_sub_collections-IsPlain i subs h' o

  visit_sub_collections-IsPlain :
      (i : CollectionInfo) (subs : SubCollections)
      → visit_sub_collections subs ≡ ok tt
      → OccursBelow i subs
      → IsPlain i
  visit_sub_collections-IsPlain i (sub name col subs) h (first o) =
      let (u, e, h') = >>=-eq-ok (visit_collection col) _ h in visit_collection-IsPlain i col e o
  visit_sub_collections-IsPlain i (sub name col subs) h (later o) =
      let (u, e, h') = >>=-eq-ok (visit_collection col) _ h in
      visit_sub_collections-IsPlain i subs h' o
  visit_sub_collections-IsPlain i end h o = elim o [ ]

same_collection : {a b : Collection} → some a ≡ some b → a ≡ b
same_collection h = cc h

visit_all-found :
    (cols : Dict Collection) (name : String) (col : Collection)
    → visit_all cols ≡ ok tt
    → lookup name cols ≡ some col
    → visit_collection col ≡ ok tt
unfolding visit_all lookup
visit_all-found [] name col h k = cc k
visit_all-found ((j, c) ∷ cols) name col h k =
    let (u, e, h') = >>=-eq-ok (visit_collection c) _ h in
    elim (Bool-cases (j == name)) [
      | inl found ↦ let k' = rw found at k in ap visit_collection (sym (same_collection k')) ∙ e
      | inr other ↦ visit_all-found cols name col h' (rw other at k)
    ]

-- In a definition that the protected profile accepts, no collection at any depth has a computed
-- column, or a column that refers to another collection.
pub validate_protected_definition-IsPlain :
    (def : Definition) (i : CollectionInfo)
    → validate_protected_definition def ≡ ok tt
    → OccursIn i def.collections
    → IsPlain i
unfolding validate_protected_definition
validate_protected_definition-IsPlain def i h (name, col, there, o) =
    visit_collection-IsPlain i col (visit_all-found def.collections name col h there) o
