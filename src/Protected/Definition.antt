-- ===== src/Protected/Definition.antt =====
-- protected.go, validateProtectedDefinition: no collection of the definition has computed columns
-- or foreign keys.
pub mod Plain
use dalgo2ingitdb.Base.{
  String, ◌≡◌, refl, Bool, true, false, not, ◌==◌, eq_iff, Option, none, some, List, [], ◌∷◌, arith,
  Bool-cases, inl, inr, if◌then◌else◌,
}
use dalgo2ingitdb.Base.Dict.{Dict, lookup}
use dalgo2ingitdb.Base.Result.{failure, Result, ok, err, ◌>>◌, >>=-eq-ok}
use dalgo2ingitdb.Schema.{
  ColumnDef, CollectionInfo, Collection, collection, SubCollections, end, sub, Definition,
}
use dalgo2ingitdb.Columns.{Columns, ordered_computed_columns}

-- A column that is nil makes the source panic.
unfoldable pub refuse_foreign_keys : Columns → Result (Unit {0})
refuse_foreign_keys [] = ok tt
refuse_foreign_keys ((name, none) ∷ cols) = err (failure "nil column")
refuse_foreign_keys ((name, some c) ∷ cols) =
    let rest = refuse_foreign_keys cols in
    if c.foreign_key == ""
    then rest
    else err (failure "foreign keys are unsupported under protected profile")

abbrev pub refuse_computed : List String → Result (Unit {0})
refuse_computed [] = ok tt
refuse_computed (name ∷ names) =
    err (failure "computed columns are unsupported under protected profile")

unfoldable pub validate_columns : CollectionInfo → Result (Unit {0})
unfolding refuse_foreign_keys ordered_computed_columns
validate_columns col = do
  refuse_computed (ordered_computed_columns col)
  refuse_foreign_keys col.columns

unfoldable mutual
  unfolding validate_columns

  pub visit_collection : Collection → Result (Unit {0})
  visit_collection (collection i subs) = do validate_columns i; visit_sub_collections subs

  pub visit_sub_collections : SubCollections → Result (Unit {0})
  visit_sub_collections end = ok tt
  visit_sub_collections (sub name col subs) = do visit_collection col; visit_sub_collections subs

unfoldable pub visit_all : Dict Collection → Result (Unit {0})
unfolding visit_collection
visit_all [] = ok tt
visit_all ((name, col) ∷ cols) = do visit_collection col; visit_all cols

unfoldable pub validate_protected_definition : Definition → Result (Unit {0})
unfolding visit_all
validate_protected_definition def = visit_all def.collections
