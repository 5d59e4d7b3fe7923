-- ===== src/Columns.antt =====
-- computed_columns.go, and the column lists of foreign_keys.go: columns in a reproducible order.
pub mod Order
pub mod Membership
use dalgo2ingitdb.Base.{
  String, Bool, true, false, not, ◌&&◌, ◌||◌, Option, none, some, List, [], ◌∷◌, ◌++◌, ◌==◌, select,
  contains, if◌then◌else◌,
}
use dalgo2ingitdb.Base.Dict.{Dict, lookup, keys}
use dalgo2ingitdb.Base.Sort.{sort_strings}
use dalgo2ingitdb.Base.Value.{Fields, get_field}
use dalgo2ingitdb.Base.Result.{Error, quoted, Result, ok, err, ◌>>◌}
use dalgo2ingitdb.Schema.{Collection, ColumnDef, CollectionInfo}

abbrev pub Columns : Type 0
Columns = Dict (Option ColumnDef)

-- A column that is there, is no nil pointer, and is wanted.
abbrev pub is_wanted : (ColumnDef → Bool) → Option (Option ColumnDef) → Bool
is_wanted pred none = false
is_wanted pred (some none) = false
is_wanted pred (some (some c)) = pred c

-- The loop over `colDef.Columns`.
unfoldable pub remaining : (ColumnDef → Bool) → List String → Columns → List String
remaining pred seen [] = []
remaining pred seen ((k, c) ∷ cols) =
    let rest = remaining pred seen cols in
    if contains seen k then rest else if is_wanted pred (some c) then k ∷ rest else rest

-- The loop over `colDef.ColumnsOrder`.
unfoldable pub from_order : (ColumnDef → Bool) → Columns → List String → List String
from_order pred cols = select (λ k. is_wanted pred (lookup k cols))

-- With no column at all there is nothing to order.
unfoldable pub order_columns : Columns → List String → (ColumnDef → Bool) → List String
unfolding remaining from_order sort_strings lookup
order_columns [] order pred = []
order_columns (entry ∷ cols) order pred =
    let fields = from_order pred (entry ∷ cols) order in
    fields ++ sort_strings (remaining pred fields (entry ∷ cols))

unfoldable pub ordered_columns : CollectionInfo → (ColumnDef → Bool) → List String
unfolding order_columns
ordered_columns col pred = order_columns col.columns col.columns_order pred

abbrev pub is_computed : ColumnDef → Bool
is_computed c = not (c.formula == "")

abbrev pub is_stored_foreign_key : ColumnDef → Bool
is_stored_foreign_key c = not (c.foreign_key == "") && c.formula == ""

unfoldable pub ordered_computed_columns : CollectionInfo → List String
unfolding ordered_columns
ordered_computed_columns col = ordered_columns col is_computed

unfoldable pub ordered_foreign_key_fields : CollectionInfo → List String
unfolding ordered_columns
ordered_foreign_key_fields col = ordered_columns col is_stored_foreign_key

abbrev pub refers_to : String → Option (Option ColumnDef) → Bool
refers_to parent (some (some c)) = c.foreign_key == parent
refers_to parent _ = false

unfoldable pub foreign_key_fields_referencing : CollectionInfo → String → List String
unfolding ordered_foreign_key_fields
foreign_key_fields_referencing col parent =
    select (λ k. refers_to parent (lookup k col.columns)) (ordered_foreign_key_fields col)

unfoldable pub computed_foreign_key_fields_referencing : CollectionInfo → String → List String
unfolding ordered_computed_columns
computed_foreign_key_fields_referencing col parent =
    select (λ k. refers_to parent (lookup k col.columns)) (ordered_computed_columns col)

unfoldable pub ordered_collection_ids : Dict Collection → List String
unfolding keys sort_strings
ordered_collection_ids collections = sort_strings (keys collections)

abbrev pub has_field : String → Fields → Bool
has_field k fs = elim (get_field k fs) [ none ↦ false | some v ↦ true ]

unfoldable pub reject_stored : List String → Fields → Result (Unit {0})
unfolding get_field
reject_stored [] data' = ok tt
reject_stored (field ∷ fields) data' =
    let rest = reject_stored fields data' in
    if has_field field data'
    then err (quoted "is a computed column and cannot be stored" field)
    else rest

unfoldable pub validate_no_stored_computed_values : CollectionInfo → Fields → Result (Unit {0})
unfolding reject_stored ordered_computed_columns
validate_no_stored_computed_values col data' = reject_stored (ordered_computed_columns col) data'
