-- ===== src/Tests/Data.antt =====
-- Tests and examples of the columns, the types, the updates and the queries.
use mathlib.Core.List.{Permᴰ}
use dalgo2ingitdb.Base.{
  select, String, ◌≡◌, refl, some, Bool, true, false, List, [], ◌∷◌, ◌↔◌, contains,
}
use dalgo2ingitdb.Base.Dict.{lookup, NodupKeys}
use dalgo2ingitdb.Base.Value.{
  Value, string, integer, object, Fields, field, int64, float64, floating, pos,
}
use dalgo2ingitdb.Base.Result.{ok}
use dalgo2ingitdb.Schema.{ColumnType, CollectionInfo}
use dalgo2ingitdb.Columns.{
  ordered_columns, is_computed, is_wanted, validate_no_stored_computed_values, has_field,
}
use dalgo2ingitdb.Columns.Membership.{
  contains-ordered_columns, validate_no_stored_computed_values_iff,
}
use dalgo2ingitdb.Columns.Order.{ordered_columns-perm}
use dalgo2ingitdb.Formula.{coerce_formula_result}
use dalgo2ingitdb.Formula.Coercion.{has_type, coerce_formula_result-has_type}
use dalgo2ingitdb.Updates.{set_at}
use dalgo2ingitdb.Updates.Paths.{get_path, set_at_self, set_at_other}
use dalgo2ingitdb.Readers.Stored.{KeyedStored}
use dalgo2ingitdb.Query.{
  Condition, comparison, field_ref, constant, equal, and, or, end as no_more, also,
  evaluate_group_condition, apply_where,
}
use dalgo2ingitdb.Query.Selection.{
  Every, evaluate_group_condition_iff, is_true, matches, apply_where-select,
}
use dalgo2ingitdb.Tests.World.{text_column, users_info, ann, simple_runtime}

users_nodup : NodupKeys users_info.columns
unfolding lookup
users_nodup = (refl, (refl, (refl, tt)))

ordered_example :
    contains (ordered_columns users_info is_computed) "title"
    ≡ is_wanted is_computed (lookup "title" users_info.columns)
ordered_example = contains-ordered_columns users_info is_computed "title" users_nodup

computed_example : (validate_no_stored_computed_values users_info ann ≡ ok tt) ↔ (
    (k : String)
    → is_wanted is_computed (lookup k users_info.columns) ≡ true
    → has_field k ann ≡ false)
computed_example = validate_no_stored_computed_values_iff users_info ann users_nodup

abbrev swapped : CollectionInfo
swapped = record users_info {
  columns =
      ("title", some (text_column "upper(name)"))
      ∷ ("name", some (text_column ""))
      ∷ ("age", some (text_column ""))
      ∷ [];
}

order_example : ordered_columns users_info is_computed ≡ ordered_columns swapped is_computed
order_example =
    ordered_columns-perm users_info swapped is_computed (Permᴰ.swap refl refl) refl users_nodup

coerced :
    coerce_formula_result simple_runtime (integer int64 (pos 3)) ColumnType.float
    ≡ ok (floating float64 0)
unfolding coerce_formula_result
coerced = refl

coercion_example : has_type ColumnType.float (floating float64 0) ≡ true
coercion_example =
    coerce_formula_result-has_type simple_runtime (integer int64 (pos 3)) ColumnType.float
      (floating float64 0) coerced

abbrev moved : Fields
moved =
    field "name" (string "Ann")
      (field "home" (object (field "city" (string "Cork") Fields.end)) Fields.end)

sets : set_at ("home" ∷ "city" ∷ []) (string "Cork") ann ≡ ok moved
unfolding set_at
sets = refl

set_self_example : get_path ("home" ∷ "city" ∷ []) moved ≡ some (string "Cork")
set_self_example = set_at_self "home" ("city" ∷ []) (string "Cork") ann moved sets

set_other_example : get_path ("home" ∷ "street" ∷ []) moved ≡ get_path ("home" ∷ "street" ∷ []) ann
set_other_example =
    set_at_other "home" ("city" ∷ []) ("home" ∷ "street" ∷ []) (string "Cork") ann moved sets refl

abbrev never_null : Value → Bool
never_null v = false

abbrev is_ann : Condition
is_ann = comparison (field_ref "name") equal (constant (string "Ann"))

abbrev is_u1 : Condition
is_u1 = comparison (field_ref "$id") equal (constant (string "u1"))

group_example :
    ((evaluate_group_condition simple_runtime never_null ann "u1" and
          (also is_ann (also is_u1 no_more))
        ≡ ok true)
      ↔ Every simple_runtime never_null ann "u1" true (also is_ann (also is_u1 no_more)))
    × ((evaluate_group_condition simple_runtime never_null ann "u1" or
            (also is_ann (also is_u1 no_more))
          ≡ ok false)
        ↔ Every simple_runtime never_null ann "u1" false (also is_ann (also is_u1 no_more)))
group_example =
    evaluate_group_condition_iff simple_runtime never_null ann "u1"
      (also is_ann (also is_u1 no_more))

abbrev rows : List KeyedStored
rows = record { key = "u1"; stored = ann } ∷ record { key = "u2"; stored = ann } ∷ []

selects :
    apply_where simple_runtime never_null is_u1 rows ≡ ok (record { key = "u1"; stored = ann } ∷ [])
unfolding apply_where
selects = refl

select_example :
    record { key = "u1"; stored = ann } ∷ []
    ≡ select (λ rec. is_true (matches simple_runtime never_null is_u1 rec)) rows
select_example =
    apply_where-select simple_runtime never_null is_u1 rows
      (record { key = "u1"; stored = ann } ∷ []) selects
