-- ===== src/Formula.antt =====
-- formula.go: computed columns, evaluated from the stored fields.
pub mod Coercion
use dalgo2ingitdb.Base.{
  String, Bool, true, false, not, ◌&&◌, Option, none, some, List, [], ◌∷◌, ◌==◌, if◌then◌else◌,
}
use dalgo2ingitdb.Base.Sort.{sort_strings}
use dalgo2ingitdb.Base.Dict.{lookup}
use dalgo2ingitdb.Base.Value.{
  Value, null, bool, integer, floating, string, Fields, set_field, int64, float64, Runtime,
}
use dalgo2ingitdb.Base.Result.{Error, quoted, failure, wrapped, Result, ok, err, ◌>>=◌}
use dalgo2ingitdb.Disk.Action.{wrap_error}
use dalgo2ingitdb.Schema.{Ingitdb, ColumnType, ColumnDef, CollectionInfo}
use dalgo2ingitdb.Columns.{Columns}

module _ (rt : Runtime) where
  unfoldable pub coerce_to_int : Value → Result Value
  coerce_to_int (integer int64 n) = ok (integer int64 n)
  coerce_to_int (floating float64 n) =
      let i = rt.to_int64 n in
      if rt.float_eq (rt.of_int i) n
      then ok (integer int64 i)
      else err (failure "cannot coerce non-integral float to int")
  coerce_to_int v = err (failure "cannot coerce to int")

  unfoldable pub coerce_to_float : Value → Result Value
  coerce_to_float (floating float64 n) = ok (floating float64 n)
  coerce_to_float (integer int64 n) = ok (floating float64 (rt.of_int n))
  coerce_to_float v = err (failure "cannot coerce to float")

  unfoldable pub coerce_to_string : Value → Result Value
  coerce_to_string (string s) = ok (string s)
  coerce_to_string v = err (failure "cannot coerce to string")

  unfoldable pub coerce_to_bool : Value → Result Value
  coerce_to_bool (bool b) = ok (bool b)
  coerce_to_bool v = err (failure "cannot coerce to bool")

  unfoldable pub coerce_formula_result : Value → ColumnType → Result Value
  unfolding coerce_to_int coerce_to_float coerce_to_string coerce_to_bool
  coerce_formula_result v ColumnType.string = coerce_to_string v
  coerce_formula_result v ColumnType.int = coerce_to_int v
  coerce_formula_result v ColumnType.float = coerce_to_float v
  coerce_formula_result v ColumnType.bool = coerce_to_bool v
  coerce_formula_result v ColumnType.any = ok v
  coerce_formula_result v t = err (failure "computed columns do not support type")

-- The names of the columns with a formula.
unfoldable pub computed_names : Columns → List String
computed_names [] = []
computed_names ((k, none) ∷ cols) = computed_names cols
computed_names ((k, some c) ∷ cols) =
    let rest = computed_names cols in if c.formula == "" then rest else k ∷ rest

module _ (lib : Ingitdb) (rt : Runtime) where
  unfoldable pub compute_column : Columns → Fields → String → Result Value
  unfolding coerce_formula_result lookup
  compute_column cols data' name = elim (lookup name cols) [
    | some (some c) ↦ do
      raw ← lib.evaluate_formula c.formula data'
      coerce_formula_result rt raw c.type
    | _ ↦ err (quoted "no such column" name)
  ]

  unfoldable pub compute_columns : Columns → Fields → List String → Fields → Result Fields
  unfolding compute_column
  compute_columns cols data' [] result = ok result
  compute_columns cols data' (name ∷ names) result = do
    v ← wrap_error (wrapped name) (compute_column cols data' name)
    compute_columns cols data' names (set_field name v result)

  -- Without computed columns the loop runs over nothing and the data are returned as they are.
  unfoldable pub apply_formulas_to_read : Fields → Columns → Result Fields
  unfolding compute_columns computed_names sort_strings
  apply_formulas_to_read data' cols =
      compute_columns cols data' (sort_strings (computed_names cols)) data'
