-- ===== src/Formula/Coercion.antt =====
-- What coercion and the evaluation of computed columns guarantee.
use dalgo2ingitdb.Base.{◌≡◌, Bool, true, false, arith}
use dalgo2ingitdb.Base.Value.{Value, bool, integer, floating, string, int64, float64, Runtime}
use dalgo2ingitdb.Base.Result.{ok}
use dalgo2ingitdb.Schema.{ColumnType}
use dalgo2ingitdb.Formula.{
  coerce_to_string, coerce_to_bool, coerce_to_int, coerce_to_float, coerce_formula_result,
}

-- The Go type that a value of a computed column has.
abbrev pub has_type : ColumnType → Value → Bool
has_type ColumnType.string (string s) = true
has_type ColumnType.int (integer int64 n) = true
has_type ColumnType.float (floating float64 x) = true
has_type ColumnType.bool (bool b) = true
has_type ColumnType.any v = true
has_type _ _ = false

module _ (rt : Runtime) where
  of_string : (v w : Value) → coerce_to_string rt v ≡ ok w → has_type ColumnType.string w ≡ true
  unfolding coerce_to_string
  of_string v w h = ground arith

  of_bool : (v w : Value) → coerce_to_bool rt v ≡ ok w → has_type ColumnType.bool w ≡ true
  unfolding coerce_to_bool
  of_bool v w h = ground arith

  of_int : (v w : Value) → coerce_to_int rt v ≡ ok w → has_type ColumnType.int w ≡ true
  unfolding coerce_to_int
  of_int v w h = ground arith

  of_float : (v w : Value) → coerce_to_float rt v ≡ ok w → has_type ColumnType.float w ≡ true
  unfolding coerce_to_float
  of_float v w h = ground arith

  -- A value that is coerced to a column type has the Go type of that column type.
  pub coerce_formula_result-has_type :
      (v : Value) (t : ColumnType) (w : Value)
      → coerce_formula_result rt v t ≡ ok w
      → has_type t w ≡ true
  unfolding coerce_formula_result
  coerce_formula_result-has_type v ColumnType.string w h = of_string v w h
  coerce_formula_result-has_type v ColumnType.int w h = of_int v w h
  coerce_formula_result-has_type v ColumnType.float w h = of_float v w h
  coerce_formula_result-has_type v ColumnType.bool w h = of_bool v w h
  coerce_formula_result-has_type v ColumnType.any w h = ground arith
  coerce_formula_result-has_type v ColumnType.date w h = ground arith
  coerce_formula_result-has_type v ColumnType.time w h = ground arith
  coerce_formula_result-has_type v ColumnType.date_time w h = ground arith
  coerce_formula_result-has_type v ColumnType.l10n w h = ground arith
  coerce_formula_result-has_type v ColumnType.empty w h = ground arith
  coerce_formula_result-has_type v (ColumnType.other s) w h = ground arith
