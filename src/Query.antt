-- ===== src/Query.antt =====
-- query.go, lines 785 to 993: the conditions of a query, and the rows that they select.
pub mod Selection
pub mod Grouping
pub mod Partition
pub mod Execution
pub mod Pages
pub mod Reader
use mathlib.Core.List.{map}
use dalgo2ingitdb.Base.{
  ℕ, Ordering, String, ◌==◌, Bool, true, false, not, ◌&&◌, ◌||◌, Option, none, some, List, [], ◌∷◌,
  if◌then◌else◌,
}
use dalgo2ingitdb.Base.Order.{str_compare}
use dalgo2ingitdb.Base.Value.{
  Value, null, integer, floating, string, bytes, list, Items, nil, cons, pos, uint8, Fields,
  get_field, or_null, Runtime, Float,
}
use dalgo2ingitdb.Base.Result.{Error, failure, Result, ok, err, ◌>>=◌}
use dalgo2ingitdb.Updates.{to_numeric_float64}
use dalgo2ingitdb.Readers.Stored.{KeyedStored}

-- `dal.Expression`; `other` is an expression of another type
pub data Expression : Type 0 where
  field_ref : String → Expression
  constant : Value → Expression
  array : Value → Expression
  other : Expression

pub data Operator : Type 0 where
  equal greater_then greater_or_equal less_then less_or_equal in_list not_in_list : Operator
  other : String → Operator

pub data GroupOperator : Type 0 where
  and or : GroupOperator
  other : String → GroupOperator

mutual
  pub data Condition : Type 0 where
    comparison : Expression → Operator → Expression → Condition
    group : GroupOperator → Conditions → Condition
    is_null : Bool → Expression → Condition
    other : Condition

  pub data Conditions : Type 0 where
    end : Conditions
    also : Condition → Conditions → Conditions

unfoldable pub resolve_expression : Fields → String → Expression → Result Value
unfolding get_field
resolve_expression data' key (field_ref name) =
    if name == "$id" then ok (string key) else ok (or_null (get_field name data'))
resolve_expression data' key (constant v) = ok v
resolve_expression data' key (array v) = ok v
resolve_expression data' key other = err (failure "unsupported expression type")

abbrev pub is_nil : Value → Bool
is_nil null = true
is_nil v = false

unfoldable pub items_of : Items → List Value
items_of nil = []
items_of (cons v vs) = v ∷ items_of vs

-- The elements of a slice or an array.
abbrev pub elements : Value → Option (List Value)
elements (list vs) = some (items_of vs)
elements (bytes bs) = some (map (λ b. integer uint8 (pos b)) bs)
elements v = none

abbrev pub is_eq : Ordering → Bool
is_eq Ordering.eq = true
is_eq _ = false

-- `dal.IsNullValue`, which belongs to dalgo.
module _ (rt : Runtime) (is_null_value : Value → Bool) where
  abbrev pub compare_floats : Float → Float → Ordering
  compare_floats x y =
      if rt.float_lt x y then Ordering.lt else if rt.float_lt y x then Ordering.gt else Ordering.eq

  abbrev pub compare_numbers : Option Float → Option Float → Value → Value → Ordering
  compare_numbers (some x) (some y) a b = compare_floats x y
  compare_numbers none y a b = str_compare (rt.show a) (rt.show b)
  compare_numbers (some x) none a b = str_compare (rt.show a) (rt.show b)

  -- Two numbers are compared as floats, all else as printed.
  unfoldable pub compare_values : Value → Value → Ordering
  unfolding to_numeric_float64 str_compare
  compare_values a b = compare_numbers (to_numeric_float64 rt a) (to_numeric_float64 rt b) a b

  unfoldable pub is_member : Value → List Value → Bool
  unfolding compare_values
  is_member v [] = false
  is_member v (c ∷ cs) =
      not (is_nil c) && not (is_nil v) && is_eq (compare_values v c) || is_member v cs

  abbrev pub member_result : Bool → Value → Option (List Value) → Result Bool
  member_result negated v none = err (failure "IN requires an array")
  member_result negated v (some vs) =
      if negated then ok (not (is_member v vs) && not (is_nil v)) else ok (is_member v vs)

  unfoldable pub compare_by : Operator → Value → Value → Result Bool
  unfolding compare_values is_member items_of
  compare_by in_list l r = member_result false l (elements r)
  compare_by not_in_list l r = member_result true l (elements r)
  compare_by equal l r = ok (elim (compare_values l r) [ Ordering.eq ↦ true | _ ↦ false ])
  compare_by greater_then l r = ok (elim (compare_values l r) [ Ordering.gt ↦ true | _ ↦ false ])
  compare_by greater_or_equal l r =
      ok (elim (compare_values l r) [ Ordering.lt ↦ false | _ ↦ true ])
  compare_by less_then l r = ok (elim (compare_values l r) [ Ordering.lt ↦ true | _ ↦ false ])
  compare_by less_or_equal l r = ok (elim (compare_values l r) [ Ordering.gt ↦ false | _ ↦ true ])
  compare_by (other o) l r = err (failure "unsupported operator")

  module _ (data' : Fields) (key : String) where
    unfoldable pub evaluate_comparison : Expression → Operator → Expression → Result Bool
    unfolding resolve_expression compare_by
    evaluate_comparison left op right = do
      l ← resolve_expression data' key left
      r ← resolve_expression data' key right
      compare_by op l r

    -- A group stops at the first condition that decides it, or fails.
    abbrev pub stop_at : Bool → Result Bool → Result Bool → Result Bool
    stop_at decides (err e) rest = err e
    stop_at true (ok true) rest = ok true
    stop_at true (ok false) rest = rest
    stop_at false (ok false) rest = ok false
    stop_at false (ok true) rest = rest

    unfoldable mutual
      unfolding evaluate_comparison resolve_expression

      pub evaluate_condition : Condition → Result Bool
      evaluate_condition (comparison left op right) = evaluate_comparison left op right
      evaluate_condition (group op cs) = evaluate_group_condition op cs
      evaluate_condition (is_null negated e) = do
        v ← resolve_expression data' key e
        ok (if negated then not (is_null_value v) else is_null_value v)
      evaluate_condition other = err (failure "unsupported condition type")

      pub evaluate_group_condition : GroupOperator → Conditions → Result Bool
      evaluate_group_condition and end = ok true
      evaluate_group_condition and (also c cs) =
          let rest = evaluate_group_condition and cs in stop_at false (evaluate_condition c) rest
      evaluate_group_condition or end = ok false
      evaluate_group_condition or (also c cs) =
          let rest = evaluate_group_condition or cs in stop_at true (evaluate_condition c) rest
      evaluate_group_condition (other o) cs = err (failure "unsupported group operator")

  -- The printed key is the key.
  unfoldable pub apply_where : Condition → List KeyedStored → Result (List KeyedStored)
  unfolding evaluate_condition
  apply_where cond [] = ok []
  apply_where cond (rec ∷ recs) = do
    match ← evaluate_condition rec.stored rec.key cond
    rest ← apply_where cond recs
    ok (if match then rec ∷ rest else rest)
