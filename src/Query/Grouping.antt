-- ===== src/Query/Grouping.antt =====
-- query.go, applyGroupByContext and what it calls: the groups of the rows, their aggregates, and
-- HAVING.
use dalgo2ingitdb.Base.{
  ℕ, zero, suc, Ordering, String, ◌<>◌, ◌==◌, Bool, true, false, not, Option, none, some, List, [],
  ◌∷◌, ◌++◌, length, if◌then◌else◌,
}
use dalgo2ingitdb.Base.Value.{
  Value, null, integer, floating, string, int, float64, pos, Fields, get_field, set_field, or_null,
  Runtime, Float,
}
use dalgo2ingitdb.Base.Result.{failure, Result, ok, err, ◌>>=◌}
use dalgo2ingitdb.Updates.{to_numeric_float64}
use dalgo2ingitdb.Readers.Stored.{KeyedStored}
use dalgo2ingitdb.Query.{
  Expression, field_ref, constant, Operator, equal, greater_then, greater_or_equal, less_then,
  less_or_equal, GroupOperator, or, compare_values, is_nil,
}

pub data AggregateName : Type 0 where
  count sum average min max : AggregateName
  other : String → AggregateName

-- An expression of the column list, of GROUP BY, HAVING or ORDER BY: an aggregate function with
-- its arguments, or another expression.
pub data ColumnExpression : Type 0 where
  aggregate : AggregateName → List Expression → ColumnExpression
  plain : Expression → ColumnExpression

-- `dal.Column`; `printed` is `Expression.String()`.
pub record Column : Type 0 where
  pub expression : ColumnExpression
  pub alias : String
  pub printed : String

mutual
  pub data HavingCondition : Type 0 where
    comparison : ColumnExpression → Operator → ColumnExpression → HavingCondition
    group : GroupOperator → HavingConditions → HavingCondition
    other : HavingCondition

  pub data HavingConditions : Type 0 where
    no_more : HavingConditions
    also : HavingCondition → HavingConditions → HavingConditions

unfoldable pub resolve_simple_expr : Fields → String → ColumnExpression → Result Value
unfolding get_field
resolve_simple_expr data' rec_key (plain (field_ref name)) =
    if name == "$id" then ok (string rec_key) else ok (or_null (get_field name data'))
resolve_simple_expr data' rec_key (plain (constant v)) = ok v
resolve_simple_expr data' rec_key e = err (failure "unsupported expression type")

unfoldable pub column_out_key : String → ColumnExpression → String → String
column_out_key alias (plain (field_ref name)) printed = if alias == "" then name else alias
column_out_key alias e printed = if alias == "" then printed else alias

-- The columns of a row, each by `resolve`.
unfoldable pub project_columns :
    (ColumnExpression → Result Value) → Fields → List Column → Result Fields
unfolding column_out_key set_field
project_columns resolve out [] = ok out
project_columns resolve out (col ∷ cols) = do
  v ← resolve col.expression
  project_columns resolve (set_field (column_out_key col.alias col.expression col.printed) v out)
      cols

-- A group and its rows, under its key.
pub record Group : Type 0 where
  pub key : String
  pub rows : List Fields

-- A row joins the group of its key, or a new one at the end.
unfoldable pub add_row : String → Fields → List Group → List Group
add_row key row [] = record { key = key; rows = row ∷ [] } ∷ []
add_row key row (g ∷ gs) =
    let rest = add_row key row gs in
    if g.key == key then record { key = g.key; rows = g.rows ++ row ∷ [] } ∷ gs else g ∷ rest

abbrev pub first_field : String → List Fields → Value
first_field name [] = null
first_field name (row ∷ rows) = or_null (get_field name row)

unfoldable pub having_by : Operator → Ordering → Result Bool
having_by equal c = ok (elim c [ Ordering.eq ↦ true | _ ↦ false ])
having_by greater_then c = ok (elim c [ Ordering.gt ↦ true | _ ↦ false ])
having_by greater_or_equal c = ok (elim c [ Ordering.lt ↦ false | _ ↦ true ])
having_by less_then c = ok (elim c [ Ordering.lt ↦ true | _ ↦ false ])
having_by less_or_equal c = ok (elim c [ Ordering.gt ↦ false | _ ↦ true ])
having_by o c = err (failure "unsupported HAVING operator")

abbrev pub is_or : GroupOperator → Bool
is_or or = true
is_or o = false

-- One condition of a group; `rest` is what the others give.
abbrev pub stop_having : Bool → Result Bool → Result Bool → Result Bool
stop_having any (err e) rest = err e
stop_having true (ok b) rest = if b then ok true else rest
stop_having false (ok b) rest = if b then rest else ok false

module _ (rt : Runtime) (is_null_value : Value → Bool) where
  abbrev pub key_part : Value → String
  key_part v = rt.type_name v <> ":" <> rt.show v

  unfoldable pub group_key_str : List ColumnExpression → Fields → String → Result String
  unfolding resolve_simple_expr
  group_key_str [] data' rec_key = ok ""
  group_key_str (e ∷ []) data' rec_key = do v ← resolve_simple_expr data' rec_key e; ok (key_part v)
  group_key_str (e ∷ f ∷ es) data' rec_key = do
    v ← resolve_simple_expr data' rec_key e
    rest ← group_key_str (f ∷ es) data' rec_key
    ok (key_part v <> "\0" <> rest)

  unfoldable pub partition :
      List ColumnExpression → List Group → List KeyedStored → Result (List Group)
  unfolding group_key_str add_row
  partition group_by groups [] = ok groups
  partition group_by groups (rec ∷ recs) = do
    key ← group_key_str group_by rec.stored rec.key
    partition group_by (add_row key rec.stored groups) recs

  unfoldable pub count_present : String → List Fields → ℕ
  unfolding get_field
  count_present name [] = 0
  count_present name (row ∷ rows) =
      let n = count_present name rows in if is_nil (or_null (get_field name row)) then n else suc n

  -- The sum of the numbers of a field so far, and how many they are; null is no number.
  unfoldable pub sum_numbers : String → Float → ℕ → List Fields → Float × ℕ
  unfolding to_numeric_float64 get_field
  sum_numbers name total cnt [] = (total, cnt)
  sum_numbers name total cnt (row ∷ rows) =
      elim (to_numeric_float64 rt (or_null (get_field name row))) [
        | none ↦ sum_numbers name total cnt rows
        | some x ↦ sum_numbers name (rt.float_add total x) (suc cnt) rows
      ]

  -- Whether `v` takes the place of the best value so far.
  abbrev pub is_better : Bool → Value → Value → Bool
  is_better largest v best = elim (compare_values rt is_null_value v best) [
    | Ordering.lt ↦ not largest
    | Ordering.eq ↦ false
    | Ordering.gt ↦ largest
  ]

  unfoldable pub best_of : Bool → String → Option Value → List Fields → Option Value
  unfolding get_field compare_values
  best_of largest name best [] = best
  best_of largest name best (row ∷ rows) =
      let v = or_null (get_field name row) in
      best_of largest name
        (if is_nil v then best else elim best [
          | none ↦ some v
          | some b ↦ if is_better largest v b then some v else some b
        ])
        rows

  abbrev pub number : ℕ → Value
  number n = integer int (pos n)

  abbrev pub sum_or_null : Float × ℕ → Value
  sum_or_null (total, zero) = null
  sum_or_null (total, suc n) = floating float64 total

  abbrev pub average_or_null : Float × ℕ → Value
  average_or_null (total, zero) = null
  average_or_null (total, suc n) = floating float64 (rt.float_div total (rt.of_int (pos (suc n))))

  abbrev pub eval_count : List Expression → List Fields → Value
  eval_count [] rows = number 0
  eval_count (field_ref name ∷ args) rows = number (count_present name rows)
  eval_count (e ∷ []) rows = number (length rows)
  eval_count (e ∷ f ∷ args) rows = number 0

  -- Of the first argument, which has to be a field.
  abbrev pub eval_field : (String → Value) → List Expression → Result Value
  eval_field f [] = ok null
  eval_field f (field_ref name ∷ args) = ok (f name)
  eval_field f (e ∷ args) = err (failure "the aggregate requires a field argument")

  unfoldable pub eval_aggregate : AggregateName → List Expression → List Fields → Result Value
  unfolding count_present sum_numbers best_of
  eval_aggregate count args rows = ok (eval_count args rows)
  eval_aggregate sum args rows =
      eval_field (λ name. sum_or_null (sum_numbers name rt.float_zero 0 rows)) args
  eval_aggregate average args rows =
      eval_field (λ name. average_or_null (sum_numbers name rt.float_zero 0 rows)) args
  eval_aggregate min args rows = eval_field (λ name. or_null (best_of false name none rows)) args
  eval_aggregate max args rows = eval_field (λ name. or_null (best_of true name none rows)) args
  eval_aggregate (other name) args rows = err (failure "unsupported aggregate")

  unfoldable pub resolve_group_expr : List Fields → ColumnExpression → Result Value
  unfolding eval_aggregate
  resolve_group_expr rows (aggregate name args) = eval_aggregate name args rows
  resolve_group_expr rows (plain (field_ref name)) = ok (first_field name rows)
  resolve_group_expr rows (plain (constant v)) = ok v
  resolve_group_expr rows (plain e) = err (failure "unsupported grouped expression")

  module _ (out : Fields) (rows : List Fields) where
    unfoldable pub resolve_having_expr : ColumnExpression → Result Value
    unfolding eval_aggregate get_field
    resolve_having_expr (aggregate name args) = eval_aggregate name args rows
    resolve_having_expr (plain (field_ref name)) = elim (get_field name out) [
      | some v ↦ ok v
      | none ↦ ok (first_field name rows)
    ]
    resolve_having_expr (plain (constant v)) = ok v
    resolve_having_expr (plain e) = err (failure "unsupported HAVING expression type")

    unfoldable mutual
      unfolding resolve_having_expr having_by compare_values

      pub matches_having_condition : HavingCondition → Result Bool
      matches_having_condition (comparison left op right) = do
        l ← resolve_having_expr left
        r ← resolve_having_expr right
        having_by op (compare_values rt is_null_value l r)
      matches_having_condition (group op cs) = matches_having_group op cs
      matches_having_condition other = err (failure "unsupported HAVING condition type")

      pub matches_having_group : GroupOperator → HavingConditions → Result Bool
      matches_having_group op no_more = ok (not (is_or op))
      matches_having_group op (also c cs) =
          let rest = matches_having_group op cs in
          stop_having (is_or op) (matches_having_condition c) rest
