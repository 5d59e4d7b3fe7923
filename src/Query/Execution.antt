-- ===== src/Query/Execution.antt =====
-- query.go: a query from its FROM clause to its page of rows (executeQueryToRecordsReader,
-- applyGroupByContext, collectionFromQuery), for a context that is not cancelled.
use dalgo2ingitdb.Base.{
  ℕ, zero, suc, Ordering, String, ◌==◌, Bool, false, not, Option, none, some, List, [], ◌∷◌, length,
  take, drop, ltb, leb, if◌then◌else◌,
}
use dalgo2ingitdb.Base.Value.{
  ℤ, pos, negsuc, Value, string, integer, int, Fields, end, get_field, or_null, Runtime,
}
use dalgo2ingitdb.Base.Result.{failure, quoted, Result, ok, err, ◌>>=◌}
use dalgo2ingitdb.Schema.{Ingitdb, Definition, collection, CollectionInfo, RecordFile}
use dalgo2ingitdb.Records.{Key, resolve_scoped_collection}
use dalgo2ingitdb.Readers.Stored.{KeyedStored}
use dalgo2ingitdb.Query.{Condition, field_ref, compare_values, apply_where}
use dalgo2ingitdb.Query.Grouping.{
  ColumnExpression, plain, Column, HavingCondition, Group, resolve_simple_expr, project_columns,
  partition, resolve_group_expr, matches_having_condition,
}

pub record OrderExpression : Type 0 where
  pub expression : ColumnExpression
  pub descending : Bool

-- The base of FROM: `dal.CollectionRef`, or another source
pub data Source : Type 0 where
  collection_ref : String → Option Key → Source
  other : Source

pub record StructuredQuery : Type 0 where
  pub from : Option Source
  pub where_condition : Option Condition
  pub group_by : List ColumnExpression
  pub having : Option HavingCondition
  pub order_by : List OrderExpression
  pub columns : List Column
  pub offset : ℤ
  pub limit : ℤ

-- `records[offset:]` for an offset within the list, and nothing for one beyond it
unfoldable pub apply_offset {ℓ} : {A : Type ℓ} → ℤ → List A → List A
apply_offset (pos zero) rows = rows
apply_offset (pos (suc n)) rows = if leb (length rows) (suc n) then [] else drop (suc n) rows
apply_offset (negsuc n) rows = rows

unfoldable pub apply_limit {ℓ} : {A : Type ℓ} → ℤ → List A → List A
apply_limit (pos zero) rows = rows
apply_limit (pos (suc n)) rows = if ltb (suc n) (length rows) then take (suc n) rows else rows
apply_limit (negsuc n) rows = rows

unfoldable pub collection_from_query :
    (lib : Ingitdb) (rt : Runtime) (goos : String)
    → Option Definition
    → Option StructuredQuery
    → Result (CollectionInfo × RecordFile)
unfolding resolve_scoped_collection
collection_from_query lib rt goos none query = err (failure "transaction has no loaded definition")
collection_from_query lib rt goos (some def) none =
    err (failure "only StructuredQuery is supported")
collection_from_query lib rt goos (some def) (some query) = elim query.from [
  | none ↦ err (failure "query has no FROM clause")
  | some other ↦ err (failure "FROM source must be a CollectionRef")
  | some (collection_ref name parent) ↦
      resolve_scoped_collection lib rt goos (some def) name parent >>= λ col. elim col [
        | collection info subs ↦ elim info.record_file [
          | none ↦ err (quoted "has no record_file definition" name)
          | some file ↦ ok (info, file)
        ]
      ]
]

-- Package sort. What `SliceStable` gives for an order that is not a strict weak one, such as that of
-- numbers among strings, is not specified.
pub record SortPackage : Type 1 where
  pub slice_stable : {A : Type 0} → (A → A → Bool) → List A → List A

module _ (rt : Runtime) (is_null_value : Value → Bool) (sort : SortPackage) where
  abbrev pub decide_order : Bool → Ordering → Bool → Bool
  decide_order descending Ordering.lt rest = not descending
  decide_order descending Ordering.eq rest = rest
  decide_order descending Ordering.gt rest = descending

  -- Whether the first row, with these values, comes before the second one.
  unfoldable pub comes_before : List OrderExpression → (String → Value) → (String → Value) → Bool
  unfolding compare_values
  comes_before [] first second = false
  comes_before (o ∷ os) first second =
      let rest = comes_before os first second in
      elim o.expression [
        | plain (field_ref name) ↦
            decide_order o.descending (compare_values rt is_null_value (first name) (second name))
              rest
        | e ↦ rest
      ]

  abbrev pub order_value : KeyedStored → String → Value
  order_value rec name =
      if name == "$id" then string rec.key else or_null (get_field name rec.stored)

  unfoldable pub apply_order_by : List OrderExpression → List KeyedStored → List KeyedStored
  unfolding comes_before get_field
  apply_order_by order_by =
      sort.slice_stable (λ x y. comes_before order_by (order_value x) (order_value y))

  abbrev pub sort_unless_empty :
      {A : Type 0} → List OrderExpression → (List A → List A) → List A → List A
  sort_unless_empty [] sorting rows = rows
  sort_unless_empty (o ∷ os) sorting rows = sorting rows

  unfoldable pub apply_projection : List Column → List KeyedStored → Result (List KeyedStored)
  unfolding project_columns resolve_simple_expr
  apply_projection columns [] = ok []
  apply_projection columns (rec ∷ recs) = do
    out ← project_columns (resolve_simple_expr rec.stored rec.key) end columns
    rest ← apply_projection columns recs
    ok (record { key = rec.key; stored = out } ∷ rest)

  -- A group with its selected columns, as `g.out`.
  unfoldable pub project_groups : List Column → List Group → Result (List (Fields × Group))
  unfolding project_columns resolve_group_expr
  project_groups columns [] = ok []
  project_groups columns (g ∷ gs) = do
    out ← project_columns (resolve_group_expr rt is_null_value g.rows) end columns
    rest ← project_groups columns gs
    ok ((out, g) ∷ rest)

  unfoldable pub apply_having :
      HavingCondition → List (Fields × Group) → Result (List (Fields × Group))
  unfolding matches_having_condition
  apply_having having [] = ok []
  apply_having having ((out, g) ∷ gs) = do
    match ← matches_having_condition rt is_null_value out g.rows having
    rest ← apply_having having gs
    ok (if match then (out, g) ∷ rest else rest)

  abbrev pub having_if :
      Option HavingCondition → List (Fields × Group) → Result (List (Fields × Group))
  having_if none gs = ok gs
  having_if (some having) gs = apply_having having gs

  -- The rows of a grouped query are numbered.
  unfoldable pub number_rows : ℕ → List (Fields × Group) → List KeyedStored
  number_rows i [] = []
  number_rows i ((out, g) ∷ gs) =
      record { key = rt.show (integer int (pos i)); stored = out } ∷ number_rows (suc i) gs

  unfoldable pub order_groups : List OrderExpression → List (Fields × Group) → List (Fields × Group)
  unfolding comes_before get_field
  order_groups order_by = sort.slice_stable (λ x y.
      comes_before order_by (λ name. or_null (get_field name x.0))
        (λ name. or_null (get_field name y.0)))

  unfoldable pub apply_group_by : StructuredQuery → List KeyedStored → Result (List KeyedStored)
  unfolding partition project_groups apply_having order_groups apply_offset apply_limit number_rows
  apply_group_by query recs = do
    groups ← partition rt is_null_value query.group_by [] recs
    projected ← project_groups query.columns groups
    kept ← having_if query.having projected
    ok (
        number_rows 0 (
          apply_limit query.limit (
            apply_offset query.offset
              (sort_unless_empty query.order_by (order_groups query.order_by) kept))))

  abbrev pub project_unless_empty : List Column → List KeyedStored → Result (List KeyedStored)
  project_unless_empty [] recs = ok recs
  project_unless_empty (c ∷ cs) recs = apply_projection (c ∷ cs) recs

  abbrev pub ungrouped : StructuredQuery → List KeyedStored → Result (List KeyedStored)
  ungrouped query recs = project_unless_empty query.columns (
      apply_limit query.limit (
        apply_offset query.offset
          (sort_unless_empty query.order_by (apply_order_by query.order_by) recs)))

  abbrev pub grouped_or_not :
      List ColumnExpression → StructuredQuery → List KeyedStored → Result (List KeyedStored)
  grouped_or_not [] query recs = ungrouped query recs
  grouped_or_not (e ∷ es) query recs = apply_group_by query recs

  abbrev pub where_if : Option Condition → List KeyedStored → Result (List KeyedStored)
  where_if none recs = ok recs
  where_if (some cond) recs = apply_where rt is_null_value cond recs

  -- What a query does with the rows that were read, outside protected databases.
  unfoldable pub execute_on_rows : StructuredQuery → List KeyedStored → Result (List KeyedStored)
  unfolding apply_where apply_order_by apply_offset apply_limit apply_projection apply_group_by
  execute_on_rows query recs = do
    selected ← where_if query.where_condition recs
    grouped_or_not query.group_by query selected
