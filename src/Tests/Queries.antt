-- ===== src/Tests/Queries.antt =====
-- The theorems on query.go at concrete rows.
use dalgo2ingitdb.Base.{
  inr, map, ◌≡◌, refl, Bool, true, false, none, some, List, [], ◌∷◌, String, All,
}
use dalgo2ingitdb.Base.Value.{Value, string, Fields, field, end, pos, get_field}
use dalgo2ingitdb.Base.Result.{ok}
use dalgo2ingitdb.Readers.Stored.{KeyedStored}
use dalgo2ingitdb.Query.{
  Condition, field_ref, constant, comparison, equal, apply_where, evaluate_condition,
}
use dalgo2ingitdb.Query.Grouping.{
  ColumnExpression, plain, Group, partition, group_key_str, resolve_simple_expr, add_row,
}
use dalgo2ingitdb.Query.Partition.{rows_of, rows_with, IsPartition, partition_rows}
use dalgo2ingitdb.Query.Execution.{
  SortPackage, StructuredQuery, apply_offset, apply_limit, execute_on_rows, apply_order_by,
}
use dalgo2ingitdb.Query.Pages.Whole.{row_of, execute_on_rows-page}
use dalgo2ingitdb.Query.Pages.{IsReordering, IsMatch, execute_on_rows-All}
use dalgo2ingitdb.Tests.World.{simple_runtime}

abbrev in_team : String → Fields
in_team team = field "team" (string team) end

abbrev members : List KeyedStored
members =
    record { key = "u1"; stored = in_team "red" }
    ∷ record { key = "u2"; stored = in_team "blue" }
    ∷ record { key = "u3"; stored = in_team "red" }
    ∷ []

abbrev never_null : Value → Bool
never_null v = false

abbrev teams : List Group
teams =
    record { key = "string:red"; rows = in_team "red" ∷ in_team "red" ∷ [] }
    ∷ record { key = "string:blue"; rows = in_team "blue" ∷ [] }
    ∷ []

abbrev by_team : List ColumnExpression
by_team = plain (field_ref "team") ∷ []

partition_rows_example :
    ((key : String) → rows_of key teams ≡ rows_with simple_runtime never_null by_team key members)
    × IsPartition teams
unfolding partition group_key_str resolve_simple_expr get_field add_row
partition_rows_example = partition_rows simple_runtime never_null by_team teams members refl

-- Leaves the rows as they are, which is stable where they are sorted.
abbrev as_they_are : SortPackage
as_they_are = record { slice_stable = λ less rows. rows }

as_they_are-IsReordering : IsReordering as_they_are
as_they_are-IsReordering = record { slice_stable-All = λ P less rows h. h }

abbrev is_red : Condition
is_red = comparison (field_ref "team") equal (constant (string "red"))

abbrev second_red : StructuredQuery
second_red = record {
  from = none;
  where_condition = some is_red;
  group_by = [];
  having = none;
  order_by = record { expression = plain (field_ref "team"); descending = true } ∷ [];
  columns = [];
  offset = pos 1;
  limit = pos 5;
}

execute_on_rows-All_example :
    All
      (IsMatch simple_runtime never_null is_red)
      (record { key = "u3"; stored = in_team "red" } ∷ [])
unfolding execute_on_rows apply_where apply_order_by apply_offset apply_limit evaluate_condition
execute_on_rows-All_example =
    execute_on_rows-All simple_runtime never_null as_they_are as_they_are-IsReordering second_red
      is_red members (record { key = "u3"; stored = in_team "red" } ∷ []) refl refl refl refl

abbrev second_member : StructuredQuery
second_member = record second_red { where_condition = none; limit = pos 1 }

execute_on_rows-page_example :
    (out : List KeyedStored) × (execute_on_rows simple_runtime never_null as_they_are second_member
        members
      ≡ ok out)
    × (map (row_of []) out ≡ ("u2", in_team "blue") ∷ [])
unfolding execute_on_rows apply_order_by apply_offset apply_limit
execute_on_rows-page_example =
    execute_on_rows-page simple_runtime never_null as_they_are second_member 1 1 members members
      (inr refl) refl refl refl
