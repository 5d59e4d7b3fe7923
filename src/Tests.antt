-- ===== src/Tests.antt =====
-- Tests of the definitions, and the theorems at concrete inputs.
mod World
mod Streams
mod Queries
mod Imports
mod Schemas
mod Policies
mod Protection
mod Data
mod References
use mathlib.Core.List.{Permᴰ}
use dalgo2ingitdb.Base.{
  select, String, ◌≡◌, refl, ◌++◌, Option, none, some, Bool, true, false, List, [], ◌∷◌, ◌↔◌, ◌⊎◌,
  ◌==◌, All, contains,
}
use dalgo2ingitdb.Base.Dict.{lookup, NodupKeys}
use dalgo2ingitdb.Base.Value.{
  Value, string, integer, object, Fields, field, int64, float64, floating, pos, get_field,
}
use dalgo2ingitdb.Base.Result.{Result, ok, err, failure, Error}
use dalgo2ingitdb.Keys.{
  validate_record_path_segment, is_control, has_escape, record_key_to_file_name,
  record_key_from_file_name,
}
use dalgo2ingitdb.Keys.RoundTrip.{
  file_name_roundtrip, record_key_to_file_name-IsFileName, IsFileName,
}
use dalgo2ingitdb.Paths.{require_contained_path, clean, render, join}
use dalgo2ingitdb.Paths.Containment.{IsInside}
use dalgo2ingitdb.Paths.Clean.{clean_idem}
use dalgo2ingitdb.Schema.{
  ColumnType, CollectionInfo, Collection, collection, end, info, single_record,
}
use dalgo2ingitdb.Records.{
  Key, top, under, resolve_collection, resolve_scoped_collection, record_path, with_record_file,
  validate_record_file_key, resolve_record_path, Target, ancestors, resolve_nested,
  validate_ancestors, walk, descend,
}
use dalgo2ingitdb.Records.Resolution.{
  resolve_collection-IsInside, resolve_scoped_collection-IsInside, root_collection, AcceptedStep,
}
use dalgo2ingitdb.Columns.{
  ordered_columns, is_computed, is_wanted, validate_no_stored_computed_values, has_field,
}
use dalgo2ingitdb.Columns.Membership.{
  contains-ordered_columns, validate_no_stored_computed_values_iff,
}
use dalgo2ingitdb.Columns.Order.{ordered_columns-perm}
use dalgo2ingitdb.Formula.{coerce_formula_result}
use dalgo2ingitdb.Formula.Coercion.{has_type, coerce_formula_result-has_type}
use dalgo2ingitdb.Updates.{set_at}
use dalgo2ingitdb.Updates.Paths.{get_path, set_at_self, set_at_other}
use dalgo2ingitdb.TypeMapping.{DbType, ingitdb_type_to_dbschema, there_and_back}
use dalgo2ingitdb.Readers.Stored.{KeyedStored}
use dalgo2ingitdb.Query.{
  Condition, Conditions, comparison, field_ref, constant, equal, and, or, end as no_more, also,
  evaluate_group_condition, apply_where,
}
use dalgo2ingitdb.Query.Selection.{
  Every, evaluate_group_condition_iff, is_true, matches, apply_where-select,
}
use dalgo2ingitdb.Transaction.Run.{
  Worker, finish, fail, call, set, run_worker, run_readwrite_transaction, committed, rolled_back,
  broken,
}
use dalgo2ingitdb.Transaction.Rollback.{
  run_readwrite_transaction-rolled_back, run_readwrite_transaction-failed, worked,
}
use dalgo2ingitdb.Disk.Action.{◌>>=◌, lift, pure, raise}
use dalgo2ingitdb.RecordIo.{write_single_record_file}
use dalgo2ingitdb.Tests.World.{
  ann, content, Files, memory-IsLawful, no_git, no_git-IsQuiet, world, simple_lib, simple_runtime,
  users_info, posts_info, text_column, project,
}

-- Writes a record, and then fails.
abbrev failing : Worker
failing = call (set (some (top "users" (string "u1"))) ann) (λ r. fail (failure "stop"))

abbrev writing : Worker
writing = call (set (some (top "users" (string "u1"))) ann) (λ r. finish)

writes :
    run_readwrite_transaction world no_git false "now" project writing "" []
    ≡ (committed, ("/db/users/u1.json", 1 ∷ 2 ∷ []) ∷ [])
unfolding run_readwrite_transaction ◌>>=◌ lift pure raise resolve_scoped_collection with_record_file
    validate_record_file_key validate_record_path_segment is_control has_escape
    require_contained_path resolve_record_path join record_key_to_file_name write_single_record_file
    run_worker
writes = refl

-- The disk with an older record, so that the rollback has something to put back.
abbrev before : Files
before = ("/db/users/u1.json", 7 ∷ []) ∷ []

rolls_back :
    run_readwrite_transaction world no_git false "now" project failing "" before
    ≡ (rolled_back (failure "stop"), before)
unfolding run_readwrite_transaction ◌>>=◌ lift pure raise resolve_scoped_collection with_record_file
    validate_record_file_key validate_record_path_segment is_control has_escape
    require_contained_path resolve_record_path join record_key_to_file_name write_single_record_file
    run_worker
rolls_back = refl

worker_fails :
    (worked world content memory-IsLawful no_git false "now" project failing before).0
    ≡ err (failure "stop")
unfolding run_readwrite_transaction ◌>>=◌ lift pure raise resolve_scoped_collection with_record_file
    validate_record_file_key validate_record_path_segment is_control has_escape
    require_contained_path resolve_record_path join record_key_to_file_name write_single_record_file
    run_worker
worker_fails = refl

rolled_back_example :
    content before "/db/users/../users/u1.json" ≡ content before "/db/users/../users/u1.json"
rolled_back_example =
    run_readwrite_transaction-rolled_back world content memory-IsLawful no_git false "now" project
      failing "" before before (failure "stop") "/db/users/../users/u1.json"
      (no_git-IsQuiet "/db/users/../users/u1.json") rolls_back

failed_example :
    (((run_readwrite_transaction world no_git false "now" project failing "" before).0
        ≡ rolled_back (failure "stop"))
      × ((q : String)
          → content
              (run_readwrite_transaction world no_git false "now" project failing "" before).1
              q
            ≡ content before q))
    ⊎ ((f : Error) × ((run_readwrite_transaction world no_git false "now" project failing ""
            before).0
          ≡ broken (failure "stop") f))
failed_example =
    run_readwrite_transaction-failed world content memory-IsLawful no_git false "now" project
      failing "" before (failure "stop") worker_fails

slash_valid : validate_record_path_segment "linux" "a/b\\c" ≡ ok tt
unfolding validate_record_path_segment is_control has_escape
slash_valid = refl

roundtrip_example : record_key_from_file_name (record_key_to_file_name "a/b\\c") ≡ "a/b\\c"
roundtrip_example = file_name_roundtrip "linux" "a/b\\c" slash_valid

single_entry_example : IsFileName (record_key_to_file_name "a/b\\c")
single_entry_example = record_key_to_file_name-IsFileName "linux" "a/b\\c" slash_valid

inside_accepted : require_contained_path "/db/spaces" "/db/./spaces/x.yaml" ≡ ok tt
unfolding require_contained_path
inside_accepted = refl

abbrev u1 : Key
u1 = top "users" (string "u/1")

abbrev u1_target : Target
u1_target = record {
  col = users_info;
  file = record {
    name = "{key}.json";
    format = "json";
    record_type = single_record;
    csv_cell_encoding = "";
  };
  key = "u/1";
}

u1_resolves :
    resolve_collection simple_lib simple_runtime "linux" (some project) (some u1) ≡ ok u1_target
unfolding resolve_collection resolve_scoped_collection with_record_file validate_record_file_key
    validate_record_path_segment is_control has_escape require_contained_path resolve_record_path
    join record_key_to_file_name lookup
u1_resolves = refl

resolved_example :
    IsFileName (record_key_to_file_name u1_target.key)
    × IsInside u1_target.col.dir_path (record_path simple_lib simple_runtime "linux" u1_target)
resolved_example =
    resolve_collection-IsInside simple_lib simple_runtime "linux" (some project) (some u1) u1_target
      refl u1_resolves

abbrev posts : Collection
posts = collection (record posts_info { dir_path = "/db/users/u%2F1/posts" }) end

posts_resolve :
    resolve_scoped_collection simple_lib simple_runtime "linux" (some project) "posts" (some u1)
    ≡ ok posts
unfolding resolve_scoped_collection validate_record_path_segment is_control has_escape
    require_contained_path join record_key_to_file_name resolve_nested ancestors lookup
    validate_ancestors walk descend
posts_resolve = refl

scoped_example :
    (root : Collection) × (lookup (root_collection u1) project.collections ≡ some root)
    × IsInside (info root).dir_path (info posts).dir_path
    × All
        (AcceptedStep simple_lib simple_runtime "linux")
        (ancestors simple_lib simple_runtime "linux" u1)
scoped_example =
    resolve_scoped_collection-IsInside simple_lib simple_runtime "linux" project "posts" u1 posts
      posts_resolve
