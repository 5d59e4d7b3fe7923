-- ===== src/Query/Reader.antt =====
-- query.go, executeQueryToRecordsReader: the rows of a query, read from the files of its collection.
-- A protected database reads stored values only, and package condeval decides its conditions.
use dalgo2ingitdb.Base.{
  String, ◌==◌, Bool, true, false, ◌||◌, Option, none, some, List, [], ◌∷◌, if◌then◌else◌,
}
use dalgo2ingitdb.Base.Value.{Value, Fields}
use dalgo2ingitdb.Base.Result.{not_supported, wrapped, Result, ok, err, is_unknown_collection}
use dalgo2ingitdb.Disk.Action.{pure, raise, lift, ◌>>=◌, ◌>>◌}
use dalgo2ingitdb.RecordIo.{Io}
use dalgo2ingitdb.Deps.{Deps}
use dalgo2ingitdb.Keys.{at_front, codes}
use dalgo2ingitdb.Schema.{Definition, CollectionInfo, RecordFile}
use dalgo2ingitdb.Readers.{read_all_stored_records, read_all_records_from_disk}
use dalgo2ingitdb.Readers.Stored.{KeyedStored}
use dalgo2ingitdb.Query.{Condition}
use dalgo2ingitdb.Query.Execution.{
  SortPackage, StructuredQuery, collection_from_query, grouped_or_not, where_if,
}

-- Package condeval of dalgo: the fields of a condition and whether it has parameters, and whether a
-- row matches it.
pub record Condeval : Type 0 where
  pub validate : Condition → Result (List String × Bool)
  pub match_row : Fields → Condition → Result Bool

-- `$id` or a path below it, which is no stored field
abbrev pub names_identity : List String → Bool
names_identity [] = false
names_identity (field ∷ fields) =
    field == "$id" || at_front (codes "$id.") field || names_identity fields

abbrev pub keep_if :
    KeyedStored → Result Bool → Result (List KeyedStored) → Result (List KeyedStored)
keep_if rec (err e) rest = err e
keep_if rec (ok b) (err e) = err e
keep_if rec (ok b) (ok kept) = ok (if b then rec ∷ kept else kept)

module _ (d : Deps) (condeval : Condeval) (is_null_value : Value → Bool) (sort : SortPackage) where
  unfoldable pub apply_protected_where : Condition → List KeyedStored → Result (List KeyedStored)
  apply_protected_where cond [] = ok []
  apply_protected_where cond (rec ∷ recs) =
      keep_if rec (condeval.match_row rec.stored cond) (apply_protected_where cond recs)

  abbrev pub check_predicate : Result (List String × Bool) → Result (Unit {0})
  check_predicate (err e) = err (wrapped "protected query predicate" not_supported)
  check_predicate (ok (fields, has_params)) =
      if has_params
      then err (wrapped "protected query predicate" not_supported)
      else if names_identity fields
      then err (wrapped "protected identity predicate" not_supported)
      else ok tt

  unfoldable pub check_protected : Bool → Option Condition → Result (Unit {0})
  check_protected protected none = ok tt
  check_protected protected (some cond) =
      if protected then check_predicate (condeval.validate cond) else ok tt

  unfoldable pub read_rows : Bool → CollectionInfo → RecordFile → Io d.os (List KeyedStored)
  unfolding read_all_stored_records read_all_records_from_disk
  read_rows protected col file =
      if protected
      then read_all_stored_records d col file
      else read_all_records_from_disk d col file

  unfoldable pub select_rows :
      Bool → Option Condition → List KeyedStored → Result (List KeyedStored)
  unfolding apply_protected_where
  select_rows true (some cond) recs = apply_protected_where cond recs
  select_rows protected condition recs = where_if d.rt is_null_value sort condition recs

  abbrev pub read_collection :
      Bool → StructuredQuery → CollectionInfo × RecordFile → Io d.os (List KeyedStored)
  read_collection protected query (col, file) = do
    lift (check_protected protected query.where_condition)
    recs ← read_rows protected col file
    selected ← lift (select_rows protected query.where_condition recs)
    lift (grouped_or_not d.rt is_null_value sort query.group_by query selected)

  -- A collection that is not there has no rows; a query that is not structured has no collection.
  abbrev pub after_from :
      Bool
      → Option StructuredQuery
      → Result (CollectionInfo × RecordFile)
      → Io d.os (List KeyedStored)
  after_from protected query (err e) = if is_unknown_collection e then pure [] else raise e
  after_from protected none (ok source) = pure []
  after_from protected (some query) (ok source) = read_collection protected query source

  unfoldable pub execute_query :
      Bool → Option Definition → Option StructuredQuery → Io d.os (List KeyedStored)
  unfolding collection_from_query check_protected read_rows select_rows
  execute_query protected def query =
      after_from protected query (collection_from_query d.lib d.rt d.goos def query)
