-- ===== src/Protected/Prepare.antt =====
-- protected.go, prepare and assignBatchCandidateRevisions: the evidence of each operation before
-- anything is written.
use dalgo2ingitdb.Base.{
  String, ◌==◌, Bool, true, false, not, ◌&&◌, Option, none, some, List, [], ◌∷◌, map, select,
  contains, if◌then◌else◌,
}
use dalgo2ingitdb.Base.Dict.{Dict, lookup, insert, erase}
use dalgo2ingitdb.Base.Value.{Fields}
use dalgo2ingitdb.Base.Result.{Error, failure, quoted, Result, ok, err, is_not_found}
use dalgo2ingitdb.Base.Result as Result
use dalgo2ingitdb.Schema.{RecordType, single_record, map_of_records, Definition, Bytes}
use dalgo2ingitdb.Deps.{Deps}
use dalgo2ingitdb.Records.{Target, key_collection, resolve_collection}
use dalgo2ingitdb.Columns.{Columns}
use dalgo2ingitdb.Disk.Action.{pure, raise, lift, ◌>>=◌, ◌>>◌, map_result}
use dalgo2ingitdb.RecordIo.{Io, read_map_of_records_file}
use dalgo2ingitdb.Readers.{or_empty}
use dalgo2ingitdb.ForeignKeys.{is_some, validate_write}
use dalgo2ingitdb.ForeignKeys.Deletion.{validate_delete}
use dalgo2ingitdb.Updates.{
  NewValue, delete_sentinel, server_timestamp, transform, apply_field_update,
}
use dalgo2ingitdb.Reading.{path_of, get_record}
use dalgo2ingitdb.Protected.{
  FieldChange, ProtectedOperation, ProtectedEvidence, Secrets, is_delete, is_update,
}
use dalgo2ingitdb.Protected.Definition.{validate_columns, validate_protected_definition}
use dalgo2ingitdb.Protected.Revision.{revision}

abbrev pub is_computed_value : NewValue → Bool
is_computed_value server_timestamp = true
is_computed_value (transform name v) = true
is_computed_value v = false

abbrev pub new_value : FieldChange → NewValue
new_value u = if u.delete then delete_sentinel else u.value

-- A record that is missing has no row.
abbrev pub found_or_missing : Result Fields → Result (Option Fields)
found_or_missing (ok data') = ok (some data')
found_or_missing (err e) = if is_not_found e then ok none else err e

-- What is known of one operation: its target, what is stored, and what would be.
pub record Prepared : Type 0 where
  pub op : ProtectedOperation
  pub target : Target
  pub path : String
  pub pre : Option Fields
  pub candidate : Option Fields
  pub data_revision : String

-- The paths of the operations, each once.
unfoldable pub paths_of : List Prepared → List String
paths_of [] = []
paths_of (p ∷ ps) = let rest = paths_of ps in if contains rest p.path then rest else p.path ∷ rest

unfoldable pub at_path : String → List Prepared → List Prepared
at_path path = select (λ p. p.path == path)

module _ (d : Deps) (secrets : Secrets) (secret : Bytes) where
  abbrev pub or_no_file : Result Bytes → Result Bytes
  or_no_file (ok content) = ok content
  or_no_file (err e) = if secrets.is_not_exist e then ok [] else err e

  unfoldable pub read_raw : String → Io d.os Bytes
  read_raw path s = (or_no_file (d.os.read_file path s), s)

  -- A missing record keeps its image absent.
  abbrev pub change_image : FieldChange → Option Fields → Result (Option Fields)
  change_image u image =
      if not u.delete && is_computed_value u.value
      then err (failure "update transforms are unsupported under protected profile")
      else elim image [
        | none ↦ ok none
        | some data' ↦
            Result.◌>>=◌ (apply_field_update d.rt "" u.path (new_value u) data')
              (λ changed. ok (some changed))
      ]

  unfoldable pub change_images : List FieldChange → Option Fields → Result (Option Fields)
  unfolding apply_field_update
  change_images [] image = ok image
  change_images (u ∷ us) image = Result.◌>>=◌ (change_image u image) (change_images us)

  unfoldable pub candidate_of : ProtectedOperation → Option Fields → Result (Option Fields)
  unfolding change_images
  candidate_of op pre =
      if is_update op.action
      then change_images op.updates pre
      else if is_delete op.action
      then ok none
      else ok op.data'

  unfoldable pub prepare_one : Bool → Definition → ProtectedOperation → Io d.os Prepared
  unfolding resolve_collection validate_columns read_raw get_record candidate_of revision
  prepare_one stored_only def op = do
    t ← lift (resolve_collection d.lib d.rt d.goos (some def) (some op.key))
    lift (validate_columns t.col)
    raw ← read_raw (path_of d stored_only t)
    pre ← map_result found_or_missing (get_record d stored_only (some def) (some op.key))
    candidate ← lift (candidate_of op pre)
    pure (record {
      op = op;
      target = t;
      path = path_of d stored_only t;
      pre = pre;
      candidate = candidate;
      data_revision = revision secrets secret op.canonical_target (is_some pre) raw;
    })

  unfoldable pub prepare_all : Bool → Definition → List ProtectedOperation → Io d.os (List Prepared)
  unfolding prepare_one
  prepare_all stored_only def [] = pure []
  prepare_all stored_only def (op ∷ ops) = do
    p ← prepare_one stored_only def op
    ps ← prepare_all stored_only def ops
    pure (p ∷ ps)

  -- The rows of a file after an operation on one of them, by the columns of the first operation on
  -- the file.
  abbrev pub apply_row : Columns → Prepared → Dict Fields → Dict Fields
  apply_row columns p rows =
      if is_delete p.op.action then erase p.target.key rows else elim p.candidate [
        | none ↦ rows
        | some image ↦ insert p.target.key (d.lib.apply_locale_to_write image columns) rows
      ]

  unfoldable pub apply_rows : Columns → List Prepared → Dict Fields → Dict Fields
  unfolding insert erase
  apply_rows columns [] rows = rows
  apply_rows columns (p ∷ ps) rows = apply_rows columns ps (apply_row columns p rows)

  abbrev pub single_content : Prepared → Result (Bool × Bytes)
  single_content p = if is_delete p.op.action then ok (false, []) else elim p.candidate [
    | none ↦ ok (false, [])
    | some image ↦
        Result.◌>>=◌ (d.lib.encode_record_content image p.target.col) (λ raw. ok (true, raw))
  ]

  abbrev pub rows_content : Prepared → List Prepared → Option (Dict Fields) → Result (Bool × Bytes)
  rows_content p ps rows =
      Result.◌>>=◌
        (d.lib.encode_map_of_records (apply_rows p.target.col.columns (p ∷ ps) (or_empty rows))
          p.target.file.format p.target.col.id p.target.col.columns_order)
        (λ raw. ok (true, raw))

  -- What the file of a group of operations holds after them, by the collection of the first one.
  abbrev pub group_content_as : Prepared → List Prepared → RecordType → Io d.os (Bool × Bytes)
  group_content_as p ps single_record = lift (single_content p)
  group_content_as p ps map_of_records = do
    rows ← read_map_of_records_file d.lib d.os p.path p.target.file.format
    lift (rows_content p ps rows)
  group_content_as p ps _ = raise (failure "protected record type unsupported")

  unfoldable pub group_content : List Prepared → Io d.os (Bool × Bytes)
  unfolding apply_rows
  group_content [] = pure (false, [])
  group_content (p ∷ ps) = group_content_as p ps p.target.file.record_type

  -- The contents of each path; the source visits the paths in the order of a map.
  unfoldable pub group_contents : List Prepared → List String → Io d.os (Dict (Bool × Bytes))
  unfolding group_content at_path
  group_contents ps [] = pure []
  group_contents ps (path ∷ paths) = do
    content ← group_content (at_path path ps)
    rest ← group_contents ps paths
    pure ((path, content) ∷ rest)

  abbrev pub candidate_revision : Prepared → Option (Bool × Bytes) → String
  candidate_revision p none = ""
  candidate_revision p (some (exists, raw)) =
      revision secrets secret p.op.canonical_target exists raw

  abbrev pub evidence_of : Dict (Bool × Bytes) → Prepared → ProtectedEvidence
  evidence_of contents p = record {
    operation_id = p.op.id;
    canonical_target = p.op.canonical_target;
    snapshot_token = p.data_revision;
    exists = is_some p.pre;
    pre_image = p.pre;
    candidate_image = p.candidate;
    data_revision = p.data_revision;
    candidate_revision = candidate_revision p (lookup p.path contents);
    complete = true;
  }

  unfoldable pub prepare :
      Bool → Definition → List ProtectedOperation → Io d.os (List ProtectedEvidence × List Prepared)
  unfolding validate_protected_definition prepare_all group_contents paths_of lookup
  prepare stored_only def ops = do
    lift (validate_protected_definition def)
    ps ← prepare_all stored_only def ops
    contents ← group_contents ps (paths_of ps)
    pure (map (evidence_of contents) ps, ps)

  -- What the policy engine asks of a candidate again; a candidate that is nil has no fields.
  unfoldable pub validate_protected_candidate :
      Definition → ProtectedOperation → Fields → Io d.os (Unit {0})
  unfolding resolve_collection validate_delete validate_write
  validate_protected_candidate def op candidate = do
    t ← lift (resolve_collection d.lib d.rt d.goos (some def) (some op.key))
    if is_delete op.action
        then validate_delete d def (key_collection op.key) t.key
        else validate_write d def t.col candidate
