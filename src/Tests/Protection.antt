-- ===== src/Tests/Protection.antt =====
-- The theorems on protected.go at a concrete project.
use dalgo2ingitdb.Base.{
  String, ◌≡◌, ◌≢◌, refl, true, false, eq_iff, none, some, List, [], ◌∷◌, arith,
}
use dalgo2ingitdb.Base.Value.{string}
use dalgo2ingitdb.Base.Dict.{lookup}
use dalgo2ingitdb.Base.Result.{failure, ok}
use dalgo2ingitdb.Paths.{clean, render, join, require_contained_path}
use dalgo2ingitdb.Keys.{
  validate_record_path_segment, is_control, has_escape, record_key_to_file_name,
}
use dalgo2ingitdb.Schema.{CollectionInfo, collection, end, sub, Definition, single_record, Bytes}
use dalgo2ingitdb.Records.{
  top, resolve_scoped_collection, with_record_file, validate_record_file_key, resolve_record_path,
}
use dalgo2ingitdb.Disk.{clean_text}
use dalgo2ingitdb.Disk.Action.{◌>>=◌, lift, pure}
use dalgo2ingitdb.RecordIo.{write_single_record_file, read_single_record_file}
use dalgo2ingitdb.Transaction.{TxState}
use dalgo2ingitdb.Protected.{OpAction, ProtectedOperation, ProtectedEvidence, Secrets}
use dalgo2ingitdb.Protected.Definition.{validate_protected_definition, validate_columns}
use dalgo2ingitdb.Protected.Definition.Plain.{
  IsPlain, here, below, first, validate_protected_definition-IsPlain,
}
use dalgo2ingitdb.Protected.Revision.Framing.{revision_message_injective}
use dalgo2ingitdb.Protected.Prepare.{Prepared, prepare}
use dalgo2ingitdb.Protected.Execution.{
  Client, execute, fail, refused, execute_all, within_protected_execution,
}
use dalgo2ingitdb.Protected.Execution.Batches.{IsApart}
use dalgo2ingitdb.Protected.Execution.Safety.{within_protected_execution-refused}
use dalgo2ingitdb.Protected.Execution.Revisions.{HasRevision, candidate_revision-execute_all}
use dalgo2ingitdb.Tests.World.{ann, content, Files, memory-IsLawful, world, users_info, text_column}

abbrev plain_info : CollectionInfo
plain_info = record users_info { columns = ("name", some (text_column "")) ∷ [] }

abbrev plain_posts : CollectionInfo
plain_posts = record plain_info { id = "posts"; dir_path = "/db/users/posts" }

abbrev plain_project : Definition
plain_project = record {
  collections =
      ("users", collection plain_info (sub "posts" (collection plain_posts end) end)) ∷ [];
}

accepted : validate_protected_definition plain_project ≡ ok tt
unfolding validate_protected_definition validate_columns
accepted = refl

found_users :
    lookup "users" plain_project.collections
    ≡ some (collection plain_info (sub "posts" (collection plain_posts end) end))
unfolding lookup
found_users = refl

validate_protected_definition-IsPlain_example : IsPlain plain_posts
validate_protected_definition-IsPlain_example =
    validate_protected_definition-IsPlain plain_project plain_posts accepted (
      "users",
      collection plain_info (sub "posts" (collection plain_posts end) end),
      found_users,
      below (first here),
    )

abbrev one_target : Bytes
one_target = 7 ∷ []

abbrev one_content : Bytes
one_content = 1 ∷ 2 ∷ []

revision_message_injective_example :
    (one_target ≡ one_target) × (true ≡ true) × (one_content ≡ one_content)
revision_message_injective_example =
    revision_message_injective one_target one_target true true one_content one_content (omega arith)
      (omega arith) refl

-- The length of a message stands for its HMAC.
abbrev sized : Bytes → String
sized [] = "empty"
sized (b ∷ bs) = "keyed"

abbrev secrets : Secrets
secrets = record {
  hmac_text = λ secret message. sized message;
  text_bytes = λ s. 117 ∷ [];
  is_not_exist = λ e. true;
}

abbrev set_ann : ProtectedOperation
set_ann = record {
  id = "1";
  action = OpAction.set;
  key = top "users" (string "u1");
  canonical_target = "users/u1";
  data' = some ann;
  updates = [];
}

-- Executes the operations, and is then refused.
abbrev denied : List ProtectedEvidence → Client
denied evidence = execute (λ r. fail (failure "denied"))

abbrev older : Files
older = ("/db/users/u1.json", 7 ∷ []) ∷ []

lock_apart : clean_text "/locks/tx" ≢ clean_text "/db/users/u1.json"
unfolding clean_text clean render
lock_apart h = let e = (eq_iff "/locks/tx" "/db/users/u1.json").1 h in cc e

is_denied :
    (within_protected_execution world secrets [] false plain_project "/locks/tx"
      (set_ann ∷ [])
      denied
      older).0
    ≡ refused (failure "denied")
unfolding within_protected_execution ◌>>=◌ lift resolve_scoped_collection with_record_file
    validate_record_file_key validate_record_path_segment is_control has_escape
    require_contained_path resolve_record_path join record_key_to_file_name read_single_record_file
    pure write_single_record_file
is_denied = refl

within_protected_execution-refused_example :
    content
      (within_protected_execution world secrets [] false plain_project "/locks/tx"
        (set_ann ∷ [])
        denied
        older).1
      "/db/users/u1.json"
    ≡ content older "/db/users/u1.json"
within_protected_execution-refused_example =
    within_protected_execution-refused world content memory-IsLawful secrets [] false plain_project
      denied "/db/users/u1.json" "/locks/tx" (set_ann ∷ []) older (failure "denied") lock_apart
      is_denied

abbrev prepared_ann : Prepared
prepared_ann = record {
  op = set_ann;
  target = record {
    col = plain_info;
    file = record {
      name = "{key}.json";
      format = "json";
      record_type = single_record;
      csv_cell_encoding = "";
    };
    key = "u1";
  };
  path = "/db/users/u1.json";
  pre = some ann;
  candidate = some ann;
  data_revision = "keyed";
}

abbrev evidence_of_ann : ProtectedEvidence
evidence_of_ann = record {
  operation_id = "1";
  canonical_target = "users/u1";
  snapshot_token = "keyed";
  exists = true;
  pre_image = some ann;
  candidate_image = some ann;
  data_revision = "keyed";
  candidate_revision = "keyed";
  complete = true;
}

abbrev begun : TxState world.os
begun = record { disk = older; written = []; snapshots = [] }

-- A second record in the same batch.
abbrev set_other : ProtectedOperation
set_other = record set_ann {
  id = "2";
  key = top "users" (string "u2");
  canonical_target = "users/u2";
}

abbrev prepared_other : Prepared
prepared_other = record prepared_ann {
  op = set_other;
  target = record prepared_ann.target { key = "u2" };
  path = "/db/users/u2.json";
  pre = none;
}

abbrev evidence_of_other : ProtectedEvidence
evidence_of_other = record evidence_of_ann {
  operation_id = "2";
  canonical_target = "users/u2";
  exists = false;
  pre_image = none;
}

is_prepared :
    (prepare world secrets [] false plain_project (set_ann ∷ set_other ∷ []) older).0
    ≡ ok (evidence_of_ann ∷ evidence_of_other ∷ [], prepared_ann ∷ prepared_other ∷ [])
unfolding prepare ◌>>=◌ lift resolve_scoped_collection with_record_file validate_record_file_key
    validate_record_path_segment is_control has_escape require_contained_path resolve_record_path
    join record_key_to_file_name read_single_record_file pure write_single_record_file clean_text
is_prepared = refl

is_executed : (execute_all world plain_project (prepared_ann ∷ prepared_other ∷ []) begun).0 ≡ ok tt
unfolding execute_all ◌>>=◌ lift resolve_scoped_collection with_record_file validate_record_file_key
    validate_record_path_segment is_control has_escape require_contained_path resolve_record_path
    join record_key_to_file_name read_single_record_file pure write_single_record_file
is_executed = refl

records-IsApart : IsApart prepared_ann prepared_other
unfolding clean_text clean render
records-IsApart e = ground (arith, e, eq_iff "/db/users/u2.json" "/db/users/u1.json")

candidate_revision-execute_all_example :
    (raw : Bytes) × HasRevision world content memory-IsLawful secrets [] false plain_project
      (evidence_of_ann ∷ evidence_of_other ∷ [])
      0
      prepared_ann
      raw
    × (content
          (execute_all world plain_project (prepared_ann ∷ prepared_other ∷ []) begun).1.disk
          "/db/users/u1.json"
        ≡ some raw)
candidate_revision-execute_all_example =
    candidate_revision-execute_all world content memory-IsLawful secrets [] false plain_project
      (set_ann ∷ set_other ∷ []) older begun (evidence_of_ann ∷ evidence_of_other ∷ []) []
      (prepared_other ∷ []) prepared_ann ann is_prepared tt (records-IsApart, tt) refl refl refl
      is_executed
