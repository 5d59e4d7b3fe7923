-- ===== src/Tests/References.antt =====
-- A collection whose records refer to users, and the check before a user is deleted.
use dalgo2ingitdb.Base.{String, ◌≡◌, refl, true, some, List, [], ◌∷◌}
use dalgo2ingitdb.Base.Dict.{lookup}
use dalgo2ingitdb.Base.Value.{Value, string, Fields, field}
use dalgo2ingitdb.Base.Result.{Error, quoted, ok, err}
use dalgo2ingitdb.Schema.{
  Ingitdb, CollectionInfo, ColumnDef, map_of_records, collection, end, Definition,
}
use dalgo2ingitdb.Deps.{Deps}
use dalgo2ingitdb.Disk.{clean_text}
use dalgo2ingitdb.Disk.Action.{◌>>=◌, lift, pure}
use dalgo2ingitdb.Paths.{render, clean, join}
use dalgo2ingitdb.Records.{resolve_record_path}
use dalgo2ingitdb.RecordIo.{read_map_of_records_file}
use dalgo2ingitdb.Readers.{read_all_records_from_disk}
use dalgo2ingitdb.ForeignKeys.Deletion.{validate_delete}
use dalgo2ingitdb.ForeignKeys.Scanning.{IsScanned}
use dalgo2ingitdb.ForeignKeys.References.{IsFree, validate_delete-IsFree}
use dalgo2ingitdb.Tests.World.{
  Files, content, memory-IsLawful, simple_lib, world, users_info, text_column,
}

abbrev elements : Value → List String × List Error
elements (string s) = (s ∷ [], [])
elements v = ([], [])

abbrev notes_lib : Ingitdb
notes_lib = record simple_lib {
  foreign_key_elements = elements;
  parse_map_of_records = λ b format. ok (("n1", field "author" (string "u2") Fields.end) ∷ []);
}

abbrev notes_world : Deps
notes_world = record world { lib = notes_lib }

abbrev author_column : ColumnDef
author_column = record (text_column "") { foreign_key = "users" }

abbrev notes_info : CollectionInfo
notes_info = record users_info {
  id = "notes";
  dir_path = "/db/notes";
  record_file = some (record {
    name = "notes.json";
    format = "json";
    record_type = map_of_records;
    csv_cell_encoding = "";
  });
  columns = ("author", some author_column) ∷ [];
  columns_order = [];
}

abbrev notes_project : Definition
notes_project = record { collections = ("notes", collection notes_info end) ∷ [] }

abbrev notes_files : Files
notes_files = ("/db/notes/notes.json", 1 ∷ []) ∷ []

accepted : (validate_delete notes_world notes_project "users" "u1" notes_files).0 ≡ ok tt
unfolding validate_delete ◌>>=◌ read_all_records_from_disk read_map_of_records_file clean_text
    render clean resolve_record_path join lift pure
accepted = refl

refused :
    (validate_delete notes_world notes_project "users" "u2" notes_files).0
    ≡ err (quoted "foreign key violation: is referenced by record" "n1")
unfolding validate_delete ◌>>=◌ read_all_records_from_disk read_map_of_records_file clean_text
    render clean resolve_record_path join lift pure
refused = refl

validate_delete-IsFree_example :
    IsScanned notes_world content memory-IsLawful notes_files notes_info
      (IsFree notes_world "u1" "author" true)
unfolding lookup
validate_delete-IsFree_example =
    validate_delete-IsFree notes_world content memory-IsLawful notes_project "users" "u1" "notes"
      "author" (collection notes_info end) author_column notes_files (refl, tt) refl refl refl refl
      refl accepted
