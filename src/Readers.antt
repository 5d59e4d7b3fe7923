-- ===== src/Readers.antt =====
-- Reading a whole collection: query.go, lines 517 to 711.
pub mod Stored
pub mod Frame
use dalgo2ingitdb.Base.{
  String, ◌==◌, Bool, true, false, Option, none, some, List, [], ◌∷◌, ◌++◌, if◌then◌else◌,
}
use dalgo2ingitdb.Base.Dict.{Dict}
use dalgo2ingitdb.Base.Value.{Fields}
use dalgo2ingitdb.Base.Result.{Error, failure, quoted, wrapped, Result, ok, err}
use dalgo2ingitdb.Paths.{CleanPath, clean, render, join, rel}
use dalgo2ingitdb.Schema.{
  Ingitdb, CollectionInfo, RecordFile, RecordType, single_record, map_of_records, list_of_records,
  Bytes,
}
use dalgo2ingitdb.Deps.{Deps}
use dalgo2ingitdb.Records.{replace_from, key_placeholder, resolve_record_path}
use dalgo2ingitdb.Disk.{Os, Stat, found, missing}
use dalgo2ingitdb.Disk.Action.{Action, pure, raise, lift, ◌>>=◌, map_result, wrap_error}
use dalgo2ingitdb.RecordIo.{Io, read_single_record_file, read_map_of_records_file, read_and_parse}
use dalgo2ingitdb.Readers.Stored.{
  KeyedStored, base_name, build_key_extractor, map_stored, list_stored, bake_stored_records,
}

abbrev pub or_empty : Option (Dict Fields) → Dict Fields
or_empty none = []
or_empty (some rows) = rows

module _ (d : Deps) where
  -- The path below the base directory.
  unfoldable pub relative : String → String → Result String
  unfolding rel
  relative base path = elim (rel (clean base) (clean path)) [
    | none ↦ err (wrapped path (failure "rel"))
    | some segs ↦ ok (render (record { rooted = false; elements = segs }))
  ]

  abbrev pub with_stored : CollectionInfo → String → Option Fields → List KeyedStored
  with_stored col key none = []
  with_stored col key (some fields) =
      record { key = key; stored = d.lib.apply_locale_to_read fields col.columns } ∷ []

  -- A file whose name gives no key is passed over.
  unfoldable pub read_keyed : CollectionInfo → String → String → Io d.os (List KeyedStored)
  read_keyed col path key = if key == "" then pure [] else (do
    data' ← read_single_record_file d.lib d.os path col
    pure (with_stored col key data'))

  -- One match of the glob pattern; nothing where the loop continues.
  unfoldable pub read_match :
      CollectionInfo → RecordFile → String → (String → String) → String → Io d.os (List KeyedStored)
  unfolding relative base_name read_keyed
  read_match col file base extract path =
      if d.lib.is_excluded file (base_name path)
      then pure []
      else (do below ← lift (relative base path); read_keyed col path (extract below))

  unfoldable pub read_matches :
      CollectionInfo
      → RecordFile
      → String
      → (String → String)
      → List String
      → Io d.os (List KeyedStored)
  unfolding read_match
  read_matches col file base extract [] = pure []
  read_matches col file base extract (path ∷ paths) = do
    first ← read_match col file base extract path
    rest ← read_matches col file base extract paths
    pure (first ++ rest)

  -- `filepath.Glob`, which changes nothing.
  abbrev pub glob : String → Io d.os (List String)
  glob pattern s = (wrap_error (wrapped "glob") (d.os.glob pattern s), s)

  unfoldable pub read_all_single_stored : CollectionInfo → RecordFile → Io d.os (List KeyedStored)
  unfolding read_matches build_key_extractor
  read_all_single_stored col file =
      let base = join (col.dir_path ∷ d.lib.records_base_path file ∷ []) in
      do
        paths ← glob (join (base ∷ replace_from 0 key_placeholder "*" file.name ∷ []))
        extract ← lift (build_key_extractor d.regexp file.name)
        read_matches col file base extract paths

  unfoldable pub read_all_map_stored : CollectionInfo → RecordFile → Io d.os (List KeyedStored)
  unfolding map_stored
  read_all_map_stored col file = do
    rows ←
        read_map_of_records_file d.lib d.os (resolve_record_path d.lib d.rt d.goos col file "")
          file.format
    lift (map_stored d col (or_empty rows))

  abbrev pub parse_rows : CollectionInfo → RecordFile → Bytes → Result (List Fields)
  parse_rows col file content =
      if file.format == "csv"
      then d.lib.parse_csv_records content col
      else d.lib.parse_list_of_records content file.format

  abbrev pub read_rows : CollectionInfo → RecordFile → String → Io d.os (List KeyedStored)
  read_rows col file path = do
    rows ←
        map_result (wrap_error (wrapped "read list records"))
          (read_and_parse d.os path (parse_rows col file))
    lift (list_stored d col [] rows)

  unfoldable pub read_all_list_stored : CollectionInfo → RecordFile → Io d.os (List KeyedStored)
  unfolding list_stored read_and_parse
  read_all_list_stored col file s =
      let path = resolve_record_path d.lib d.rt d.goos col file "" in
      elim (d.os.stat path s) [
        | missing ↦ (ok [], s)
        | Stat.failed e ↦ (err (wrapped "stat list records" e), s)
        | found mode ↦ read_rows col file path s
      ]

  unfoldable pub read_stored_as :
      CollectionInfo → RecordFile → RecordType → Io d.os (List KeyedStored)
  unfolding read_all_single_stored read_all_map_stored read_all_list_stored
  read_stored_as col file single_record = read_all_single_stored col file
  read_stored_as col file map_of_records = read_all_map_stored col file
  read_stored_as col file list_of_records = read_all_list_stored col file
  read_stored_as col file (RecordType.other t) =
      raise (quoted "query unsupported for record type" t)

  unfoldable pub read_all_stored_records : CollectionInfo → RecordFile → Io d.os (List KeyedStored)
  unfolding read_stored_as
  read_all_stored_records col file = read_stored_as col file file.record_type

  -- Every kind of collection is read as stored, and then baked.
  unfoldable pub read_all_records_from_disk :
      CollectionInfo → RecordFile → Io d.os (List KeyedStored)
  unfolding read_all_stored_records bake_stored_records
  read_all_records_from_disk col file = do
    stored ← read_all_stored_records col file
    lift (bake_stored_records d col stored)
