-- ===== src/Readers/Frame.antt =====
-- The readers of a whole collection, and the reader of one record, change no file.
use dalgo2ingitdb.Base.{String, ◌==◌, ◌≡◌, Option, List, [], ◌∷◌, inl, inr}
use dalgo2ingitdb.Base.Result.{wrapped}
use dalgo2ingitdb.Schema.{
  CollectionInfo, RecordFile, RecordType, single_record, map_of_records, list_of_records, Bytes,
}
use dalgo2ingitdb.Deps.{Deps}
use dalgo2ingitdb.Records.{resolve_record_path}
use dalgo2ingitdb.Disk.{Stat-cases, found}
use dalgo2ingitdb.Disk.Laws.{IsLawful}
use dalgo2ingitdb.Disk.Action.{
  Action, Keeps, keeps_rules, Keeps-bind, Keeps-lift, Keeps-pure, Keeps-raise, Keeps-if, bind-at,
  map_result, wrap_error,
}
use dalgo2ingitdb.RecordIo.{read_and_parse}
use dalgo2ingitdb.RecordIo.Frame.{
  Holds, read_single_record_file-Holds, read_map_of_records_file-Holds, read_and_parse-Holds,
}
use dalgo2ingitdb.Readers.{
  glob, read_keyed, read_match, read_matches, read_rows, read_all_single_stored,
  read_all_map_stored, read_all_list_stored, read_stored_as, read_all_stored_records,
  read_all_records_from_disk,
}

module _ (d : Deps) (content : d.os.State → String → Option Bytes) (L : IsLawful d.os content)
    (q : String) (v : Option Bytes) where
  abbrev pub Kept : {A : Type 0} → Action d.os.State A → Type 0
  Kept m = Keeps (Holds d.os content L q v) m

  read_keyed-Kept : (col : CollectionInfo) (path key : String) → Kept (read_keyed d col path key)
  unfolding read_keyed
  read_keyed-Kept col path key = Keeps-if (key == "") _ _ (Keeps-pure _) (
      Keeps-bind _ _ (read_single_record_file-Holds d.os content L q v d.lib path col)
        (λ _. Keeps-pure _))

  read_match-Kept :
      (col : CollectionInfo) (file : RecordFile) (base : String) (extract : String → String)
      (path : String)
      → Kept (read_match d col file base extract path)
  unfolding read_match
  read_match-Kept col file base extract path = search (keeps_rules, read_keyed-Kept)

  read_matches-Kept :
      (col : CollectionInfo) (file : RecordFile) (base : String) (extract : String → String)
      (paths : List String)
      → Kept (read_matches d col file base extract paths)
  unfolding read_matches
  read_matches-Kept col file base extract [] = search keeps_rules
  read_matches-Kept col file base extract (path ∷ paths) =
      Keeps-bind _ _ (read_match-Kept col file base extract path)
        (λ _. Keeps-bind _ _ (read_matches-Kept col file base extract paths) (λ _. Keeps-pure _))

  glob-Kept : (pattern : String) → Kept (glob d pattern)
  glob-Kept pattern = record { at = λ s h. h }

  single-Kept :
      (col : CollectionInfo) (file : RecordFile) → Kept (read_all_single_stored d col file)
  unfolding read_all_single_stored
  single-Kept col file = search (keeps_rules, glob-Kept, read_matches-Kept)

  map-Kept : (col : CollectionInfo) (file : RecordFile) → Kept (read_all_map_stored d col file)
  unfolding read_all_map_stored
  map-Kept col file = search (keeps_rules, read_map_of_records_file-Holds d.os content L q v d.lib)

  pub list-Kept :
      (col : CollectionInfo) (file : RecordFile) → Kept (read_all_list_stored d col file)
  unfolding read_all_list_stored
  list-Kept col file = record {
    at = λ s h.
        let path = resolve_record_path d.lib d.rt d.goos col file "" in
        elim (Stat-cases (d.os.stat path s)) [
          | inl (mode, here) ↦ rw (here, read_all_list_stored) (rows-Kept path mode s here h)
          | inr (inl gone) ↦ rw (gone, read_all_list_stored) h
          | inr (inr (e, fails)) ↦ rw (fails, read_all_list_stored) h
        ];
  }
    where
      rows-Kept :
          (path : String) (mode : _) (s : d.os.State)
          → d.os.stat path s ≡ found mode
          → content s q ≡ v
          → content (read_rows d col file path s).1 q ≡ v
      rows-Kept path mode s here h =
          bind-at {P = Holds d.os content L q v}
            (map_result (wrap_error (wrapped "read list records")) (read_and_parse d.os path _)) _ s
            (read_and_parse-Holds d.os content L q v path _ mode s here h) (λ _. Keeps-lift _)

  stored_as-Kept :
      (col : CollectionInfo) (file : RecordFile) (t : RecordType)
      → Kept (read_stored_as d col file t)
  unfolding read_stored_as
  stored_as-Kept col file single_record = single-Kept col file
  stored_as-Kept col file map_of_records = map-Kept col file
  stored_as-Kept col file list_of_records = list-Kept col file
  stored_as-Kept col file (RecordType.other t) = Keeps-raise _

  pub stored-Kept :
      (col : CollectionInfo) (file : RecordFile) → Kept (read_all_stored_records d col file)
  unfolding read_all_stored_records
  stored-Kept col file = stored_as-Kept col file file.record_type

  pub all_records-Kept :
      (col : CollectionInfo) (file : RecordFile) → Kept (read_all_records_from_disk d col file)
  unfolding read_all_records_from_disk
  all_records-Kept col file = search (keeps_rules, stored-Kept)
