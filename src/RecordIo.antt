-- ===== src/RecordIo.antt =====
-- record_io.go (lines 121 to 252) and the locks of filelock.go: one file, read or written under a
-- lock on it.
pub mod Frame
use dalgo2ingitdb.Base.{ℕ, String, Bool, Option, none, some, List, [], ◌∷◌}
use dalgo2ingitdb.Base.Dict.{Dict}
use dalgo2ingitdb.Base.Value.{Fields}
use dalgo2ingitdb.Base.Result.{Error, external, wrapped, Result, ok, err}
use dalgo2ingitdb.Schema.{Ingitdb, CollectionInfo, RecordFile, Bytes}
use dalgo2ingitdb.Paths.{clean, render, clean_elements, CleanPath}
use dalgo2ingitdb.Disk.{Os, found, missing, Stat, Removal, removed, absent}
use dalgo2ingitdb.Disk.Action.{Action, pure, raise, lift, ◌>>=◌, ◌>>◌, map_result, wrap_error}

abbrev pub drop_last : List String → List String
drop_last [] = []
drop_last (s ∷ []) = []
drop_last (s ∷ t ∷ ss) = s ∷ drop_last (t ∷ ss)

-- `filepath.Dir` of a path that is already cleaned, as all record paths are
unfoldable pub dir : String → String
dir path = let p = clean path in render (record p { elements = drop_last p.elements })

-- A file that is gone by the time of the removal is deleted too.
abbrev pub removal_result : Removal → Result (Unit {0})
removal_result removed = ok tt
removal_result absent = ok tt
removal_result (Removal.failed e) = err (wrapped "remove" e)

module _ (os : Os) where
  abbrev pub Io : Type 0 → Type 0
  Io A = Action os.State A

  abbrev pub wrapping : {A : Type 0} → String → Io A → Io A
  wrapping message m = map_result (wrap_error (wrapped message)) m

  -- Releasing the lock changes no file.
  unfoldable pub with_shared_lock : {A : Type 0} → String → Io A → Io A
  with_shared_lock path fn = wrapping "acquire shared lock" (os.rlock path) >> fn

  unfoldable pub with_exclusive_lock : {A : Type 0} → String → Io A → Io A
  with_exclusive_lock path fn = wrapping "acquire exclusive lock" (os.lock path) >> fn

  unfoldable pub read : String → Io Bytes
  read path s = (wrap_error (wrapped "read") (os.read_file path s), s)

  unfoldable pub parse_file : {A : Type 0} → String → (Bytes → Result A) → Io A
  unfolding read
  parse_file path parse = do
    content ← read path
    lift (wrap_error (wrapped "parse") (parse content))

  unfoldable pub read_and_parse : {A : Type 0} → String → (Bytes → Result A) → Io A
  unfolding parse_file with_shared_lock
  read_and_parse path parse = with_shared_lock path (parse_file path parse)

  unfoldable pub write_locked : String → Bytes → Io (Unit {0})
  unfolding with_exclusive_lock
  write_locked path content =
      with_exclusive_lock path (wrapping "write" (os.write_file path content 0o644))

  unfoldable pub delete_single_record_file : String → Io (Unit {0})
  unfolding with_exclusive_lock
  delete_single_record_file path s = elim (os.stat path s) [
    | missing ↦ (ok tt, s)
    | Stat.failed e ↦ (err (wrapped "stat" e), s)
    | found mode ↦
        with_exclusive_lock path (λ t. let (r, t') = os.remove path t in (removal_result r, t')) s
  ]

module _ (lib : Ingitdb) (os : Os) where
  -- `none` stands for the flag `false`: there is no such file. Where the second result is an error,
  -- no caller looks at the flag.
  unfoldable pub read_single_record_file : String → CollectionInfo → Io os (Option Fields)
  unfolding read_and_parse
  read_single_record_file path col s = elim (os.stat path s) [
    | missing ↦ (ok none, s)
    | Stat.failed e ↦ (err (wrapped "stat" e), s)
    | found mode ↦
        (do data' ← read_and_parse os path (λ c. lib.parse_record_content c col); pure (some data'))
          s
  ]

  unfoldable pub write_single_record_file : String → CollectionInfo → Fields → Io os (Unit {0})
  unfolding write_locked
  write_single_record_file path col fields = do
    wrapping os "mkdir" (os.mkdir_all (dir path))
    content ← lift (wrap_error (wrapped "encode record") (lib.encode_record_content fields col))
    write_locked os path content

  -- `none` is the nil map of a missing file.
  unfoldable pub read_map_of_records_file : String → String → Io os (Option (Dict Fields))
  unfolding read_and_parse
  read_map_of_records_file path format s = elim (os.stat path s) [
    | missing ↦ (ok none, s)
    | Stat.failed e ↦ (err (wrapped "stat" e), s)
    | found mode ↦
        (do all ← read_and_parse os path (λ c. lib.parse_map_of_records c format); pure (some all))
          s
  ]

  unfoldable pub write_map_of_records_file :
      String → CollectionInfo → RecordFile → Dict Fields → Io os (Unit {0})
  unfolding write_locked
  write_map_of_records_file path col file records = do
    wrapping os "mkdir" (os.mkdir_all (dir path))
    content ← lift (
        wrap_error (wrapped "encode records")
          (lib.encode_map_of_records records file.format col.id col.columns_order))
    write_locked os path content
