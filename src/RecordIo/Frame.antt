-- ===== src/RecordIo/Frame.antt =====
-- Which files the functions on record files can change: readers none, writers only their own.
use dalgo2ingitdb.Base.{ℕ, String, ◌≡◌, ◌≢◌, ◌∙◌, Option, some, inl, inr}
use dalgo2ingitdb.Base.Dict.{Dict}
use dalgo2ingitdb.Base.Value.{Fields}
use dalgo2ingitdb.Base.Result.{Result, wrapped}
use dalgo2ingitdb.Schema.{Ingitdb, CollectionInfo, RecordFile, Bytes}
use dalgo2ingitdb.Disk.{Os, Stat-cases, found, clean_text}
use dalgo2ingitdb.Disk.Laws.{IsLawful}
use dalgo2ingitdb.Disk.Action.{
  Action, pure, ◌>>=◌, wrap_error, Keeps, keeps_rules, bind-at, Keeps-bind, Keeps-map_result,
  Keeps-pure,
}
use dalgo2ingitdb.RecordIo.{
  with_shared_lock, with_exclusive_lock, read, read_and_parse, parse_file, removal_result,
  read_single_record_file, write_locked, write_single_record_file, read_map_of_records_file,
  write_map_of_records_file, delete_single_record_file, wrapping,
}

module _ (os : Os) (content : os.State → String → Option Bytes) (L : IsLawful os content) where
  module _ (q : String) (v : Option Bytes) where
    -- The file at `q` has the contents `v`.
    abbrev pub Holds : os.State → Type 0
    Holds s = content s q ≡ v

    read-Holds : (path : String) → Keeps Holds (read os path)
    unfolding read
    read-Holds path = record { at = λ s h. h }

    rlock-Holds :
        (path : String) (mode : ℕ) (s : os.State)
        → os.stat path s ≡ found mode
        → Holds s
        → Holds (wrapping os "acquire shared lock" (os.rlock path) s).1
    rlock-Holds path mode s here h = L.rlock-frame s path mode q here ∙ h

    parse_file-Holds :
        {A : Type 0} (path : String) (parse : Bytes → Result A)
        → Keeps Holds (parse_file os path parse)
    unfolding parse_file
    parse_file-Holds path parse = search (keeps_rules, read-Holds)

    -- The lock is taken where the file was just found.
    pub read_and_parse-Holds :
        {A : Type 0} (path : String) (parse : Bytes → Result A) (mode : ℕ) (s : os.State)
        → os.stat path s ≡ found mode
        → Holds s
        → Holds (read_and_parse os path parse s).1
    unfolding read_and_parse ◌>>=◌ with_shared_lock
    read_and_parse-Holds path parse mode s here h =
        bind-at (wrapping os "acquire shared lock" (os.rlock path)) _ s
          (rlock-Holds path mode s here h) (λ _. parse_file-Holds path parse)

    parse_some-Holds :
        {A : Type 0} (path : String) (parse : Bytes → Result A) (mode : ℕ) (s : os.State)
        → os.stat path s ≡ found mode
        → Holds s
        → Holds ((read_and_parse os path parse >>= λ a. pure (some a)) s).1
    parse_some-Holds path parse mode s here h =
        bind-at {P = Holds} (read_and_parse os path parse) _ s
          (read_and_parse-Holds path parse mode s here h) (λ a. Keeps-pure (some a))

    module _ (lib : Ingitdb) where
      pub read_single_record_file-Holds :
          (path : String) (col : CollectionInfo)
          → Keeps Holds (read_single_record_file lib os path col)
      unfolding read_single_record_file
      read_single_record_file-Holds path col = record {
        at = λ s h. elim (Stat-cases (os.stat path s)) [
          | inl (mode, here) ↦
              rw (here, read_single_record_file) (parse_some-Holds path _ mode s here h)
          | inr (inl gone) ↦ rw (gone, read_single_record_file) h
          | inr (inr (e, fails)) ↦ rw (fails, read_single_record_file) h
        ];
      }

      pub read_map_of_records_file-Holds :
          (path format : String) → Keeps Holds (read_map_of_records_file lib os path format)
      unfolding read_map_of_records_file
      read_map_of_records_file-Holds path format = record {
        at = λ s h. elim (Stat-cases (os.stat path s)) [
          | inl (mode, here) ↦
              rw (here, read_map_of_records_file) (parse_some-Holds path _ mode s here h)
          | inr (inl gone) ↦ rw (gone, read_map_of_records_file) h
          | inr (inr (e, fails)) ↦ rw (fails, read_map_of_records_file) h
        ];
      }

    module _ (path : String) (other : clean_text path ≢ clean_text q) where
      pub write-Holds : (b : Bytes) (mode : ℕ) → Keeps Holds (os.write_file path b mode)
      write-Holds b mode = record { at = λ s h. L.write-frame s path b mode q other ∙ h }

      lock-Holds : Keeps Holds (os.lock path)
      lock-Holds = record { at = λ s h. L.lock-frame s path q other ∙ h }

      with_exclusive_lock-Holds :
          {A : Type 0} (m : Action os.State A)
          → Keeps Holds m
          → Keeps Holds (with_exclusive_lock os path m)
      unfolding with_exclusive_lock
      with_exclusive_lock-Holds m k =
          Keeps-bind _ _
            (Keeps-map_result (wrap_error (wrapped "acquire exclusive lock")) _ lock-Holds) (λ _. k)

      pub write_locked-Holds : (b : Bytes) → Keeps Holds (write_locked os path b)
      unfolding write_locked
      write_locked-Holds b = with_exclusive_lock-Holds _ (search (keeps_rules, write-Holds b 0o644))

      pub mkdir-Holds : (d : String) → Keeps Holds (os.mkdir_all d)
      mkdir-Holds d = record { at = λ s h. L.mkdir-frame s d q ∙ h }

      pub write_single_record_file-Holds :
          (lib : Ingitdb) (col : CollectionInfo) (fields : Fields)
          → Keeps Holds (write_single_record_file lib os path col fields)
      unfolding write_single_record_file
      write_single_record_file-Holds lib col fields =
          search (keeps_rules, mkdir-Holds, write_locked-Holds)

      pub write_map_of_records_file-Holds :
          (lib : Ingitdb) (col : CollectionInfo) (file : RecordFile) (records : Dict Fields)
          → Keeps Holds (write_map_of_records_file lib os path col file records)
      unfolding write_map_of_records_file
      write_map_of_records_file-Holds lib col file records =
          search (keeps_rules, mkdir-Holds, write_locked-Holds)

      remove-Holds :
          Keeps {A = Unit {0}} Holds (λ t. let (r, t') = os.remove path t in (removal_result r, t'))
      remove-Holds = record { at = λ s h. L.remove-frame s path q other ∙ h }

      pub delete_single_record_file-Holds : Keeps Holds (delete_single_record_file os path)
      unfolding delete_single_record_file
      delete_single_record_file-Holds = record {
        at = λ s h. elim (Stat-cases (os.stat path s)) [
          | inl (mode, here) ↦
              rw (here, delete_single_record_file)
                ((with_exclusive_lock-Holds _ remove-Holds).at s h)
          | inr (inl gone) ↦ rw (gone, delete_single_record_file) h
          | inr (inr (e, fails)) ↦ rw (fails, delete_single_record_file) h
        ];
      }
