-- ===== src/Transaction/Preservation.antt =====
-- Every operation of a transaction, and so every worker, keeps the transaction recoverable.
use dalgo2ingitdb.Base.{String, ◌≢◌, Option, none, some, Bool, List}
use dalgo2ingitdb.Base.Dict.{Dict}
use dalgo2ingitdb.Base.Value.{Fields}
use dalgo2ingitdb.Base.Result.{Result, ok, err, wrapped, is_unknown_collection}
use dalgo2ingitdb.Schema.{
  RecordType, single_record, map_of_records, list_of_records, Bytes, Definition,
}
use dalgo2ingitdb.Deps.{Deps}
use dalgo2ingitdb.Records.{Key, Target, resolve_collection}
use dalgo2ingitdb.Disk.{clean_text}
use dalgo2ingitdb.Disk.Laws.{IsLawful}
use dalgo2ingitdb.Disk.Action.{
  Keeps, Keeps-bind, Keeps-lift, Keeps-pure, Keeps-raise, Keeps-if, Keeps-map_result, wrap_error,
}
use dalgo2ingitdb.RecordIo.{Io, read_map_of_records_file, write_map_of_records_file}
use dalgo2ingitdb.RecordIo.Frame.{
  Holds, read_map_of_records_file-Holds, write_single_record_file-Holds,
  write_map_of_records_file-Holds, delete_single_record_file-Holds,
}
use dalgo2ingitdb.Reading.Frame.{
  get_record-Same, record_exists-Same, target_exists-Same, stored_checks-Same, computed_checks-Same,
  validate_write-Same, validate_delete-Same,
}
use dalgo2ingitdb.Updates.{Update}
use dalgo2ingitdb.Transaction.{Tx, on_disk, commit_change}
use dalgo2ingitdb.Transaction.Recoverable.{
  Recoverable, on_disk-Recoverable, commit_change-Recoverable,
}
use dalgo2ingitdb.Transaction.Operations.{
  path_of, stat_file, write_single, write_row, set_as, set_change, insert_as, insert_change,
  delete_as, delete_change, set_record, insert_record, check_unreferenced, delete_resolved,
  delete_record, checked_set, update_stored, update_record,
}
use dalgo2ingitdb.Transaction.Run.{
  Call, get, exists, set, insert, delete, update, update_held, Worker, finish, fail, call, perform,
  run_worker,
}

module _ (d : Deps) (content : d.os.State → String → Option Bytes) (L : IsLawful d.os content) where
  -- What an operation may do to the file of its target.
  module _ (t : Target) (q : String) (v : Option Bytes)
      (other : clean_text (path_of d t) ≢ clean_text q) where
    abbrev Same : {A : Type 0} → Io d.os A → Type 0
    Same m = Keeps (Holds d.os content L q v) m

    rows-Same : (path format : String) → Same (read_map_of_records_file d.lib d.os path format)
    rows-Same = read_map_of_records_file-Holds d.os content L q v d.lib

    stat-Same : (path : String) → Same (stat_file d path)
    stat-Same path = record { at = λ s h. h }

    write_single-Same : (data' : Fields) → Same (write_single d t data')
    write_single-Same data' =
        Keeps-bind _ _
          (write_single_record_file-Holds d.os content L q v (path_of d t) other d.lib t.col data')
          (λ _. Keeps-pure _)

    write_rows-Same :
        (rows : Dict Fields)
        → Same (write_map_of_records_file d.lib d.os (path_of d t) t.col t.file rows)
    write_rows-Same rows =
        write_map_of_records_file-Holds d.os content L q v (path_of d t) other d.lib t.col t.file
          rows

    write_row-Same :
        (data' : Fields) (rows : Option (Dict Fields)) → Same (write_row d t data' rows)
    write_row-Same data' rows = Keeps-bind _ _ (write_rows-Same _) (λ _. Keeps-pure _)

    pub set_as-Same : (data' : Fields) (k : RecordType) → Same (set_as d t data' k)
    unfolding set_as
    set_as-Same data' single_record = write_single-Same data'
    set_as-Same data' map_of_records = Keeps-bind _ _ (rows-Same _ _) (write_row-Same data')
    set_as-Same data' list_of_records = Keeps-raise _
    set_as-Same data' (RecordType.other k) = Keeps-raise _

    pub insert_as-Same : (data' : Fields) (k : RecordType) → Same (insert_as d t data' k)
    unfolding insert_as
    insert_as-Same data' single_record =
        Keeps-bind _ _ (stat-Same _) (λ e. Keeps-if e _ _ (Keeps-raise _) (write_single-Same data'))
    insert_as-Same data' map_of_records =
        Keeps-bind _ _ (rows-Same _ _)
          (λ rows. Keeps-if _ _ _ (Keeps-raise _) (write_row-Same data' rows))
    insert_as-Same data' list_of_records = Keeps-raise _
    insert_as-Same data' (RecordType.other k) = Keeps-raise _

    pub delete_as-Same : (k : RecordType) → Same (delete_as d t k)
    unfolding delete_as
    delete_as-Same single_record = Keeps-bind _ _ (stat-Same _) (λ e.
        Keeps-if e _ _
          (Keeps-bind _ _ (delete_single_record_file-Holds d.os content L q v (path_of d t) other)
            (λ _. Keeps-pure _))
          (Keeps-pure _))
    delete_as-Same map_of_records = Keeps-bind _ _ (rows-Same _ _) (λ rows.
        Keeps-if _ _ _ (Keeps-bind _ _ (write_rows-Same _) (λ _. Keeps-pure _)) (Keeps-pure _))
    delete_as-Same list_of_records = Keeps-raise _
    delete_as-Same (RecordType.other k) = Keeps-raise _

  module _ (start : d.os.State) (def : Definition) where
    abbrev Safe : {A : Type 0} → Tx d.os A → Type 0
    Safe m = Keeps (Recoverable d.os content L start) m

    reading :
        {A : Type 0} (m : Io d.os A)
        → ((q : String) (v : Option Bytes) → Keeps (Holds d.os content L q v) m)
        → Safe (on_disk d.os m)
    reading = on_disk-Recoverable d.os content L start

    change :
        (t : Target) (m : Io d.os Bool)
        → ((q : String) (v : Option Bytes)
            → clean_text (path_of d t) ≢ clean_text q
            → Keeps (Holds d.os content L q v) m)
        → Safe (commit_change d.os (path_of d t) m)
    change t = commit_change-Recoverable d.os content L start (path_of d t)

    pub set_record-Safe : (key : Option Key) (data' : Fields) → Safe (set_record d def key data')
    unfolding set_record set_change
    set_record-Safe key data' = Keeps-bind _ _ (Keeps-lift _) (λ t.
        Keeps-bind _ _ (reading _ (λ q v. validate_write-Same d content L q v def t.col data'))
          (λ _. change t _ (λ q v other. set_as-Same t q v other data' t.file.record_type)))

    pub insert_record-Safe :
        (key : Option Key) (data' : Fields) → Safe (insert_record d def key data')
    unfolding insert_record insert_change
    insert_record-Safe key data' = Keeps-bind _ _ (Keeps-lift _) (λ t.
        Keeps-bind _ _ (reading _ (λ q v. validate_write-Same d content L q v def t.col data'))
          (λ _. change t _ (λ q v other. insert_as-Same t q v other data' t.file.record_type)))

    check-Same :
        (key : Option Key) (t : Target) (e : Bool) (q : String) (v : Option Bytes)
        → Keeps (Holds d.os content L q v) (check_unreferenced d def key t e)
    check-Same none t e q v = Keeps-pure _
    check-Same (some key) t e q v =
        Keeps-if e _ _ (validate_delete-Same d content L q v def _ _) (Keeps-pure _)

    delete_resolved-Safe :
        (key : Option Key) (r : Result Target) → Safe (delete_resolved d def key r)
    unfolding delete_change
    delete_resolved-Safe key (ok t) =
        Keeps-bind _ _
          (reading _ (λ q v.
            Keeps-map_result (wrap_error (wrapped "Delete foreign key lookup failed")) _
              (target_exists-Same d content L q v t.col t.key)))
          (λ e.
            Keeps-bind _ _ (reading _ (check-Same key t e))
              (λ _. change t _ (λ q v other. delete_as-Same t q v other t.file.record_type)))
    delete_resolved-Safe key (err e) =
        Keeps-if (is_unknown_collection e) _ _ (Keeps-pure _) (Keeps-raise _)

    pub delete_record-Safe : (key : Option Key) → Safe (delete_record d def key)
    unfolding delete_record
    delete_record-Safe key =
        delete_resolved-Safe key (resolve_collection d.lib d.rt d.goos (some def) key)

    checked_set-Safe :
        (key : Option Key) (t : Target) (checked data' : Fields)
        → Safe (checked_set d def key t checked data')
    checked_set-Safe key t checked data' =
        Keeps-bind _ _ (reading _ (λ q v. stored_checks-Same d content L q v def t.col checked))
          (λ _.
            Keeps-bind _ _
              (reading _ (λ q v. computed_checks-Same d content L q v def t.col checked))
              (λ _. set_record-Safe key data'))

    update_record-Safe :
        (now : String) (key : Option Key) (is_map : Bool) (data' : Fields) (updates : List Update)
        → Safe (update_record d now def key is_map data' updates)
    unfolding update_record
    update_record-Safe now key is_map data' updates =
        Keeps-bind _ _ (Keeps-lift _)
          (λ u. Keeps-bind _ _ (Keeps-lift _) (λ t. checked_set-Safe key t u _))

    module _ (stored_only : Bool) (now : String) where
      update_stored-Safe :
          (key : Option Key) (updates : List Update)
          → Safe (update_stored d stored_only now def key updates)
      unfolding update_stored
      update_stored-Safe key updates =
          Keeps-bind _ _
            (reading _ (λ q v. get_record-Same d content L q v stored_only (some def) key))
            (λ f.
              Keeps-bind _ _ (Keeps-lift _)
                (λ u. Keeps-bind _ _ (Keeps-lift _) (λ t. checked_set-Safe key t _ _)))

      perform-Safe : (c : Call) → Safe (perform d stored_only now def c)
      unfolding perform
      perform-Safe (get key) =
          Keeps-bind _ _
            (reading _ (λ q v. get_record-Same d content L q v stored_only (some def) key))
            (λ _. Keeps-pure _)
      perform-Safe (exists key) =
          Keeps-bind _ _
            (reading _ (λ q v. record_exists-Same d content L q v stored_only (some def) key))
            (λ _. Keeps-pure _)
      perform-Safe (set key data') = Keeps-bind _ _ (set_record-Safe key data') (λ _. Keeps-pure _)
      perform-Safe (insert key data') =
          Keeps-bind _ _ (insert_record-Safe key data') (λ _. Keeps-pure _)
      perform-Safe (delete key) = Keeps-bind _ _ (delete_record-Safe key) (λ _. Keeps-pure _)
      perform-Safe (update key updates) =
          Keeps-bind _ _ (update_stored-Safe key updates) (λ _. Keeps-pure _)
      perform-Safe (update_held key is_map data' updates) =
          Keeps-bind _ _ (update_record-Safe now key is_map data' updates) (λ _. Keeps-pure _)

      -- Whatever a worker calls, and however it ends, what it changed can be put back.
      pub run_worker-Recoverable : (w : Worker) → Safe (run_worker d stored_only now def w)
      unfolding run_worker
      run_worker-Recoverable finish = record { at = λ s h. h }
      run_worker-Recoverable (fail e) = record { at = λ s h. h }
      run_worker-Recoverable (call c next) = record {
        at = λ s h.
            (run_worker-Recoverable (next (perform d stored_only now def c s).0)).at _
              ((perform-Safe c).at s h);
      }
