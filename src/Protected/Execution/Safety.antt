-- ===== src/Protected/Execution/Safety.antt =====
-- What a protected execution leaves behind, and that an inspection changes nothing (protected.go).
use dalgo2ingitdb.Base.{
  String, ◌≡◌, ◌≢◌, refl, ◌∙◌, Bool, true, false, not, ◌&&◌, Option, some, List, [], ◌∷◌,
}
use dalgo2ingitdb.Base.Dict.{lookup}
use dalgo2ingitdb.Base.Result.{Error, failure, Result, ok, err}
use dalgo2ingitdb.Schema.{
  RecordType, single_record, map_of_records, list_of_records, Bytes, Definition,
}
use dalgo2ingitdb.Deps.{Deps}
use dalgo2ingitdb.Disk.{clean_text}
use dalgo2ingitdb.Disk.Laws.{IsLawful}
use dalgo2ingitdb.Disk.Action.{
  Keeps, Keeps-bind, Keeps-lift, Keeps-pure, Keeps-raise, Keeps-if, Keeps-map_result,
}
use dalgo2ingitdb.RecordIo.{Io, wrapping}
use dalgo2ingitdb.RecordIo.Frame.{Holds, read_map_of_records_file-Holds}
use dalgo2ingitdb.Reading.Frame.{get_record-Same}
use dalgo2ingitdb.ForeignKeys.{is_some}
use dalgo2ingitdb.Transaction.{TxState, Tx}
use dalgo2ingitdb.Transaction.Recoverable.{Recoverable, none_or_some}
use dalgo2ingitdb.Transaction.Preservation.{set_record-Safe, insert_record-Safe, delete_record-Safe}
use dalgo2ingitdb.Transaction.Restore.{restore_snapshots-content}
use dalgo2ingitdb.Protected.{OpAction, ProtectedOperation, ProtectedEvidence, Secrets, is_update}
use dalgo2ingitdb.Protected.Prepare.{
  Prepared, found_or_missing, read_raw, prepare_one, prepare_all, group_content_as, group_content,
  group_contents, at_path, prepare,
}
use dalgo2ingitdb.Protected.Execution.{
  Client, finish, fail, execute, refused, set_existing, execute_as, execute_all, run_client,
  inspect, restored, undo, after_client, with_prepared, execute_protected, with_lock,
  within_protected_execution, unavailable, or_empty_image,
}

module _ (d : Deps) (content : d.os.State → String → Option Bytes) (L : IsLawful d.os content) where
  module _ (q : String) (v : Option Bytes) (secrets : Secrets) (secret : Bytes) (stored_only : Bool)
      (def : Definition) where
    abbrev Same : {A : Type 0} → Io d.os A → Type 0
    Same m = Keeps (Holds d.os content L q v) m

    read_raw-Same : (path : String) → Same (read_raw d secrets secret path)
    unfolding read_raw
    read_raw-Same path = record { at = λ s h. h }

    prepare_one-Same :
        (op : ProtectedOperation) → Same (prepare_one d secrets secret stored_only def op)
    unfolding prepare_one
    prepare_one-Same op = Keeps-bind _ _ (Keeps-lift _) (λ t. Keeps-bind _ _ (Keeps-lift _) (λ _.
        Keeps-bind _ _ (read_raw-Same _) (λ raw.
          Keeps-bind _ _
            (Keeps-map_result found_or_missing _
              (get_record-Same d content L q v stored_only (some def) (some op.key)))
            (λ pre. Keeps-bind _ _ (Keeps-lift _) (λ c. Keeps-pure _)))))

    prepare_all-Same :
        (ops : List ProtectedOperation) → Same (prepare_all d secrets secret stored_only def ops)
    unfolding prepare_all
    prepare_all-Same [] = Keeps-pure _
    prepare_all-Same (op ∷ ops) =
        Keeps-bind _ _ (prepare_one-Same op)
          (λ p. Keeps-bind _ _ (prepare_all-Same ops) (λ ps. Keeps-pure _))

    group_content_as-Same :
        (p : Prepared) (ps : List Prepared) (k : RecordType)
        → Same (group_content_as d secrets secret p ps k)
    group_content_as-Same p ps single_record = Keeps-lift _
    group_content_as-Same p ps map_of_records =
        Keeps-bind _ _ (read_map_of_records_file-Holds d.os content L q v d.lib _ _)
          (λ rows. Keeps-lift _)
    group_content_as-Same p ps list_of_records = Keeps-raise _
    group_content_as-Same p ps (RecordType.other k) = Keeps-raise _

    group_content-Same : (ps : List Prepared) → Same (group_content d secrets secret ps)
    unfolding group_content
    group_content-Same [] = Keeps-pure _
    group_content-Same (p ∷ ps) = group_content_as-Same p ps p.target.file.record_type

    group_contents-Same :
        (ps : List Prepared) (paths : List String) → Same (group_contents d secrets secret ps paths)
    unfolding group_contents
    group_contents-Same ps [] = Keeps-pure _
    group_contents-Same ps (path ∷ paths) =
        Keeps-bind _ _ (group_content-Same (at_path path ps))
          (λ c. Keeps-bind _ _ (group_contents-Same ps paths) (λ rest. Keeps-pure _))

    prepare-Same :
        (ops : List ProtectedOperation) → Same (prepare d secrets secret stored_only def ops)
    unfolding prepare
    prepare-Same ops = Keeps-bind _ _ (Keeps-lift _) (λ _.
        Keeps-bind _ _ (prepare_all-Same ops)
          (λ ps. Keeps-bind _ _ (group_contents-Same ps _) (λ c. Keeps-pure _)))

    -- An inspection leaves the file at `q` as it was.
    inspect-Same :
        (ops : List ProtectedOperation) (fn : List ProtectedEvidence → Result (Unit {0}))
        → Same (inspect d secrets secret stored_only def ops fn)
    unfolding inspect
    inspect-Same ops fn = Keeps-bind _ _ (prepare-Same ops) (λ p. record { at = λ s h. h })

  module _ (start : d.os.State) (def : Definition) where
    abbrev Safe : {A : Type 0} → Tx d.os A → Type 0
    Safe m = Keeps (Recoverable d.os content L start) m

    set_existing-Safe : (p : Prepared) → Safe (set_existing d def p)
    set_existing-Safe p =
        Keeps-if (is_update p.op.action && not (is_some p.pre)) _ _ (Keeps-raise unavailable)
          (set_record-Safe d content L start def (some p.op.key) (or_empty_image p.candidate))

    execute_as-Safe : (action : OpAction) (p : Prepared) → Safe (execute_as d def action p)
    execute_as-Safe OpAction.insert p =
        Keeps-if (is_some p.pre) _ _ (Keeps-raise _)
          (insert_record-Safe d content L start def (some p.op.key) (or_empty_image p.candidate))
    execute_as-Safe OpAction.set p = set_existing-Safe p
    execute_as-Safe OpAction.update p = set_existing-Safe p
    execute_as-Safe OpAction.delete p =
        Keeps-if (is_some p.pre) _ _ (delete_record-Safe d content L start def (some p.op.key))
          (Keeps-raise _)
    execute_as-Safe OpAction.other p = Keeps-pure _

    execute_all-Safe : (ps : List Prepared) → Safe (execute_all d def ps)
    unfolding execute_all
    execute_all-Safe [] = Keeps-pure _
    execute_all-Safe (p ∷ ps) =
        Keeps-bind _ _ (execute_as-Safe p.op.action p) (λ _. execute_all-Safe ps)

    run_client-Safe :
        (ps : List Prepared) (called : Bool) (c : Client) → Safe (run_client d def ps called c)
    unfolding run_client
    run_client-Safe ps called finish = record { at = λ s h. h }
    run_client-Safe ps called (fail e) = record { at = λ s h. h }
    run_client-Safe ps true (execute next) = record {
      at = λ s h.
          (run_client-Safe ps true (next (err (failure "protected execution already called")))).at s
            h;
    }
    run_client-Safe ps false (execute next) = record {
      at = λ s h.
          (run_client-Safe ps true (next (execute_all d def ps s).0)).at _
            ((execute_all-Safe ps).at s h);
    }

  module _ (secrets : Secrets) (secret : Bytes) (stored_only : Bool) (def : Definition)
      (fn : List ProtectedEvidence → Client) (q : String) where
    restored-refused :
        (e e' : Error) (r : Result (Unit {0}))
        → restored d secrets secret stored_only def e r ≡ refused e'
        → r ≡ ok tt
    restored-refused e e' (ok u) h = refl
    restored-refused e e' (err f) h = cc h

    after_client-refused :
        (start : d.os.State) (r : Result (Unit {0})) (t : TxState d.os) (e : Error)
        → Recoverable d.os content L start t
        → (after_client d secrets secret stored_only def (r, t)).0 ≡ refused e
        → content (after_client d secrets secret stored_only def (r, t)).1 q ≡ content start q
    unfolding undo
    after_client-refused start (ok u) t e rec h = cc h
    after_client-refused start (err f) t e rec h =
        restore_snapshots-content d.os content L start t t.disk q rec refl
          (restored-refused f e _ h)

    with_prepared-refused :
        (r : Result (List ProtectedEvidence × List Prepared)) (s : d.os.State) (e : Error)
        → (with_prepared d secrets secret stored_only def fn r s).0 ≡ refused e
        → content (with_prepared d secrets secret stored_only def fn r s).1 q ≡ content s q
    unfolding lookup
    with_prepared-refused (err f) s e h = refl
    with_prepared-refused (ok (evidence, ps)) s e h =
        let t : TxState d.os = record { disk = s; written = []; snapshots = [] } in
        after_client-refused s (run_client d def ps false (fn evidence) t).0
          (run_client d def ps false (fn evidence) t).1 e
          ((run_client-Safe s def ps false (fn evidence)).at t (record {
            untouched = λ q h. refl;
            saved = λ k snap h. none_or_some refl h;
            cleaned = λ k snap h. none_or_some refl h;
          }))
          h

    execute_protected-refused :
        (ops : List ProtectedOperation) (s : d.os.State) (e : Error)
        → (execute_protected d secrets secret stored_only def ops fn s).0 ≡ refused e
        → content (execute_protected d secrets secret stored_only def ops fn s).1 q ≡ content s q
    unfolding execute_protected
    execute_protected-refused ops s e h =
        let prepared = prepare d secrets secret stored_only def ops s in
        with_prepared-refused prepared.0 prepared.1 e h
        ∙ (prepare-Same q (content s q) secrets secret stored_only def ops).at s refl

    with_lock-refused :
        (ops : List ProtectedOperation) (r : Result (Unit {0})) (s : d.os.State) (e : Error)
        → (with_lock d secrets secret stored_only def r
            (execute_protected d secrets secret stored_only def ops fn)
            s).0
          ≡ refused e
        → content
            (with_lock d secrets secret stored_only def r
              (execute_protected d secrets secret stored_only def ops fn)
              s).1
            q
          ≡ content s q
    with_lock-refused ops (err f) s e h = refl
    with_lock-refused ops (ok u) s e h = execute_protected-refused ops s e h

    -- A protected execution that ends refused, whatever its client did and wherever it failed, has
    -- left every file but the lock's as it was.
    pub within_protected_execution-refused :
        (lock : String) (ops : List ProtectedOperation) (s : d.os.State) (e : Error)
        → clean_text lock ≢ clean_text q
        → (within_protected_execution d secrets secret stored_only def lock ops fn s).0 ≡ refused e
        → content (within_protected_execution d secrets secret stored_only def lock ops fn s).1 q
          ≡ content s q
    unfolding within_protected_execution
    within_protected_execution-refused lock ops s e other h =
        with_lock-refused ops (wrapping d.os "acquire protected lock" (d.os.lock lock) s).0
          (d.os.lock lock s).1 e h
        ∙ L.lock-frame s lock q other
