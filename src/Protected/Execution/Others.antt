-- ===== src/Protected/Execution/Others.antt =====
-- An operation that is executed (protected.go) changes no file but that of its own record.
use mathlib.Core.Path.{subst}
use dalgo2ingitdb.Base.{
  String, ◌≡◌, ◌≢◌, sym, ◌∙◌, Bool, Option, some, Option-cases, inl, inr, List, [], ◌∷◌, All,
}
use dalgo2ingitdb.Base.Dict.{lookup}
use dalgo2ingitdb.Base.Value.{Fields}
use dalgo2ingitdb.Base.Result.{wrapped, Result-cases, ok}
use dalgo2ingitdb.Schema.{Bytes, Definition}
use dalgo2ingitdb.Deps.{Deps}
use dalgo2ingitdb.Records.{Target, resolve_collection}
use dalgo2ingitdb.Disk.{Stat-cases, clean_text}
use dalgo2ingitdb.Disk.Laws.{IsLawful}
use dalgo2ingitdb.Disk.Action.{
  Action, lift, ◌>>=◌, Keeps, Keeps-bind, Keeps-lift, Keeps-pure, Keeps-raise, Keeps-if,
  Keeps-map_result, bind-cases, wrap_error,
}
use dalgo2ingitdb.RecordIo.{Io}
use dalgo2ingitdb.RecordIo.Frame.{Holds}
use dalgo2ingitdb.Reading.Frame.{target_exists-Same, validate_write-Same, validate_delete-Same}
use dalgo2ingitdb.ForeignKeys.{validate_write}
use dalgo2ingitdb.Transaction.{TxState, Tx, on_disk, take_snapshot, snapshot, track, commit_change}
use dalgo2ingitdb.Transaction.Operations.{
  path_of, set_change, insert_change, delete_change, set_record, insert_record, delete_target,
  delete_resolved, delete_record,
}
use dalgo2ingitdb.Transaction.Preservation.{set_as-Same, insert_as-Same, delete_as-Same}
use dalgo2ingitdb.Protected.{OpAction}
use dalgo2ingitdb.Protected.Prepare.{Prepared}
use dalgo2ingitdb.Protected.Execution.{set_existing, execute_as, execute_all}
use dalgo2ingitdb.Protected.Execution.Candidates.{same_value}

module _ {ℓ κ} {S : Type ℓ} {A B : Type 0} {P : S → Type κ} where
  -- What follows has to keep `P` only for what the first action returns.
  Keeps-then :
      (m : Action S A) (f : A → Action S B)
      → Keeps P m
      → ((s : S) (a : A) → (m s).0 ≡ ok a → Keeps P (f a))
      → Keeps P (m >>= f)
  Keeps-then m f km k = record {
    at = λ s h.
        bind-cases P m f s (λ e failed. km.at s h) (λ a done. (k s a done).at (m s).1 (km.at s h));
  }

module _ (d : Deps) (content : d.os.State → String → Option Bytes) (L : IsLawful d.os content)
    (q : String) (v : Option Bytes) where
  abbrev pub HoldsTx : TxState d.os → Type 0
  HoldsTx t = content t.disk q ≡ v

  abbrev KeptTx : {A : Type 0} → Tx d.os A → Type 0
  KeptTx m = Keeps HoldsTx m

  on_disk-Kept :
      {A : Type 0} (m : Io d.os A) → Keeps (Holds d.os content L q v) m → KeptTx (on_disk d.os m)
  unfolding on_disk
  on_disk-Kept m k = record { at = λ t h. k.at t.disk h }

  take_snapshot-Kept : (path : String) → KeptTx (take_snapshot d.os path)
  unfolding take_snapshot
  take_snapshot-Kept path = record {
    at = λ t h. elim (Stat-cases (d.os.stat path t.disk)) [
      | inl (mode, e) ↦ elim (Result-cases (d.os.read_file path t.disk)) [
        | inl (b, r) ↦ rw (e, r, take_snapshot) h
        | inr (f, r) ↦ rw (e, r, take_snapshot) h
      ]
      | inr (inl e) ↦ rw (e, take_snapshot) h
      | inr (inr (f, e)) ↦ rw (e, take_snapshot) h
    ];
  }

  snapshot-Kept : (path : String) → KeptTx (snapshot d.os path)
  unfolding snapshot
  snapshot-Kept path = record {
    at = λ t h. elim (Option-cases (lookup (clean_text path) t.snapshots)) [
      | inl e ↦ rw (e, snapshot) ((take_snapshot-Kept (clean_text path)).at t h)
      | inr (snap, e) ↦ rw (e, snapshot) h
    ];
  }

  track-Kept : (path : String) → KeptTx (track d.os path)
  unfolding track
  track-Kept path = record { at = λ t h. h }

  commit_change-Kept :
      (path : String) (change : Io d.os Bool)
      → Keeps (Holds d.os content L q v) change
      → KeptTx (commit_change d.os path change)
  unfolding commit_change
  commit_change-Kept path change k = Keeps-bind _ _ (snapshot-Kept path) (λ _.
      Keeps-bind _ _ (on_disk-Kept change k) (λ b. Keeps-if b _ _ (track-Kept path) (Keeps-pure _)))

  -- An operation that is resolved to another file.
  pub record IsOther (def : Definition) (p : Prepared) : Type 0 where
    pub resolved : resolve_collection d.lib d.rt d.goos (some def) (some p.op.key) ≡ ok p.target
    pub other : clean_text (path_of d p.target) ≢ clean_text q

  module _ (def : Definition) (p : Prepared) (o : IsOther def p) where
    set_record-Kept : (data' : Fields) → KeptTx (set_record d def (some p.op.key) data')
    unfolding set_record set_change lift
    set_record-Kept data' = Keeps-then _ _ (Keeps-lift _) (λ s t e.
        subst
          (λ (x : Target). KeptTx (
            on_disk d.os (validate_write d def x.col data') >>= λ _.
            commit_change d.os (path_of d x) (set_change d x data')))
          (same_value (sym o.resolved ∙ e))
          (Keeps-bind _ _
            (on_disk-Kept _ (validate_write-Same d content L q v def p.target.col data'))
            (λ _.
              commit_change-Kept _ _
                (set_as-Same d content L p.target q v o.other data' p.target.file.record_type))))

    insert_record-Kept : (data' : Fields) → KeptTx (insert_record d def (some p.op.key) data')
    unfolding insert_record insert_change lift
    insert_record-Kept data' = Keeps-then _ _ (Keeps-lift _) (λ s t e.
        subst
          (λ (x : Target). KeptTx (
            on_disk d.os (validate_write d def x.col data') >>= λ _.
            commit_change d.os (path_of d x) (insert_change d x data')))
          (same_value (sym o.resolved ∙ e))
          (Keeps-bind _ _
            (on_disk-Kept _ (validate_write-Same d content L q v def p.target.col data'))
            (λ _.
              commit_change-Kept _ _
                (insert_as-Same d content L p.target q v o.other data' p.target.file.record_type))))

    delete_target-Kept : KeptTx (delete_target d def (some p.op.key) p.target)
    unfolding delete_change
    delete_target-Kept =
        Keeps-bind _ _
          (on_disk-Kept _ (
            Keeps-map_result (wrap_error (wrapped "Delete foreign key lookup failed")) _
              (target_exists-Same d content L q v p.target.col p.target.key)))
          (λ e.
            Keeps-bind _ _
              (on_disk-Kept _
                (Keeps-if e _ _ (validate_delete-Same d content L q v def _ _) (Keeps-pure _)))
              (λ _.
                commit_change-Kept _ _
                  (delete_as-Same d content L p.target q v o.other p.target.file.record_type)))

    delete_record-Kept : KeptTx (delete_record d def (some p.op.key))
    unfolding delete_record
    delete_record-Kept =
        subst (λ r. KeptTx (delete_resolved d def (some p.op.key) r)) (sym o.resolved)
          delete_target-Kept

    set_existing-Kept : KeptTx (set_existing d def p)
    set_existing-Kept = Keeps-if _ _ _ (Keeps-raise _) (set_record-Kept _)

    execute_as-Kept : (action : OpAction) → KeptTx (execute_as d def action p)
    execute_as-Kept OpAction.insert = Keeps-if _ _ _ (Keeps-raise _) (insert_record-Kept _)
    execute_as-Kept OpAction.set = set_existing-Kept
    execute_as-Kept OpAction.update = set_existing-Kept
    execute_as-Kept OpAction.delete = Keeps-if _ _ _ delete_record-Kept (Keeps-raise _)
    execute_as-Kept OpAction.other = Keeps-pure _

  pub execute_all-Kept :
      (def : Definition) (ps : List Prepared) → All (IsOther def) ps → KeptTx (execute_all d def ps)
  unfolding execute_all
  execute_all-Kept def [] h = Keeps-pure _
  execute_all-Kept def (p ∷ ps) (o, h) =
      Keeps-bind _ _ (execute_as-Kept def p o p.op.action) (λ _. execute_all-Kept def ps h)
