-- ===== src/Protected/Execution/Candidates.antt =====
-- The candidate revision of a record in a file of its own is the revision of the file that the
-- execution writes (protected.go).
use mathlib.Core.Path.{subst}
use dalgo2ingitdb.Base.{
  String, ◌≡◌, refl, sym, ap, ◌∙◌, Bool, true, false, not, ◌&&◌, Option, some, if◌then◌else◌,
}
use dalgo2ingitdb.Base.Value.{Fields}
use dalgo2ingitdb.Base.Result.{Error, wrapped, ok}
use dalgo2ingitdb.Schema.{CollectionInfo, single_record, Bytes, Definition}
use dalgo2ingitdb.Deps.{Deps}
use dalgo2ingitdb.Records.{Key, Target, resolve_collection}
use dalgo2ingitdb.Disk.Laws.{IsLawful}
use dalgo2ingitdb.Disk.Action.{
  pure, raise, lift, ◌>>=◌, wrap_error-ok, map_result, bind-ok, Keeps, Keeps-pure, Keeps-if,
}
use dalgo2ingitdb.Disk.Leaves.{Leaves, Leaves-then, Leaves-first}
use dalgo2ingitdb.RecordIo.{Io, with_exclusive_lock, write_locked, write_single_record_file}
use dalgo2ingitdb.ForeignKeys.{is_some}
use dalgo2ingitdb.Reading.{get_record}
use dalgo2ingitdb.Protected.{OpAction, ProtectedOperation, Secrets, is_update}
use dalgo2ingitdb.Protected.Definition.{validate_columns}
use dalgo2ingitdb.Protected.Prepare.{
  Prepared, found_or_missing, read_raw, candidate_of, prepare_one,
}
use dalgo2ingitdb.Protected.Execution.{or_empty_image, unavailable, set_existing, execute_as}
use dalgo2ingitdb.Transaction.{TxState, Tx, on_disk, track, commit_change}
use dalgo2ingitdb.Transaction.Operations.{
  path_of, write_single, set_as, set_change, refuse_existing, insert_as, insert_change, set_record,
  insert_record,
}

pub same_value : {A : Type 0} {a b : A} → ok a ≡ ok b → a ≡ b
same_value h = cc h

module _ (d : Deps) (content : d.os.State → String → Option Bytes) (L : IsLawful d.os content)
    (path : String) (raw : Bytes) where
  -- The file holds the bytes.
  abbrev pub Written : d.os.State → Type 0
  Written s = content s path ≡ some raw

  abbrev pub WrittenTx : TxState d.os → Type 0
  WrittenTx t = Written t.disk

  write_locked-Written : Leaves Written (write_locked d.os path raw)
  unfolding write_locked with_exclusive_lock
  write_locked-Written = Leaves-then _ _ (λ s u e. record {
    at = λ t v h. L.write-ok t path raw 0o644 (wrap_error-ok (wrapped "write") _ h);
  })

  write_single_record_file-Written :
      (col : CollectionInfo) (image : Fields)
      → d.lib.encode_record_content image col ≡ ok raw
      → Leaves Written (write_single_record_file d.lib d.os path col image)
  unfolding write_single_record_file lift
  write_single_record_file-Written col image encoded = Leaves-then _ _ (λ s u e.
      Leaves-then _ _ (λ s' bytes e'.
        subst (λ b. Leaves Written (write_locked d.os path b))
          (same_value (sym encoded ∙ wrap_error-ok (wrapped "encode record") _ e'))
          write_locked-Written))

  on_disk-Written :
      {A : Type 0} (m : Io d.os A) → Leaves Written m → Leaves WrittenTx (on_disk d.os m)
  unfolding on_disk
  on_disk-Written m l = record { at = λ t a h. l.at t.disk a h }

  track-Written : (p : String) → Keeps WrittenTx (track d.os p)
  unfolding track
  track-Written p = record { at = λ t h. h }

  commit_change-Written :
      (change : Io d.os Bool)
      → Leaves Written change
      → Leaves WrittenTx (commit_change d.os path change)
  unfolding commit_change
  commit_change-Written change l = Leaves-then _ _ (λ s u e.
      Leaves-first _ _ (on_disk-Written change l)
        (λ b. Keeps-if b _ _ (track-Written path) (Keeps-pure _)))

  write_single-Written :
      (t : Target) (image : Fields)
      → path_of d t ≡ path
      → d.lib.encode_record_content image t.col ≡ ok raw
      → Leaves Written (write_single d t image)
  write_single-Written t image here encoded =
      subst
        (λ p. Leaves Written (write_single_record_file d.lib d.os p t.col image >>= λ u. pure true))
        (sym here)
        (Leaves-first _ _ (write_single_record_file-Written t.col image encoded)
          (λ u. Keeps-pure true))

  set_change-Written :
      (t : Target) (image : Fields)
      → path_of d t ≡ path
      → t.file.record_type ≡ single_record
      → d.lib.encode_record_content image t.col ≡ ok raw
      → Leaves Written (set_change d t image)
  unfolding set_change set_as
  set_change-Written t image here single encoded =
      subst (λ k. Leaves Written (set_as d t image k)) (sym single)
        (write_single-Written t image here encoded)

  refuse_existing-Written :
      (exists : Bool) (m : Io d.os Bool)
      → Leaves Written m
      → Leaves Written (refuse_existing d exists m)
  unfolding raise
  refuse_existing-Written true m l = record { at = λ s a h. cc h }
  refuse_existing-Written false m l = l

  insert_change-Written :
      (t : Target) (image : Fields)
      → path_of d t ≡ path
      → t.file.record_type ≡ single_record
      → d.lib.encode_record_content image t.col ≡ ok raw
      → Leaves Written (insert_change d t image)
  unfolding insert_change insert_as
  insert_change-Written t image here single encoded =
      subst (λ k. Leaves Written (insert_as d t image k)) (sym single)
        (Leaves-then _ _
          (λ s e h. refuse_existing-Written e _ (write_single-Written t image here encoded)))

  module _ (def : Definition) (t : Target) (image : Fields) (here : path_of d t ≡ path)
      (single : t.file.record_type ≡ single_record)
      (encoded : d.lib.encode_record_content image t.col ≡ ok raw) where
    change_resolved :
        (change : Target → Io d.os Bool) (t' : Target)
        → Leaves Written (change t)
        → t ≡ t'
        → Leaves WrittenTx (commit_change d.os (path_of d t') (change t'))
    change_resolved change t' l same =
        subst (λ x. Leaves WrittenTx (commit_change d.os (path_of d x) (change x))) same
          (subst (λ p. Leaves WrittenTx (commit_change d.os p (change t))) (sym here)
            (commit_change-Written (change t) l))

    set_record-Written :
        (key : Option Key)
        → resolve_collection d.lib d.rt d.goos (some def) key ≡ ok t
        → Leaves WrittenTx (set_record d def key image)
    unfolding set_record lift
    set_record-Written key resolved = Leaves-then _ _ (λ s t' e. Leaves-then _ _ (λ s' u e'.
        change_resolved (λ x. set_change d x image) t'
          (set_change-Written t image here single encoded) (same_value (sym resolved ∙ e))))

    insert_record-Written :
        (key : Option Key)
        → resolve_collection d.lib d.rt d.goos (some def) key ≡ ok t
        → Leaves WrittenTx (insert_record d def key image)
    unfolding insert_record lift
    insert_record-Written key resolved = Leaves-then _ _ (λ s t' e. Leaves-then _ _ (λ s' u e'.
        change_resolved (λ x. insert_change d x image) t'
          (insert_change-Written t image here single encoded) (same_value (sym resolved ∙ e))))

-- The actions that write the candidate.
abbrev pub writes : OpAction → Bool
writes OpAction.insert = true
writes OpAction.set = true
writes OpAction.update = true
writes action = false

module _ (d : Deps) (content : d.os.State → String → Option Bytes) (L : IsLawful d.os content)
    (def : Definition) where
  -- What an operation that succeeds leaves in its file.
  module _ (p : Prepared) (image : Fields) (raw : Bytes) (has : p.candidate ≡ some image)
      (resolved : resolve_collection d.lib d.rt d.goos (some def) (some p.op.key) ≡ ok p.target)
      (single : p.target.file.record_type ≡ single_record)
      (encoded : d.lib.encode_record_content image p.target.col ≡ ok raw) where
    abbrev Done : {A : Type 0} → Tx d.os A → Type 0
    Done m = Leaves (WrittenTx d content L (path_of d p.target) raw) m

    refused_or :
        (b : Bool) (e : Error) (m : Tx d.os (Unit {0})) → Done m → Done (if b then raise e else m)
    unfolding raise
    refused_or true e m l = record { at = λ s a h. cc h }
    refused_or false e m l = l

    set_existing-Written : Done (set_existing d def p)
    set_existing-Written = refused_or (is_update p.op.action && not (is_some p.pre)) unavailable _ (
        subst (λ c. Done (set_record d def (some p.op.key) (or_empty_image c))) (sym has)
          (set_record-Written d content L (path_of d p.target) raw def p.target image refl single
            encoded (some p.op.key) resolved))

    pub execute_as-Written :
        (action : OpAction) → writes action ≡ true → Done (execute_as d def action p)
    execute_as-Written OpAction.insert w = refused_or (is_some p.pre) _ _ (
        subst (λ c. Done (insert_record d def (some p.op.key) (or_empty_image c))) (sym has)
          (insert_record-Written d content L (path_of d p.target) raw def p.target image refl single
            encoded (some p.op.key) resolved))
    execute_as-Written OpAction.set w = set_existing-Written
    execute_as-Written OpAction.update w = set_existing-Written
    execute_as-Written OpAction.delete w = cc w
    execute_as-Written OpAction.other w = cc w

  module _ (secrets : Secrets) (secret : Bytes) (stored_only : Bool) (op : ProtectedOperation) where
    -- What is prepared of an operation.
    pub record IsPrepared (p : Prepared) : Type 0 where
      pub same : p.op ≡ op
      pub resolved : resolve_collection d.lib d.rt d.goos (some def) (some op.key) ≡ ok p.target
      pub at_record : p.path ≡ path_of d p.target

    pub prepare_one-IsPrepared :
        (s : d.os.State) (p : Prepared)
        → (prepare_one d secrets secret stored_only def op s).0 ≡ ok p
        → IsPrepared p
    unfolding prepare_one lift pure
    prepare_one-IsPrepared s p h =
        let (t, e₁, r₁) =
          bind-ok (lift (resolve_collection d.lib d.rt d.goos (some def) (some op.key))) _ s h in
        let h₁ = sym (ap (λ x. x.0) r₁) ∙ h in
        let (u, e₂, r₂) = bind-ok (lift (validate_columns t.col)) _ _ h₁ in
        let h₂ = sym (ap (λ x. x.0) r₂) ∙ h₁ in
        let (raw, e₃, r₃) = bind-ok (read_raw d secrets secret (path_of d t)) _ _ h₂ in
        let h₃ = sym (ap (λ x. x.0) r₃) ∙ h₂ in
        let (pre, e₄, r₄) =
          bind-ok (map_result found_or_missing (get_record d stored_only (some def) (some op.key)))
            _ _ h₃ in
        let h₄ = sym (ap (λ x. x.0) r₄) ∙ h₃ in
        let (c, e₅, r₅) = bind-ok (lift (candidate_of d secrets secret op pre)) _ _ h₄ in
        let h₅ = sym (ap (λ x. x.0) r₅) ∙ h₄ in
        subst IsPrepared (same_value h₅) (record { same = refl; resolved = e₁; at_record = refl })
