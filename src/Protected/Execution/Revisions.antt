-- ===== src/Protected/Execution/Revisions.antt =====
-- The candidate revision that is inspected is that of the file that is written (protected.go).
use mathlib.Core.Path.{subst}
use dalgo2ingitdb.Base.{
  ℕ, ◌++◌, All, length, drop, String, ◌≡◌, refl, sym, ap, ◌∙◌, Bool, true, Option, some, List, [],
  ◌∷◌, map,
}
use dalgo2ingitdb.Base.Dict.{Dict, lookup}
use dalgo2ingitdb.Base.Value.{Fields}
use dalgo2ingitdb.Base.Result.{ok}
use dalgo2ingitdb.Schema.{single_record, Bytes, Definition}
use dalgo2ingitdb.Deps.{Deps}
use dalgo2ingitdb.Disk.{clean_text}
use dalgo2ingitdb.Disk.Leaves.{Leaves, Leaves-then, Leaves-first}
use dalgo2ingitdb.Transaction.Operations.{path_of}
use dalgo2ingitdb.Protected.Execution.Others.{IsOther, execute_all-Kept}
use dalgo2ingitdb.Protected.Execution.Batches.{
  IsApart, IsResolved, prepare_all-IsResolved, group_contents-single, single_content-writes,
}
use dalgo2ingitdb.Records.{resolve_collection}
use dalgo2ingitdb.Disk.Laws.{IsLawful}
use dalgo2ingitdb.Disk.Action.{pure, lift, ◌>>=◌, bind-ok}
use dalgo2ingitdb.Transaction.{TxState}
use dalgo2ingitdb.Protected.{ProtectedOperation, ProtectedEvidence, Secrets}
use dalgo2ingitdb.Protected.Definition.{validate_protected_definition}
use dalgo2ingitdb.Protected.Revision.{revision}
use dalgo2ingitdb.Protected.Prepare.{
  Prepared, prepare_all, paths_of, group_contents, evidence_of, prepare,
}
use dalgo2ingitdb.Protected.Execution.{execute_all}
use dalgo2ingitdb.Protected.Execution.Candidates.{same_value, writes, execute_as-Written, WrittenTx}

module _ (d : Deps) (content : d.os.State → String → Option Bytes) (L : IsLawful d.os content)
    (secrets : Secrets) (secret : Bytes) (stored_only : Bool) (def : Definition) where
  -- The parts of a preparation that succeeds.
  abbrev IsParted : List ProtectedOperation → List ProtectedEvidence → List Prepared → Type 0
  IsParted ops evidence ps =
      (contents : Dict (Bool × Bytes)) × (s₁ : d.os.State) × (s₂ : d.os.State) × ((prepare_all d
          secrets secret stored_only def ops s₁).0
        ≡ ok ps)
      × ((group_contents d secrets secret ps (paths_of ps) s₂).0 ≡ ok contents)
      × (map (evidence_of d secrets secret contents) ps ≡ evidence)

  parted :
      (ops : List ProtectedOperation) (evidence evidence' : List ProtectedEvidence)
      (ps ps' : List Prepared) (contents : Dict (Bool × Bytes)) (s₁ s₂ : d.os.State)
      → (prepare_all d secrets secret stored_only def ops s₁).0 ≡ ok ps
      → (group_contents d secrets secret ps (paths_of ps) s₂).0 ≡ ok contents
      → map (evidence_of d secrets secret contents) ps ≡ evidence
      → ◌≡◌ {A = List ProtectedEvidence × List Prepared} (evidence, ps) (evidence', ps')
      → IsParted ops evidence' ps'
  parted ops evidence evidence' ps ps' contents s₁ s₂ e₂ e₃ e same =
      subst (λ x. IsParted ops x.0 x.1) same (contents, s₁, s₂, e₂, e₃, e)

  prepare-IsParted :
      (ops : List ProtectedOperation) (s : d.os.State) (evidence : List ProtectedEvidence)
      (ps : List Prepared)
      → (prepare d secrets secret stored_only def ops s).0 ≡ ok (evidence, ps)
      → IsParted ops evidence ps
  unfolding prepare lift pure ◌>>=◌
  prepare-IsParted ops s evidence ps' h =
      let (u, e₁, r₁) = bind-ok (lift (validate_protected_definition def)) _ s h in
      let h₁ = sym (ap (λ x. x.0) r₁) ∙ h in
      let (ps, e₂, r₂) = bind-ok (prepare_all d secrets secret stored_only def ops) _ _ h₁ in
      let h₂ = sym (ap (λ x. x.0) r₂) ∙ h₁ in
      let (contents, e₃, r₃) = bind-ok (group_contents d secrets secret ps (paths_of ps)) _ _ h₂ in
      let h₃ = sym (ap (λ x. x.0) r₃) ∙ h₂ in
      parted ops _ evidence ps ps' contents _ _ e₂ e₃ refl (same_value h₃)

  IsOther-IsResolved :
      (p : Prepared) (v : Option Bytes) (ps : List Prepared)
      → IsResolved d content L secrets secret stored_only def p
      → All (IsResolved d content L secrets secret stored_only def) ps
      → All (IsApart p) ps
      → All (IsOther d content L (path_of d p.target) v def) ps
  IsOther-IsResolved p v [] rp rs apart = tt
  IsOther-IsResolved p v (o ∷ ps) rp (ro, rs) (k, apart) = (
    record {
      resolved = ro.resolved;
      other = λ e. k (ap clean_text ro.at_record ∙ e ∙ ap clean_text (sym rp.at_record));
    },
    IsOther-IsResolved p v ps rp rs apart,
  )

  -- What is written by an operation that succeeds is still there when the others behind it, on other
  -- files, have been executed.
  execute_all-Written :
      (before after : List Prepared) (p : Prepared) (image : Fields) (raw : Bytes)
      → p.candidate ≡ some image
      → resolve_collection d.lib d.rt d.goos (some def) (some p.op.key) ≡ ok p.target
      → p.target.file.record_type ≡ single_record
      → d.lib.encode_record_content image p.target.col ≡ ok raw
      → writes p.op.action ≡ true
      → All (IsOther d content L (path_of d p.target) (some raw) def) after
      → Leaves
          (WrittenTx d content L (path_of d p.target) raw)
          (execute_all d def (before ++ p ∷ after))
  unfolding execute_all
  execute_all-Written [] after p image raw has resolved single encoded w others =
      Leaves-first _ _
        (execute_as-Written d content L def p image raw has resolved single encoded p.op.action w)
        (λ u. execute_all-Kept d content L (path_of d p.target) (some raw) def after others)
  execute_all-Written (b ∷ before) after p image raw has resolved single encoded w others =
      Leaves-then _ _
        (λ s u e. execute_all-Written before after p image raw has resolved single encoded w others)

  drop-map :
      (f : Prepared → ProtectedEvidence) (before after : List Prepared) (p : Prepared)
      → drop (length before) (map f (before ++ p ∷ after)) ≡ f p ∷ map f after
  drop-map f [] after p = refl
  drop-map f (b ∷ before) after p = drop-map f before after p

  split-IsResolved :
      (before after : List Prepared) (p : Prepared)
      → All (IsResolved d content L secrets secret stored_only def) (before ++ p ∷ after)
      → IsResolved d content L secrets secret stored_only def p
        × All (IsResolved d content L secrets secret stored_only def) after
  split-IsResolved [] after p h = h
  split-IsResolved (b ∷ before) after p (r, h) = split-IsResolved before after p h

  -- The evidence at the place of an operation holds the revision of the bytes.
  abbrev pub HasRevision : List ProtectedEvidence → ℕ → Prepared → Bytes → Type 0
  HasRevision evidence i p raw =
      (ev : ProtectedEvidence) × (rest : List ProtectedEvidence) × (drop i evidence ≡ ev ∷ rest)
      × (ev.candidate_revision ≡ revision secrets secret p.op.canonical_target true raw)

  -- In a batch, an operation that writes a record in a file of its own, with data to write, and that
  -- no other operation of the batch shares its file with, is prepared with the revision of the very
  -- bytes that the file holds after the whole batch is executed, in whatever state of the
  -- transaction that is.
  pub candidate_revision-execute_all :
      (ops : List ProtectedOperation) (s : d.os.State) (t : TxState d.os)
      (evidence : List ProtectedEvidence) (before after : List Prepared) (p : Prepared)
      (image : Fields)
      → (prepare d secrets secret stored_only def ops s).0 ≡ ok (evidence, before ++ p ∷ after)
      → All (IsApart p) before
      → All (IsApart p) after
      → p.candidate ≡ some image
      → writes p.op.action ≡ true
      → p.target.file.record_type ≡ single_record
      → (execute_all d def (before ++ p ∷ after) t).0 ≡ ok tt
      → (raw : Bytes) × HasRevision evidence (length before) p raw
        × (content (execute_all d def (before ++ p ∷ after) t).1.disk p.path ≡ some raw)
  candidate_revision-execute_all ops s t evidence before after p image h b a has w single done =
      let (contents, s₁, s₂, e₂, e₃, made) =
        prepare-IsParted ops s evidence (before ++ p ∷ after) h in
      let (here, rest) =
        split-IsResolved before after p
          (prepare_all-IsResolved d content L secrets secret stored_only def ops s₁ _ e₂) in
      let (c, made_c, there) =
        group_contents-single d content L secrets secret stored_only def p before after s₂ contents
          b a single e₃ in
      let (raw, encoded, same_c) =
        single_content-writes d content L secrets secret stored_only def p image c has w made_c in
      let written =
        (execute_all-Written before after p image raw has here.resolved single encoded w
            (IsOther-IsResolved p (some raw) after here rest a)).at
          t tt done in
      let found : lookup p.path contents ≡ some (true, raw) =
        there ∙ ap (λ x. some x) (sym same_c) in
      (
        raw,
        (
          evidence_of d secrets secret contents p,
          map (evidence_of d secrets secret contents) after,
          ap (drop (length before)) (sym made)
              ∙ drop-map (evidence_of d secrets secret contents) before after p,
          rw found refl,
        ),
        ap (content (execute_all d def (before ++ p ∷ after) t).1.disk) here.at_record ∙ written,
      )
