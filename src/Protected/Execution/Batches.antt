-- ===== src/Protected/Execution/Batches.antt =====
-- What a batch that was prepared (protected.go) consists of.
use mathlib.Core.Path.{subst}
use dalgo2ingitdb.Base.{
  ◌≢◌, ◌==◌, ◌||◌, ◌++◌, Bool-cases, inl, inr, eq_iff, All, contains, String, ◌≡◌, refl, sym, ap,
  ◌∙◌, Bool, true, false, Option, some, List, [], ◌∷◌, eq_refl,
}
use dalgo2ingitdb.Base.Dict.{Dict, lookup}
use dalgo2ingitdb.Base.Value.{Fields}
use dalgo2ingitdb.Base.Result.{Result, ok, err, >>=-eq-ok}
use dalgo2ingitdb.Base.Result as Result
use dalgo2ingitdb.Schema.{single_record, Bytes, Definition}
use dalgo2ingitdb.Deps.{Deps}
use dalgo2ingitdb.Disk.{clean_text}
use dalgo2ingitdb.Transaction.Operations.{path_of}
use dalgo2ingitdb.Records.{resolve_collection}
use dalgo2ingitdb.Disk.Laws.{IsLawful}
use dalgo2ingitdb.Disk.Action.{pure, lift, bind-ok}
use dalgo2ingitdb.Protected.{OpAction, ProtectedOperation, Secrets, is_delete}
use dalgo2ingitdb.Protected.Prepare.{
  Prepared, prepare_one, prepare_all, paths_of, at_path, single_content, group_content,
  group_contents,
}
use dalgo2ingitdb.Protected.Execution.Candidates.{same_value, writes, prepare_one-IsPrepared}

no_delete : (action : OpAction) → writes action ≡ true → is_delete action ≡ false
no_delete OpAction.insert w = refl
no_delete OpAction.set w = refl
no_delete OpAction.update w = refl
no_delete OpAction.delete w = cc w
no_delete OpAction.other w = cc w

-- The file of another operation.
abbrev pub IsApart : Prepared → Prepared → Type 0
IsApart p o = clean_text o.path ≢ clean_text p.path

at_path-apart : (p : Prepared) (ps : List Prepared) → All (IsApart p) ps → at_path p.path ps ≡ []
unfolding at_path
at_path-apart p [] h = refl
at_path-apart p (o ∷ ps) (a, h) = elim (Bool-cases (o.path == p.path)) [
  | inl e ↦ absurd (a (ap clean_text ((eq_iff o.path p.path).0 e)))
  | inr e ↦ rw e (at_path-apart p ps h)
]

-- The operations on the path of one that is apart from all the others.
at_path_self :
    (p : Prepared) (before after : List Prepared)
    → All (IsApart p) before
    → All (IsApart p) after
    → at_path p.path (before ++ p ∷ after) ≡ p ∷ []
unfolding at_path
at_path_self p [] after b a = rw (eq_refl p.path) (ap (◌∷◌ p) (at_path-apart p after a))
at_path_self p (o ∷ before) after (k, b) a = elim (Bool-cases (o.path == p.path)) [
  | inl e ↦ absurd (k (ap clean_text ((eq_iff o.path p.path).0 e)))
  | inr e ↦ rw e (at_path_self p before after b a)
]

contains-paths_of :
    (p : Prepared) (before after : List Prepared)
    → contains (paths_of (before ++ p ∷ after)) p.path ≡ true
unfolding paths_of
contains-paths_of p [] after = elim (Bool-cases (contains (paths_of after) p.path)) [
  | inl e ↦ rw e e
  | inr e ↦ rw (e, eq_refl p.path) refl
]
contains-paths_of p (o ∷ before) after =
    let ih = contains-paths_of p before after in
    elim (Bool-cases (contains (paths_of (before ++ p ∷ after)) o.path)) [
      | inl e ↦ rw e ih
      | inr e ↦ rw (e, ih) (or_true (o.path == p.path))
    ]
  where
    or_true : (b : Bool) → (b || true) ≡ true
    or_true true = refl
    or_true false = refl

module _ (d : Deps) (content : d.os.State → String → Option Bytes) (L : IsLawful d.os content)
    (secrets : Secrets) (secret : Bytes) (stored_only : Bool) (def : Definition) where
  pub single_content-writes :
      (p : Prepared) (image : Fields) (c : Bool × Bytes)
      → p.candidate ≡ some image
      → writes p.op.action ≡ true
      → single_content d secrets secret p ≡ ok c
      → (raw : Bytes) × (d.lib.encode_record_content image p.target.col ≡ ok raw)
        × ((true, raw) ≡ c)
  single_content-writes p image c has w h =
      let h' : (Result.◌>>=◌ (d.lib.encode_record_content image p.target.col)
            (λ raw. ok (true, raw)))
          ≡ ok c =
        rw (no_delete p.op.action w, has) at h in
      let (raw, e, k) = >>=-eq-ok (d.lib.encode_record_content image p.target.col) _ h' in
      (raw, e, same_value k)

  -- The target and the file of each operation are those that its key is resolved to.
  pub record IsResolved (p : Prepared) : Type 0 where
    pub resolved : resolve_collection d.lib d.rt d.goos (some def) (some p.op.key) ≡ ok p.target
    pub at_record : p.path ≡ path_of d p.target

  pub prepare_all-IsResolved :
      (ops : List ProtectedOperation) (s : d.os.State) (ps : List Prepared)
      → (prepare_all d secrets secret stored_only def ops s).0 ≡ ok ps
      → All IsResolved ps
  unfolding prepare_all pure
  prepare_all-IsResolved [] s ps h = subst (All IsResolved) (same_value h) tt
  prepare_all-IsResolved (op ∷ ops) s ps h =
      let (p, e₁, r₁) = bind-ok (prepare_one d secrets secret stored_only def op) _ s h in
      let h₁ = sym (ap (λ x. x.0) r₁) ∙ h in
      let (qs, e₂, r₂) = bind-ok (prepare_all d secrets secret stored_only def ops) _ _ h₁ in
      let h₂ = sym (ap (λ x. x.0) r₂) ∙ h₁ in
      let i = prepare_one-IsPrepared d content L def secrets secret stored_only op s p e₁ in
      let here : IsResolved p = record {
        resolved =
            ap (λ o. resolve_collection d.lib d.rt d.goos (some def) (some o.key)) i.same
            ∙ i.resolved;
        at_record = i.at_record;
      } in
      subst (All IsResolved) (same_value h₂) (here, prepare_all-IsResolved ops _ qs e₂)

  group_contents_at :
      (ps : List Prepared) (paths : List String) (path : String) (s : d.os.State)
      (contents : Dict (Bool × Bytes))
      → (group_contents d secrets secret ps paths s).0 ≡ ok contents
      → contains paths path ≡ true
      → (c : Bool × Bytes) × (s' : d.os.State) × ((group_content d secrets secret
            (at_path path ps)
            s').0
          ≡ ok c)
        × (lookup path contents ≡ some c)
  unfolding group_contents pure lookup
  group_contents_at ps [] path s contents h m = cc m
  group_contents_at ps (k ∷ paths) path s contents h m =
      let (c, e₁, r₁) = bind-ok (group_content d secrets secret (at_path k ps)) _ s h in
      let h₁ = sym (ap (λ x. x.0) r₁) ∙ h in
      let (rest, e₂, r₂) = bind-ok (group_contents d secrets secret ps paths) _ _ h₁ in
      let same : (k, c) ∷ rest ≡ contents = same_value (sym (ap (λ x. x.0) r₂) ∙ h₁) in
      elim (Bool-cases (k == path)) [
        | inl e ↦
            let here : k ≡ path = (eq_iff k path).0 e in
            (
              c,
              s,
              subst (λ x. (group_content d secrets secret (at_path x ps) s).0 ≡ ok c) here e₁,
              subst (λ cs. lookup path cs ≡ some c) same (rw e refl),
            )
        | inr e ↦
            let (c', s', found, there) = group_contents_at ps paths path _ rest e₂ (rw e at m) in
            (c', s', found, subst (λ cs. lookup path cs ≡ some c') same (rw e there))
      ]

  -- The content that is found for an operation on a record in a file of its own.
  pub group_contents-single :
      (p : Prepared) (before after : List Prepared) (s : d.os.State)
      (contents : Dict (Bool × Bytes))
      → All (IsApart p) before
      → All (IsApart p) after
      → p.target.file.record_type ≡ single_record
      → (group_contents d secrets secret (before ++ p ∷ after) (paths_of (before ++ p ∷ after)) s).0
        ≡ ok contents
      → (c : Bool × Bytes) × (single_content d secrets secret p ≡ ok c)
        × (lookup p.path contents ≡ some c)
  unfolding group_content lift
  group_contents-single p before after s contents b a single h =
      let (c, s', e, there) =
        group_contents_at (before ++ p ∷ after) _ p.path s contents h
          (contains-paths_of p before after) in
      (c, rw (at_path_self p before after b a, group_content, single) at e, there)
