-- ===== src/Access/Build/Materialized.antt =====
-- A generation that has been built and stored is read and verified (access_generation.go).
use mathlib.Core.Path.{subst}
use dalgo2ingitdb.Base.{
  String, ◌==◌, ◌≡◌, refl, sym, ap, ◌∙◌, true, false, not, eq_iff, eq_refl, some, List, [], ◌∷◌,
  All, Bool-cases, inl, inr,
}
use dalgo2ingitdb.Base.Dict.{Dict, lookup}
use dalgo2ingitdb.Base.Result.{quoted, ok, >>=-eq-ok}
use dalgo2ingitdb.ForeignKeys.{is_some}
use dalgo2ingitdb.Paths.{join}
use dalgo2ingitdb.Schema.{Bytes}
use dalgo2ingitdb.Access.{GenerationPolicy, World, refuse_if, is_plain_dir, is_plain_file}
use dalgo2ingitdb.Access.Names.{safe_policy_id}
use dalgo2ingitdb.Access.Generation.{manifest_path}
use dalgo2ingitdb.Access.Verified.{refused_not, was_true}
use dalgo2ingitdb.Access.Build.{Encoders, BuiltGeneration, file_of, build_policy, build_policies}

pub same_value : {A : Type 0} {a b : A} → ok a ≡ ok b → a ≡ b
same_value h = cc h

-- The policies, and the manifest of the generation, are decoded as they were encoded.
pub record IsCodec (w : World) (enc : Encoders w) (b : BuiltGeneration) : Type 0 where
  pub policies :
      (doc : w.PolicyDocument) (source : Bytes)
      → enc.marshal_policy_yaml doc ≡ ok source
      → w.parse_policy source ≡ ok doc
  pub generation :
      enc.marshal_generation b.manifest ≡ ok b.encoded
      → w.decode_generation b.encoded ≡ ok b.manifest

-- The files of a generation below `base`: its manifest and the sources of its policies.
pub record IsMaterialized (w : World) (base : String) (b : BuiltGeneration) : Type 0 where
  pub base_dir : is_plain_dir (w.lstat base) ≡ true
  pub policies_dir : is_plain_dir (w.lstat (join (base ∷ "policies" ∷ []))) ≡ true
  pub manifest_file : is_plain_file (w.lstat (manifest_path base)) ≡ true
  pub manifest_content : w.read_file (manifest_path base) ≡ ok b.encoded
  pub source_files :
      (file : String) (source : Bytes)
      → lookup file b.sources ≡ some source
      → (is_plain_file (w.lstat (join (base ∷ file ∷ []))) ≡ true)
        × (w.read_file (join (base ∷ file ∷ [])) ≡ ok source)

module _ (w : World) (enc : Encoders w) where
  -- A policy of a document, whose source is among the others.
  pub record IsBuilt (sources : Dict Bytes) (p : GenerationPolicy) : Type 0 where
    pub doc : w.PolicyDocument
    pub source : Bytes
    pub content : Bytes
    pub safe : safe_policy_id p.id ≡ true
    pub named : p.file ≡ file_of p.id
    pub id : w.policy_name doc ≡ p.id
    pub canonical_form : w.marshal_policy_json doc ≡ ok content
    pub digest : p.digest ≡ w.sha256_text content
    pub written : enc.marshal_policy_yaml doc ≡ ok source
    pub kept : lookup p.file sources ≡ some source

  -- A policy that has been built, before its source is stored.
  record IsNew (seen : Dict Bytes) (built : GenerationPolicy × Bytes) : Type 0 where
    new_doc : w.PolicyDocument
    new_content : Bytes
    new_safe : safe_policy_id built.0.id ≡ true
    new_named : built.0.file ≡ file_of built.0.id
    new_id : w.policy_name new_doc ≡ built.0.id
    new_form : w.marshal_policy_json new_doc ≡ ok new_content
    new_digest : built.0.digest ≡ w.sha256_text new_content
    new_written : enc.marshal_policy_yaml new_doc ≡ ok built.1
    fresh : is_some (lookup built.0.file seen) ≡ false

  build_policy-IsNew :
      (database : String) (seen : Dict Bytes) (doc : w.PolicyDocument)
      (built : GenerationPolicy × Bytes)
      → build_policy w enc database seen doc ≡ ok built
      → IsNew seen built
  unfolding build_policy
  build_policy-IsNew database seen doc built h =
      let (u₁, e₁, h₁) =
        >>=-eq-ok
          (refuse_if (not (safe_policy_id (w.policy_name doc)))
            (quoted "unsafe policy id" (w.policy_name doc)))
          _ h in
      let (u₂, e₂, h₂) =
        >>=-eq-ok
          (refuse_if (not (enc.target_database doc == database))
            (quoted "policy targets wrong database" (w.policy_name doc)))
          _ h₁ in
      let (content, e₃, h₃) = >>=-eq-ok (w.marshal_policy_json doc) _ h₂ in
      let (u₄, e₄, h₄) =
        >>=-eq-ok
          (refuse_if (is_some (lookup (file_of (w.policy_name doc)) seen))
            (quoted "duplicate policy id" (w.policy_name doc)))
          _ h₃ in
      let (source, e₅, h₅) = >>=-eq-ok (enc.marshal_policy_yaml doc) _ h₄ in
      subst (IsNew seen) (same_value h₅) (record {
        new_doc = doc;
        new_content = content;
        new_safe =
            was_true (safe_policy_id (w.policy_name doc))
              (refused_not (quoted "unsafe policy id" (w.policy_name doc)) e₁);
        new_named = refl;
        new_id = refl;
        new_form = e₃;
        new_digest = refl;
        new_written = e₅;
        fresh = refused_not (quoted "duplicate policy id" (w.policy_name doc)) e₄;
      })

  fresh_apart :
      (f file : String) (seen : Dict Bytes) (source : Bytes)
      → is_some (lookup file seen) ≡ false
      → lookup f seen ≡ some source
      → (file == f) ≡ false
  fresh_apart f file seen source fresh there = elim (Bool-cases (file == f)) [
    | inl e ↦ absurd (
        let same = (eq_iff file f).0 e in
        let there' = ap (λ x. lookup x seen) same ∙ there in let no = rw there' at fresh in cc no)
    | inr e ↦ e
  ]

  -- A source stays.
  build_policies-lookup :
      (database : String) (seen : Dict Bytes) (items : List Bytes)
      (end : Dict Bytes × List GenerationPolicy) (f : String) (source : Bytes)
      → build_policies w enc database seen items ≡ ok end
      → lookup f seen ≡ some source
      → lookup f end.0 ≡ some source
  unfolding build_policies lookup
  build_policies-lookup database seen [] end f source h there =
      ap (λ x. lookup f x.0) (sym (same_value h)) ∙ there
  build_policies-lookup database seen (item ∷ items) end f source h there =
      let (doc, e₁, h₁) = >>=-eq-ok (w.parse_policy item) _ h in
      let (built, e₂, h₂) = >>=-eq-ok (build_policy w enc database seen doc) _ h₁ in
      let (rest, e₃, h₃) =
        >>=-eq-ok (build_policies w enc database ((built.0.file, built.1) ∷ seen) items) _ h₂ in
      let new = build_policy-IsNew database seen doc built e₂ in
      let other = fresh_apart f built.0.file seen source new.fresh there in
      ap (λ x. lookup f x.0) (sym (same_value h₃))
      ∙ build_policies-lookup database ((built.0.file, built.1) ∷ seen) items rest f source e₃
          (rw other there)

  pub build_policies-IsBuilt :
      (database : String) (seen : Dict Bytes) (items : List Bytes)
      (end : Dict Bytes × List GenerationPolicy)
      → build_policies w enc database seen items ≡ ok end
      → All (IsBuilt end.0) end.1
  unfolding build_policies lookup
  build_policies-IsBuilt database seen [] end h =
      subst (λ x. All (IsBuilt x.0) x.1) (same_value h) tt
  build_policies-IsBuilt database seen (item ∷ items) end h =
      let (doc, e₁, h₁) = >>=-eq-ok (w.parse_policy item) _ h in
      let (built, e₂, h₂) = >>=-eq-ok (build_policy w enc database seen doc) _ h₁ in
      let (rest, e₃, h₃) =
        >>=-eq-ok (build_policies w enc database ((built.0.file, built.1) ∷ seen) items) _ h₂ in
      let new = build_policy-IsNew database seen doc built e₂ in
      let kept =
        build_policies-lookup database ((built.0.file, built.1) ∷ seen) items rest built.0.file
          built.1 e₃ (rw (eq_refl built.0.file) refl) in
      subst (λ x. All (IsBuilt x.0) x.1) (same_value h₃)
        (
          record {
            doc = new.new_doc;
            source = built.1;
            content = new.new_content;
            safe = new.new_safe;
            named = new.new_named;
            id = new.new_id;
            canonical_form = new.new_form;
            digest = new.new_digest;
            written = new.new_written;
            kept = kept;
          },
          build_policies-IsBuilt database ((built.0.file, built.1) ∷ seen) items rest e₃,
        )
