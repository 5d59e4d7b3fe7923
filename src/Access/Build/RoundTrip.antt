-- ===== src/Access/Build/RoundTrip.antt =====
-- What buildGeneration makes, readAndVerifyGeneration accepts (access_generation.go).
use mathlib.Core.Path.{subst}
use dalgo2ingitdb.Base.{
  String, ◌<>◌, ◌==◌, ◌≡◌, refl, sym, ap, ◌∙◌, Bool, true, eq_iff, List, [], ◌∷◌, All, Bool-cases,
  inl, inr,
}
use dalgo2ingitdb.Base.Sort.{sort, insert_sorted}
use dalgo2ingitdb.Base.Result.{ok, >>=-eq-ok}
use dalgo2ingitdb.Access.{bytes_or_nil, GenerationPolicy, World, canonical, generation_api_version}
use dalgo2ingitdb.Access.Generation.{verify_policy, verify_policies, read_and_verify_generation}
use dalgo2ingitdb.Access.Build.{
  Encoders, OwnerPolicyGeneration, BuiltGeneration, before_policy, check_candidate, build_policies,
  manifest_of, build_generation,
}
use dalgo2ingitdb.Access.Build.Files.{file_of-safe_policy_id}
use dalgo2ingitdb.Access.Build.Materialized.{
  same_value, IsCodec, IsMaterialized, IsBuilt, build_policies-IsBuilt,
}

module _ {A : Type 0} (P : A → Type 0) (before : A → A → Bool) where
  All-insert_sorted : (x : A) (xs : List A) → P x → All P xs → All P (insert_sorted before x xs)
  unfolding insert_sorted
  All-insert_sorted x [] p ps = (p, tt)
  All-insert_sorted x (y ∷ ys) p (q, qs) = elim (Bool-cases (before x y)) [
    | inl e ↦ rw e (p, (q, qs))
    | inr e ↦ rw e (q, All-insert_sorted x ys p qs)
  ]

  All-sort : (xs : List A) → All P xs → All P (sort before xs)
  unfolding sort
  All-sort [] ps = tt
  All-sort (x ∷ xs) (p, ps) = All-insert_sorted x (sort before xs) p (All-sort xs ps)

module _ (w : World) (enc : Encoders w) (base : String) (b : BuiltGeneration)
    (codec : IsCodec w enc b) (stored : IsMaterialized w base b) where
  verify_policy-IsBuilt :
      (p : GenerationPolicy) → IsBuilt w enc b.sources p → verify_policy w base p ≡ ok tt
  unfolding verify_policy
  verify_policy-IsBuilt p built =
      let (plain, read) = stored.source_files p.file built.source built.kept in
      let parsed = codec.policies built.doc built.source built.written in
      let named : (p.file == "policies/" <> p.id <> ".yaml") ≡ true =
        (eq_iff p.file ("policies/" <> p.id <> ".yaml")).1
          (built.named ∙ file_of-safe_policy_id p.id built.safe) in
      let id = (eq_iff (w.policy_name built.doc) p.id).1 built.id in
      let digest : (w.sha256_text (canonical w built.doc) == p.digest) ≡ true =
        (eq_iff (w.sha256_text (canonical w built.doc)) p.digest).1
          (ap (λ r. w.sha256_text (bytes_or_nil r)) built.canonical_form ∙ sym built.digest) in
      rw (built.safe, named, plain, read, parsed, id, digest) refl

  verify_policies-All :
      (ps : List GenerationPolicy)
      → All (IsBuilt w enc b.sources) ps
      → verify_policies w base ps ≡ ok tt
  unfolding verify_policies
  verify_policies-All [] h = refl
  verify_policies-All (p ∷ ps) (h, hs) =
      rw (verify_policy-IsBuilt p h, verify_policies-All ps hs) refl

module _ (w : World) (enc : Encoders w) where
  record IsComplete (b : BuiltGeneration) : Type 0 where
    policies : All (IsBuilt w enc b.sources) b.manifest.policies
    written : enc.marshal_generation b.manifest ≡ ok b.encoded
    digest : w.sha256_text b.encoded ≡ b.revision
    version : b.manifest.api_version ≡ generation_api_version

  build_generation-IsComplete :
      (c : OwnerPolicyGeneration) (b : BuiltGeneration)
      → build_generation w enc c ≡ ok b
      → IsComplete b
  unfolding build_generation
  build_generation-IsComplete c b h =
      let (u, e₁, h₁) = >>=-eq-ok (check_candidate w enc c) _ h in
      let (built, e₂, h₂) = >>=-eq-ok (build_policies w enc c.database [] c.policies) _ h₁ in
      let (encoded, e₃, h₃) =
        >>=-eq-ok (enc.marshal_generation (manifest_of w enc c built.1)) _ h₂ in
      subst IsComplete (same_value h₃) (record {
        policies =
            All-sort (IsBuilt w enc built.0) before_policy built.1
              (build_policies-IsBuilt w enc c.database [] c.policies built e₂);
        written = e₃;
        digest = refl;
        version = refl;
      })

-- A generation that has been built, and whose files are stored below a directory as they were
-- built, is read and verified there under its revision, when the codecs read back what they wrote.
pub read_and_verify_generation-build_generation :
    (w : World) (enc : Encoders w) (base : String) (c : OwnerPolicyGeneration) (b : BuiltGeneration)
    → IsCodec w enc b
    → build_generation w enc c ≡ ok b
    → IsMaterialized w base b
    → read_and_verify_generation w base b.revision ≡ ok b.manifest
unfolding read_and_verify_generation
read_and_verify_generation-build_generation w enc base c b codec h stored =
    let whole = build_generation-IsComplete w enc c b h in
    let digest = (eq_iff (w.sha256_text b.encoded) b.revision).1 whole.digest in
    let version = (eq_iff b.manifest.api_version generation_api_version).1 whole.version in
    rw
      (
        stored.base_dir,
        stored.manifest_file,
        stored.manifest_content,
        digest,
        codec.generation whole.written,
        version,
        stored.policies_dir,
        verify_policies-All w enc base b codec stored b.manifest.policies whole.policies,
      )
      refl
