-- ===== src/Access/Verified.antt =====
-- What a reading of owner policies has verified when it succeeds (access_manifest.go,
-- access_generation.go).
use mathlib.Core.Path.{subst}
use dalgo2ingitdb.Base.{
  String, ◌<>◌, ◌≡◌, refl, Bool, true, false, not, ◌&&◌, ◌==◌, eq_iff, List, [], ◌∷◌, All,
}
use dalgo2ingitdb.Base.Result.{Error, failure, quoted, ok, >>=-eq-ok}
use dalgo2ingitdb.Paths as Paths
use dalgo2ingitdb.Schema.{Bytes}
use dalgo2ingitdb.Access.{
  canonical, GenerationPolicy, GenerationManifest, World, refuse_if, is_plain_dir, is_plain_file,
  generation_api_version,
}
use dalgo2ingitdb.Access.Names.{safe_policy_id}
use dalgo2ingitdb.Access.Generation.{
  policy_path, manifest_path, is_safe_reference, matches, verify_policy, verify_policies,
  read_and_verify_generation,
}

pub refused_not : {b : Bool} (e : Error) {u : Unit {0}} → refuse_if b e ≡ ok u → b ≡ false
refused_not {b = false} e h = refl
refused_not {b = true} e h = cc h

pub was_true : (b : Bool) → not b ≡ false → b ≡ true
was_true true h = refl
was_true false h = cc h

pub both_true : (a b : Bool) → (a && b) ≡ true → (a ≡ true) × (b ≡ true)
both_true true b h = (refl, h)
both_true false b h = cc h

same_manifest : {a b : GenerationManifest} → ok a ≡ ok b → a ≡ b
same_manifest h = cc h

module _ (w : World) where
  -- The file of a policy is a regular file with a policy of the name and of the digest.
  pub record IsVerifiedPolicy (base : String) (p : GenerationPolicy) : Type 0 where
    pub safe : safe_policy_id p.id ≡ true
    pub named : p.file ≡ "policies/" <> p.id <> ".yaml"
    pub plain : is_plain_file (w.lstat (policy_path base p)) ≡ true
    pub source : Bytes
    pub read : w.read_file (policy_path base p) ≡ ok source
    pub doc : w.PolicyDocument
    pub parsed : w.parse_policy source ≡ ok doc
    pub id : w.policy_name doc ≡ p.id
    pub digest : w.sha256_text (canonical w doc) ≡ p.digest

  verify_policy-IsVerifiedPolicy :
      (base : String) (p : GenerationPolicy)
      → verify_policy w base p ≡ ok tt
      → IsVerifiedPolicy base p
  unfolding verify_policy
  verify_policy-IsVerifiedPolicy base p h =
      let (u₁, e₁, h₁) =
        >>=-eq-ok
          (refuse_if (not (is_safe_reference p)) (failure "unsafe generation policy reference")) _
          h in
      let (u₂, e₂, h₂) =
        >>=-eq-ok
          (refuse_if (not (is_plain_file (w.lstat (policy_path base p))))
            (quoted "policy must be a regular non-symlink file" p.id))
          _ h₁ in
      let (source, e₃, h₃) = >>=-eq-ok (w.read_file (policy_path base p)) _ h₂ in
      let (doc, e₄, h₄) = >>=-eq-ok (w.parse_policy source) _ h₃ in
      let (safe, named) =
        both_true (safe_policy_id p.id) (p.file == "policies/" <> p.id <> ".yaml") (
          was_true (is_safe_reference p)
            (refused_not (failure "unsafe generation policy reference") e₁)) in
      let (id, digest) =
        both_true (w.policy_name doc == p.id) (w.sha256_text (canonical w doc) == p.digest) (
          was_true (matches w p doc)
            (refused_not (quoted "policy digest or id mismatch" p.id) h₄)) in
      record {
        safe = safe;
        named = (eq_iff p.file ("policies/" <> p.id <> ".yaml")).0 named;
        plain =
            was_true (is_plain_file (w.lstat (policy_path base p)))
              (refused_not (quoted "policy must be a regular non-symlink file" p.id) e₂);
        source = source;
        read = e₃;
        doc = doc;
        parsed = e₄;
        id = (eq_iff (w.policy_name doc) p.id).0 id;
        digest = (eq_iff (w.sha256_text (canonical w doc)) p.digest).0 digest;
      }

  verify_policies-All :
      (base : String) (ps : List GenerationPolicy)
      → verify_policies w base ps ≡ ok tt
      → All (IsVerifiedPolicy base) ps
  unfolding verify_policies
  verify_policies-All base [] h = tt
  verify_policies-All base (p ∷ ps) h =
      let (u, e, h') = >>=-eq-ok (verify_policy w base p) _ h in
      (verify_policy-IsVerifiedPolicy base p e, verify_policies-All base ps h')

  -- A generation that has been read from a manifest of the digest, with each policy verified.
  pub record IsVerified (base revision : String) (m : GenerationManifest) : Type 0 where
    pub content : Bytes
    pub read : w.read_file (manifest_path base) ≡ ok content
    pub digest : w.sha256_text content ≡ revision
    pub decoded : w.decode_generation content ≡ ok m
    pub policies : All (IsVerifiedPolicy base) m.policies

  -- A generation is read only from a manifest whose digest is the revision, and only when each of
  -- its policies has a safe name and is a regular file with the policy of that name and digest.
  pub read_and_verify_generation-IsVerified :
      (base revision : String) (m : GenerationManifest)
      → read_and_verify_generation w base revision ≡ ok m
      → IsVerified base revision m
  unfolding read_and_verify_generation
  read_and_verify_generation-IsVerified base revision m h =
      let (u₁, e₁, h₁) =
        >>=-eq-ok
          (refuse_if (not (is_plain_dir (w.lstat base)))
            (failure "generation must be a non-symlink directory"))
          _ h in
      let (u₂, e₂, h₂) =
        >>=-eq-ok
          (refuse_if (not (is_plain_file (w.lstat (manifest_path base))))
            (failure "generation manifest must be a regular non-symlink file"))
          _ h₁ in
      let (content, e₃, h₃) = >>=-eq-ok (w.read_file (manifest_path base)) _ h₂ in
      let (u₄, e₄, h₄) =
        >>=-eq-ok
          (refuse_if (not (w.sha256_text content == revision))
            (failure "generation digest mismatch"))
          _ h₃ in
      let (m', e₅, h₅) = >>=-eq-ok (w.decode_generation content) _ h₄ in
      let (u₆, e₆, h₆) =
        >>=-eq-ok
          (refuse_if (not (m'.api_version == generation_api_version))
            (failure "unsupported generation apiVersion"))
          _ h₅ in
      let (u₇, e₇, h₇) =
        >>=-eq-ok
          (refuse_if (not (is_plain_dir (w.lstat (Paths.join (base ∷ "policies" ∷ [])))))
            (failure "generation policies must be a non-symlink directory"))
          _ h₆ in
      let (u₈, e₈, h₈) = >>=-eq-ok (verify_policies w base m'.policies) _ h₇ in
      let same : m' ≡ m = same_manifest h₈ in
      let matched =
        was_true (w.sha256_text content == revision)
          (refused_not (failure "generation digest mismatch") e₄) in
      subst (IsVerified base revision) same (record {
        content = content;
        read = e₃;
        digest = (eq_iff (w.sha256_text content) revision).0 matched;
        decoded = e₅;
        policies = verify_policies-All base m'.policies e₈;
      })
