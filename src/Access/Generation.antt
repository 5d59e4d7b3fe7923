-- ===== src/Access/Generation.antt =====
-- access_generation.go, readAndVerifyGeneration: a generation of policies, checked against digests.
use dalgo2ingitdb.Base.{String, ◌<>◌, Bool, not, ◌&&◌, ◌==◌, List, [], ◌∷◌}
use dalgo2ingitdb.Base.Result.{failure, quoted, Result, ok, ◌>>=◌, ◌>>◌}
use dalgo2ingitdb.Paths as Paths
use dalgo2ingitdb.Access.{
  canonical, GenerationPolicy, GenerationManifest, World, refuse_if, is_plain_dir, is_plain_file,
  generation_api_version,
}
use dalgo2ingitdb.Access.Names.{safe_policy_id}

abbrev pub policy_path : String → GenerationPolicy → String
policy_path base p = Paths.join (base ∷ p.file ∷ [])

abbrev pub manifest_path : String → String
manifest_path base = Paths.join (base ∷ "manifest.yaml" ∷ [])

abbrev pub is_safe_reference : GenerationPolicy → Bool
is_safe_reference p = safe_policy_id p.id && p.file == "policies/" <> p.id <> ".yaml"

module _ (w : World) where
  abbrev pub matches : GenerationPolicy → w.PolicyDocument → Bool
  matches p doc = w.policy_name doc == p.id && w.sha256_text (canonical w doc) == p.digest

  unfoldable pub verify_policy : String → GenerationPolicy → Result (Unit {0})
  verify_policy base p = do
    refuse_if (not (is_safe_reference p)) (failure "unsafe generation policy reference")
    refuse_if (not (is_plain_file (w.lstat (policy_path base p))))
        (quoted "policy must be a regular non-symlink file" p.id)
    source ← w.read_file (policy_path base p)
    doc ← w.parse_policy source
    refuse_if (not (matches p doc)) (quoted "policy digest or id mismatch" p.id)

  unfoldable pub verify_policies : String → List GenerationPolicy → Result (Unit {0})
  unfolding verify_policy
  verify_policies base [] = ok tt
  verify_policies base (p ∷ ps) = do verify_policy base p; verify_policies base ps

  unfoldable pub read_and_verify_generation : String → String → Result GenerationManifest
  unfolding verify_policies
  read_and_verify_generation base revision = do
    refuse_if (not (is_plain_dir (w.lstat base)))
        (failure "generation must be a non-symlink directory")
    refuse_if (not (is_plain_file (w.lstat (manifest_path base))))
        (failure "generation manifest must be a regular non-symlink file")
    content ← w.read_file (manifest_path base)
    refuse_if (not (w.sha256_text content == revision)) (failure "generation digest mismatch")
    m ← w.decode_generation content
    refuse_if (not (m.api_version == generation_api_version))
        (failure "unsupported generation apiVersion")
    refuse_if (not (is_plain_dir (w.lstat (Paths.join (base ∷ "policies" ∷ [])))))
        (failure "generation policies must be a non-symlink directory")
    verify_policies base m.policies
    ok m
