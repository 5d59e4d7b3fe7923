-- ===== src/Access/Manifest.antt =====
-- access_manifest.go, readAccessManifest: the selection of policies of a project, on a system whose
-- paths have slashes. What the source returns beside an error is left out, as its callers do.
use dalgo2ingitdb.Base.{
  String, ◌<>◌, Bool, true, false, not, ◌&&◌, ◌==◌, eqb, ltb, none, some, List, [], ◌∷◌, length,
  if◌then◌else◌,
}
use dalgo2ingitdb.Base.Result.{failure, quoted, wrapped, Result, ok, err, ◌>>=◌, ◌>>◌}
use dalgo2ingitdb.Disk.Action.{wrap_error}
use dalgo2ingitdb.Paths as Paths
use dalgo2ingitdb.Access.{
  FileInfo, Lstat, found, missing, GenerationPolicy, GenerationManifest, ManifestDocument,
  FilePolicyConfig, Extra, eof, another, World, refuse_if, access_config_dir, access_manifest_name,
  max_access_manifest_size,
}
use dalgo2ingitdb.Access.Names.{is_sha256}
use dalgo2ingitdb.Access.Generation.{read_and_verify_generation}

-- No manifest, where there is no directory for it, or the manifest that selects the policies.
pub data Manifest : Type 0 where
  absent : Manifest
  present : FilePolicyConfig → Manifest

abbrev pub ingit_dir : String → String
ingit_dir root = Paths.join (root ∷ ".ingitdb" ∷ [])

abbrev pub access_dir : String → String
access_dir root = Paths.join (root ∷ access_config_dir ∷ [])

abbrev pub manifest_name : String → String
manifest_name root = Paths.join (access_dir root ∷ access_manifest_name ∷ [])

abbrev pub generation_dir : String → String → String
generation_dir root generation = Paths.join (access_dir root ∷ "generations" ∷ generation ∷ [])

abbrev pub policy_prefix : String → String
policy_prefix generation = Paths.join ("generations" ∷ generation ∷ "policies" ∷ []) <> "/"

-- Each selected policy is the file of the policy of the generation in its place.
unfoldable pub policies_match : String → List String → List GenerationPolicy → Bool
policies_match prefix [] ps = true
policies_match prefix (policy ∷ policies) [] = false
policies_match prefix (policy ∷ policies) (p ∷ ps) =
    let rest = policies_match prefix policies ps in policy == prefix <> p.id <> ".yaml" && rest

abbrev same_bool : Bool → Bool → Bool
same_bool a b = if a then b else not b

abbrev pub is_same_selection : Bool → ManifestDocument → GenerationManifest → Bool
is_same_selection enabled doc m =
    same_bool m.enabled enabled
    && m.database == doc.database
    && m.realm == doc.realm
    && eqb (length m.policies) (length doc.policies)

abbrev pub config_of : Bool → ManifestDocument → FilePolicyConfig
config_of enabled doc = record {
  enabled = enabled;
  database = doc.database;
  realm = doc.realm;
  policies = doc.policies;
}

abbrev pub has_policies : FilePolicyConfig → Bool
has_policies config = ltb 0 (length config.policies)

abbrev pub check_extra : Extra → Result (Unit {0})
check_extra eof = ok tt
check_extra another =
    err (wrapped "decode access manifest" (failure "multiple YAML documents are not allowed"))
check_extra (Extra.failed e) = err (wrapped "decode access manifest" e)

abbrev pub check_manifest_file : Lstat → Result (Unit {0})
check_manifest_file missing =
    err (failure "access configuration directory exists but manifest.yaml is missing")
check_manifest_file (Lstat.failed e) = err (wrapped "inspect access manifest" e)
check_manifest_file (found info) = do
  refuse_if info.is_symlink (failure "access manifest must not be a symlink")
  refuse_if (not info.is_regular) (failure "access manifest must be a regular file")
  refuse_if (ltb max_access_manifest_size info.size) (failure "access manifest exceeds its size")

abbrev pub enabled_of : ManifestDocument → Result Bool
enabled_of doc = elim doc.enabled [
  | none ↦ err (failure "access manifest requires explicit enabled")
  | some enabled ↦ ok enabled
]

module _ (w : World) where
  abbrev pub check_dir : String → FileInfo → Result (Unit {0})
  check_dir dir info = do
    refuse_if info.is_symlink (quoted "access configuration directory must not be a symlink" dir)
    refuse_if (not info.is_dir) (quoted "access configuration path must be a directory" dir)

  -- The rest of the reading once all the directories are there.
  unfoldable pub when_dirs : List String → Result Manifest → Result Manifest
  when_dirs [] rest = rest
  when_dirs (dir ∷ dirs) rest =
      let then_rest = when_dirs dirs rest in
      elim (w.lstat dir) [
        | missing ↦ ok absent
        | Lstat.failed e ↦ err (wrapped "inspect access configuration directory" e)
        | found info ↦ check_dir dir info >> then_rest
      ]

  unfoldable pub read_document : String → Result ManifestDocument
  read_document name = do
    check_manifest_file (w.lstat name)
    content ← wrap_error (wrapped "read access manifest") (w.read_file name)
    refuse_if (ltb max_access_manifest_size (length content))
        (failure "access manifest exceeds its size")
    doc ← wrap_error (wrapped "decode access manifest") (w.decode_manifest content)
    check_extra (w.decode_extra content)
    ok doc

  unfoldable pub verify_active : String → Bool → ManifestDocument → Result (Unit {0})
  unfolding read_and_verify_generation is_sha256 policies_match
  verify_active root enabled doc = do
    refuse_if (not (is_sha256 doc.generation)) (failure "invalid access generation revision")
    generation ←
        wrap_error (wrapped "verify active access generation")
          (read_and_verify_generation w (generation_dir root doc.generation) doc.generation)
    refuse_if (not (is_same_selection enabled doc generation))
        (failure "active manifest does not match its generation")
    refuse_if (not (policies_match (policy_prefix doc.generation) doc.policies generation.policies))
        (failure "active generation policy path is outside its generation")

  abbrev pub verify_unless_empty : String → Bool → ManifestDocument → Result (Unit {0})
  verify_unless_empty root enabled doc =
      if doc.generation == "" then ok tt else verify_active root enabled doc

  unfoldable pub read_selection : String → Result Manifest
  unfolding read_document verify_active
  read_selection root = do
    doc ← read_document (manifest_name root)
    enabled ← enabled_of doc
    verify_unless_empty root enabled doc
    refuse_if (enabled && not (has_policies (config_of enabled doc)))
        (failure "enabled access manifest requires at least one policy")
    ok (present (config_of enabled doc))

  unfoldable pub read_access_manifest : String → Result Manifest
  unfolding when_dirs read_selection
  read_access_manifest root =
      when_dirs (ingit_dir root ∷ access_dir root ∷ []) (read_selection root)
