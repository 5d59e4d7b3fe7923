-- ===== src/Tests/Policies.antt =====
-- The theorems on access_manifest.go and access_generation.go at a concrete project.
use dalgo2ingitdb.Base.{
  ◌≡◌, sym, ap, eq_iff, Bool-cases, inl, inr, ℕ, eqb, String, refl, true, false, ◌==◌, some, List,
  [], ◌∷◌, contains, if◌then◌else◌,
}
use dalgo2ingitdb.Base.Result.{ok}
use dalgo2ingitdb.Paths.{clean, join}
use dalgo2ingitdb.Schema.{Bytes}
use dalgo2ingitdb.Access.{
  is_plain_file, FileInfo, found, GenerationPolicy, GenerationManifest, ManifestDocument,
  FilePolicyConfig, eof, World,
}
use dalgo2ingitdb.Access.Names.{safe_policy_id, is_sha256}
use dalgo2ingitdb.Access.Generation.{verify_policy, verify_policies, read_and_verify_generation}
use dalgo2ingitdb.Access.Manifest.{
  present, policies_match, when_dirs, read_document, verify_active, read_selection,
  read_access_manifest,
}
use dalgo2ingitdb.Base.Dict.{lookup}
use dalgo2ingitdb.Access.Build.{Encoders, OwnerPolicyGeneration, BuiltGeneration, build_generation}
use dalgo2ingitdb.Access.Build.Materialized.{IsCodec, IsMaterialized}
use dalgo2ingitdb.Access.Build.RoundTrip.{read_and_verify_generation-build_generation}
use mathlib.Core.Path.{subst}
use dalgo2ingitdb.Access.Verified.{IsVerified, read_and_verify_generation-IsVerified}
use dalgo2ingitdb.Access.Settled.{IsSettled, read_access_manifest-IsSettled}

abbrev revision : String
revision = "aaaaaaaaaaaaaaaaaaaaaaaaaaaaaaaaaaaaaaaaaaaaaaaaaaaaaaaaaaaaaaaa"

abbrev policy_digest : String
policy_digest = "bbbbbbbbbbbbbbbbbbbbbbbbbbbbbbbbbbbbbbbbbbbbbbbbbbbbbbbbbbbbbbbb"

abbrev base_dir : String
base_dir =
    "/db/.ingitdb/access/generations/aaaaaaaaaaaaaaaaaaaaaaaaaaaaaaaaaaaaaaaaaaaaaaaaaaaaaaaaaaaaaaaa"

abbrev base_manifest : String
base_manifest =
    "/db/.ingitdb/access/generations/aaaaaaaaaaaaaaaaaaaaaaaaaaaaaaaaaaaaaaaaaaaaaaaaaaaaaaaaaaaaaaaa/manifest.yaml"

abbrev base_policies : String
base_policies =
    "/db/.ingitdb/access/generations/aaaaaaaaaaaaaaaaaaaaaaaaaaaaaaaaaaaaaaaaaaaaaaaaaaaaaaaaaaaaaaaa/policies"

abbrev a_dir : FileInfo
a_dir = record { is_dir = true; is_symlink = false; is_regular = false; size = 0 }

abbrev a_file : FileInfo
a_file = record { is_dir = false; is_symlink = false; is_regular = true; size = 1 }

abbrev dirs : List String
dirs = "/db/.ingitdb" ∷ "/db/.ingitdb/access" ∷ base_dir ∷ base_policies ∷ []

abbrev readers : GenerationPolicy
readers = record { id = "readers"; file = "policies/readers.yaml"; digest = policy_digest }

abbrev generation : GenerationManifest
generation = record {
  api_version = "ingitdb.org/access-generation/v1";
  enabled = true;
  database = "db";
  realm = "";
  policies = readers ∷ [];
}

abbrev selection : ManifestDocument
selection = record {
  enabled = some true;
  database = "db";
  realm = "";
  generation = revision;
  policies =
      "generations/aaaaaaaaaaaaaaaaaaaaaaaaaaaaaaaaaaaaaaaaaaaaaaaaaaaaaaaaaaaaaaaa/policies/readers.yaml"
      ∷ [];
}

abbrev selected_config : FilePolicyConfig
selected_config = record {
  enabled = true;
  database = "db";
  realm = "";
  policies = selection.policies;
}

abbrev first_byte : Bytes → ℕ
first_byte [] = 0
first_byte (b ∷ bs) = b

abbrev digest_of : ℕ → String
digest_of n = if eqb n 1 then revision else policy_digest

-- The manifest of the generation is the byte 1, the one of the project the byte 3, and the policy
-- the byte 2; the digest of a text hangs on its first byte.
abbrev policies_world : World
policies_world = record {
  lstat = λ p. if contains dirs p then found a_dir else found a_file;
  read_file = λ p.
      if p == base_manifest
      then ok (1 ∷ [])
      else if p == "/db/.ingitdb/access/manifest.yaml"
      then ok (3 ∷ [])
      else ok (2 ∷ []);
  sha256_text = λ content. digest_of (first_byte content);
  decode_generation = λ content. ok generation;
  decode_manifest = λ content. ok selection;
  decode_extra = λ content. eof;
  PolicyDocument = Bytes;
  parse_policy = λ content. ok content;
  marshal_policy_json = λ doc. ok doc;
  policy_name = λ doc. "readers";
}

read_and_verify_generation-IsVerified_example :
    IsVerified policies_world base_dir revision generation
unfolding read_and_verify_generation verify_policies verify_policy safe_policy_id join clean
read_and_verify_generation-IsVerified_example =
    read_and_verify_generation-IsVerified policies_world base_dir revision generation refl

read_access_manifest-IsSettled_example : IsSettled policies_world "/db" (present selected_config)
unfolding read_access_manifest when_dirs read_selection read_document verify_active policies_match
    is_sha256 read_and_verify_generation verify_policies verify_policy safe_policy_id join clean
read_access_manifest-IsSettled_example =
    read_access_manifest-IsSettled policies_world "/db" (present selected_config) refl

abbrev plain_encoders : Encoders policies_world
plain_encoders = record {
  marshal_policy_yaml = λ doc. ok doc;
  target_database = λ doc. "db";
  marshal_generation = λ m. ok (1 ∷ []);
  trim_space = λ s. s;
  byte_length = λ s. 0;
}

abbrev candidate : OwnerPolicyGeneration
candidate = record { enabled = true; database = "db"; realm = ""; policies = (2 ∷ []) ∷ [] }

abbrev readers_source : Bytes
readers_source = 2 ∷ []

abbrev built_generation : BuiltGeneration
built_generation = record {
  manifest = generation;
  sources = ("policies/readers.yaml", readers_source) ∷ [];
  encoded = 1 ∷ [];
  revision = revision;
}

is_built : build_generation policies_world plain_encoders candidate ≡ ok built_generation
unfolding build_generation join
is_built = refl

is_codec : IsCodec policies_world plain_encoders built_generation
is_codec = record { policies = λ doc source h. sym h; generation = λ h. refl }

stored_source :
    (file : String) (source : Bytes)
    → lookup file built_generation.sources ≡ some source
    → (is_plain_file (policies_world.lstat (join (base_dir ∷ file ∷ []))) ≡ true)
      × (policies_world.read_file (join (base_dir ∷ file ∷ [])) ≡ ok source)
unfolding lookup join
stored_source file source h = elim (Bool-cases ("policies/readers.yaml" == file)) [
  | inl e ↦
      let same = (eq_iff "policies/readers.yaml" file).0 e in
      let found' : some readers_source ≡ some source = rw e at h in
      subst
        (λ f.
          (is_plain_file (policies_world.lstat (join (base_dir ∷ f ∷ []))) ≡ true)
          × (policies_world.read_file (join (base_dir ∷ f ∷ [])) ≡ ok source))
        same (refl, let same_source : readers_source ≡ source = cc found' in ap ok same_source)
  | inr e ↦ let none' = rw e at h in cc none'
]

is_materialized : IsMaterialized policies_world base_dir built_generation
unfolding join
is_materialized = record {
  base_dir = refl;
  policies_dir = refl;
  manifest_file = refl;
  manifest_content = refl;
  source_files = stored_source;
}

read_and_verify_generation-build_generation_example :
    read_and_verify_generation policies_world base_dir revision ≡ ok generation
read_and_verify_generation-build_generation_example =
    read_and_verify_generation-build_generation policies_world plain_encoders base_dir candidate
      built_generation is_codec is_built is_materialized
