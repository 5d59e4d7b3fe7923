-- ===== src/Access.antt =====
-- The files of owner policies, as access_manifest.go and access_generation.go read them below
-- .ingitdb/access.
pub mod Names
pub mod Generation
pub mod Manifest
pub mod Verified
pub mod Settled
pub mod Build
use dalgo2ingitdb.Base.{
  ℕ, String, ◌<>◌, Bool, true, false, not, ◌&&◌, Option, List, [], if◌then◌else◌,
}
use dalgo2ingitdb.Base.Result.{Error, Result, ok, err}
use dalgo2ingitdb.Schema.{Bytes}

pub record FileInfo : Type 0 where
  pub is_dir : Bool
  pub is_symlink : Bool
  pub is_regular : Bool
  pub size : ℕ

-- `os.Lstat`: found, `fs.ErrNotExist`, or another error
pub data Lstat : Type 0 where
  found : FileInfo → Lstat
  missing : Lstat
  failed : Error → Lstat

-- `generationPolicy` and `generationManifest`
pub record GenerationPolicy : Type 0 where
  pub id : String
  pub file : String
  pub digest : String

pub record GenerationManifest : Type 0 where
  pub api_version : String
  pub enabled : Bool
  pub database : String
  pub realm : String
  pub policies : List GenerationPolicy

-- The document of manifest.yaml; `enabled` may be missing.
pub record ManifestDocument : Type 0 where
  pub enabled : Option Bool
  pub database : String
  pub realm : String
  pub generation : String
  pub policies : List String

-- `access.FilePolicyConfig`
pub record FilePolicyConfig : Type 0 where
  pub enabled : Bool
  pub database : String
  pub realm : String
  pub policies : List String

-- Decoding what follows the first YAML document.
pub data Extra : Type 0 where
  eof : Extra
  another : Extra
  failed : Error → Extra

-- The files at one moment, the YAML decoder that takes known fields only, SHA-256 as lower-case
-- hexadecimal text, and the policies of package access.
pub record World : Type 1 where
  pub lstat : String → Lstat
  pub read_file : String → Result Bytes
  pub sha256_text : Bytes → String
  pub decode_generation : Bytes → Result GenerationManifest
  pub decode_manifest : Bytes → Result ManifestDocument
  pub decode_extra : Bytes → Extra
  pub PolicyDocument : Type 0
  pub parse_policy : Bytes → Result PolicyDocument
  pub marshal_policy_json : PolicyDocument → Result Bytes
  pub policy_name : PolicyDocument → String

abbrev pub refuse_if : Bool → Error → Result (Unit {0})
refuse_if b e = if b then err e else ok tt

abbrev pub is_plain_dir : Lstat → Bool
is_plain_dir (found info) = info.is_dir && not info.is_symlink
is_plain_dir x = false

abbrev pub is_plain_file : Lstat → Bool
is_plain_file (found info) = info.is_regular && not info.is_symlink
is_plain_file x = false

abbrev pub access_config_dir : String
access_config_dir = ".ingitdb/access"

abbrev pub access_manifest_name : String
access_manifest_name = "manifest.yaml"

abbrev pub max_access_manifest_size : ℕ
max_access_manifest_size = 65536

abbrev pub generation_api_version : String
generation_api_version = "ingitdb.org/access-generation/v1"

-- The canonical form of a policy, nil where it has none.
abbrev pub bytes_or_nil : Result Bytes → Bytes
bytes_or_nil (ok content) = content
bytes_or_nil (err e) = []

abbrev pub canonical : (w : World) → w.PolicyDocument → Bytes
canonical w doc = bytes_or_nil (w.marshal_policy_json doc)
