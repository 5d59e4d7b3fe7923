-- ===== src/Access/Build.antt =====
-- access_generation.go, buildGeneration: a complete generation of policies from its documents.
pub mod Files
pub mod Materialized
pub mod RoundTrip
use dalgo2ingitdb.Base.{
  ℕ, String, ◌<>◌, ◌==◌, Bool, true, false, not, ◌&&◌, ◌||◌, ltb, Option, none, some, List, [], ◌∷◌,
  length,
}
use dalgo2ingitdb.Base.Dict.{Dict, lookup}
use dalgo2ingitdb.Base.Order.{str_leb}
use dalgo2ingitdb.Base.Sort.{sort}
use dalgo2ingitdb.Base.Result.{failure, quoted, Result, ok, err, ◌>>=◌, ◌>>◌}
use dalgo2ingitdb.ForeignKeys.{is_some}
use dalgo2ingitdb.Paths.{join}
use dalgo2ingitdb.Schema.{Bytes}
use dalgo2ingitdb.Access.{
  GenerationPolicy, GenerationManifest, World, refuse_if, generation_api_version,
}
use dalgo2ingitdb.Access.Names.{safe_policy_id}

-- The encoders of YAML and of package access, `doc.Target.Database`, and package strings.
pub record Encoders (w : World) : Type 0 where
  pub marshal_policy_yaml : w.PolicyDocument → Result Bytes
  pub target_database : w.PolicyDocument → String
  pub marshal_generation : GenerationManifest → Result Bytes
  pub trim_space : String → String
  pub byte_length : String → ℕ

pub record OwnerPolicyGeneration : Type 0 where
  pub enabled : Bool
  pub database : String
  pub realm : String
  pub policies : List Bytes

pub record BuiltGeneration : Type 0 where
  pub manifest : GenerationManifest
  pub sources : Dict Bytes
  pub encoded : Bytes
  pub revision : String

abbrev pub is_empty : List Bytes → Bool
is_empty [] = true
is_empty (p ∷ ps) = false

abbrev pub file_of : String → String
file_of id = join ("policies" ∷ (id <> ".yaml") ∷ [])

abbrev pub before_policy : GenerationPolicy → GenerationPolicy → Bool
before_policy p q = str_leb p.id q.id

module _ (w : World) (enc : Encoders w) where
  -- The limits are 100 policies and 256 bytes.
  unfoldable pub check_candidate : OwnerPolicyGeneration → Result (Unit {0})
  check_candidate c = do
    refuse_if (c.database == "" || not c.enabled || is_empty c.policies)
        (failure "enabled generation requires database and policies")
    refuse_if (ltb 100 (length c.policies)) (failure "owner generation exceeds 100 policies")
    refuse_if
        (not (c.realm == "")
          && (not (enc.trim_space c.realm == c.realm) || ltb 256 (enc.byte_length c.realm)))
        (failure "owner generation realm must be canonical and at most 256 bytes")

  -- A policy with its source; `sources` are those of the documents before it.
  unfoldable pub build_policy :
      String → Dict Bytes → w.PolicyDocument → Result (GenerationPolicy × Bytes)
  unfolding lookup safe_policy_id
  build_policy database sources doc = do
    refuse_if (not (safe_policy_id (w.policy_name doc)))
        (quoted "unsafe policy id" (w.policy_name doc))
    refuse_if (not (enc.target_database doc == database))
        (quoted "policy targets wrong database" (w.policy_name doc))
    content ← w.marshal_policy_json doc
    refuse_if (is_some (lookup (file_of (w.policy_name doc)) sources))
        (quoted "duplicate policy id" (w.policy_name doc))
    source ← enc.marshal_policy_yaml doc
    ok (
      record {
        id = w.policy_name doc;
        file = file_of (w.policy_name doc);
        digest = w.sha256_text content;
      },
      source,
    )

  -- The sources of all the documents, and their policies in order.
  unfoldable pub build_policies :
      String → Dict Bytes → List Bytes → Result (Dict Bytes × List GenerationPolicy)
  unfolding build_policy
  build_policies database sources [] = ok (sources, [])
  build_policies database sources (item ∷ items) = do
    doc ← w.parse_policy item
    built ← build_policy database sources doc
    rest ← build_policies database ((built.0.file, built.1) ∷ sources) items
    ok (rest.0, built.0 ∷ rest.1)

  abbrev pub manifest_of : OwnerPolicyGeneration → List GenerationPolicy → GenerationManifest
  manifest_of c ps = record {
    api_version = generation_api_version;
    enabled = true;
    database = c.database;
    realm = c.realm;
    policies = sort before_policy ps;
  }

  unfoldable pub build_generation : OwnerPolicyGeneration → Result BuiltGeneration
  unfolding check_candidate build_policies sort
  build_generation c = do
    check_candidate c
    built ← build_policies c.database [] c.policies
    encoded ← enc.marshal_generation (manifest_of c built.1)
    ok (record {
      manifest = manifest_of c built.1;
      sources = built.0;
      encoded = encoded;
      revision = w.sha256_text encoded;
    })
