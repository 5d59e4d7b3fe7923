-- ===== src/Tests/Imports.antt =====
-- The theorems on batch_parsers.go, registry.go and collection.go at concrete inputs.
use dalgo2ingitdb.Base.{ℕ, ◌≡◌, refl, none, some, List, [], ◌∷◌, String, ◌==◌, All}
use dalgo2ingitdb.Base.Dict.{Dict, lookup, insert, erase}
use dalgo2ingitdb.Base.Value.{string, Fields, field, end, get_field, delete_field}
use dalgo2ingitdb.Base.Result.{Result, ok}
use dalgo2ingitdb.Disk.Action.{pure}
use dalgo2ingitdb.Schema.{Definition, Collection, collection, CollectionInfo}
use dalgo2ingitdb.Batch.{ParsedRecord, parse_batch_jsonl, batch_record, validate_record_key}
use dalgo2ingitdb.Batch.Positions.{IsKeyed, IsIncreasing, parse_batch_jsonl-All}
use dalgo2ingitdb.Registry.{
  Config, registered, deregistered, collection_for_key, best_match, cut_prefix,
}
use dalgo2ingitdb.Registry.Membership.{registered_then}
use dalgo2ingitdb.Registry.Prefix.{IsMatchOf, IsCovered, collection_for_key_longest}
use dalgo2ingitdb.Tests.World.{memory, users_info, posts_info}
use dalgo2ingitdb.Schema as Schema

abbrev same_text : String → String
same_text s = s

-- Two lines of a batch, with a blank one between them.
abbrev lines : List String
lines = "u1" ∷ "" ∷ "u2" ∷ []

abbrev decode : String → Result Fields
decode s = ok (field "$id" (string s) end)

abbrev imported : List ParsedRecord
imported =
    record { position = 1; key = "u1"; data' = end }
    ∷ record { position = 3; key = "u2"; data' = end }
    ∷ []

parse_batch_jsonl-All_example : All (IsKeyed same_text "$id") imported × IsIncreasing 0 imported
unfolding parse_batch_jsonl batch_record validate_record_key get_field delete_field
parse_batch_jsonl-All_example =
    parse_batch_jsonl-All same_text (λ s. s == "") decode (ok tt) 0 lines imported refl

abbrev no_config : Config memory
no_config = record {
  read_root_collections = λ path. pure none;
  marshal = λ m. ok [];
  ingitdb_dir_name = ".ingitdb";
  root_collections_file_name = "root-collections.yaml";
  validate_collection_id = λ id. ok tt;
}

abbrev posts_only : Dict String
posts_only = ("posts", "posts") ∷ []

abbrev both : Dict String
both = ("posts", "posts") ∷ ("users", "users") ∷ []

registered_then_example :
    (registered memory no_config "users" both ≡ ok none)
    × (deregistered memory no_config "users" both ≡ some (erase "users" both))
    × ((other : String) → lookup other (erase "users" both) ≡ lookup other posts_only)
unfolding registered lookup insert
registered_then_example = registered_then memory no_config "users" posts_only both refl

-- Two collections, of which one stands before the slash of the ID.
abbrev two_collections : Definition
two_collections = record {
  collections =
      ("users", collection users_info Schema.end)
      ∷ ("posts", collection posts_info Schema.end)
      ∷ [];
}

collection_for_key_longest_example :
    (n : ℕ) × IsMatchOf "users/u1"
      (some (n, (collection users_info Schema.end, "u1")))
      two_collections.collections
    × All
        (IsCovered "users/u1" (some (n, (collection users_info Schema.end, "u1"))))
        two_collections.collections
unfolding collection_for_key best_match cut_prefix
collection_for_key_longest_example =
    collection_for_key_longest (λ id. ok tt) two_collections "users/u1"
      (collection users_info Schema.end) "u1" refl
