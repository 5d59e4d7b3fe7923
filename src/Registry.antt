-- ===== src/Registry.antt =====
-- registry.go: the root collections of a project, by name, in .ingitdb/root-collections.yaml; and
-- collection.go: the collection that an ID names.
pub mod Membership
pub mod Prefix
use dalgo2ingitdb.Base.{
  ℕ, zero, suc, ◌+◌, String, Char, code, ◌<>◌, ◌==◌, Bool, true, false, not, ◌||◌, ◌&&◌, Option,
  none, some, List, [], ◌∷◌, length, eqb, ltb, if◌then◌else◌,
}
use dalgo2ingitdb.Base.Dict.{Dict, lookup, insert, erase}
use dalgo2ingitdb.Base.Result.{Error, failure, quoted, wrapped, Result, ok, err}
use dalgo2ingitdb.Disk.{Os}
use dalgo2ingitdb.Disk.Action.{Action, pure, raise, lift, ◌>>=◌, ◌>>◌, map_result, wrap_error}
use dalgo2ingitdb.RecordIo.{Io, wrapping}
use dalgo2ingitdb.Paths as Paths
use dalgo2ingitdb.Schema.{Bytes, Collection, Definition}
use dalgo2ingitdb.Keys.{at_front, codes}

-- Package config of ingitdb-go, and yaml.Marshal. A registry that was never written is nil.
pub record Config (os : Os) : Type 0 where
  pub read_root_collections : String → Io os (Option (Dict String))
  pub marshal : Dict String → Result Bytes
  pub ingitdb_dir_name : String
  pub root_collections_file_name : String
  pub validate_collection_id : String → Result (Unit {0})

module _ (os : Os) (config : Config os) where
  abbrev pub config_dir : String → String
  config_dir dir_path =
      Paths.join ((if dir_path == "" then "." else dir_path) ∷ config.ingitdb_dir_name ∷ [])

  -- An empty registry is an empty file.
  abbrev pub encode : Dict String → Result Bytes
  encode [] = ok []
  encode (entry ∷ m) = wrap_error (wrapped "encode root collections") (config.marshal (entry ∷ m))

  unfoldable pub write_root_collections_yaml : String → Dict String → Io os (Unit {0})
  unfolding Paths.join
  write_root_collections_yaml dir_path m = do
    wrapping os "create" (os.mkdir_all (config_dir dir_path))
    content ← lift (encode m)
    wrapping os "write root collections file" (
        os.write_file (Paths.join (config_dir dir_path ∷ config.root_collections_file_name ∷ []))
          content 0o644)

  abbrev pub or_empty : Option (Dict String) → Dict String
  or_empty none = []
  or_empty (some m) = m

  -- What registering a name does to the registry: nothing where it is registered, a conflict where
  -- the name has another path.
  unfoldable pub registered : String → Dict String → Result (Option (Dict String))
  unfolding lookup insert
  registered name m = elim (lookup name m) [
    | none ↦ ok (some (insert name name m))
    | some existing ↦
        if existing == name
        then ok none
        else err (quoted "entry conflicts with auto-registration" name)
  ]

  unfoldable pub deregistered : String → Dict String → Option (Dict String)
  unfolding lookup erase
  deregistered name m = elim (lookup name m) [ none ↦ none | some existing ↦ some (erase name m) ]

  -- A registry that does not change is not written.
  abbrev pub write_if : String → Option (Dict String) → Io os (Unit {0})
  write_if project_path none = pure tt
  write_if project_path (some m) =
      wrapping os "write root-collections.yaml" (write_root_collections_yaml project_path m)

  unfoldable pub register_in_root_collections : String → String → Io os (Unit {0})
  unfolding write_root_collections_yaml registered
  register_in_root_collections project_path name = do
    m ← wrapping os "read root-collections.yaml" (config.read_root_collections project_path)
    change ← lift (registered name (or_empty m))
    write_if project_path change

  unfoldable pub deregister_from_root_collections : String → String → Io os (Unit {0})
  unfolding write_root_collections_yaml deregistered
  deregister_from_root_collections project_path name = do
    m ← wrapping os "read root-collections.yaml" (config.read_root_collections project_path)
    write_if project_path (deregistered name (or_empty m))

-- `id` behind the prefix, where it starts with it
unfoldable pub cut_prefix : String → String → Option String
cut_prefix String.[] id = some id
cut_prefix (String.◌∷◌ c prefix) String.[] = none
cut_prefix (String.◌∷◌ c prefix) (String.◌∷◌ d id) =
    let rest = cut_prefix prefix id in if eqb (code c) (code d) then rest else none

abbrev pub str_length : String → ℕ
str_length String.[] = 0
str_length (String.◌∷◌ c s) = suc (str_length s)

-- `strings.Cut(id, "/")`: the part before the first slash, if there is one
abbrev pub before_slash : String → Option String
before_slash String.[] = none
before_slash (String.◌∷◌ c s) =
    if eqb (code c) b'/'
    then some ""
    else elim (before_slash s) [ none ↦ none | some t ↦ some (String.◌∷◌ c t) ]

-- The best match so far: the length of its ID, the collection, and the key.
abbrev pub Best : Type 0
Best = Option (ℕ × (Collection × String))

abbrev pub best_len : Best → ℕ
best_len none = 0
best_len (some (n, match)) = n

abbrev pub better : String → Collection → Best → Option String → Best
better col_id col best none = best
better col_id col best (some key) =
    if ltb (best_len best) (str_length col_id) then some (str_length col_id, (col, key)) else best

-- The loop over the map of collections, in any order.
unfoldable pub best_match : String → Best → Dict Collection → Best
unfolding cut_prefix
best_match id best [] = best
best_match id best ((col_id, col) ∷ cols) =
    best_match id (better col_id col best (cut_prefix (col_id <> "/") id)) cols

abbrev pub found_key : String → Best → Result (Collection × String)
found_key id none = err (quoted "collection not found for ID" id)
found_key id (some (n, (col, key))) =
    if key == "" then err (quoted "no record key in ID" id) else ok (col, key)

unfoldable pub collection_for_key :
    (String → Result (Unit {0})) → Definition → String → Result (Collection × String)
unfolding best_match
collection_for_key validate_collection_id def id = elim (before_slash id) [
  | none ↦ err (quoted "invalid ID" id)
  | some segment ↦
      elim (wrap_error (wrapped "invalid collection in ID") (validate_collection_id segment)) [
        | err e ↦ err e
        | ok done ↦ found_key id (best_match id none def.collections)
      ]
]
