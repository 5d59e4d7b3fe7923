-- ===== src/Records.antt =====
-- Where a record lives: record_io.go (lines 88 to 119), scoped_collection.go and `resolveCollection`
-- of tx_readonly.go.
pub mod Resolution
use dalgo2ingitdb.Base.{
  ℕ, zero, suc, ◌-◌, String, ◌<>◌, Bool, true, false, ◌||◌, Option, none, some, List, [], ◌∷◌, ◌++◌,
  length, ◌==◌, if◌then◌else◌,
}
use dalgo2ingitdb.Base.Dict.{Dict, lookup}
use dalgo2ingitdb.Base.Value.{Value, Runtime}
use dalgo2ingitdb.Base.Result.{
  Error, collection_not_in_definition, failure, quoted, Result, ok, err, ◌>>=◌, ◌>>◌,
}
use dalgo2ingitdb.Keys.{at_front, codes, record_key_to_file_name, validate_record_path_segment}
use dalgo2ingitdb.Paths.{join, require_contained_path}
use dalgo2ingitdb.Schema.{
  Ingitdb, Definition, Collection, collection, SubCollections, end, sub, CollectionInfo, RecordFile,
  info, sub_collections,
}

-- `record.Key`: a collection and an ID, under the key of a parent record or at the top.
pub data Key : Type 0 where
  top : String → Value → Key
  under : Key → String → Value → Key

abbrev pub key_collection : Key → String
key_collection (top col id) = col
key_collection (under parent col id) = col

abbrev pub key_id : Key → Value
key_id (top col id) = id
key_id (under parent col id) = id

abbrev pub key_parent : Key → Option Key
key_parent (top col id) = none
key_parent (under parent col id) = some parent

-- `strings.Contains(s, old)`
abbrev pub str_contains : List ℕ → String → Bool
str_contains old String.[] = at_front old ""
str_contains old (String.◌∷◌ c s) = at_front old (String.◌∷◌ c s) || str_contains old s

-- `strings.ReplaceAll` for a non-empty `old`; `skip` counts the rest of a match.
unfoldable pub replace_from : ℕ → List ℕ → String → String → String
replace_from skip old new String.[] = ""
replace_from (suc skip) old new (String.◌∷◌ c s) = replace_from skip old new s
replace_from zero old new (String.◌∷◌ c s) = elim (at_front old (String.◌∷◌ c s)) [
  | true ↦ new <> replace_from (length old - 1) old new s
  | false ↦ String.◌∷◌ c (replace_from 0 old new s)
]

abbrev pub key_placeholder : List ℕ
key_placeholder = codes "{key}"

-- A step of the ancestor chain: a collection, and the printed ID of a record of it.
abbrev pub AncestorStep : Type 0
AncestorStep = String × String

abbrev pub find_sub : String → SubCollections → Option Collection
find_sub k end = none
find_sub k (sub j c rest) = if j == k then some c else find_sub k rest

-- A collection that can hold records, its record file, and the record key.
pub record Target : Type 0 where
  pub col : CollectionInfo
  pub file : RecordFile
  pub key : String

module _ (lib : Ingitdb) (rt : Runtime) (goos : String) where
  unfoldable pub resolve_record_path : CollectionInfo → RecordFile → String → String
  unfolding replace_from
  resolve_record_path col file key =
      let name = replace_from 0 key_placeholder (record_key_to_file_name key) file.name in
      join (col.dir_path ∷ lib.records_base_path file ∷ name ∷ [])

  unfoldable pub validate_record_file_key : CollectionInfo → RecordFile → String → Result (Unit {0})
  validate_record_file_key col file key = elim (str_contains key_placeholder file.name) [
    | false ↦ ok tt
    | true ↦ do
      validate_record_path_segment goos key
      require_contained_path col.dir_path (resolve_record_path col file key)
  ]

  -- The ancestors from the root down to the immediate parent.
  unfoldable pub ancestors : Key → List AncestorStep
  ancestors (top col id) = (col, rt.show id) ∷ []
  ancestors (under parent col id) = ancestors parent ++ (col, rt.show id) ∷ []

  unfoldable pub validate_ancestors : List AncestorStep → Result (Unit {0})
  validate_ancestors [] = ok tt
  validate_ancestors ((col, id) ∷ steps) =
      let rest = validate_ancestors steps in validate_record_path_segment goos id >> rest

  -- The walk through the intermediate ancestors. `id` is the ID of the last step; the result is the
  -- collection of the deepest ancestor, its directory, and the ID of the deepest ancestor record.
  unfoldable pub walk :
      Collection → String → String → List AncestorStep → Result (Collection × String × String)
  walk cur dir id [] = ok (cur, dir, id)
  walk cur dir id ((col, next) ∷ steps) = elim (find_sub col (sub_collections cur)) [
    | none ↦ err (collection_not_in_definition col)
    | some child ↦ walk child (join (dir ∷ record_key_to_file_name id ∷ col ∷ [])) next steps
  ]

  -- The target below the deepest ancestor record, with its directory.
  unfoldable pub descend : String → String → Collection × String × String → Result Collection
  descend root name (cur, parent_dir, id) = elim (find_sub name (sub_collections cur)) [
    | none ↦ err (collection_not_in_definition name)
    | some (collection i subs) ↦
        let dir = join (parent_dir ∷ record_key_to_file_name id ∷ name ∷ []) in
        do require_contained_path root dir; ok (collection (record i { dir_path = dir }) subs)
  ]

  unfoldable pub resolve_nested : Definition → String → List AncestorStep → Result Collection
  resolve_nested def name [] = err (failure "no ancestors")
  resolve_nested def name ((col, id) ∷ steps) = elim (lookup col def.collections) [
    | none ↦ err (collection_not_in_definition col)
    | some root ↦ do
      validate_ancestors ((col, id) ∷ steps)
      found ← walk root (info root).dir_path id steps
      descend (info root).dir_path name found
  ]

  -- A missing definition is the first error of every caller.
  unfoldable pub resolve_scoped_collection :
      Option Definition → String → Option Key → Result Collection
  resolve_scoped_collection none name parent = err (failure "transaction has no loaded definition")
  resolve_scoped_collection (some def) name none = elim (lookup name def.collections) [
    | none ↦ err (collection_not_in_definition name)
    | some col ↦ ok col
  ]
  resolve_scoped_collection (some def) name (some parent) =
      resolve_nested def name (ancestors parent)

  unfoldable pub with_record_file : Key → Collection → Result Target
  with_record_file key (collection i subs) = elim i.record_file [
    | none ↦ err (quoted "has no record_file definition" (key_collection key))
    | some file ↦ do
      validate_record_file_key i file (rt.show (key_id key))
      ok (record { col = i; file = file; key = rt.show (key_id key) })
  ]

  unfoldable pub resolve_collection : Option Definition → Option Key → Result Target
  resolve_collection none key = err (failure "transaction has no loaded definition")
  resolve_collection (some def) none = err (failure "key is nil")
  resolve_collection (some def) (some key) = do
    col ← resolve_scoped_collection (some def) (key_collection key) (key_parent key)
    with_record_file key col

  abbrev pub record_path : Target → String
  record_path t = resolve_record_path t.col t.file t.key
