-- ===== src/Readers/Stored.antt =====
-- Stored records from parsed rows: query.go, lines 564 to 582 and 638 to 755.
use dalgo2ingitdb.Base.{
  ℕ, zero, suc, String, ◌<>◌, ◌==◌, code, eqb, true, false, Option, none, some, List, [], ◌∷◌,
  length, contains, if◌then◌else◌,
}
use dalgo2ingitdb.Base.Dict.{Dict}
use dalgo2ingitdb.Base.Value.{
  null, string, bytes, Fields, get_field, set_field, delete_field, Runtime,
}
use dalgo2ingitdb.Base.Result.{failure, quoted, wrapped, Result, ok, err, ◌>>=◌}
use dalgo2ingitdb.Keys.{at_front, record_key_from_file_name}
use dalgo2ingitdb.Paths.{clean, render}
use dalgo2ingitdb.Schema.{CollectionInfo, SourceField}
use dalgo2ingitdb.Records.{replace_from, key_placeholder}
use dalgo2ingitdb.Deps.{Regexp, Deps}
use dalgo2ingitdb.Disk.Action.{wrap_error}
use dalgo2ingitdb.Formula.{apply_formulas_to_read}

pub record KeyedStored : Type 0 where
  pub key : String
  pub stored : Fields

-- The text before and after the first occurrence.
unfoldable pub cut : List ℕ → String → Option (String × String)
cut old String.[] = none
cut old (String.◌∷◌ c s) = elim (at_front old (String.◌∷◌ c s)) [
  | true ↦ some ("", drop_chars (length old) (String.◌∷◌ c s))
  | false ↦ elim (cut old s) [
    | none ↦ none
    | some (before, after) ↦ some (String.◌∷◌ c before, after)
  ]
]
  where
    drop_chars : ℕ → String → String
    drop_chars zero t = t
    drop_chars (suc n) String.[] = ""
    drop_chars (suc n) (String.◌∷◌ d t) = drop_chars n t

-- The part of a name before its last dot.
unfoldable pub before_last_dot : String → Option String
before_last_dot String.[] = none
before_last_dot (String.◌∷◌ c s) = elim (before_last_dot s) [
  | some t ↦ some (String.◌∷◌ c t)
  | none ↦ if eqb (code c) b'.' then some "" else none
]

abbrev pub last_or : String → List String → String
last_or s [] = s
last_or s (t ∷ ts) = last_or t ts

-- `filepath.Base`
unfoldable pub base_name : String → String
base_name path = let p = clean path in elim p.elements [ [] ↦ render p | s ∷ ss ↦ last_or s ss ]

-- `strings.TrimSuffix(filepath.Base(p), filepath.Ext(p))`
unfoldable pub stem : String → String
unfolding base_name before_last_dot
stem path = elim (before_last_dot (base_name path)) [ none ↦ base_name path | some t ↦ t ]

module _ (re : Regexp) where
  unfoldable pub key_pattern : String → String → String
  unfolding replace_from
  key_pattern before after =
      let suffix =
        replace_from 0 (0 ∷ []) ".*" (re.quote_meta (replace_from 0 key_placeholder "\0" after)) in
      "^" <> re.quote_meta before <> "(.*?)" <> suffix <> "$"

  abbrev pub matched_key : Option String → String
  matched_key none = ""
  matched_key (some name) = record_key_from_file_name name

  unfoldable pub build_key_extractor : String → Result (String → String)
  unfolding cut stem key_pattern
  build_key_extractor template = elim (cut key_placeholder template) [
    | none ↦ ok stem
    | some (before, after) ↦ do
      match ← wrap_error (wrapped "build key extractor") (re.compile (key_pattern before after))
      ok (λ path. matched_key (match path))
  ]

module _ (rt : Runtime) where
  unfoldable pub decode_field : String → Fields → Result Fields
  unfolding get_field
  decode_field name fields = elim (get_field name fields) [
    | none ↦ err (quoted "missing transport value" name)
    | some null ↦ ok fields
    | some (string encoded) ↦ elim (rt.decode_base64 encoded) [
      | none ↦ err (quoted "decode source bytes field" name)
      | some decoded ↦ ok (set_field name (bytes decoded) fields)
    ]
    | some v ↦ err (quoted "expected base64 string or null" name)
  ]

  unfoldable pub decode_fields : List SourceField → Fields → Result Fields
  unfolding decode_field
  decode_fields [] fields = ok fields
  decode_fields (f ∷ fs) fields = do
    fields' ← if f.type == "bytes" then decode_field f.name fields else ok fields
    decode_fields fs fields'

  unfoldable pub decode_source_transport : CollectionInfo → Fields → Result Fields
  unfolding decode_fields
  decode_source_transport col fields = elim col.source_schema [
    | none ↦ ok fields
    | some schema ↦ if schema.key_mode == "" then ok fields else decode_fields schema.fields fields
  ]

module _ (d : Deps) where
  -- One row of a map or a list, as it is stored.
  unfoldable pub stored_row : CollectionInfo → String → Fields → Result KeyedStored
  unfolding decode_source_transport
  stored_row col id fields = do
    decoded ←
        wrap_error (wrapped id)
          (decode_source_transport d.rt col (d.lib.apply_locale_to_read fields col.columns))
    ok (record { key = id; stored = decoded })

  -- The loop of `readAllMapStored`.
  unfoldable pub map_stored : CollectionInfo → Dict Fields → Result (List KeyedStored)
  unfolding stored_row
  map_stored col [] = ok []
  map_stored col ((id, fields) ∷ rows) = do
    first ← stored_row col id fields
    rest ← map_stored col rows
    ok (first ∷ rest)

  -- The loop of `readAllListStored`.
  unfoldable pub list_stored :
      CollectionInfo → List String → List Fields → Result (List KeyedStored)
  unfolding stored_row delete_field
  list_stored col seen [] = ok []
  list_stored col seen (row ∷ rows) = elim (d.lib.resolve_list_record_key row col) [
    | none ↦ err (failure "list record has no transport ID")
    | some id ↦
        if id == ""
        then err (failure "list record has no transport ID")
        else if contains seen id
        then err (quoted "duplicate list record ID" id)
        else (do
          first ← stored_row col id (delete_field "$ID" row)
          rest ← list_stored col (id ∷ seen) rows
          ok (first ∷ rest))
  ]

  -- The key and the data of a record with its computed columns.
  unfoldable pub bake_stored_records : CollectionInfo → List KeyedStored → Result (List KeyedStored)
  unfolding apply_formulas_to_read
  bake_stored_records col [] = ok []
  bake_stored_records col (s ∷ ss) = do
    computed ← apply_formulas_to_read d.lib d.rt s.stored col.columns
    rest ← bake_stored_records col ss
    ok (record { key = s.key; stored = computed } ∷ rest)
