-- ===== src/Batch.antt =====
-- batch_parsers.go: the records of a batch stream, from the lines, documents or rows that the
-- decoders deliver. An error of a record is wrapped with its position.
pub mod Positions
use dalgo2ingitdb.Base.{
  ℕ, zero, suc, ◌+◌, String, Char, code, ◌==◌, Bool, true, false, not, ◌||◌, Option, none, some,
  List, [], ◌∷◌, length, eqb, ltb, leb, if◌then◌else◌,
}
use dalgo2ingitdb.Base.Value.{Value, string, Fields, end, get_field, set_field, delete_field}
use dalgo2ingitdb.Base.Result.{Error, failure, quoted, wrapped, Result, ok, err, ◌>>=◌, ◌>>◌}
use dalgo2ingitdb.Keys.{codes}
use dalgo2ingitdb.Records.{str_contains}
use dalgo2ingitdb.Disk.Action.{wrap_error}

pub record ParsedRecord : Type 0 where
  pub position : ℕ
  pub key : String
  pub data' : Fields

-- The bytes of a character in UTF-8.
abbrev pub rune_len : ℕ → ℕ
rune_len c = if ltb c 128 then 1 else if ltb c 2048 then 2 else if ltb c 65536 then 3 else 4

-- `len(key)`
abbrev pub byte_length : String → ℕ
byte_length String.[] = 0
byte_length (String.◌∷◌ c s) = rune_len (code c) + byte_length s

abbrev pub max_record_key_len : ℕ
max_record_key_len = 255

-- `trim_space` is `strings.TrimSpace`.
module _ (trim_space : String → String) where
  unfoldable pub validate_record_key : String → Result (Unit {0})
  validate_record_key key =
      if key == ""
      then err (failure "record key is empty")
      else if ltb max_record_key_len (byte_length key)
      then err (failure "record key length exceeds maximum")
      else if not (trim_space key == key)
      then err (quoted "record key has leading or trailing whitespace" key)
      else if str_contains (codes "/") key || str_contains (codes "\\") key
      then err (quoted "record key contains a path separator" key)
      else if str_contains (codes "..") key
      then err (quoted "record key contains parent-traversal sequence" key)
      else ok tt

  abbrev pub key_of : Option Value → Result String
  key_of none = err (failure "record missing required key field")
  key_of (some (string key)) =
      if key == "" then err (failure "record key field is empty") else ok key
  key_of (some v) = err (failure "record key field must be a string")

  -- One decoded record, whose key stands in the field `id`.
  unfoldable pub batch_record : String → ℕ → Fields → Result ParsedRecord
  unfolding validate_record_key get_field delete_field
  batch_record id position data' = wrap_error (wrapped "record of the batch") do
    key ← key_of (get_field id data')
    validate_record_key key
    ok (record { position = position; key = key; data' = delete_field id data' })

  -- `ParseBatchJSONL` on the lines of the scanner and its error at the end; `is_blank` is whether
  -- `strings.TrimSpace` leaves nothing of a line, and `decode` is `json.Unmarshal`.
  unfoldable pub parse_batch_jsonl :
      {L : Type 0}
      → (L → Bool)
      → (L → Result Fields)
      → Result (Unit {0})
      → ℕ
      → List L
      → Result (List ParsedRecord)
  unfolding batch_record
  parse_batch_jsonl is_blank decode scanned line_no [] =
      wrap_error (wrapped "read jsonl stream") scanned >> ok []
  parse_batch_jsonl is_blank decode scanned line_no (raw ∷ lines) =
      let rest = parse_batch_jsonl is_blank decode scanned (suc line_no) lines in
      if is_blank raw
      then rest
      else (wrap_error (wrapped "invalid JSON") (decode raw) >>= λ data'.
          batch_record "$id" (suc line_no) data' >>= λ parsed.
          rest >>= λ records. ok (parsed ∷ records))

  -- `ParseBatchYAMLStream` on the documents up to the end of the stream; an empty one is nil.
  unfoldable pub parse_batch_yaml_stream :
      ℕ → List (Result (Option Fields)) → Result (List ParsedRecord)
  unfolding batch_record
  parse_batch_yaml_stream doc_no [] = ok []
  parse_batch_yaml_stream doc_no (err e ∷ docs) = err (wrapped "invalid YAML" e)
  parse_batch_yaml_stream doc_no (ok none ∷ docs) = parse_batch_yaml_stream (suc doc_no) docs
  parse_batch_yaml_stream doc_no (ok (some data') ∷ docs) = do
    parsed ← batch_record "$id" (suc doc_no) data'
    records ← parse_batch_yaml_stream (suc doc_no) docs
    ok (parsed ∷ records)

  -- `ParseBatchINGR` on the rows of the stream
  unfoldable pub parse_batch_ingr : ℕ → List Fields → Result (List ParsedRecord)
  unfolding batch_record
  parse_batch_ingr i [] = ok []
  parse_batch_ingr i (row ∷ rows) = do
    parsed ← batch_record "$ID" (suc i) row
    records ← parse_batch_ingr (suc i) rows
    ok (parsed ∷ records)

  -- `data[col] = fields[i]` for the columns other than the key column
  unfoldable pub row_fields : ℕ → List String → List String → Fields → Fields
  unfolding set_field
  row_fields key_index [] values data' = data'
  row_fields key_index (col ∷ header) [] data' = data'
  row_fields zero (col ∷ header) (value ∷ values) data' = other_fields header values data'
    where
      other_fields : List String → List String → Fields → Fields
      other_fields [] values data' = data'
      other_fields (col ∷ header) [] data' = data'
      other_fields (col ∷ header) (value ∷ values) data' =
          other_fields header values (set_field col (string value) data')
  row_fields (suc n) (col ∷ header) (value ∷ values) data' =
      row_fields n header values (set_field col (string value) data')

  abbrev pub nth : ℕ → List String → String
  nth n [] = ""
  nth zero (v ∷ vs) = v
  nth (suc n) (v ∷ vs) = nth n vs

  unfoldable pub csv_record : List String → ℕ → ℕ → List String → Result ParsedRecord
  unfolding validate_record_key row_fields
  csv_record header key_index line_no values =
      if not (eqb (length values) (length header))
      then err (failure "row and header have different numbers of columns")
      else (let key = nth key_index values in
          if key == ""
          then err (failure "key column is empty")
          else (validate_record_key key
              >> ok (record {
                position = line_no;
                key = key;
                data' = row_fields key_index header values end;
              })))

  unfoldable pub csv_records :
      List String → ℕ → ℕ → List (Result (List String)) → Result (List ParsedRecord)
  unfolding csv_record
  csv_records header key_index line_no [] = ok []
  csv_records header key_index line_no (row ∷ rows) = do
    values ← wrap_error (wrapped "csv parse error") row
    parsed ← wrap_error (wrapped "line") (csv_record header key_index line_no values)
    records ← csv_records header key_index (suc line_no) rows
    ok (parsed ∷ records)

  abbrev pub index_of : String → ℕ → List String → Option ℕ
  index_of name i [] = none
  index_of name i (h ∷ header) = if h == name then some i else index_of name (suc i) header

  abbrev pub or_next : Option ℕ → Result ℕ → Result ℕ
  or_next none next = next
  or_next (some i) next = ok i

  -- The index of the key column.
  unfoldable pub resolve_csv_key_column : List String → String → Result ℕ
  resolve_csv_key_column header key_column =
      if key_column == ""
      then or_next (index_of "$id" 0 header)
          (or_next (index_of "id" 0 header) (err (failure "no key column found in CSV header")))
      else or_next (index_of key_column 0 header) (err (quoted "key column not found" key_column))

  abbrev pub with_header :
      String → List String → ℕ → List (Result (List String)) → Result (List ParsedRecord)
  with_header key_column header first_line rows = do
    key_index ← resolve_csv_key_column header key_column
    csv_records header key_index first_line rows

  -- `ParseBatchCSV` on the rows up to the end of the stream
  unfoldable pub parse_batch_csv :
      String → List String → List (Result (List String)) → Result (List ParsedRecord)
  unfolding resolve_csv_key_column csv_records
  parse_batch_csv key_column (field ∷ fields) rows = with_header key_column (field ∷ fields) 1 rows
  parse_batch_csv key_column [] [] = ok []
  parse_batch_csv key_column [] (err e ∷ rows) = err (wrapped "read csv header" e)
  parse_batch_csv key_column [] (ok header ∷ rows) = with_header key_column header 2 rows
