-- ===== src/Rooted/Lines.antt =====
-- rooted_files.go: the lines of a JSONL stream, as recoverJSONLTailWithLimit and readJSONLRecords
-- take them. Only lines that end with a newline are committed.
use dalgo2ingitdb.Base.{
  ℕ, suc, zero, Bool, true, false, not, ◌||◌, List, [], ◌∷◌, take, eqb, if◌then◌else◌,
}
use dalgo2ingitdb.Base.Result.{Error, Result, ok, err, ◌>>=◌}
use dalgo2ingitdb.Schema.{Bytes}
use dalgo2ingitdb.Rooted.{Json}

abbrev pub push_byte : ℕ → List Bytes → List Bytes
push_byte b [] = (b ∷ []) ∷ []
push_byte b (line ∷ lines) = (b ∷ line) ∷ lines

-- `bytes.Split(content, "\n")`
unfoldable pub split_lines : Bytes → List Bytes
split_lines [] = [] ∷ []
split_lines (b ∷ bs) =
    let rest = split_lines bs in if eqb b b'\n' then [] ∷ rest else push_byte b rest

-- `content[len(content)-1] == '\n'`, and true of no content
unfoldable pub ends_line : Bytes → Bool
ends_line [] = true
ends_line (b ∷ []) = eqb b b'\n'
ends_line (b ∷ c ∷ bs) = ends_line (c ∷ bs)

-- `bytes.LastIndexByte(content, '\n') + 1`, where the index of a missing byte is -1
unfoldable pub last_newline_end : Bytes → ℕ
last_newline_end [] = 0
last_newline_end (b ∷ bs) = elim (last_newline_end bs) [
  | zero ↦ if eqb b b'\n' then 1 else 0
  | suc n ↦ suc (suc n)
]

-- The content up to its last newline.
unfoldable pub committed : Bytes → Bytes
unfolding ends_line last_newline_end
committed content = if ends_line content then content else take (last_newline_end content) content

abbrev pub starts_object : Bytes → Bool
starts_object [] = false
starts_object (b ∷ bs) = eqb b b'{'

abbrev pub is_blank : Bytes → Bool
is_blank [] = true
is_blank (b ∷ bs) = false

module _ (json : Json) (failed : Error) where
  -- The objects of the lines, with blank lines left out; `failed` where a line is something else.
  unfoldable pub objects : List Bytes → Result (List Bytes)
  objects [] = ok []
  objects (raw ∷ lines) =
      let line = json.trim_space raw in
      let rest = objects lines in
      if is_blank line
      then rest
      else if not (json.valid line) || not (starts_object line)
      then err failed
      else rest >>= λ records. ok (line ∷ records)
