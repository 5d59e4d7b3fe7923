-- ===== src/Rooted/Content.antt =====
-- rooted_files.go, readJSONLContent and its helpers: reading a file into a buffer that never
-- outgrows a limit.
use dalgo2ingitdb.Base.{
  ℕ, suc, zero, ◌+◌, ◌-◌, Bool, false, Option, none, some, [], ◌∷◌, ◌++◌, length, ltb, eqb,
  if◌then◌else◌,
}
use dalgo2ingitdb.Base.Value.{ℤ, pos, negsuc}
use dalgo2ingitdb.Base.Result.{external, failure, Result, ok, err}
use dalgo2ingitdb.Schema.{Bytes}
use dalgo2ingitdb.Rooted.{eof, other, Outcome, negative, read, FileOps}

-- `int64(^uint(0) >> 1)` where an int has 64 bits
abbrev pub max_int : ℕ
max_int = 9223372036854775807

-- The limit and the largest int are at least 0 where the tests on the sign pass.
unfoldable pub rooted_jsonl_buffer_size_with_max : ℤ → ℤ → Result ℕ
rooted_jsonl_buffer_size_with_max (pos (suc n)) (pos (suc max)) =
    if ltb (suc max) (suc n) then err (failure "JSONL maximum bytes is invalid") else ok (suc n)
rooted_jsonl_buffer_size_with_max max_bytes max = err (failure "JSONL maximum bytes is invalid")

unfoldable pub rooted_jsonl_buffer_size : ℤ → Result ℕ
unfolding rooted_jsonl_buffer_size_with_max
rooted_jsonl_buffer_size max_bytes = rooted_jsonl_buffer_size_with_max max_bytes (pos max_int)

abbrev pub rooted_jsonl_initial_read_capacity : ℕ
rooted_jsonl_initial_read_capacity = 4096

unfoldable pub min_rooted_jsonl_read_capacity : ℕ → ℕ
min_rooted_jsonl_read_capacity max_capacity =
    if ltb max_capacity rooted_jsonl_initial_read_capacity
    then max_capacity
    else rooted_jsonl_initial_read_capacity

-- The capacity of the buffer that `growRootedJSONLBuffer` copies the content to.
unfoldable pub grow_rooted_jsonl_buffer : ℕ → ℕ → ℕ
grow_rooted_jsonl_buffer current max_capacity =
    if ltb (max_capacity - current) current
    then current + (max_capacity - current)
    else current + current

-- An error from a `Read` that is not the end of the file stops the reading.
abbrev pub after_probe : Bytes → Outcome → Result Bytes
after_probe content negative = err (failure "invalid JSONL reader byte count")
after_probe content (read [] none) = err (external "io.ErrNoProgress")
after_probe content (read [] (some eof)) = ok content
after_probe content (read [] (some (other e))) = err e
after_probe content (read (b ∷ []) failed) = err (failure "JSONL exceeds configured maximum bytes")
after_probe content (read (b ∷ c ∷ bs) failed) = err (failure "invalid JSONL reader byte count")

-- The capacity for the next read: the buffer grows when it is full.
abbrev pub next_capacity : ℕ → Bytes → ℕ → ℕ
next_capacity max_capacity content capacity =
    if eqb (length content) capacity
    then grow_rooted_jsonl_buffer capacity max_capacity
    else capacity

abbrev pub is_full : ℕ → Bytes → ℕ → Bool
is_full max_capacity content capacity =
    if eqb (length content) capacity then eqb capacity max_capacity else false

-- What one read does to the content: the loop ends, or goes on with more of it.
pub data Progress : Type 0 where
  finished : Result Bytes → Progress
  more : Bytes → Progress

unfoldable pub after_read : ℕ → Bytes → Outcome → Progress
after_read available content negative = finished (err (failure "invalid JSONL reader byte count"))
after_read available content (read bs (some eof)) =
    if ltb available (length bs)
    then finished (err (failure "invalid JSONL reader byte count"))
    else finished (ok (content ++ bs))
after_read available content (read bs (some (other e))) =
    if ltb available (length bs)
    then finished (err (failure "invalid JSONL reader byte count"))
    else finished (err e)
after_read available content (read [] none) = finished (err (external "io.ErrNoProgress"))
after_read available content (read (b ∷ bs) none) =
    if ltb available (suc (length bs))
    then finished (err (failure "invalid JSONL reader byte count"))
    else more (content ++ b ∷ bs)

module _ {S : Type 0} (ops : FileOps S) where
  unfoldable pub probe_rooted_jsonl_overflow : Bytes → S → Result Bytes × S
  probe_rooted_jsonl_overflow content s =
      let (outcome, s') = ops.read_some 1 s in (after_probe content outcome, s')

  -- The loop of `readJSONLContent`; without fuel there is no result.
  unfoldable pub read_loop : ℕ → ℕ → ℕ → Bytes → S → Option (Result Bytes × S)
  unfolding probe_rooted_jsonl_overflow after_read grow_rooted_jsonl_buffer
  read_loop zero max_capacity capacity content s = none
  read_loop (suc fuel) max_capacity capacity content s =
      if is_full max_capacity content capacity
      then some (probe_rooted_jsonl_overflow content s)
      else (let grown = next_capacity max_capacity content capacity in
          let (outcome, s') = ops.read_some (grown - length content) s in
          elim (after_read (grown - length content) content outcome) [
            | finished r ↦ some (r, s')
            | more content' ↦ read_loop fuel max_capacity grown content' s'
          ])

  -- `readJSONLContent`: each turn but the last one reads a byte at least, so the limit bounds them.
  unfoldable pub read_jsonl_content : ℤ → S → Result Bytes × S
  unfolding rooted_jsonl_buffer_size min_rooted_jsonl_read_capacity read_loop
  read_jsonl_content (negsuc n) s = ops.read_all s
  read_jsonl_content (pos n) s = elim (rooted_jsonl_buffer_size (pos n)) [
    | err e ↦ (err e, s)
    | ok max_capacity ↦
        elim (read_loop (suc max_capacity) max_capacity
          (min_rooted_jsonl_read_capacity max_capacity) [] s) [
            | none ↦ (err (failure "the reading ran out of turns"), s)
            | some end ↦ end
          ]
  ]
