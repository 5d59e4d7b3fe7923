-- ===== src/Rooted/Log.antt =====
-- rooted_files.go: the recovery, the reading and the extension of one open JSONL stream
-- (recoverJSONLTailWithLimit, readJSONLRecords, and what appendJSONL does under its lock).
use dalgo2ingitdb.Base.{String, List, length, eqb, if◌then◌else◌}
use dalgo2ingitdb.Base.Value.{ℤ, negsuc}
use dalgo2ingitdb.Base.Result.{quoted, wrapped, Result, err}
use dalgo2ingitdb.Disk.Action.{Action, pure, lift, ◌>>=◌, ◌>>◌, map_result, wrap_error}
use dalgo2ingitdb.Schema.{Bytes}
use dalgo2ingitdb.Rooted.{FileOps, Json}
use dalgo2ingitdb.Rooted.Content.{read_jsonl_content}
use dalgo2ingitdb.Rooted.Lines.{split_lines, ends_line, committed, objects}

abbrev pub wrapping {ℓ} : {S : Type ℓ} {A : Type 0} → String → Action S A → Action S A
wrapping message m = map_result (wrap_error (wrapped message)) m

module _ (json : Json) where
  -- The objects of a stream that has no interrupted line.
  unfoldable pub records_of : String → Bytes → Result (List Bytes)
  unfolding ends_line split_lines objects
  records_of path content =
      if ends_line content
      then objects json (quoted "invalid JSONL record" path) (split_lines content)
      else err (quoted "interrupted JSONL tail requires recovery before replay" path)

module _ {S : Type 0} (json : Json) (ops : FileOps S) where
  -- Where the committed lines are in order, the interrupted tail is cut off.
  abbrev pub truncate_tail : Bytes → Action S (Unit {0})
  truncate_tail content =
      if eqb (length (committed content)) (length content)
      then pure tt
      else (wrapping "truncate interrupted JSONL tail" (ops.truncate (length (committed content)))
          >> wrapping "sync recovered JSONL" ops.sync)

  abbrev pub recover_content : String → Bytes → Action S (Unit {0})
  recover_content path content = do
    lift (
        objects json (quoted "invalid committed JSONL record" path)
          (split_lines (committed content)))
    truncate_tail content
    wrapping "seek JSONL for append" ops.seek_end

  unfoldable pub recover_jsonl_tail_with_limit : String → ℤ → Action S (Unit {0})
  unfolding read_jsonl_content committed split_lines objects
  recover_jsonl_tail_with_limit path max_bytes = do
    wrapping "seek JSONL for recovery" ops.seek_start
    content ← wrapping "read JSONL for recovery" (read_jsonl_content ops max_bytes)
    recover_content path content

  unfoldable pub recover_jsonl_tail : String → Action S (Unit {0})
  unfolding recover_jsonl_tail_with_limit
  recover_jsonl_tail path = recover_jsonl_tail_with_limit path (negsuc 0)

  unfoldable pub read_jsonl_records : String → ℤ → Action S (List Bytes)
  unfolding read_jsonl_content records_of
  read_jsonl_records path max_bytes = do
    wrapping "seek JSONL for read" ops.seek_start
    content ← wrapping "read JSONL" (read_jsonl_content ops max_bytes)
    lift (records_of json path content)

  -- What `appendJSONL` does under the lock: `line` ends with the newline that commits it.
  unfoldable pub append_line : String → Bytes → Action S (Unit {0}) → Action S (Unit {0})
  unfolding recover_jsonl_tail
  append_line path line sync_parent = do
    recover_jsonl_tail path
    wrapping "append JSONL" (ops.write line)
    wrapping "sync JSONL" ops.sync
    sync_parent

  -- What `recoverAndReadJSONL` does under the lock.
  unfoldable pub recover_and_read : String → ℤ → Action S (List Bytes)
  unfolding recover_jsonl_tail_with_limit read_jsonl_records
  recover_and_read path max_bytes = do
    recover_jsonl_tail_with_limit path max_bytes
    read_jsonl_records path max_bytes
