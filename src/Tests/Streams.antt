-- ===== src/Tests/Streams.antt =====
-- A JSONL stream in memory, and the theorems on rooted_files.go applied to it.
use mathlib.Core.List.{append-nil, append_assoc}
use dalgo2ingitdb.Base.{
  ℕ, ◌+◌, ◌⊎◌, ◌≤◌, ◌<◌, ◌≡◌, refl, sym, ap, ◌∙◌, inr, true, false, none, some, [], ◌∷◌, ◌++◌,
  length, take, drop, arith, All,
}
use dalgo2ingitdb.Base.Value.{pos, negsuc}
use dalgo2ingitdb.Base.Result.{failure, Result, ok, err}
use dalgo2ingitdb.Disk.Action.{pure, lift, ◌>>=◌}
use dalgo2ingitdb.Schema.{Bytes}
use dalgo2ingitdb.Rooted.{eof, Outcome, read, FileOps, Json}
use dalgo2ingitdb.Rooted.Content.{
  read_jsonl_content, read_loop, min_rooted_jsonl_read_capacity, rooted_jsonl_buffer_size,
  rooted_jsonl_buffer_size_with_max, grow_rooted_jsonl_buffer, after_read,
  probe_rooted_jsonl_overflow,
}
use dalgo2ingitdb.Rooted.Limits.{read_loop_ends, read_jsonl_content_bound}
use dalgo2ingitdb.Rooted.Delivery.{
  IsReader, Delivers, some_bytes, last_bytes, read_jsonl_content-limited,
}
use dalgo2ingitdb.Rooted.Lines.{
  starts_object, split_lines, committed, objects, ends_line, last_newline_end,
}
use dalgo2ingitdb.Rooted.Log.{
  read_jsonl_records, records_of, append_line, recover_jsonl_tail, recover_and_read,
  recover_jsonl_tail_with_limit,
}
use dalgo2ingitdb.Rooted.File.{IsFile}
use dalgo2ingitdb.Paths.{CleanPath, clean, clean_elements, split_slash}
use dalgo2ingitdb.Rooted.Scope.{rooted_relative_path}
use dalgo2ingitdb.Rooted.Scope.Inside.{IsDown, rooted_relative_path-IsDown}
use dalgo2ingitdb.Rooted.Lifecycle.{
  Lifecycle, opened, root_handle, begin_operation, broadcast, end_operation, drain_or_wait,
  start_closing, Advance, ends, begins, closes, Reach, here, next, Draining, start, onward,
}
use dalgo2ingitdb.Rooted.Lifecycle.Safety.{operation_open, close_progress, moves_left, IsReleased}
use dalgo2ingitdb.Rooted.Durability.{HasLog, log_of, line_of, IsRecord}
use dalgo2ingitdb.Rooted.Replay.{append_line_ok, append_line_atomic, recover_and_read_ok}

-- The bytes before the position and those behind it.
record Memory : Type 0 where
  passed : Bytes
  rest : Bytes

abbrev held : Memory → Bytes
held m = m.passed ++ m.rest

-- One byte at a time.
abbrev read_next : Bytes → Bytes → Outcome × Memory
read_next passed [] = (read [] (some eof), record { passed = passed; rest = [] })
read_next passed (b ∷ bs) = (read (b ∷ []) none, record { passed = passed ++ b ∷ []; rest = bs })

abbrev memory : FileOps Memory
memory = record {
  read_some = λ n m. read_next m.passed m.rest;
  read_all = λ m. (ok m.rest, record { passed = held m; rest = [] });
  seek_start = λ m. (ok tt, record { passed = []; rest = held m });
  seek_end = λ m. (ok tt, record { passed = held m; rest = [] });
  truncate = λ n m. (ok tt, record { passed = []; rest = take n (held m) });
  write = λ b m. (ok tt, record { passed = held m ++ b; rest = [] });
  sync = λ m. (ok tt, m);
}

drop-append : (xs ys : Bytes) → drop (length xs) (xs ++ ys) ≡ ys
drop-append [] ys = refl
drop-append (x ∷ xs) ys = drop-append xs ys

take_whole : (c : Bytes) → take (length c) c ≡ c
take_whole [] = refl
take_whole (b ∷ c) = ap (◌∷◌ b) (take_whole c)

unread : (m : Memory) → drop (length m.passed) (held m) ≡ m.rest
unread m = drop-append m.passed m.rest

next-Delivers :
    (room : ℕ) (passed rest : Bytes)
    → 0 < room
    → Delivers room
        (drop (length passed) (passed ++ rest))
        (read_next passed rest).0
        (drop (length (read_next passed rest).1.passed) (held (read_next passed rest).1))
next-Delivers room passed [] h = last_bytes [] (omega arith) (drop-append passed []) refl
next-Delivers room passed (b ∷ bs) h =
    some_bytes b [] (omega arith)
      (drop-append passed (b ∷ bs) ∙ ap (◌∷◌ b) (sym (drop-append (passed ++ b ∷ []) bs))) refl

next-held : (passed rest : Bytes) → held (read_next passed rest).1 ≡ passed ++ rest
next-held passed [] = refl
next-held passed (b ∷ bs) = append_assoc passed (b ∷ []) bs

memory-IsReader : IsReader memory (λ m. drop (length m.passed) (held m))
memory-IsReader = record { delivers = λ room m h. next-Delivers room m.passed m.rest h }

memory-IsFile : IsFile memory held (λ m. length m.passed)
memory-IsFile = record {
  seek_start-ok = λ m h. refl;
  seek_start-content = λ m. refl;
  seek_end-content = λ m. append-nil (held m);
  sync-content = λ m. refl;
  read_all-ok = λ m c h. let same : m.rest ≡ c = cc h in sym same ∙ sym (unread m);
  read_all-content = λ m. append-nil (held m);
  reads = memory-IsReader;
  read_some-content = λ n m. next-held m.passed m.rest;
  truncate-ok = λ n m h. refl;
  truncate-content = λ n m. inr refl;
  write-ok = λ b m h. append-nil (held m ++ b);
  write-content =
      λ b m. (length b, append-nil (held m ++ b) ∙ ap (λ c. held m ++ c) (sym (take_whole b)));
}

-- Objects are taken for valid, and nothing is trimmed.
abbrev plain_json : Json
plain_json = record { Document = Bytes; marshal = ok; valid = starts_object; trim_space = λ b. b }

-- The record `{}`.
abbrev empty_object : Bytes
empty_object = b'{' ∷ b'}' ∷ []

empty_object-IsRecord : IsRecord plain_json empty_object
empty_object-IsRecord = record {
  one_line = (refl, (refl, tt));
  trimmed = refl;
  valid = refl;
  object = refl;
}

-- One record, and an interrupted one behind it.
abbrev interrupted : Memory
interrupted = record { passed = []; rest = b'{' ∷ b'}' ∷ b'\n' ∷ b'{' ∷ [] }

log_of-interrupted_test : log_of plain_json (held interrupted) ≡ ok (empty_object ∷ [])
unfolding log_of committed ends_line last_newline_end split_lines objects
log_of-interrupted_test = refl

append_line_test :
    held (append_line plain_json memory "log" (line_of empty_object) (pure tt) interrupted).1
    ≡ b'{' ∷ b'}' ∷ b'\n' ∷ b'{' ∷ b'}' ∷ b'\n' ∷ []
unfolding append_line recover_jsonl_tail recover_jsonl_tail_with_limit read_jsonl_content committed
    split_lines objects ends_line last_newline_end pure ◌>>=◌ lift
append_line_test = refl

append_line_ok_example :
    log_of plain_json
      (held (append_line plain_json memory "log" (line_of empty_object) (pure tt) interrupted).1)
    ≡ ok (empty_object ∷ empty_object ∷ [])
unfolding log_of append_line recover_jsonl_tail recover_jsonl_tail_with_limit read_jsonl_content
    committed split_lines objects ends_line last_newline_end pure ◌>>=◌ lift
append_line_ok_example =
    append_line_ok plain_json memory held (λ m. length m.passed) memory-IsFile "log" (pure tt)
      (λ m. refl) empty_object (empty_object ∷ []) interrupted refl empty_object-IsRecord refl refl

append_line_atomic_example :
    HasLog plain_json
      (empty_object ∷ [])
      empty_object
      (held (append_line plain_json memory "log" (line_of empty_object) (pure tt) interrupted).1)
unfolding log_of committed split_lines objects ends_line last_newline_end pure
append_line_atomic_example =
    append_line_atomic plain_json memory held (λ m. length m.passed) memory-IsFile "log" (pure tt)
      (λ m. refl) empty_object (empty_object ∷ []) interrupted refl empty_object-IsRecord refl

recover_and_read_ok_example : log_of plain_json (held interrupted) ≡ ok (empty_object ∷ [])
unfolding recover_and_read recover_jsonl_tail_with_limit read_jsonl_records records_of
    read_jsonl_content committed split_lines objects ends_line last_newline_end pure ◌>>=◌ lift
recover_and_read_ok_example =
    recover_and_read_ok plain_json memory held (λ m. length m.passed) memory-IsFile "log" (negsuc 0)
      interrupted (empty_object ∷ []) refl

read_loop_ends_example :
    (end : Result Bytes × Memory) × (read_loop memory 4 3
        (min_rooted_jsonl_read_capacity 3)
        []
        interrupted
      ≡ some end)
read_loop_ends_example = read_loop_ends memory 3 interrupted (omega arith)

read_jsonl_content_bound_example : length (held interrupted) ≤ 4
unfolding read_jsonl_content rooted_jsonl_buffer_size rooted_jsonl_buffer_size_with_max
    min_rooted_jsonl_read_capacity read_loop grow_rooted_jsonl_buffer after_read
    probe_rooted_jsonl_overflow
read_jsonl_content_bound_example =
    read_jsonl_content_bound memory 4 interrupted (held interrupted) refl

read_jsonl_content-limited_example :
    (read_jsonl_content memory (pos 3) interrupted).0
    ≡ err (failure "JSONL exceeds configured maximum bytes")
read_jsonl_content-limited_example =
    read_jsonl_content-limited memory (λ m. drop (length m.passed) (held m)) memory-IsReader 3
      interrupted (omega arith) (omega arith)

-- An operation began, and then `Close`.
abbrev closing_state : Lifecycle
closing_state = record {
  closing = true;
  closed = false;
  operations = 1;
  views = 0;
  root_open = true;
  waiting = 1;
  woken = 0;
  drained = 0;
}

closing_reached : Reach opened closing_state
unfolding begin_operation start_closing drain_or_wait
closing_reached = next (next here (begins refl)) (closes refl)

operation_open_example : (root_handle closing_state ≡ ok tt) × (closing_state.closed ≡ false)
operation_open_example = operation_open closing_state closing_reached (omega arith)

-- The operation ended, which woke `Close`.
abbrev woken_state : Lifecycle
woken_state = record closing_state { operations = 0; waiting = 0; woken = 1 }

ended_run : Draining closing_state 1 woken_state
unfolding end_operation broadcast
ended_run = onward start (ends (omega arith) refl)

close_progress_example :
    (1 + moves_left woken_state ≤ moves_left closing_state)
    × (((u : Lifecycle) × Advance woken_state u) ⊎ IsReleased woken_state)
    × (begin_operation woken_state ≡ (err (failure "rooted files is closed"), woken_state))
close_progress_example = close_progress closing_state woken_state 1 closing_reached refl ended_run

events : CleanPath
events = record { rooted = false; elements = "events" ∷ "a.jsonl" ∷ [] }

rooted_relative_path-IsDown_example :
    (events ≡ clean "events/./a.jsonl") × (events.rooted ≡ false) × All IsDown events.elements
unfolding events rooted_relative_path clean clean_elements split_slash
rooted_relative_path-IsDown_example = rooted_relative_path-IsDown "events/./a.jsonl" events refl
