-- ===== src/Rooted.antt =====
-- rooted_files.go: raw files below one authorized directory, among them append-only JSONL streams.
pub mod Content
pub mod Limits
pub mod Delivery
pub mod Lines
pub mod Committed
pub mod Log
pub mod File
pub mod Durability
pub mod Recovery
pub mod Replay
pub mod Scope
pub mod Files
pub mod Lifecycle
use dalgo2ingitdb.Base.{ℕ, String, Bool, Option}
use dalgo2ingitdb.Base.Result.{Error, Result}
use dalgo2ingitdb.Schema.{Bytes}
use dalgo2ingitdb.Disk.Action.{Action}

-- An error of `Read`: `io.EOF`, found by `errors.Is`, or another one
pub data ReadError : Type 0 where
  eof : ReadError
  other : Error → ReadError

-- What `Read` returns: the bytes that it counts as read, with an error or nil. Its count may be
-- larger than the buffer, or negative.
pub data Outcome : Type 0 where
  negative : Outcome
  read : Bytes → Option ReadError → Outcome

-- `rootedFileOps` on one open file, for the functions of that record that change a file. `S` is the
-- state of the file system. Each gives the state that it leaves, also where it fails.
pub record FileOps (S : Type 0) : Type 0 where
  pub read_some : ℕ → S → Outcome × S
  pub read_all : Action S Bytes
  pub seek_start : Action S (Unit {0})
  pub seek_end : Action S (Unit {0})
  pub truncate : ℕ → Action S (Unit {0})
  pub write : Bytes → Action S (Unit {0})
  pub sync : Action S (Unit {0})

-- `encoding/json` and `bytes.TrimSpace`, which the streams depend on.
pub record Json : Type 1 where
  -- the type of the values that `Marshal` takes
  pub Document : Type 0
  pub marshal : Document → Result Bytes
  pub valid : Bytes → Bool
  pub trim_space : Bytes → Bytes
