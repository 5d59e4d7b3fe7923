-- ===== src/Rooted/Files.antt =====
-- rooted_files.go, with the file locks of rooted_files_unix.go: the operations on JSONL streams below
-- the opened root. An operation holds a lease, so it finds the root open (Lifecycle/Safety).
pub mod Atomic
use dalgo2ingitdb.Base.{
  ℕ, zero, suc, ◌-◌, String, ◌<>◌, Bool, true, false, not, ◌||◌, ◌&&◌, Option, none, some, List, [],
  ◌∷◌, ◌++◌, ◌==◌, length, eqb, leb, drop, if◌then◌else◌,
}
use Prim.Native.Nat.{◌/◌, ◌%◌}
use dalgo2ingitdb.Base.Value.{ℤ, pos, negsuc}
use dalgo2ingitdb.Base.Result.{Error, failure, quoted, wrapped, Result, ok, err, is_ok}
use dalgo2ingitdb.Disk.Action.{Action, pure, raise, lift, ◌>>=◌, ◌>>◌, map_result, wrap_error}
use dalgo2ingitdb.Disk.{Stat, found}
use dalgo2ingitdb.Schema.{Bytes}
use dalgo2ingitdb.Paths.{CleanPath, render, split_slash}
use dalgo2ingitdb.Paths as Paths
use dalgo2ingitdb.RecordIo.{drop_last}
use dalgo2ingitdb.Rooted.{FileOps, Json}
use dalgo2ingitdb.Rooted.Content.{rooted_jsonl_buffer_size}
use dalgo2ingitdb.Rooted.Lines.{starts_object}
use dalgo2ingitdb.Rooted.Log.{wrapping, append_line, read_jsonl_records, recover_and_read}
use dalgo2ingitdb.Rooted.Scope.{rooted_relative_path}
use dalgo2ingitdb.Rooted.Lifecycle.{Lifecycle, begin_operation, end_operation}

-- `Mkdir`: made, `fs.ErrExist`, or another error
pub data Mkdir : Type 0 where
  made : Mkdir
  exists : Mkdir
  failed : Error → Mkdir

-- `OpenFile`: a file, `fs.ErrNotExist`, or another error
pub data Opened (H : Type 0) : Type 0 where
  file : H → Opened H
  not_there : Opened H
  failed : Error → Opened H

-- The flags of `OpenFile` that this program combines.
pub data OpenMode : Type 0 where
  read_only : OpenMode
  read_write : OpenMode
  append_or_create : OpenMode
  create_new : ℕ → OpenMode
  lock_file : OpenMode

-- `os.Root`, the files opened in it, their locks, and `syncRootDirectory`.
pub record Root : Type 1 where
  pub State : Type 0
  pub Handle : Type 0
  pub ops : Handle → FileOps State
  pub mkdir : String → ℕ → State → Mkdir × State
  pub stat : String → State → Stat
  pub open_file : String → OpenMode → State → Opened Handle × State
  pub sync_directory : String → Action State (Unit {0})
  pub flock_shared : Handle → Action State (Unit {0})
  pub flock_exclusive : Handle → Action State (Unit {0})
  pub unlock : Handle → State → State
  pub close : Handle → Action State (Unit {0})
  pub read_file : String → Action State Bytes
  pub rename : String → String → Action State (Unit {0})
  pub remove : String → State → State
  -- 12 bytes of `crypto/rand`
  pub random : Action State Bytes

-- `defer`
abbrev pub finally {ℓ} : {S : Type ℓ} {A : Type 0} → Action S A → (S → S) → Action S A
finally m last s = let (r, s') = m s in (r, last s')

-- A lease on the capability around an operation.
unfoldable pub with_lease {ℓ} :
    {S : Type ℓ} {A : Type 0} → Lifecycle → Action S A → S → (Result A × S) × Lifecycle
unfolding begin_operation end_operation
with_lease f m s =
    let (lease, f') = begin_operation f in
    elim lease [ err e ↦ ((err e, s), f') | ok _ ↦ (m s, end_operation f') ]

-- A method of `lockedFiles`.
unfoldable pub while_active {ℓ} : {S : Type ℓ} {A : Type 0} → Bool → Action S A → Action S A
while_active active m = if active then m else raise (failure "rooted files lock callback has ended")

abbrev pub dir_of : CleanPath → CleanPath
dir_of path = record path { elements = drop_last path.elements }

abbrev pub base_of : List String → String
base_of [] = "."
base_of (s ∷ []) = s
base_of (s ∷ t ∷ ss) = base_of (t ∷ ss)

abbrev pub hex_digits : List String
hex_digits =
    "0" ∷ "1" ∷ "2" ∷ "3" ∷ "4" ∷ "5" ∷ "6" ∷ "7" ∷ "8" ∷ "9" ∷ "a" ∷ "b" ∷ "c" ∷ "d" ∷ "e" ∷ "f"
    ∷ []

abbrev pub hex_digit : List String → String
hex_digit [] = ""
hex_digit (d ∷ ds) = d

-- `hex.EncodeToString`
unfoldable pub hex : Bytes → String
hex [] = ""
hex (b ∷ bs) =
    hex_digit (drop (b / 16) hex_digits) <> hex_digit (drop (b % 16) hex_digits) <> hex bs

-- `rooted_temporary_path`, of the random bytes
unfoldable pub rooted_temporary_path : CleanPath → Bytes → String
unfolding hex
rooted_temporary_path path random =
    Paths.join (render (dir_of path) ∷ ("." <> base_of path.elements <> ".tmp-" <> hex random) ∷ [])

-- `mode &^ os.FileMode(0o777) != 0`
abbrev pub has_other_bits : ℕ → Bool
has_other_bits mode = leb 512 mode

-- `mode.Perm() & 0o500 == 0o500`
abbrev pub owner_can_enter : ℕ → Bool
owner_can_enter mode = eqb (mode / 256 % 2) 1 && eqb (mode / 64 % 2) 1

module _ (root : Root) where
  abbrev pub Io : Type 0 → Type 0
  Io A = Action root.State A

  abbrev pub sync_dir : String → Io (Unit {0})
  sync_dir path = wrapping "sync JSON directory" (root.sync_directory path)

  abbrev pub after_mkdir : Mkdir → String → String → Io (Unit {0})
  after_mkdir exists parent current = pure tt
  after_mkdir (Mkdir.failed e) parent current = raise (wrapped "create rooted directory" e)
  after_mkdir made parent current =
      sync_dir (if parent == "" then "." else parent) >> sync_dir current

  abbrev pub child : String → String → String
  child parent segment = if parent == "" then segment else Paths.join (parent ∷ segment ∷ [])

  unfoldable pub mkdir_chain : String → List String → Io (Unit {0})
  unfolding Paths.join
  mkdir_chain parent [] = pure tt
  mkdir_chain parent (segment ∷ segments) =
      (λ s.
        let (outcome, s') = root.mkdir (child parent segment) 0o755 s in
        after_mkdir outcome parent (child parent segment) s')
      >> mkdir_chain (child parent segment) segments

  unfoldable pub mkdir_parent : CleanPath → Io (Unit {0})
  unfolding mkdir_chain
  mkdir_parent path = mkdir_chain "" (drop_last path.elements)

  abbrev pub handle_of : Opened root.Handle → Io root.Handle
  handle_of (file h) = pure h
  handle_of not_there = raise (failure "file does not exist")
  handle_of (Opened.failed e) = raise e

  abbrev pub open_existing : String → OpenMode → Io root.Handle
  open_existing path mode s = let (opened, s') = root.open_file path mode s in handle_of opened s'

  -- Another writer may be between two links of the directory chain.
  abbrev pub after_open : Opened root.Handle → Io root.Handle → Io root.Handle
  after_open (file h) again = pure h
  after_open not_there again = again
  after_open (Opened.failed e) again = raise e

  abbrev pub check_stat : Stat → Io (Unit {0})
  check_stat (found mode) = pure tt
  check_stat Stat.missing = pure tt
  check_stat (Stat.failed e) = raise (wrapped "stat" e)

  unfoldable pub open_jsonl_append_file : ℕ → CleanPath → Io root.Handle
  unfolding mkdir_parent
  open_jsonl_append_file zero path =
      raise (failure "directory chain remained unavailable after concurrent rooted setup")
  open_jsonl_append_file (suc attempts) path =
      let again = open_jsonl_append_file attempts path in
      mkdir_parent path
      >> ((λ s. check_stat (root.stat (render path) s) s) >> λ s.
          let (opened, s') = root.open_file (render path) append_or_create s in
          after_open opened again s')

  abbrev pub with_shared_lock : {A : Type 0} → root.Handle → Io A → Io A
  with_shared_lock h fn =
      wrapping "acquire rooted shared file lock" (root.flock_shared h) >> finally fn (root.unlock h)

  abbrev pub with_exclusive_lock : {A : Type 0} → root.Handle → Io A → Io A
  with_exclusive_lock h fn =
      wrapping "acquire rooted exclusive file lock" (root.flock_exclusive h)
      >> finally fn (root.unlock h)

  -- `defer close(file)`, with its error dropped
  abbrev pub closing : {A : Type 0} → root.Handle → Io A → Io A
  closing h m = finally m λ s. (root.close h s).1

  abbrev pub is_record : Bytes → Io (Unit {0})
  is_record content =
      if starts_object content
      then pure tt
      else raise (failure "JSONL record must be a JSON object")

  unfoldable pub append_jsonl : (json : Json) → String → json.Document → Io (Unit {0})
  unfolding rooted_relative_path open_jsonl_append_file append_line
  append_jsonl json relative_path value = do
    path ← lift (rooted_relative_path relative_path)
    content ← lift (wrap_error (wrapped "encode JSONL record") (json.marshal value))
    is_record content
    h ← wrapping "open JSONL append" (open_jsonl_append_file 3 path)
    closing h (
        with_exclusive_lock h (
          append_line json (root.ops h) (render path) (content ++ b'\n' ∷ [])
            (sync_dir (render (dir_of path)))))

  unfoldable pub read_jsonl : Json → String → ℤ → Io (List Bytes)
  unfolding rooted_relative_path read_jsonl_records
  read_jsonl json relative_path max_bytes = do
    path ← lift (rooted_relative_path relative_path)
    h ← wrapping "open JSONL read" (open_existing (render path) read_only)
    closing h (with_shared_lock h (read_jsonl_records json (root.ops h) (render path) max_bytes))

  -- `maxBytes == 0 || maxBytes < -1`, and otherwise the limit where there is one
  abbrev pub check_limit : ℤ → Result (Unit {0})
  check_limit (negsuc zero) = ok tt
  check_limit (negsuc (suc n)) = err (failure "JSONL maximum bytes is invalid")
  check_limit (pos n) = elim (rooted_jsonl_buffer_size (pos n)) [ err e ↦ err e | ok size ↦ ok tt ]

  unfoldable pub recover_and_read_jsonl : Json → String → ℤ → Io (List Bytes)
  unfolding rooted_jsonl_buffer_size rooted_relative_path recover_and_read
  recover_and_read_jsonl json relative_path max_bytes = do
    lift (check_limit max_bytes)
    path ← lift (rooted_relative_path relative_path)
    h ← wrapping "open JSONL recovery read" (open_existing (render path) read_write)
    closing h (with_exclusive_lock h (recover_and_read json (root.ops h) (render path) max_bytes))
