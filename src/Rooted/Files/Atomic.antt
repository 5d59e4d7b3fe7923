-- ===== src/Rooted/Files/Atomic.antt =====
-- rooted_files.go: documents published by a rename (writeJSONAtomicLocked), the callback under a
-- lock (WithExclusiveLock), and top-level directories (EnsureDir).
use dalgo2ingitdb.Base.{
  ℕ, String, Bool, true, false, not, Option, none, some, [], ◌∷◌, ◌++◌, eqb, if◌then◌else◌,
}
use Prim.Native.Nat.{◌%◌}
use dalgo2ingitdb.Base.Result.{failure, quoted, wrapped, Result, ok, err}
use dalgo2ingitdb.Disk.Action.{Action, pure, raise, lift, ◌>>=◌, ◌>>◌, wrap_error}
use dalgo2ingitdb.Disk.{Stat, found}
use dalgo2ingitdb.Schema.{Bytes}
use dalgo2ingitdb.Paths.{CleanPath, render}
use dalgo2ingitdb.Rooted.{Json}
use dalgo2ingitdb.Rooted.Log.{wrapping}
use dalgo2ingitdb.Rooted.Scope.{rooted_relative_path}
use dalgo2ingitdb.Rooted.Files.{
  Root, Io, Mkdir, made, exists, create_new, lock_file, mkdir_parent, open_existing, dir_of,
  rooted_temporary_path, sync_dir, has_other_bits, owner_can_enter, closing, with_exclusive_lock,
}

-- Where an action fails, `undo` runs before its error comes back.
abbrev pub on_error {ℓ} : {S : Type ℓ} {A : Type 0} → (S → S) → Action S A → Action S A
on_error undo m s = let (r, s') = m s in elim r [ ok a ↦ (ok a, s') | err e ↦ (err e, undo s') ]

-- A directory as `Lstat` and `Open` show it: whether it is a real directory, and its permissions.
pub record Entry : Type 0 where
  pub real_directory : Bool
  pub mode : ℕ

-- What `ensureTopLevelDir` calls besides: `Lstat`, and `Chmod` on the opened directory, which
-- fails where that is another directory than the one inspected.
pub record Directories (S : Type 0) : Type 0 where
  pub lstat : String → S → Option (Result Entry)
  pub open_directory : String → Action S Entry
  pub chmod : String → ℕ → Action S (Unit {0})
  pub close_directory : String → Action S (Unit {0})

module _ (root : Root) where
  -- A file that could not be written or synced is closed.
  abbrev pub or_close : root.Handle → Io root (Unit {0}) → Io root (Unit {0})
  or_close h m = on_error (λ s. (root.close h s).1) m

  abbrev pub publish : String → CleanPath → Bytes → root.Handle → Io root (Unit {0})
  publish temp path content h = do
    or_close h (wrapping "write JSON temporary file" ((root.ops h).write content))
    or_close h (wrapping "sync JSON temporary file" (root.ops h).sync)
    wrapping "close JSON temporary file" (root.close h)
    wrapping "publish JSON" (root.rename temp (render path))
    sync_dir root (render (dir_of path))

  unfoldable pub write_json_atomic_locked :
      (json : Json) → String → json.Document → ℕ → Io root (Unit {0})
  unfolding rooted_relative_path mkdir_parent rooted_temporary_path
  write_json_atomic_locked json relative_path value mode = do
    path ← lift (rooted_relative_path relative_path)
    content ← lift (wrap_error (wrapped "encode JSON") (json.marshal value))
    mkdir_parent root path
    random ← wrapping "generate temporary JSON file suffix" root.random
    h ←
        wrapping "create JSON temporary file"
          (open_existing root (rooted_temporary_path path random) (create_new mode))
    on_error (root.remove (rooted_temporary_path path random))
        (publish (rooted_temporary_path path random) path (content ++ b'\n' ∷ []) h)

  unfoldable pub write_json_atomic_with_mode :
      (json : Json) → String → json.Document → ℕ → Io root (Unit {0})
  unfolding write_json_atomic_locked
  write_json_atomic_with_mode json relative_path value mode =
      if has_other_bits mode
      then raise (failure "JSON file mode contains non-permission bits")
      else write_json_atomic_locked json relative_path value mode

  -- `readJSON`, with `decode` for `json.Unmarshal`
  unfoldable pub read_json : {A : Type 0} → (Bytes → Result A) → String → Io root A
  unfolding rooted_relative_path
  read_json decode relative_path = do
    path ← lift (rooted_relative_path relative_path)
    content ← wrapping "read JSON" (root.read_file (render path))
    lift (wrap_error (wrapped "decode JSON") (decode content))

  -- A new lock file is synced into its directory; after an error there the file is closed.
  abbrev pub open_lock : CleanPath → Io root root.Handle
  open_lock path = do
    mkdir_parent root path
    created ← λ s. elim (root.stat (render path) s) [
      | found mode ↦ (ok false, s)
      | Stat.missing ↦ (ok true, s)
      | Stat.failed e ↦ (err (wrapped "stat rooted lock" e), s)
    ]
    h ← open_existing root (render path) lock_file
    on_error (λ s. (root.close h s).1)
        ((if created then sync_dir root (render (dir_of path)) else pure tt) >> pure h)

  -- `WithExclusiveLock` with a callback, for a context that is not cancelled while it waits.
  unfoldable pub with_exclusive_lock_file : {A : Type 0} → String → Io root A → Io root A
  unfolding rooted_relative_path mkdir_parent
  with_exclusive_lock_file relative_path callback = do
    path ← lift (rooted_relative_path relative_path)
    h ← wrapping "open rooted exclusive lock" (open_lock path)
    closing root h (with_exclusive_lock root h callback)

  module _ (dirs : Directories root.State) where
    abbrev pub check_entry : Result Entry → Io root (Unit {0})
    check_entry (err e) = raise (wrapped "inspect rooted directory" e)
    check_entry (ok entry) =
        if entry.real_directory
        then pure tt
        else raise (failure "rooted directory must be a real directory")

    abbrev pub entry_of : Option (Result Entry) → Result Entry
    entry_of none = err (failure "file does not exist")
    entry_of (some entry) = entry

    -- Whether this call made the directory.
    abbrev pub make_directory : String → ℕ → Io root Bool
    make_directory path mode s = elim (dirs.lstat path s) [
      | some entry ↦ (check_entry entry >> pure false) s
      | none ↦
          let (outcome, s') = root.mkdir path mode s in
          elim outcome [
            | Mkdir.failed e ↦ (err (wrapped "create rooted directory" e), s')
            | exists ↦ (check_entry (entry_of (dirs.lstat path s')) >> pure false) s'
            | made ↦ (check_entry (entry_of (dirs.lstat path s')) >> pure true) s'
          ]
    ]

    -- Whether the mode was changed; the directory is closed in any case.
    abbrev pub set_mode : String → ℕ → Io root Bool
    set_mode path mode = do
      entry ← wrapping "open rooted directory" (dirs.open_directory path)
      changed ←
          on_error (λ s. (dirs.close_directory path s).1)
            (if eqb (entry.mode % 512) (mode % 512)
              then pure false
              else wrapping "set rooted directory mode" (dirs.chmod path mode) >> pure true)
      wrapping "set rooted directory mode" (dirs.close_directory path)
      pure changed

    unfoldable pub ensure_top_level_dir : String → ℕ → Io root (Unit {0})
    ensure_top_level_dir path mode = do
      created ← make_directory path mode
      changed ← set_mode path mode
      (if created
          then sync_dir root "." >> sync_dir root path
          else if changed
          then sync_dir root path
          else pure tt)

    unfoldable pub ensure_dir : String → ℕ → Io root (Unit {0})
    unfolding rooted_relative_path ensure_top_level_dir
    ensure_dir relative_path mode =
        if has_other_bits mode
        then raise (failure "rooted directory mode contains non-permission bits")
        else if not (owner_can_enter mode)
        then raise (failure "rooted directory mode must include owner read and execute")
        else (lift (rooted_relative_path relative_path) >>= λ path. elim path.elements [
          | [] ↦ ensure_top_level_dir (render path) mode
          | seg ∷ [] ↦ ensure_top_level_dir (render path) mode
          | seg ∷ next ∷ segs ↦
              raise (quoted "rooted directory must be one top-level path segment" relative_path)
        ])
