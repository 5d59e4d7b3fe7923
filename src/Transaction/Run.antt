-- ===== src/Transaction/Run.antt =====
-- database.go, lines 402 to 426, and restoreSnapshots of git_commit.go: a whole transaction, and
-- its rollback.
use dalgo2ingitdb.Base.{
  String, ◌==◌, Bool, true, false, ◌||◌, Option, none, some, List, [], ◌∷◌, if◌then◌else◌,
}
use dalgo2ingitdb.Base.Dict.{lookup, keys}
use dalgo2ingitdb.Base.Sort.{sort_strings}
use dalgo2ingitdb.Base.Value.{Fields}
use dalgo2ingitdb.Base.Result.{Error, wrapped, Result, ok, err}
use dalgo2ingitdb.Schema.{Definition}
use dalgo2ingitdb.Deps.{Deps}
use dalgo2ingitdb.Records.{Key}
use dalgo2ingitdb.Disk.{Os}
use dalgo2ingitdb.Disk.Action.{pure, ◌>>=◌, ◌>>◌, map_result, wrap_error}
use dalgo2ingitdb.RecordIo.{Io, dir, removal_result}
use dalgo2ingitdb.Updates.{Update}
use dalgo2ingitdb.Reading.{get_record, record_exists}
use dalgo2ingitdb.Git.{Git, git_commit_paths}
use dalgo2ingitdb.Transaction.{FileSnapshot, Snapshots, TxState, Tx, on_disk}
use dalgo2ingitdb.Transaction.Operations.{
  set_record, insert_record, delete_record, update_stored, update_record,
}

module _ (os : Os) where
  abbrev pub remove_created : String → Io os (Unit {0})
  remove_created path s = let (r, s') = os.remove path s in (removal_result r, s')

  -- `mode.Perm()` is the mode modulo 0o1000.
  abbrev pub restore_one : String → Option FileSnapshot → Io os (Unit {0})
  restore_one path none =
      map_result (wrap_error (wrapped "remove created path")) (remove_created path)
  restore_one path (some snap) = do
    map_result (wrap_error (wrapped "create rollback parent")) (os.mkdir_all (dir path))
    map_result (wrap_error (wrapped "restore"))
        (os.write_file path snap.contents (Prim.Native.Nat.◌%◌ snap.mode 0o1000))

  -- A missing key has the zero snapshot, of a file that was not there.
  abbrev pub snapshot_of : String → Snapshots → Option FileSnapshot
  snapshot_of path snaps = elim (lookup path snaps) [ none ↦ none | some snap ↦ snap ]

  unfoldable pub restore_paths : Snapshots → List String → Io os (Unit {0})
  unfolding lookup
  restore_paths snaps [] = pure tt
  restore_paths snaps (path ∷ paths) =
      restore_one path (snapshot_of path snaps) >> restore_paths snaps paths

  unfoldable pub restore_snapshots : Snapshots → Io os (Unit {0})
  unfolding restore_paths sort_strings keys
  restore_snapshots snaps = restore_paths snaps (sort_strings (keys snaps))

-- The record operations that a worker calls on its transaction, and what they return. A query within
-- the transaction is no call here.
pub data Call : Type 0 where
  get exists : Option Key → Call
  set insert : Option Key → Fields → Call
  delete : Option Key → Call
  update : Option Key → List Update → Call
  -- whether the record's data is a map, and its map
  update_held : Option Key → Bool → Fields → List Update → Call

pub data Reply : Type 0 where
  fields : Fields → Reply
  answer : Bool → Reply
  done : Reply

-- A worker decides by the results so far what it calls next, and returns an error or none. The
-- multi-record operations are workers that stop at the first error.
pub data Worker : Type 0 where
  finish : Worker
  fail : Error → Worker
  call : Call → (Result Reply → Worker) → Worker

module _ (d : Deps) (stored_only : Bool) (now : String) (def : Definition) where
  abbrev pub replying : Tx d.os (Unit {0}) → Tx d.os Reply
  replying m = do m; pure Reply.done

  unfoldable pub perform : Call → Tx d.os Reply
  unfolding get_record record_exists set_record insert_record delete_record update_stored
      update_record on_disk
  perform (get key) = do
    data' ← on_disk d.os (get_record d stored_only (some def) key)
    pure (fields data')
  perform (exists key) = do
    found ← on_disk d.os (record_exists d stored_only (some def) key)
    pure (answer found)
  perform (set key data') = replying (set_record d def key data')
  perform (insert key data') = replying (insert_record d def key data')
  perform (delete key) = replying (delete_record d def key)
  perform (update key updates) = replying (update_stored d stored_only now def key updates)
  perform (update_held key is_map data' updates) =
      replying (update_record d now def key is_map data' updates)

  unfoldable pub run_worker : Worker → Tx d.os (Unit {0})
  unfolding perform
  run_worker finish s = (ok tt, s)
  run_worker (fail e) s = (err e, s)
  run_worker (call c next) s = let (r, s') = perform c s in run_worker (next r) s'

-- `rolled_back e` was followed by the restoration of every file; `broken e` by a failed one.
pub data Outcome : Type 0 where
  committed : Outcome
  rolled_back : Error → Outcome
  broken : Error → Error → Outcome

module _ (d : Deps) (git : Git d.os) (stored_only : Bool) (now : String) where
  abbrev pub outcome_of : Error → Result (Unit {0}) → Outcome
  outcome_of e (ok u) = rolled_back e
  outcome_of e (err f) = broken e f

  unfoldable pub roll_back : Error → Snapshots → d.os.State → Outcome × d.os.State
  unfolding restore_snapshots
  roll_back e snaps s = let (r, s') = restore_snapshots d.os snaps s in (outcome_of e r, s')

  abbrev pub after_commit : Snapshots → Result (Unit {0}) × d.os.State → Outcome × d.os.State
  after_commit snaps (ok u, s) = (committed, s)
  after_commit snaps (err e, s) = roll_back e snaps s

  abbrev pub is_empty : List String → Bool
  is_empty [] = true
  is_empty (p ∷ ps) = false

  abbrev pub after_worker : String → Result (Unit {0}) × TxState d.os → Outcome × d.os.State
  after_worker message (err e, t) = roll_back e t.snapshots t.disk
  after_worker message (ok u, t) =
      if message == "" || is_empty t.written
      then (committed, t.disk)
      else after_commit t.snapshots (git_commit_paths d.os git t.written message t.disk)

  -- The definition is loaded, and the lock of the transaction is held.
  unfoldable pub run_readwrite_transaction :
      Definition → Worker → String → d.os.State → Outcome × d.os.State
  unfolding run_worker roll_back git_commit_paths
  run_readwrite_transaction def worker message s =
      after_worker message (
        run_worker d stored_only now def worker (record { disk = s; written = []; snapshots = [] }))
