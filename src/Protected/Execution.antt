-- ===== src/Protected/Execution.antt =====
-- protected.go, WithinProtectedInspection and WithinProtectedExecution. The definition is loaded, and
-- contexts are not cancelled.
pub mod Safety
pub mod Candidates
pub mod Others
pub mod Batches
pub mod Revisions
use dalgo2ingitdb.Base.{
  String, Bool, true, false, not, ◌&&◌, Option, none, some, List, [], ◌∷◌, if◌then◌else◌,
}
use dalgo2ingitdb.Base.Value.{Fields, end}
use dalgo2ingitdb.Base.Result.{Error, record_exists, failure, wrapped, Result, ok, err}
use dalgo2ingitdb.Schema.{Definition, Bytes}
use dalgo2ingitdb.Deps.{Deps}
use dalgo2ingitdb.Disk.{Os}
use dalgo2ingitdb.Disk.Action.{pure, raise, ◌>>=◌, ◌>>◌}
use dalgo2ingitdb.RecordIo.{Io, wrapping}
use dalgo2ingitdb.ForeignKeys.{is_some}
use dalgo2ingitdb.Transaction.{Snapshots, TxState, Tx}
use dalgo2ingitdb.Transaction.Operations.{set_record, insert_record, delete_record}
use dalgo2ingitdb.Transaction.Run.{restore_snapshots}
use dalgo2ingitdb.Protected.{OpAction, ProtectedOperation, ProtectedEvidence, Secrets, is_update}
use dalgo2ingitdb.Protected.Prepare.{Prepared, prepare}

-- What the policy engine does with the storage that it is given, by the results so far.
pub data Client : Type 0 where
  finish : Client
  fail : Error → Client
  execute : (Result (Unit {0}) → Client) → Client

-- `refused e` was followed by the restoration of every file; `broken e` by a failed one.
pub data ProtectedOutcome : Type 0 where
  executed : ProtectedOutcome
  refused : Error → ProtectedOutcome
  broken : Error → Error → ProtectedOutcome

abbrev pub or_empty_image : Option Fields → Fields
or_empty_image none = end
or_empty_image (some image) = image

abbrev pub unavailable : Error
unavailable = failure "protected resource unavailable"

module _ (d : Deps) (def : Definition) where
  abbrev pub set_existing : Prepared → Tx d.os (Unit {0})
  set_existing p =
      if is_update p.op.action && not (is_some p.pre)
      then raise unavailable
      else set_record d def (some p.op.key) (or_empty_image p.candidate)

  abbrev pub execute_as : OpAction → Prepared → Tx d.os (Unit {0})
  execute_as OpAction.insert p =
      if is_some p.pre
      then raise (failure "protected record exists")
      else insert_record d def (some p.op.key) (or_empty_image p.candidate)
  execute_as OpAction.set p = set_existing p
  execute_as OpAction.update p = set_existing p
  execute_as OpAction.delete p =
      if is_some p.pre then delete_record d def (some p.op.key) else raise unavailable
  execute_as OpAction.other p = pure tt

  -- The operations one after another, up to the first that fails.
  unfoldable pub execute_all : List Prepared → Tx d.os (Unit {0})
  unfolding set_record insert_record delete_record
  execute_all [] = pure tt
  execute_all (p ∷ ps) = do execute_as p.op.action p; execute_all ps

  -- The operations are executed at most once; `called` says whether they were.
  unfoldable pub run_client : List Prepared → Bool → Client → Tx d.os (Unit {0})
  unfolding execute_all
  run_client ps called finish s = (ok tt, s)
  run_client ps called (fail e) s = (err e, s)
  run_client ps true (execute next) s =
      run_client ps true (next (err (failure "protected execution already called"))) s
  run_client ps false (execute next) s =
      let (r, s') = execute_all ps s in run_client ps true (next r) s'

module _ (d : Deps) (secrets : Secrets) (secret : Bytes) (stored_only : Bool)
    (def : Definition) where
  unfoldable pub inspect :
      List ProtectedOperation → (List ProtectedEvidence → Result (Unit {0})) → Io d.os (Unit {0})
  unfolding prepare
  inspect ops fn = do
    prepared ← prepare d secrets secret stored_only def ops
    λ s. (fn prepared.0, s)

  abbrev pub restored : Error → Result (Unit {0}) → ProtectedOutcome
  restored e (ok u) = refused e
  restored e (err f) = broken e f

  unfoldable pub undo : Error → Snapshots → d.os.State → ProtectedOutcome × d.os.State
  unfolding restore_snapshots
  undo e snaps s = let (r, s') = restore_snapshots d.os snaps s in (restored e r, s')

  abbrev pub after_client : Result (Unit {0}) × TxState d.os → ProtectedOutcome × d.os.State
  after_client (err e, t) = undo e t.snapshots t.disk
  after_client (ok u, t) = (executed, t.disk)

  abbrev pub with_prepared :
      (List ProtectedEvidence → Client)
      → Result (List ProtectedEvidence × List Prepared)
      → d.os.State
      → ProtectedOutcome × d.os.State
  with_prepared fn (err e) s = (refused e, s)
  with_prepared fn (ok (evidence, ps)) s =
      after_client (
        run_client d def ps false (fn evidence) (record { disk = s; written = []; snapshots = [] }))

  unfoldable pub execute_protected :
      List ProtectedOperation
      → (List ProtectedEvidence → Client)
      → d.os.State
      → ProtectedOutcome × d.os.State
  unfolding prepare run_client undo
  execute_protected ops fn s =
      let (r, s') = prepare d secrets secret stored_only def ops s in with_prepared fn r s'

  abbrev pub with_lock :
      Result (Unit {0})
      → (d.os.State → ProtectedOutcome × d.os.State)
      → d.os.State
      → ProtectedOutcome × d.os.State
  with_lock (err e) fn s = (refused e, s)
  with_lock (ok u) fn s = fn s

  -- The lock has the methods that take a context, which waits for as long as it may.
  unfoldable pub within_protected_inspection :
      String
      → List ProtectedOperation
      → (List ProtectedEvidence → Result (Unit {0}))
      → Io d.os (Unit {0})
  unfolding inspect
  within_protected_inspection lock ops fn = do
    wrapping d.os "acquire protected lock" (d.os.rlock lock)
    inspect ops fn

  unfoldable pub within_protected_execution :
      String
      → List ProtectedOperation
      → (List ProtectedEvidence → Client)
      → d.os.State
      → ProtectedOutcome × d.os.State
  unfolding execute_protected
  within_protected_execution lock ops fn s =
      let (r, s') = wrapping d.os "acquire protected lock" (d.os.lock lock) s in
      with_lock r (execute_protected ops fn) s'
