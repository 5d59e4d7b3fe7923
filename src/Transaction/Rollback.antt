-- ===== src/Transaction/Rollback.antt =====
-- What a failed transaction leaves behind.
use dalgo2ingitdb.Base.{
  String, ◌≡◌, ◌==◌, ◌||◌, refl, sym, ap, ◌∙◌, Option, Bool, Bool-cases, [], ◌⊎◌, inl, inr,
}
use dalgo2ingitdb.Base.Dict.{lookup}
use dalgo2ingitdb.Base.Result.{Result, Error, ok, err, Result-cases}
use dalgo2ingitdb.Schema.{Bytes, Definition}
use dalgo2ingitdb.Deps.{Deps}
use dalgo2ingitdb.Disk.Laws.{IsLawful}
use dalgo2ingitdb.Git.{Git}
use dalgo2ingitdb.Git.Frame.{IsQuiet, git_commit_paths-At}
use dalgo2ingitdb.Transaction.{TxState}
use dalgo2ingitdb.Transaction.Recoverable.{Recoverable, none_or_some}
use dalgo2ingitdb.Transaction.Preservation.{run_worker-Recoverable}
use dalgo2ingitdb.Transaction.Run.{
  restore_snapshots, rolled_back, broken, roll_back, run_readwrite_transaction, Worker, run_worker,
  outcome_of, is_empty, after_worker, after_commit,
}
use dalgo2ingitdb.Transaction.Restore.{restore_snapshots-content}

module _ (d : Deps) (content : d.os.State → String → Option Bytes) (L : IsLawful d.os content)
    (git : Git d.os) (stored_only : Bool) (now : String) (def : Definition) (worker : Worker) where
  -- The state of the transaction after its worker.
  abbrev pub worked : d.os.State → Result (Unit {0}) × TxState d.os
  worked s =
      run_worker d stored_only now def worker (record { disk = s; written = []; snapshots = [] })

  worked-Recoverable : (s : d.os.State) → Recoverable d.os content L s (worked s).1
  unfolding lookup
  worked-Recoverable s =
      (run_worker-Recoverable d content L s def stored_only now worker).at _ (record {
        untouched = λ q h. refl;
        saved = λ k snap h. none_or_some refl h;
        cleaned = λ k snap h. none_or_some refl h;
      })

  outcome_of-ok :
      (e e' : Error) (r : Result (Unit {0}))
      → outcome_of d git stored_only now e r ≡ rolled_back e'
      → r ≡ ok tt
  outcome_of-ok e e' (ok u) h = refl
  outcome_of-ok e e' (err f) h = cc h

  roll_back-content :
      (s disk : d.os.State) (t : TxState d.os) (q : String) (e e' : Error) (after : d.os.State)
      → Recoverable d.os content L s t
      → content disk q ≡ content t.disk q
      → roll_back d git stored_only now e t.snapshots disk ≡ (rolled_back e', after)
      → content after q ≡ content s q
  unfolding roll_back
  roll_back-content s disk t q e e' after r same h =
      ap (λ x. content x q) (sym (ap (λ x. x.1) h))
      ∙ restore_snapshots-content d.os content L s t disk q r same
          (outcome_of-ok e e' _ (ap (λ x. x.0) h))

  after_commit-content :
      (s : d.os.State) (t : TxState d.os) (q : String) (e : Error) (after : d.os.State)
      (c : Result (Unit {0})) (disk : d.os.State)
      → Recoverable d.os content L s t
      → content disk q ≡ content t.disk q
      → after_commit d git stored_only now t.snapshots (c, disk) ≡ (rolled_back e, after)
      → content after q ≡ content s q
  after_commit-content s t q e after (ok u) disk r same h = cc h
  after_commit-content s t q e after (err f) disk r same h =
      roll_back-content s disk t q f e after r same h

  after_worker-content :
      (message : String) (s : d.os.State) (q : String) (e : Error) (after : d.os.State)
      (r : Result (Unit {0})) (t : TxState d.os)
      → IsQuiet d.os content git q
      → Recoverable d.os content L s t
      → after_worker d git stored_only now message (r, t) ≡ (rolled_back e, after)
      → content after q ≡ content s q
  after_worker-content message s q e after (err f) t quiet rec h =
      roll_back-content s t.disk t q f e after rec refl h
  after_worker-content message s q e after (ok u) t quiet rec h =
      elim (Bool-cases (message == "" || is_empty d git stored_only now t.written)) [
        | inl skip ↦ let h' = rw skip at h in cc h'
        | inr commit ↦
            let h' = rw commit at h in
            after_commit-content s t q e after _ _ rec
              ((git_commit_paths-At d.os content git q quiet (content t.disk q) t.written
                  message).at
                t.disk refl)
              h'
      ]

  after_worker-failed :
      (message : String) (s : d.os.State) (e : Error) (r : Result (Unit {0})) (t : TxState d.os)
      → Recoverable d.os content L s t
      → r ≡ err e
      → (((after_worker d git stored_only now message (r, t)).0 ≡ rolled_back e)
          × ((q : String)
              → content (after_worker d git stored_only now message (r, t)).1 q ≡ content s q))
        ⊎ ((f : Error) × ((after_worker d git stored_only now message (r, t)).0 ≡ broken e f))
  unfolding roll_back
  after_worker-failed message s e (ok u) t rec h = cc h
  after_worker-failed message s e (err g) t rec h =
      elim (Result-cases (restore_snapshots d.os t.snapshots t.disk).0) [
        | inl (u, restored) ↦ inl (
          ap (outcome_of d git stored_only now g) restored ∙ cc h,
          λ q. restore_snapshots-content d.os content L s t t.disk q rec refl restored,
        )
        | inr (f, fails) ↦ inr (f, ap (outcome_of d git stored_only now g) fails ∙ cc h)
      ]

  -- A transaction that ends rolled back, because its worker or the commit failed, has left every
  -- file that the calls of git do not touch as it was before.
  pub run_readwrite_transaction-rolled_back :
      (message : String) (s after : d.os.State) (e : Error) (q : String)
      → IsQuiet d.os content git q
      → run_readwrite_transaction d git stored_only now def worker message s
        ≡ (rolled_back e, after)
      → content after q ≡ content s q
  unfolding run_readwrite_transaction
  run_readwrite_transaction-rolled_back message s after e q quiet h =
      after_worker-content message s q e after (worked s).0 (worked s).1 quiet
        (worked-Recoverable s) h

  -- Where the worker fails, the transaction is not committed: it reports the worker's error, and
  -- either every file is as it was before, or the restoration failed too.
  pub run_readwrite_transaction-failed :
      (message : String) (s : d.os.State) (e : Error)
      → (worked s).0 ≡ err e
      → (((run_readwrite_transaction d git stored_only now def worker message s).0 ≡ rolled_back e)
          × ((q : String)
              → content (run_readwrite_transaction d git stored_only now def worker message s).1 q
                ≡ content s q))
        ⊎ ((f : Error) × ((run_readwrite_transaction d git stored_only now def worker message s).0
              ≡ broken e f))
  unfolding run_readwrite_transaction roll_back
  run_readwrite_transaction-failed message s e h =
      after_worker-failed message s e (worked s).0 (worked s).1 (worked-Recoverable s) h
