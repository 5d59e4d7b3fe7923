-- ===== src/Rooted/Lifecycle.antt =====
-- rooted_files.go: the operations that hold the root of a capability open (beginOperation,
-- endOperation, WithExclusiveLock), and Close, which waits for them.
pub mod Safety
use dalgo2ingitdb.Base.{
  ltb, eqb, ℕ, zero, suc, ◌+◌, ◌-◌, ◌<◌, ◌≡◌, Bool, true, false, ◌||◌, if◌then◌else◌,
}
use dalgo2ingitdb.Base.Result.{Error, failure, Result, ok, err}

-- `views` counts the `lockedFiles` that are active. Of the calls of `Close`, `waiting` are asleep in
-- `Wait`, `woken` are about to test the number of operations again, and `drained` are done waiting
-- and have yet to close the root.
pub record Lifecycle : Type 0 where
  pub closing : Bool
  pub closed : Bool
  pub operations : ℕ
  pub views : ℕ
  pub root_open : Bool
  pub waiting : ℕ
  pub woken : ℕ
  pub drained : ℕ

abbrev pub opened : Lifecycle
opened = record {
  closing = false;
  closed = false;
  operations = 0;
  views = 0;
  root_open = true;
  waiting = 0;
  woken = 0;
  drained = 0;
}

unfoldable pub begin_operation : Lifecycle → Result (Unit {0}) × Lifecycle
begin_operation f =
    if f.closed || f.closing
    then (err (failure "rooted files is closed"), f)
    else (ok tt, record f { operations = suc f.operations })

-- `lifecycleCond.Broadcast()`
unfoldable pub broadcast : Lifecycle → Lifecycle
broadcast f = record f { waiting = 0; woken = f.woken + f.waiting }

unfoldable pub end_operation : Lifecycle → Lifecycle
unfolding broadcast
end_operation f =
    let left : Lifecycle = record f { operations = f.operations - 1 } in
    if eqb left.operations 0 then broadcast left else left

unfoldable pub root_handle : Lifecycle → Result (Unit {0})
root_handle f = if f.root_open then ok tt else err (failure "rooted files is closed")

-- `WithExclusiveLock` gives its callback a view, and `invalidate` ends it.
unfoldable pub activate : Lifecycle → Lifecycle
activate f = record f { views = suc f.views }

unfoldable pub invalidate : Lifecycle → Lifecycle
invalidate f = record f { views = f.views - 1 }

-- The loop of `Close`: its test, and `Wait` while an operation holds a lease.
unfoldable pub drain_or_wait : Lifecycle → Lifecycle
drain_or_wait f =
    if ltb 0 f.operations
    then record f { waiting = suc f.waiting }
    else record f { closed = true; drained = suc f.drained }

-- `Close` as far as its first `Wait` or the end of its loop, under the lifecycle's mutex.
unfoldable pub start_closing : Lifecycle → Lifecycle
unfolding drain_or_wait
start_closing f = drain_or_wait (record f { closing = true })

-- `Wait` returns to a `Close` that was woken.
unfoldable pub resume_closing : Lifecycle → Lifecycle
unfolding drain_or_wait
resume_closing f = drain_or_wait (record f { woken = f.woken - 1 })

-- The end of `Close`; one that finds the root closed already has nothing to do.
unfoldable pub release_root : Lifecycle → Lifecycle
release_root f = record f { root_open = false; drained = f.drained - 1 }

-- A move of a goroutine that finishes what it has begun. An operation may end once it has no
-- active view.
pub data Advance (s t : Lifecycle) : Type 0 where
  ends : s.views < s.operations → t ≡ end_operation s → Advance s t
  unlocks : 0 < s.views → t ≡ invalidate s → Advance s t
  resumes : 0 < s.woken → t ≡ resume_closing s → Advance s t
  releases : 0 < s.drained → t ≡ release_root s → Advance s t

-- One move of one of the goroutines.
pub data Step (s t : Lifecycle) : Type 0 where
  begins : t ≡ (begin_operation s).1 → Step s t
  locks : s.views < s.operations → t ≡ activate s → Step s t
  closes : t ≡ start_closing s → Step s t
  proceeds : Advance s t → Step s t

pub data Reach (s : Lifecycle) : Lifecycle → Type 0 where
  here : Reach s s
  next : {t u : Lifecycle} → Reach s t → Step t u → Reach s u

-- A run of so many moves that finish what was begun.
pub data Draining (s : Lifecycle) : ℕ → Lifecycle → Type 0 where
  start : Draining s zero s
  onward : {n : ℕ} {t u : Lifecycle} → Draining s n t → Advance t u → Draining s (suc n) u
