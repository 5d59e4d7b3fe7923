-- ===== src/Rooted/Lifecycle/Safety.antt =====
-- An operation of a capability (rooted_files.go) always finds the root open, and every `Close` ends.
use native.Mathlib.Decide.{dec_lt}
use dalgo2ingitdb.Base.{
  ℕ, suc, ◌+◌, ◌*◌, ◌<◌, ◌≤◌, ◌≡◌, ◌⊎◌, inl, inr, refl, sym, true, false, arith,
}
use dalgo2ingitdb.Base.Result.{failure, ok, err}
use dalgo2ingitdb.Rooted.Lifecycle.{
  Lifecycle, opened, begin_operation, broadcast, end_operation, root_handle, activate, invalidate,
  drain_or_wait, start_closing, resume_closing, release_root, Advance, ends, unlocks, resumes,
  releases, Step, begins, locks, closes, proceeds, Reach, here, next, Draining, start, onward,
}

pub record IsSound (s : Lifecycle) : Type 0 where
  pub closed_closing : s.closed ≡ true → s.closing ≡ true
  pub closed_idle : s.closed ≡ true → s.operations ≡ 0
  pub released_closed : s.root_open ≡ false → s.closed ≡ true
  pub drained_closed : 0 < s.drained → s.closed ≡ true
  pub views_leased : s.views ≤ s.operations
  -- A `Close` sleeps only while an operation is there to wake it.
  pub waiting_busy : 0 < s.waiting → 0 < s.operations
  pub woken_idle : 0 < s.woken → s.operations ≡ 0
  pub called_closing : 0 < s.waiting + s.woken → s.closing ≡ true
  pub closing_called :
      s.closing ≡ true → (s.root_open ≡ false) ⊎ (0 < s.waiting + s.woken + s.drained)

Advance-IsSound : (s t : Lifecycle) → IsSound s → Advance s t → IsSound t
unfolding end_operation broadcast invalidate drain_or_wait resume_closing release_root
Advance-IsSound s t h (ends k e) = ground (arith, e)
Advance-IsSound s t h (unlocks k e) = ground (arith, e)
Advance-IsSound s t h (resumes k e) = ground (arith, e)
Advance-IsSound s t h (releases k e) = ground (arith, e)

Step-IsSound : (s t : Lifecycle) → IsSound s → Step s t → IsSound t
unfolding begin_operation activate drain_or_wait start_closing
Step-IsSound s t h (begins e) = ground (arith, e)
Step-IsSound s t h (locks k e) = ground (arith, e)
Step-IsSound s t h (closes e) = ground (arith, e)
Step-IsSound s t h (proceeds p) = Advance-IsSound s t h p

Reach-IsSound : {s t : Lifecycle} → IsSound s → Reach s t → IsSound t
Reach-IsSound h here = h
Reach-IsSound h (next {t = t} {u = u} r st) = Step-IsSound t u (Reach-IsSound h r) st

opened-IsSound : IsSound opened
opened-IsSound = record {
  closed_closing = λ e. cc e;
  closed_idle = λ e. refl;
  released_closed = λ e. sym e;
  drained_closed = λ k. absurd (omega (arith, k));
  views_leased = omega arith;
  waiting_busy = λ k. absurd (omega (arith, k));
  woken_idle = λ k. refl;
  called_closing = λ k. absurd (omega (arith, k));
  closing_called = λ e. cc e;
}

-- Whatever the goroutines did, no operation and no view ever meets a closed root.
pub operation_open :
    (s : Lifecycle)
    → Reach opened s
    → 0 < s.operations + s.views
    → (root_handle s ≡ ok tt) × (s.closed ≡ false)
unfolding root_handle
operation_open s r h = let sound = Reach-IsSound opened-IsSound r in ground (arith, sound)

-- The moves that are left to those that are under way.
abbrev pub moves_left : Lifecycle → ℕ
moves_left s = s.operations + s.views + 3 * s.waiting + 2 * s.woken + s.drained

Advance-moves_left : (s t : Lifecycle) → IsSound s → Advance s t → suc (moves_left t) ≤ moves_left s
unfolding end_operation broadcast invalidate drain_or_wait resume_closing release_root
Advance-moves_left s t h (ends k e) = ground (arith, e, h)
Advance-moves_left s t h (unlocks k e) = ground (arith, e, h)
Advance-moves_left s t h (resumes k e) = ground (arith, e, h)
Advance-moves_left s t h (releases k e) = ground (arith, e, h)

Advance-closing : (s t : Lifecycle) → s.closing ≡ true → Advance s t → t.closing ≡ true
unfolding end_operation broadcast invalidate drain_or_wait resume_closing release_root
Advance-closing s t c (ends k e) = ground (arith, e)
Advance-closing s t c (unlocks k e) = ground (arith, e)
Advance-closing s t c (resumes k e) = ground (arith, e)
Advance-closing s t c (releases k e) = ground (arith, e)

-- Every `Close` has returned, with the root closed and no operation left.
pub record IsReleased (s : Lifecycle) : Type 0 where
  pub idle : s.operations ≡ 0
  pub returned : s.waiting + s.woken + s.drained ≡ 0
  pub root_closed : s.root_open ≡ false

idle-IsReleased :
    (s : Lifecycle)
    → IsSound s
    → s.closing ≡ true
    → s.operations ≡ 0
    → s.woken ≡ 0
    → s.drained ≡ 0
    → IsReleased s
idle-IsReleased s h c o w d =
    let asleep : s.waiting ≡ 0 = ground arith in
    record { idle = o; returned = omega (arith, asleep); root_closed = ground arith }

Advance-or-IsReleased :
    (s : Lifecycle) → IsSound s → s.closing ≡ true → ((t : Lifecycle) × Advance s t) ⊎ IsReleased s
Advance-or-IsReleased s h c = elim (dec_lt 0 s.views) [
  | yes v ↦ inl (invalidate s, unlocks v refl)
  | no v ↦ elim (dec_lt 0 s.operations) [
    | yes o ↦ inl (end_operation s, ends (omega (arith, v, o)) refl)
    | no o ↦ elim (dec_lt 0 s.woken) [
      | yes w ↦ inl (resume_closing s, resumes w refl)
      | no w ↦ elim (dec_lt 0 s.drained) [
        | yes d ↦ inl (release_root s, releases d refl)
        | no d ↦
            inr (idle-IsReleased s h c (omega (arith, o)) (omega (arith, w)) (omega (arith, d)))
      ]
    ]
  ]
]

Draining-IsSound :
    (s t : Lifecycle) (n : ℕ)
    → IsSound s
    → s.closing ≡ true
    → Draining s n t
    → IsSound t × (t.closing ≡ true) × (n + moves_left t ≤ moves_left s)
Draining-IsSound s t n h c start = (h, c, omega arith)
Draining-IsSound s t (suc n) h c (onward {t = u} r p) =
    let (sound, closing, bound) = Draining-IsSound s u n h c r in
    let less = Advance-moves_left u t sound p in
    (Advance-IsSound u t sound p, Advance-closing u t closing p, omega (arith, less, bound))

refused_while_closing :
    (s : Lifecycle)
    → s.closing ≡ true
    → begin_operation s ≡ (err (failure "rooted files is closed"), s)
unfolding begin_operation
refused_while_closing s c = ground (arith, c)

-- Once `Close` has begun, the operations that hold a lease and the calls of `Close` come to an end
-- in any order of their moves: no run of these moves is longer than what is left of them, it can go
-- on unless the root is closed, no operation is left and every `Close` has returned, and no new
-- operation begins on the way.
pub close_progress :
    (s t : Lifecycle) (n : ℕ)
    → Reach opened s
    → s.closing ≡ true
    → Draining s n t
    → (n + moves_left t ≤ moves_left s)
      × (((u : Lifecycle) × Advance t u) ⊎ IsReleased t)
      × (begin_operation t ≡ (err (failure "rooted files is closed"), t))
close_progress s t n r c run =
    let (sound, closing, bound) = Draining-IsSound s t n (Reach-IsSound opened-IsSound r) c run in
    (bound, Advance-or-IsReleased t sound closing, refused_while_closing t closing)
