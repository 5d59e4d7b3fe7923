-- ===== src/Transaction/Recoverable.antt =====
-- The invariant of a transaction: what its operations change can be put back from the snapshots.
use dalgo2ingitdb.Base.{
  String, ◌≡◌, ◌≢◌, ◌==◌, eq_iff, eq_refl, ◌⊎◌, refl, sym, ap, ◌∙◌, Option, none, some, Bool,
  Bool-cases, inl, inr, Option-cases, arith,
}
use dalgo2ingitdb.Base.Dict.{Dict, lookup, insert, lookup-insert}
use dalgo2ingitdb.Base.Result.{Result-cases, ok}
use dalgo2ingitdb.Schema.{Bytes}
use dalgo2ingitdb.Paths.{render}
use dalgo2ingitdb.Paths.Clean.{clean_idem}
use dalgo2ingitdb.Disk.{Os, Stat-cases, clean_text}
use dalgo2ingitdb.Disk.Laws.{IsLawful}
use dalgo2ingitdb.Disk.Action.{Keeps, Keeps-bind, Keeps-pure, Keeps-if, bind-cases}
use dalgo2ingitdb.RecordIo.{Io}
use dalgo2ingitdb.RecordIo.Frame.{Holds}
use dalgo2ingitdb.Transaction.{
  FileSnapshot, TxState, on_disk, take_snapshot, add_snapshot, snapshot, track, commit_change,
}

abbrev pub snapshot_contents : Option FileSnapshot → Option Bytes
snapshot_contents none = none
snapshot_contents (some snap) = some snap.contents

pub clean_text_idem : (path : String) → clean_text (clean_text path) ≡ clean_text path
unfolding clean_text
clean_text_idem path = ap render (clean_idem path)

pub none_or_some : {A B : Type 0} {o : Option A} {a : A} → o ≡ none → o ≡ some a → B
none_or_some h k = absurd (let e = sym h ∙ k in cc e)

lookup-before :
    {V : Type 0} (k j : String) (v : V) (m : Dict V)
    → lookup j (insert k v m) ≡ none
    → lookup j m ≡ none
lookup-before k j v m h = ground (arith, lookup-insert k j v m)

insert-cases :
    {V : Type 0} (k j : String) (v w : V) (m : Dict V)
    → lookup j (insert k v m) ≡ some w
    → ((k ≡ j) × (v ≡ w)) ⊎ (lookup j m ≡ some w)
insert-cases k j v w m h = elim (Bool-cases (k == j)) [
  | inl e ↦ inl ((eq_iff k j).0 e, (let h' = sym (lookup-insert k j v m) ∙ h in ground arith))
  | inr e ↦ inr (ground (arith, lookup-insert k j v m))
]

module _ (os : Os) (content : os.State → String → Option Bytes) (L : IsLawful os content) where
  -- Against the disk as it was at the start: a file without a snapshot is unchanged, and a snapshot
  -- holds what the file was. Snapshots stand under cleaned paths.
  pub record Recoverable (start : os.State) (t : TxState os) : Type 0 where
    pub untouched :
        (q : String) → lookup (clean_text q) t.snapshots ≡ none → content t.disk q ≡ content start q
    pub saved :
        (k : String) (snap : Option FileSnapshot)
        → lookup k t.snapshots ≡ some snap
        → snapshot_contents snap ≡ content start k
    pub cleaned :
        (k : String) (snap : Option FileSnapshot)
        → lookup k t.snapshots ≡ some snap
        → clean_text k ≡ k

  module _ (start : os.State) where
    -- The path has its snapshot.
    pub record Guarded (path : String) (t : TxState os) : Type 0 where
      pub recoverable : Recoverable start t
      pub snap : Option FileSnapshot
      pub taken : lookup (clean_text path) t.snapshots ≡ some snap

    -- A reader changes no file, so the state stays recoverable.
    pub on_disk-Recoverable :
        {A : Type 0} (m : Io os A)
        → ((q : String) (v : Option Bytes) → Keeps (Holds os content L q v) m)
        → Keeps (Recoverable start) (on_disk os m)
    unfolding on_disk
    on_disk-Recoverable m k = record {
      at = λ t h. record {
        untouched = λ q free. (k q (content t.disk q)).at t.disk refl ∙ h.untouched q free;
        saved = h.saved;
        cleaned = h.cleaned;
      };
    }

    -- A writer of the guarded path changes no other file.
    on_disk-Guarded :
        {A : Type 0} (path : String) (m : Io os A)
        → ((q : String) (v : Option Bytes)
            → clean_text path ≢ clean_text q
            → Keeps (Holds os content L q v) m)
        → Keeps (Guarded path) (on_disk os m)
    unfolding on_disk
    on_disk-Guarded path m k = record {
      at = λ t g. record {
        recoverable = record {
          untouched = λ q free.
              (k q (content t.disk q) (λ same.
                  none_or_some free (ap (λ k. lookup k t.snapshots) (sym same) ∙ g.taken))).at
                t.disk refl
              ∙ g.recoverable.untouched q free;
          saved = g.recoverable.saved;
          cleaned = g.recoverable.cleaned;
        };
        snap = g.snap;
        taken = g.taken;
      };
    }

    track-Guarded : (path p : String) → Keeps (Guarded path) (track os p)
    unfolding track
    track-Guarded path p = record {
      at = λ t g. record {
        recoverable = record {
          untouched = g.recoverable.untouched;
          saved = g.recoverable.saved;
          cleaned = g.recoverable.cleaned;
        };
        snap = g.snap;
        taken = g.taken;
      };
    }

    -- The first snapshot of a path, made while the file is still what it was.
    add_snapshot-Guarded :
        (path : String) (snap : Option FileSnapshot) (t : TxState os)
        → Recoverable start t
        → lookup (clean_text path) t.snapshots ≡ none
        → snapshot_contents snap ≡ content t.disk (clean_text path)
        → Guarded path (add_snapshot os (clean_text path) snap t)
    add_snapshot-Guarded path snap t h free right =
        let p = clean_text path in
        record {
          recoverable = record {
            untouched =
                λ q gone. h.untouched q (lookup-before p (clean_text q) snap t.snapshots gone);
            saved = λ k snap' there. elim (insert-cases p k snap snap' t.snapshots there) [
              | inl (same, e) ↦
                  ap snapshot_contents (sym e)
                  ∙ right
                  ∙ h.untouched p (ap (λ j. lookup j t.snapshots) (clean_text_idem path) ∙ free)
                  ∙ ap (content start) same
              | inr before ↦ h.saved k snap' before
            ];
            cleaned = λ k snap' there. elim (insert-cases p k snap snap' t.snapshots there) [
              | inl (same, e) ↦ ap clean_text (sym same) ∙ clean_text_idem path ∙ same
              | inr before ↦ h.cleaned k snap' before
            ];
          };
          snap = snap;
          taken = lookup-insert p p snap t.snapshots ∙ rw (eq_refl p) refl;
        }

    take_snapshot-cases :
        (path : String) (t : TxState os)
        → Recoverable start t
        → lookup (clean_text path) t.snapshots ≡ none
        → Recoverable start (take_snapshot os (clean_text path) t).1
          × ((take_snapshot os (clean_text path) t).0 ≡ ok tt
              → Guarded path (take_snapshot os (clean_text path) t).1)
    unfolding take_snapshot
    take_snapshot-cases path t h free =
        let p = clean_text path in
        elim (Stat-cases (os.stat p t.disk)) [
          | inl (mode, here) ↦ elim (Result-cases (os.read_file p t.disk)) [
            | inl (b, has) ↦
                rw (here, has, take_snapshot)
                  (let g =
                      add_snapshot-Guarded path (some (record { mode = mode; contents = b })) t h
                        free (sym (L.read-content t.disk p b has)) in
                    (g.recoverable, λ _. g))
            | inr (e, fails) ↦ rw (here, fails, take_snapshot) (h, λ bad. absurd (ground arith))
          ]
          | inr (inl gone) ↦
              rw (gone, take_snapshot)
                (let g =
                    add_snapshot-Guarded path none t h free (sym (L.stat-missing t.disk p gone)) in
                  (g.recoverable, λ _. g))
          | inr (inr (e, fails)) ↦ rw (fails, take_snapshot) (h, λ bad. absurd (ground arith))
        ]

    snapshot-cases :
        (path : String) (t : TxState os)
        → Recoverable start t
        → Recoverable start (snapshot os path t).1
          × ((snapshot os path t).0 ≡ ok tt → Guarded path (snapshot os path t).1)
    unfolding snapshot
    snapshot-cases path t h = elim (Option-cases (lookup (clean_text path) t.snapshots)) [
      | inl free ↦ rw (free, snapshot) (take_snapshot-cases path t h free)
      | inr (snap, there) ↦
          rw (there, snapshot) (h, λ _. record { recoverable = h; snap = snap; taken = there })
    ]

    -- A change of one file, after its snapshot, leaves everything recoverable.
    pub commit_change-Recoverable :
        (path : String) (change : Io os Bool)
        → ((q : String) (v : Option Bytes)
            → clean_text path ≢ clean_text q
            → Keeps (Holds os content L q v) change)
        → Keeps (Recoverable start) (commit_change os path change)
    unfolding commit_change
    commit_change-Recoverable path change k = record {
      at = λ t h.
          bind-cases (Recoverable start) (snapshot os path) _ t
            (λ e fails. (snapshot-cases path t h).0)
            (λ u taken.
              ((Keeps-bind {P = Guarded path} _ _ (on_disk-Guarded path change k)
                  (λ b. Keeps-if b _ _ (track-Guarded path path) (Keeps-pure tt))).at
                (snapshot os path t).1 ((snapshot-cases path t h).1 taken)).recoverable);
    }
