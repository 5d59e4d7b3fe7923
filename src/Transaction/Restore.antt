-- ===== src/Transaction/Restore.antt =====
-- Restoring the snapshots of a recoverable state puts every file back.
use dalgo2ingitdb.Base.{
  String, ◌≡◌, ◌≢◌, ◌==◌, eq_iff, eq_refl, refl, sym, ap, ◌∙◌, Option, none, some, true, false,
  Bool-cases, List, [], ◌∷◌, ◌⊎◌, inl, inr, arith, contains,
}
use dalgo2ingitdb.Base.Dict.{Dict, lookup, keys}
use dalgo2ingitdb.Base.Sort.{sort_strings}
use dalgo2ingitdb.Base.Result.{ok, wrapped}
use dalgo2ingitdb.Schema.{Bytes}
use dalgo2ingitdb.Columns.Membership.{contains-sort_strings}
use dalgo2ingitdb.Disk.{Os, Removal, removed, absent, clean_text}
use dalgo2ingitdb.Disk.Laws.{IsLawful}
use dalgo2ingitdb.Disk.Action.{
  map_result, wrap_error, wrap_error-ok, bind-ok, pure, Keeps-bind, Keeps-map_result,
}
use dalgo2ingitdb.RecordIo.Frame.{mkdir-Holds, write-Holds}
use dalgo2ingitdb.RecordIo.{dir, removal_result}
use dalgo2ingitdb.Transaction.{FileSnapshot, Snapshots, TxState}
use dalgo2ingitdb.Transaction.Recoverable.{Recoverable, snapshot_contents}
use dalgo2ingitdb.Transaction.Run.{restore_one, snapshot_of, restore_paths, restore_snapshots}

Removal-cases : (r : Removal) → removal_result r ≡ ok tt → (r ≡ removed) ⊎ (r ≡ absent)
Removal-cases removed h = inl refl
Removal-cases absent h = inr refl
Removal-cases (Removal.failed e) h = absurd (cc h)

-- A key of a map is there.
lookup-keys :
    {V : Type 0} (k : String) (m : Dict V)
    → contains (keys m) k ≡ true
    → (v : V) × (lookup k m ≡ some v)
unfolding keys lookup
lookup-keys k [] h = absurd (ground arith)
lookup-keys k ((j, w) ∷ m) h = elim (Bool-cases (j == k)) [
  | inl e ↦ (w, rw (e, lookup) refl)
  | inr e ↦ let (v, there) = lookup-keys k m (ground arith) in (v, rw (e, lookup) there)
]

keys-lookup :
    {V : Type 0} (k : String) (m : Dict V) → contains (keys m) k ≡ false → lookup k m ≡ none
unfolding keys lookup
keys-lookup k [] h = refl
keys-lookup k ((j, w) ∷ m) h = ground (arith, keys-lookup k m)

module _ (os : Os) (content : os.State → String → Option Bytes) (L : IsLawful os content) where
  -- One restored file has what its snapshot holds.
  restore_one_self :
      (path : String) (snap : Option FileSnapshot) (s : os.State)
      → (restore_one os path snap s).0 ≡ ok tt
      → content (restore_one os path snap s).1 path ≡ snapshot_contents snap
  restore_one_self path none s h =
      elim (Removal-cases (os.remove path s).0
        (wrap_error-ok (wrapped "remove created path") _ h)) [
          | inl gone ↦ L.remove-removed s path gone
          | inr never ↦ L.remove-absent s path never
        ]
  restore_one_self path (some snap) s h =
      let (u, made, same) =
        bind-ok
          (map_result (wrap_error (wrapped "create rollback parent")) (os.mkdir_all (dir path))) _ s
          h in
      ap (λ r. content r.1 path) same
      ∙ L.write-ok _ path snap.contents _
          (wrap_error-ok (wrapped "restore") _ (ap (λ r. r.0) (sym same) ∙ h))

  restore_one_other :
      (path : String) (snap : Option FileSnapshot) (s : os.State) (q : String)
      → clean_text path ≢ clean_text q
      → content (restore_one os path snap s).1 q ≡ content s q
  restore_one_other path none s q other = L.remove-frame s path q other
  restore_one_other path (some snap) s q other =
      (Keeps-bind _ _
          (Keeps-map_result (wrap_error (wrapped "create rollback parent")) _
            (mkdir-Holds os content L q (content s q) path other (dir path)))
          (λ _.
            Keeps-map_result (wrap_error (wrapped "restore")) _
              (write-Holds os content L q (content s q) path other snap.contents _))).at
        s refl

  -- After the paths of the list are restored the file at `q` is what it was at the start, if it was
  -- that before or is in the list.
  restore_paths-content :
      (start : os.State) (snaps : Snapshots) (q : String) (paths : List String) (s : os.State)
      → ((k : String)
          → contains paths k ≡ true
          → (clean_text k ≡ k) × (snapshot_contents (snapshot_of os k snaps) ≡ content start k))
      → (contains paths (clean_text q) ≡ false → content s q ≡ content start q)
      → (restore_paths os snaps paths s).0 ≡ ok tt
      → content (restore_paths os snaps paths s).1 q ≡ content start q
  unfolding restore_paths pure
  restore_paths-content start snaps q [] s good rest h = rest refl
  restore_paths-content start snaps q (p ∷ ps) s good rest h =
      let one = restore_one os p (snapshot_of os p snaps) in
      let (u, restored, same) = bind-ok one _ s h in
      let (p_clean, p_right) = good p (ground (arith, eq_refl p)) in
      ap (λ r. content r.1 q) same
      ∙ restore_paths-content start snaps q ps (one s).1 (λ k m. good k (ground arith))
          (λ free. elim (Bool-cases (p == clean_text q)) [
            | inl e ↦
                L.content-clean (one s).1 q p (sym (p_clean ∙ (eq_iff p (clean_text q)).0 e))
                ∙ restore_one_self p (snapshot_of os p snaps) s restored
                ∙ p_right
                ∙ L.content-clean start p q (p_clean ∙ (eq_iff p (clean_text q)).0 e)
            | inr e ↦
                restore_one_other p (snapshot_of os p snaps) s q
                  (λ x. let y = (eq_iff p (clean_text q)).1 (sym p_clean ∙ x) in ground arith)
                ∙ rest (ground arith)
          ])
          (ap (λ r. r.0) (sym same) ∙ h)

  -- The restoration of a recoverable state, also after other changes that left the file at `q` alone.
  pub restore_snapshots-content :
      (start : os.State) (t : TxState os) (s : os.State) (q : String)
      → Recoverable os content L start t
      → content s q ≡ content t.disk q
      → (restore_snapshots os t.snapshots s).0 ≡ ok tt
      → content (restore_snapshots os t.snapshots s).1 q ≡ content start q
  unfolding restore_snapshots
  restore_snapshots-content start t s q r same h =
      let snaps = t.snapshots in
      restore_paths-content start snaps q (sort_strings (keys snaps)) s
        (λ k m.
          let (snap, there) =
            lookup-keys k snaps (sym (contains-sort_strings (keys snaps) k) ∙ m) in
          (r.cleaned k snap there, rw (there, snapshot_contents) (r.saved k snap there)))
        (λ free.
          same
          ∙ r.untouched q (
              keys-lookup (clean_text q) snaps
                (sym (contains-sort_strings (keys snaps) (clean_text q)) ∙ free)))
        h
