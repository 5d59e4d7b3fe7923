-- ===== src/ForeignKeys/Scanning.antt =====
-- The scans of the collections that refer to a parent (foreign_keys.go), before its deletion.
use mathlib.Core.Path.{subst}
use dalgo2ingitdb.Base.{
  String, ◌==◌, ◌≡◌, refl, sym, ap, ◌∙◌, Bool, true, false, Bool-cases, Option, none, some,
  Option-cases, inl, inr, List, [], ◌∷◌, All, contains, eq_iff, arith,
}
use dalgo2ingitdb.Base.Dict.{lookup}
use dalgo2ingitdb.Base.Sort.{sort, insert_sorted}
use dalgo2ingitdb.Base.Value.{Fields}
use dalgo2ingitdb.Base.Result.{wrapped, Result-cases, ok}
use dalgo2ingitdb.Schema.{Bytes, Collection, CollectionInfo, RecordFile, info, Definition}
use dalgo2ingitdb.Deps.{Deps}
use dalgo2ingitdb.Disk.Laws.{IsLawful}
use dalgo2ingitdb.Disk.Action.{lift, raise, wrap_error, wrap_error-ok, map_result, bind-ok}
use dalgo2ingitdb.Readers.Stored.{KeyedStored}
use dalgo2ingitdb.Readers.{read_all_records_from_disk}
use dalgo2ingitdb.Reading.Frame.{scan_child-Same}
use dalgo2ingitdb.ForeignKeys.Deletion.{
  check_columns, check_records, sort_records, scan_records, scan_child, scan_children,
}

module _ {ℓ κ} {A : Type ℓ} (P : A → Type κ) (before : A → A → Bool) where
  All-insert_sorted : (x : A) (l : List A) → All P (insert_sorted before x l) → P x × All P l
  unfolding insert_sorted
  All-insert_sorted x [] h = h
  All-insert_sorted x (y ∷ l) h = elim (Bool-cases (before x y)) [
    | inl e ↦ rw (e, insert_sorted) at h
    | inr e ↦
        let (here, rest) : P y × All P (insert_sorted before x l) = rw (e, insert_sorted) at h in
        let (p, ps) = All-insert_sorted x l rest in (p, (here, ps))
  ]

  -- What holds of every sorted element holds of every element.
  All-sort : (l : List A) → All P (sort before l) → All P l
  unfolding sort
  All-sort [] h = tt
  All-sort (x ∷ l) h = let (p, ps) = All-insert_sorted x (sort before l) h in (p, All-sort l ps)

module _ (d : Deps) (refers : Fields → String → Bool) where
  check_columns-refers :
      (rec : KeyedStored) (fields : List String) (f : String)
      → check_columns d refers rec fields ≡ ok tt
      → contains fields f ≡ true
      → refers rec.stored f ≡ false
  unfolding check_columns
  check_columns-refers rec [] f h m = cc m
  check_columns-refers rec (g ∷ fs) f h m = elim (Bool-cases (refers rec.stored g)) [
    | inl e ↦ absurd (let h' = rw (e, check_columns) at h in ground arith)
    | inr e ↦
        let h' = rw (e, check_columns) at h in
        elim (Bool-cases (g == f)) [
          | inl same ↦ subst (λ x. refers rec.stored x ≡ false) ((eq_iff g f).0 same) e
          | inr other ↦ check_columns-refers rec fs f h' (rw other at m)
        ]
  ]

  check_records-All :
      (fields : List String) (recs : List KeyedStored) (f : String)
      → check_records d refers fields recs ≡ ok tt
      → contains fields f ≡ true
      → All (λ rec. refers rec.stored f ≡ false) recs
  unfolding check_records
  check_records-All fields [] f h m = tt
  check_records-All fields (rec ∷ recs) f h m =
      elim (Result-cases (check_columns d refers rec fields)) [
        | inl (u, e) ↦ (
          check_columns-refers rec fields f e m,
          check_records-All fields recs f (rw (e, check_records) at h) m,
        )
        | inr (w, e) ↦ absurd (let h' = rw (e, check_records) at h in ground arith)
      ]

module _ (d : Deps) (content : d.os.State → String → Option Bytes) (L : IsLawful d.os content) where
  -- The records of the child, as they are read where every file is as in `s`.
  pub record IsScanned (s : d.os.State) (child : CollectionInfo) (P : KeyedStored → Type 0)
      : Type 0 where
    pub at : d.os.State
    pub file : RecordFile
    pub records : List KeyedStored
    pub unchanged : (q : String) → content at q ≡ content s q
    pub has_file : child.record_file ≡ some file
    pub read : (read_all_records_from_disk d child file at).0 ≡ ok records
    pub every : All P records

  module _ (refers : Fields → String → Bool) where
    scan_records-IsScanned :
        (child : CollectionInfo) (fields : List String) (file : Option RecordFile) (s : d.os.State)
        (f : String)
        → child.record_file ≡ file
        → (scan_records d refers child fields file s).0 ≡ ok tt
        → contains fields f ≡ true
        → IsScanned s child (λ rec. refers rec.stored f ≡ false)
    unfolding lift raise sort_records
    scan_records-IsScanned child fields none s f e h m = cc h
    scan_records-IsScanned child fields (some file) s f e h m =
        let (records, r, k) =
          bind-ok
            (map_result (wrap_error (wrapped "foreign key scan failed"))
              (read_all_records_from_disk d child file))
            _ s h in
        record {
          at = s;
          file = file;
          records = records;
          unchanged = λ q. refl;
          has_file = e;
          read = wrap_error-ok (wrapped "foreign key scan failed") _ r;
          every = All-sort _ _ records (
              check_records-All d refers fields (sort_records d records) f
                (sym (ap (λ x. x.0) k) ∙ h) m);
        }

    scan_child-IsScanned :
        (child : CollectionInfo) (fields : List String) (s : d.os.State) (f : String)
        → (scan_child d refers child fields s).0 ≡ ok tt
        → contains fields f ≡ true
        → IsScanned s child (λ rec. refers rec.stored f ≡ false)
    scan_child-IsScanned child [] s f h m = cc m
    scan_child-IsScanned child (g ∷ fields) s f h m =
        scan_records-IsScanned child (g ∷ fields) child.record_file s f refl h m

  -- A scan behind actions that changed no file.
  pub moved :
      (s t : d.os.State) (child : CollectionInfo) (P : KeyedStored → Type 0)
      → ((q : String) → content t q ≡ content s q)
      → IsScanned t child P
      → IsScanned s child P
  moved s t child P same scanned = record {
    at = scanned.at;
    file = scanned.file;
    records = scanned.records;
    unchanged = λ q. scanned.unchanged q ∙ same q;
    has_file = scanned.has_file;
    read = scanned.read;
    every = scanned.every;
  }

  module _ (refers : Fields → String → Bool) (fields : CollectionInfo → List String)
      (def : Definition) where
    pub scan_children-IsScanned :
        (ids : List String) (id f : String) (c : Collection) (s : d.os.State)
        → (scan_children d refers fields def ids s).0 ≡ ok tt
        → contains ids id ≡ true
        → lookup id def.collections ≡ some c
        → contains (fields (info c)) f ≡ true
        → IsScanned s (info c) (λ rec. refers rec.stored f ≡ false)
    unfolding scan_children
    scan_children-IsScanned [] id f c s h m there k = cc m
    scan_children-IsScanned (j ∷ ids) id f c s h m there k = elim (Bool-cases (j == id)) [
      | inl same ↦
          let here : lookup j def.collections ≡ some c =
            ap (λ x. lookup x def.collections) ((eq_iff j id).0 same) ∙ there in
          let (u, r, e) =
            bind-ok (scan_child d refers (info c) (fields (info c))) _ s
              (rw (here, scan_children) at h) in
          scan_child-IsScanned refers (info c) (fields (info c)) s f r k
      | inr other ↦ elim (Option-cases (lookup j def.collections)) [
        | inl gone ↦
            scan_children-IsScanned ids id f c s (rw (gone, scan_children) at h) (rw other at m)
              there k
        | inr (c', found) ↦
            let h' = rw (found, scan_children) at h in
            let (u, r, e) = bind-ok (scan_child d refers (info c') (fields (info c'))) _ s h' in
            let s' = (scan_child d refers (info c') (fields (info c')) s).1 in
            moved s s' (info c) _
              (λ q.
                (scan_child-Same d content L q (content s q) refers (info c') (fields (info c'))).at
                  s refl)
              (scan_children-IsScanned ids id f c s' (sym (ap (λ x. x.0) e) ∙ h') (rw other at m)
                there k)
      ]
    ]
