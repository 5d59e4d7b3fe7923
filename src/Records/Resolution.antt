-- ===== src/Records/Resolution.antt =====
-- What `resolveCollection` and `resolveScopedCollection` guarantee.
use dalgo2ingitdb.Base.{
  String, ◌≡◌, refl, sym, ◌∙◌, ◌≢◌, ◌++◌, true, Option, none, some, List, [], ◌∷◌, arith,
  Option-cases, inl, inr, All,
}
use dalgo2ingitdb.Base.Value.{Runtime}
use dalgo2ingitdb.Base.Result.{ok, ◌>>=◌, >>=-eq-ok}
use dalgo2ingitdb.Base.Dict.{lookup}
use dalgo2ingitdb.Keys.{validate_record_path_segment, record_key_to_file_name}
use dalgo2ingitdb.Keys.RoundTrip.{IsFileName, record_key_to_file_name-IsFileName}
use dalgo2ingitdb.Paths.{require_contained_path}
use dalgo2ingitdb.Paths.Containment.{IsInside, require_contained_path-IsInside}
use dalgo2ingitdb.Schema.{
  Ingitdb, Definition, sub_collections, CollectionInfo, RecordFile, Collection, collection, info,
}
use dalgo2ingitdb.Records.{
  Key, top, under, find_sub, key_parent, key_collection, str_contains, key_placeholder,
  resolve_record_path, validate_record_file_key, Target, with_record_file, resolve_collection,
  record_path, resolve_scoped_collection, resolve_nested, validate_ancestors, AncestorStep, walk,
  descend, ancestors,
}

abbrev pub root_collection : Key → String
root_collection (top col id) = col
root_collection (under parent col id) = root_collection parent

abbrev first_root : Definition → List AncestorStep → Option Collection
first_root def [] = none
first_root def ((col, id) ∷ steps) = lookup col def.collections

first_root-append :
    (def : Definition) (steps : List AncestorStep) (s : AncestorStep)
    → steps ≢ []
    → first_root def (steps ++ s ∷ []) ≡ first_root def steps
first_root-append def [] s h = absurd (h refl)
first_root-append def ((col, id) ∷ steps) s h = refl

append-ne-nil : (steps : List AncestorStep) (s : AncestorStep) → steps ++ s ∷ [] ≢ []
append-ne-nil [] s e = cc
append-ne-nil (t ∷ steps) s e = cc

module _ (lib : Ingitdb) (rt : Runtime) (goos : String) where
  validate_record_file_key-IsInside :
      (col : CollectionInfo) (file : RecordFile) (key : String)
      → str_contains key_placeholder file.name ≡ true
      → validate_record_file_key lib rt goos col file key ≡ ok tt
      → IsFileName (record_key_to_file_name key)
        × IsInside col.dir_path (resolve_record_path lib rt goos col file key)
  unfolding validate_record_file_key
  validate_record_file_key-IsInside col file key per_key h =
      let h' = rw (per_key, validate_record_file_key) at h in
      let (_, valid, contained) = >>=-eq-ok _ _ h' in
      (
        record_key_to_file_name-IsFileName goos key valid,
        require_contained_path-IsInside _ _ contained,
      )

  with_record_file-ok :
      (key : Key) (c : Collection) (t : Target)
      → with_record_file lib rt goos key c ≡ ok t
      → (t.col ≡ info c) × (validate_record_file_key lib rt goos t.col t.file t.key ≡ ok tt)
  unfolding with_record_file
  with_record_file-ok key (collection i subs) t h = ground arith

  -- The record path of a resolved key lies strictly inside the collection's directory, and the last
  -- name of it is made from a file name that is a single directory entry, if the record file's name
  -- holds the `{key}` placeholder.
  pub resolve_collection-IsInside :
      (def : Option Definition) (key : Option Key) (t : Target)
      → str_contains key_placeholder t.file.name ≡ true
      → resolve_collection lib rt goos def key ≡ ok t
      → IsFileName (record_key_to_file_name t.key)
        × IsInside t.col.dir_path (record_path lib rt goos t)
  unfolding resolve_collection
  resolve_collection-IsInside none key t p h = absurd (ground arith)
  resolve_collection-IsInside (some def) none t p h = absurd (ground arith)
  resolve_collection-IsInside (some def) (some key) t p h =
      let found =
        resolve_scoped_collection lib rt goos (some def) (key_collection key) (key_parent key) in
      let (c, _, k) = >>=-eq-ok found (with_record_file lib rt goos key) h in
      validate_record_file_key-IsInside t.col t.file t.key p (with_record_file-ok key c t k).1

  ancestors-ne-nil : (k : Key) → ancestors lib rt goos k ≢ []
  unfolding ancestors
  ancestors-ne-nil (top col id) e = cc
  ancestors-ne-nil (under parent col id) e = append-ne-nil (ancestors lib rt goos parent) _ e

  abbrev pub AcceptedStep : AncestorStep → Type 0
  AcceptedStep (col, id) = validate_record_path_segment goos id ≡ ok tt

  validate_ancestors-All :
      (steps : List AncestorStep)
      → validate_ancestors lib rt goos steps ≡ ok tt
      → All AcceptedStep steps
  unfolding validate_ancestors
  validate_ancestors-All [] h = tt
  validate_ancestors-All ((col, id) ∷ steps) h =
      let (_, valid, rest) = >>=-eq-ok (validate_record_path_segment goos id) _ h in
      (valid, validate_ancestors-All steps rest)

  descend-contained :
      (root name : String) (deepest : Collection × String × String) (c : Collection)
      → descend lib rt goos root name deepest ≡ ok c
      → require_contained_path root (info c).dir_path ≡ ok tt
  unfolding descend
  descend-contained root name (cur, dir, id) c h =
      elim (Option-cases (find_sub name (sub_collections cur))) [
        | inl missing ↦ absurd (let h' = rw (missing, descend) at h in ground arith)
        | inr (collection i subs, found) ↦ let h' = rw (found, descend) at h in ground arith
      ]

  resolve_nested-ok :
      (def : Definition) (name : String) (steps : List AncestorStep) (c : Collection)
      → resolve_nested lib rt goos def name steps ≡ ok c
      → (root : Collection) × (first_root def steps ≡ some root)
        × (require_contained_path (info root).dir_path (info c).dir_path ≡ ok tt)
        × (validate_ancestors lib rt goos steps ≡ ok tt)
  unfolding resolve_nested
  resolve_nested-ok def name [] c h = absurd (ground arith)
  resolve_nested-ok def name ((col, id) ∷ steps) c h =
      elim (Option-cases (lookup col def.collections)) [
        | inl missing ↦ absurd (let h' = rw (missing, resolve_nested) at h in ground arith)
        | inr (root, found) ↦
            let h' = rw (found, resolve_nested) at h in
            let valid = validate_ancestors lib rt goos ((col, id) ∷ steps) in
            let walked = walk lib rt goos root (info root).dir_path id steps in
            let last = descend lib rt goos (info root).dir_path name in
            let (_, v, k) = >>=-eq-ok valid (λ _. walked >>= last) h' in
            let (deepest, _, d) = >>=-eq-ok walked last k in
            (root, found, descend-contained _ name deepest c d, v)
      ]

  first_root-ancestors :
      (def : Definition) (k : Key)
      → first_root def (ancestors lib rt goos k) ≡ lookup (root_collection k) def.collections
  unfolding ancestors
  first_root-ancestors def (top col id) = refl
  first_root-ancestors def (under parent col id) =
      first_root-append def (ancestors lib rt goos parent) (col, rt.show id)
        (ancestors-ne-nil parent)
      ∙ first_root-ancestors def parent

  -- A nested collection resolves to a directory strictly inside that of its root collection, and
  -- every ancestor's ID was accepted as a file name.
  pub resolve_scoped_collection-IsInside :
      (def : Definition) (name : String) (parent : Key) (c : Collection)
      → resolve_scoped_collection lib rt goos (some def) name (some parent) ≡ ok c
      → (root : Collection) × (lookup (root_collection parent) def.collections ≡ some root)
        × IsInside (info root).dir_path (info c).dir_path
        × All AcceptedStep (ancestors lib rt goos parent)
  unfolding resolve_scoped_collection
  resolve_scoped_collection-IsInside def name parent c h =
      let (root, found, inside, valid) =
        resolve_nested-ok def name (ancestors lib rt goos parent) c h in
      (
        root,
        sym (first_root-ancestors def parent) ∙ found,
        require_contained_path-IsInside _ _ inside,
        validate_ancestors-All _ valid,
      )
