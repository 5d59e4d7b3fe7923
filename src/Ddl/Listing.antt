-- ===== src/Ddl/Listing.antt =====
-- schema_reader.go: what the database lists of its collections, and the description of one of them.
-- The definition that `loadDefinition` delivers is a parameter.
use dalgo2ingitdb.Base.{
  String, ◌≡◌, refl, sym, ◌∙◌, Option, none, some, List, [], ◌∷◌, contains, arith, Option-cases,
  inl, inr,
}
use dalgo2ingitdb.Base.Dict.{Dict, lookup, keys}
use dalgo2ingitdb.Base.Sort.{sort_strings}
use dalgo2ingitdb.Base.Result.{failure, wrapped, Result, ok, err, is_ok, ◌>>=◌}
use dalgo2ingitdb.Columns.Membership.{contains-sort_strings}
use dalgo2ingitdb.Base.Value.{Runtime}
use dalgo2ingitdb.Disk.Action.{wrap_error}
use dalgo2ingitdb.ForeignKeys.{is_some}
use dalgo2ingitdb.Schema.{Definition, Ingitdb, info}
use dalgo2ingitdb.Records.{Key, resolve_scoped_collection}
use dalgo2ingitdb.Ddl.{IndexDef, Dbschema, CollectionDef}
use dalgo2ingitdb.Ddl.Describe.{describe_collection_definition}

-- `dal.CollectionRef`
pub record CollectionRef : Type 0 where
  pub name : String
  pub parent : Option Key

-- `dbschema.ConstraintDef`
pub record ConstraintDef : Type 0 where
  pub name : String
  pub type : String

-- The names of the references, which are of root collections.
unfoldable pub list_collections : Result Definition → Result (List String)
list_collections loaded = loaded >>= λ def. ok (sort_strings (keys def.collections))

unfoldable pub list_constraints : Result (List ConstraintDef)
list_constraints = ok (record { name = "$key-pk"; type = "primary-key" } ∷ [])

-- Of any type that the referrers may have: there are none.
unfoldable pub list_referrers {ℓ} : {Referrer : Type ℓ} → Result (List Referrer)
list_referrers = err (failure "ListReferrers: inGitDB has no native foreign-key declarations")

module _ (lib : Ingitdb) (rt : Runtime) (goos : String) (db : Dbschema) where
  unfoldable pub describe_collection :
      Result Definition → Option CollectionRef → Result (CollectionDef db)
  unfolding resolve_scoped_collection describe_collection_definition
  describe_collection loaded none = err (failure "DescribeCollection: ref is nil")
  describe_collection loaded (some ref) = do
    def ← loaded
    col ←
        wrap_error (wrapped "collection not found")
          (resolve_scoped_collection lib rt goos (some def) ref.name ref.parent)
    describe_collection_definition db ref.name (info col)

  unfoldable pub list_indexes : Result Definition → Option CollectionRef → Result (List IndexDef)
  unfolding describe_collection
  list_indexes loaded ref = describe_collection loaded ref >>= λ c. ok c.indexes

contains-keys :
    {V : Type 0} (m : Dict V) (name : String) → contains (keys m) name ≡ is_some (lookup name m)
unfolding keys lookup
contains-keys [] name = refl
contains-keys ((k, v) ∷ m) name = ground (arith, contains-keys m name)

resolve_root :
    (lib : Ingitdb) (rt : Runtime) (goos : String) (def : Definition) (name : String)
    → is_ok (resolve_scoped_collection lib rt goos (some def) name none)
      ≡ is_some (lookup name def.collections)
unfolding resolve_scoped_collection
resolve_root lib rt goos def name = elim (Option-cases (lookup name def.collections)) [
  | inl e ↦ rw (e, resolve_scoped_collection) refl
  | inr (col, e) ↦ rw (e, resolve_scoped_collection) refl
]

-- The collections of a loaded definition are listed, and a name is listed exactly when a root
-- collection of that name resolves.
pub list_collections_iff :
    (lib : Ingitdb) (rt : Runtime) (goos : String) (def : Definition)
    → (names : List String) × (list_collections (ok def) ≡ ok names)
      × ((name : String)
          → contains names name
            ≡ is_ok (resolve_scoped_collection lib rt goos (some def) name none))
unfolding list_collections
list_collections_iff lib rt goos def = (
  sort_strings (keys def.collections),
  refl,
  λ name.
      contains-sort_strings (keys def.collections) name
      ∙ contains-keys def.collections name
      ∙ sym (resolve_root lib rt goos def name),
)
