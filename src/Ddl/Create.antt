-- ===== src/Ddl/Create.antt =====
-- schema_modifier.go: CreateCollection, DropCollection and AlterCollection on the definition files,
-- and the record files that an alteration rewrites.
use dalgo2ingitdb.Base.{
  ℕ, suc, String, Bool, true, false, ◌==◌, Option, none, some, List, [], ◌∷◌, if◌then◌else◌,
}
use dalgo2ingitdb.Base.Value.{Fields, end}
use dalgo2ingitdb.Base.Result.{Error, failure, quoted, wrapped, Result, ok, err}
use dalgo2ingitdb.Disk.{Os, Stat, found, missing}
use dalgo2ingitdb.Disk.Action.{pure, raise, lift, ◌>>=◌, ◌>>◌, wrap_error}
use dalgo2ingitdb.RecordIo.{Io, wrapping, with_exclusive_lock}
use dalgo2ingitdb.Paths as Paths
use dalgo2ingitdb.Paths.{split_slash}
use dalgo2ingitdb.Schema.{Bytes, CollectionInfo, RecordFile}
use dalgo2ingitdb.Registry.{Config, register_in_root_collections, deregister_from_root_collections}
use dalgo2ingitdb.Ddl.{Dbschema, CollectionDef}
use dalgo2ingitdb.Ddl.Names.{validate_collection_name}
use dalgo2ingitdb.Ddl.Build.{build_ingitdb_collection_def}
use dalgo2ingitdb.Ddl.Alter.{AlterOp, apply_op, flushed}

-- What the modifier calls besides: the YAML codec, `filepath.WalkDir` for the files whose names end
-- in .yaml, `os.RemoveAll`, and names of ingitdb-go.
pub record Files (os : Os) : Type 0 where
  pub marshal_definition : CollectionInfo → Result Bytes
  pub parse_definition : Bytes → Result CollectionInfo
  pub marshal_record : Fields → Result Bytes
  pub parse_record : Bytes → Result Fields
  pub walk_yaml : String → Io os (List String)
  pub remove_all : String → Io os (Unit {0})
  pub trim_space : String → String
  pub schema_dir : String
  pub definition_file_name : String
  -- `RecordsBasePath`
  pub records_base_path : RecordFile → String

-- `ddl.PartialSuccessError`: how many operations were applied, and its cause
pub data Alteration : Type 0 where
  altered : CollectionInfo → Alteration
  partial_success : ℕ → Error → Alteration

module _ (os : Os) (files : Files os) (config : Config os) (db : Dbschema)
    (project_path : String) where
  abbrev pub schema_path : String → String
  schema_path name = Paths.join (project_path ∷ name ∷ files.schema_dir ∷ [])

  abbrev pub definition_path : String → String
  definition_path name = Paths.join (schema_path name ∷ files.definition_file_name ∷ [])

  abbrev pub require_definition : String → String → Io os (Unit {0})
  require_definition message name s = elim (os.stat (definition_path name) s) [
    | found mode ↦ (ok tt, s)
    | missing ↦ (err (quoted message name), s)
    | Stat.failed e ↦ (err (wrapped message e), s)
  ]

  unfoldable pub write_collection_def_yaml : String → CollectionInfo → Io os (Unit {0})
  write_collection_def_yaml path def = do
    content ← lift (wrap_error (wrapped "marshal definition.yaml") (files.marshal_definition def))
    wrapping os "write" (os.write_file path content 0o644)

  unfoldable pub read_collection_def_yaml : String → Io os CollectionInfo
  read_collection_def_yaml path = do
    content ← λ s. (wrap_error (wrapped "read") (os.read_file path s), s)
    lift (wrap_error (wrapped "parse") (files.parse_definition content))

  -- An empty file is an empty record.
  abbrev pub parse_or_empty : Bytes → Result Fields
  parse_or_empty [] = ok end
  parse_or_empty (b ∷ bs) = wrap_error (wrapped "parse") (files.parse_record (b ∷ bs))

  unfoldable pub rewrite_record_file : (Fields → Fields) → String → Io os (Unit {0})
  unfolding with_exclusive_lock
  rewrite_record_file mutate path = with_exclusive_lock os path do
    content ← λ s. (wrap_error (wrapped "read") (os.read_file path s), s)
    rec ← lift (parse_or_empty content)
    out ← lift (wrap_error (wrapped "marshal") (files.marshal_record (mutate rec)))
    wrapping os "write" (os.write_file path out 0o644)

  abbrev pub rewrite_all : (Fields → Fields) → List String → Io os (Unit {0})
  rewrite_all mutate [] = pure tt
  rewrite_all mutate (path ∷ paths) = rewrite_record_file mutate path >> rewrite_all mutate paths

  unfoldable pub rewrite_record_files : String → String → (Fields → Fields) → Io os (Unit {0})
  unfolding rewrite_record_file
  rewrite_record_files dir format mutate s =
      if format == "yaml"
      then elim (os.stat dir s) [
        | missing ↦ (ok tt, s)
        | Stat.failed e ↦ (err (wrapped "rewriteRecordFiles stat" e), s)
        | found mode ↦ (files.walk_yaml dir >>= rewrite_all mutate) s
      ]
      else (ok tt, s)

  abbrev pub rewrite_if : String → String → Option (Fields → Fields) → Io os (Unit {0})
  rewrite_if dir format none = pure tt
  rewrite_if dir format (some mutate) = rewrite_record_files dir format mutate

  -- One operation, the record files that it rewrites, and the flush of the definition.
  unfoldable pub alter_step :
      String → String → String → AlterOp → CollectionInfo → Io os CollectionInfo
  unfolding apply_op rewrite_record_files write_collection_def_yaml
  alter_step path dir format op def = do
    applied ← lift (apply_op db op def)
    rewrite_if dir format applied.rewrite
    wrapping os "flush definition.yaml" (write_collection_def_yaml path (flushed applied))
    pure (flushed applied)

  -- The operations in their order; `done` of them are applied.
  unfoldable pub alter_steps :
      String → String → String → ℕ → List AlterOp → CollectionInfo → Io os Alteration
  unfolding alter_step
  alter_steps path dir format done [] def s = (ok (altered def), s)
  alter_steps path dir format done (op ∷ ops) def s =
      let (outcome, s') = alter_step path dir format op def s in
      elim outcome [
        | err e ↦ (ok (partial_success done e), s')
        | ok def' ↦ alter_steps path dir format (suc done) ops def' s'
      ]

  -- A definition without a record file makes the source panic.
  abbrev pub alter_records :
      String → String → List AlterOp → CollectionInfo → Option RecordFile → Io os Alteration
  alter_records name path ops def none = raise (failure "no record file")
  alter_records name path ops def (some file) =
      alter_steps path (Paths.join (project_path ∷ name ∷ files.records_base_path file ∷ []))
        file.format 0 ops def

  unfoldable pub alter_collection : String → List AlterOp → Io os Alteration
  unfolding validate_collection_name with_exclusive_lock read_collection_def_yaml alter_steps
  alter_collection name ops = do
    lift (wrap_error (wrapped "AlterCollection") (validate_collection_name files.trim_space name))
    require_definition "AlterCollection: collection not found" name
    with_exclusive_lock os (definition_path name) do
      def ← wrapping os "AlterCollection" (read_collection_def_yaml (definition_path name))
      alter_records name (definition_path name) ops def def.record_file

  abbrev pub register_if : Bool → String → Io os (Unit {0})
  register_if false name = pure tt
  register_if true name =
      wrapping os "CreateCollection" (register_in_root_collections os config project_path name)

  -- A definition at `path` in `dir`: an existing one is kept, or is an error.
  abbrev pub create_at : Bool → Bool → String → String → String → CollectionInfo → Io os (Unit {0})
  create_at is_root if_not_exists name dir path def s = elim (os.stat path s) [
    | found mode ↦
        if if_not_exists
        then register_if is_root name s
        else (err (quoted "CreateCollection: collection already exists" name), s)
    | Stat.failed e ↦ (err (wrapped "CreateCollection: stat" e), s)
    | missing ↦
        (wrapping os "CreateCollection: mkdir" (os.mkdir_all dir)
            >> (with_exclusive_lock os path (write_collection_def_yaml path def)
                >> register_if is_root name))
          s
  ]

  abbrev pub last_of : String → List String → String
  last_of name [] = name
  last_of name (seg ∷ segs) = last_of seg segs

  abbrev pub sub_schema_dir : String → List String → String
  sub_schema_dir dir [] = dir
  sub_schema_dir dir (seg ∷ segs) =
      sub_schema_dir (Paths.join (dir ∷ "subcollections" ∷ seg ∷ [])) segs

  -- Below the schema directory of a root collection that is there.
  unfoldable pub create_sub_collection :
      Bool → String → List String → CollectionDef db → Io os (Unit {0})
  unfolding build_ingitdb_collection_def write_collection_def_yaml with_exclusive_lock
      register_in_root_collections
  create_sub_collection if_not_exists root segs c = do
    require_definition "root collection must exist first" root
    def ← lift (
        wrap_error (wrapped "CreateCollection")
          (build_ingitdb_collection_def db (record c { name = last_of root segs })))
    create_at false if_not_exists c.name (sub_schema_dir (schema_path root) segs)
        (Paths.join (sub_schema_dir (schema_path root) segs ∷ files.definition_file_name ∷ [])) def

  abbrev pub create_segments : Bool → CollectionDef db → List String → Io os (Unit {0})
  create_segments if_not_exists c (root ∷ seg ∷ segs) =
      create_sub_collection if_not_exists root (seg ∷ segs) c
  create_segments if_not_exists c segs = do
    def ← lift (wrap_error (wrapped "CreateCollection") (build_ingitdb_collection_def db c))
    create_at true if_not_exists c.name (schema_path c.name) (definition_path c.name) def

  unfoldable pub create_collection : Bool → CollectionDef db → Io os (Unit {0})
  unfolding validate_collection_name create_sub_collection split_slash
  create_collection if_not_exists c = do
    lift
        (wrap_error (wrapped "CreateCollection") (validate_collection_name files.trim_space c.name))
    create_segments if_not_exists c (split_slash c.name)

  unfoldable pub drop_collection : Bool → String → Io os (Unit {0})
  unfolding validate_collection_name deregister_from_root_collections
  drop_collection if_exists name =
      lift (wrap_error (wrapped "DropCollection") (validate_collection_name files.trim_space name))
      >> λ s. elim (os.stat (definition_path name) s) [
        | missing ↦
            if if_exists
            then (ok tt, s)
            else (err (quoted "DropCollection: collection not found" name), s)
        | Stat.failed e ↦ (err (wrapped "DropCollection: stat" e), s)
        | found mode ↦
            (wrapping os "DropCollection: remove"
                  (files.remove_all (Paths.join (project_path ∷ name ∷ [])))
                >> wrapping os "DropCollection"
                    (deregister_from_root_collections os config project_path name))
              s
      ]
