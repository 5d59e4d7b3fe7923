-- ===== src/Ddl/Alter.antt =====
-- schema_modifier.go, AlterCollection and its applier: the changes of a definition, one after
-- another, each flushed to the definition file.
pub mod Consistency
use dalgo2ingitdb.Base.{
  ℕ, suc, String, Bool, true, false, not, ◌&&◌, ◌==◌, Option, none, some, List, [], ◌∷◌, ◌++◌, map,
  select, if◌then◌else◌,
}
use dalgo2ingitdb.Base.Dict.{Dict, lookup, insert, erase}
use dalgo2ingitdb.Base.Value.{Fields, end, get_field, set_field, delete_field}
use dalgo2ingitdb.Base.Result.{Error, failure, quoted, wrapped, Result, ok, err, ◌>>=◌}
use dalgo2ingitdb.Disk.Action.{wrap_error}
use dalgo2ingitdb.Schema.{ColumnType, ColumnDef, SourceField, SourceSchema, CollectionInfo}
use dalgo2ingitdb.TypeMapping.{dbschema_type_to_ingitdb}
use dalgo2ingitdb.Ddl.{FieldDef, Dbschema, CollectionDef}
use dalgo2ingitdb.Ddl.Build.{new_column, build_fields}

-- `ddl.AlterOp`, with the option that each heeds
pub data AlterOp : Type 0 where
  add_field : Bool → FieldDef → AlterOp
  drop_field : Bool → String → AlterOp
  modify_field : String → FieldDef → AlterOp
  rename_field : String → String → AlterOp
  add_index : AlterOp
  drop_index : AlterOp

-- The definition after an operation, whether it set the source of a field, and what it does to
-- every record file.
pub record Applied : Type 0 where
  pub def : CollectionInfo
  pub source_fields_updated : Bool
  pub rewrite : Option (Fields → Fields)

abbrev pub unchanged : CollectionInfo → Applied
unchanged def = record { def = def; source_fields_updated = false; rewrite = none }

abbrev pub rename_in : String → String → List String → List String
rename_in from to [] = []
rename_in from to (n ∷ ns) = (if n == from then to else n) ∷ rename_in from to ns

unfoldable pub rename_key : String → String → Fields → Fields
unfolding get_field set_field delete_field
rename_key from to rec = elim (get_field from rec) [
  | none ↦ rec
  | some v ↦ delete_field from (set_field to v rec)
]

-- The column moves to its new name, in the map and in the order.
abbrev pub move_column : String → String → Option ColumnDef → CollectionInfo → CollectionInfo
move_column from to col def = record def {
  columns = insert to col (erase from def.columns);
  columns_order = rename_in from to def.columns_order;
}

abbrev pub replace_first : String → SourceField → List SourceField → Option (List SourceField)
replace_first name new [] = none
replace_first name new (s ∷ ss) =
    if s.name == name
    then some (new ∷ ss)
    else elim (replace_first name new ss) [ none ↦ none | some rest ↦ some (s ∷ rest) ]

unfoldable pub apply_add_field : Bool → FieldDef → CollectionInfo → Result Applied
unfolding lookup insert dbschema_type_to_ingitdb
apply_add_field if_not_exists f def = elim (lookup f.name def.columns) [
  | some col ↦
      if if_not_exists
      then ok (unchanged def)
      else err (quoted "AddField: column already exists" f.name)
  | none ↦ wrap_error (wrapped "AddField") (dbschema_type_to_ingitdb f.type) >>= λ type. ok (
      unchanged (record def {
        columns = insert f.name (some (new_column type f.nullable)) def.columns;
        columns_order = def.columns_order ++ f.name ∷ [];
      }))
]

unfoldable pub apply_drop_field : Bool → String → CollectionInfo → Result Applied
unfolding lookup erase delete_field
apply_drop_field if_exists name def = elim (lookup name def.columns) [
  | none ↦
      if if_exists then ok (unchanged def) else err (quoted "DropField: column does not exist" name)
  | some col ↦ ok (record {
    def = record def {
      columns = erase name def.columns;
      columns_order = select (λ n. not (n == name)) def.columns_order;
    };
    source_fields_updated = false;
    rewrite = some (delete_field name);
  })
]

-- A rename to a name in use fails; a column that is renamed is renamed in every record file.
abbrev pub renamed :
    String → String → String → Bool → Option ColumnDef → CollectionInfo → Result Applied
renamed message from to updated col def = elim (lookup to def.columns) [
  | some other ↦ err (quoted message to)
  | none ↦ ok (record {
    def = move_column from to col def;
    source_fields_updated = updated;
    rewrite = some (rename_key from to);
  })
]

unfoldable pub apply_rename_field : String → String → CollectionInfo → Result Applied
unfolding lookup insert erase rename_key
apply_rename_field from to def = elim (lookup from def.columns) [
  | none ↦ err (quoted "RenameField: column does not exist" from)
  | some col ↦ renamed "RenameField: target name already in use" from to false col def
]

abbrev pub modified_column : ColumnType → Bool → Option ColumnDef → Option ColumnDef
modified_column type nullable none = none
modified_column type nullable (some col) =
    some (record col { type = type; required = not nullable })

module _ (db : Dbschema) where
  -- The source of the field, of a definition that is no export.
  unfoldable pub modify_source :
      String → FieldDef → Option SourceSchema → Result (Option SourceSchema × Bool)
  unfolding build_fields
  modify_source old new none = ok (none, false)
  modify_source old new (some schema) =
      if schema.key_mode == ""
      then (wrap_error (wrapped "ModifyField source metadata") (build_fields db [] (new ∷ []))
          >>= λ built. ok (elim built.sources [
            | [] ↦ (some schema, false)
            | source ∷ sources ↦ elim (replace_first old source schema.fields) [
              | none ↦ (some schema, false)
              | some fields ↦ (some (record schema { fields = fields }), true)
            ]
          ]))
      else ok (some schema, false)

  abbrev pub named : String → FieldDef → FieldDef
  named name f = record f { name = if f.name == "" then name else f.name }

  abbrev pub after_source :
      String
      → FieldDef
      → ColumnType
      → Option ColumnDef
      → CollectionInfo
      → Option SourceSchema × Bool
      → Result Applied
  after_source old new type col def (schema, updated) =
      let col' = modified_column type new.nullable col in
      let def' = record def { source_schema = schema; columns = insert old col' def.columns } in
      if new.name == old
      then ok (record { def = def'; source_fields_updated = updated; rewrite = none })
      else renamed "ModifyField: target name already in use" old new.name updated col' def'

  unfoldable pub apply_modify_field : String → FieldDef → CollectionInfo → Result Applied
  unfolding lookup insert erase rename_key dbschema_type_to_ingitdb modify_source
  apply_modify_field old new def = elim (lookup old def.columns) [
    | none ↦ err (quoted "ModifyField: column does not exist" old)
    | some col ↦ wrap_error (wrapped "ModifyField") (dbschema_type_to_ingitdb new.type) >>= λ type.
        modify_source old (named old new) def.source_schema >>= λ source.
        after_source old (named old new) type col def source
  ]

  unfoldable pub apply_op : AlterOp → CollectionInfo → Result Applied
  unfolding apply_add_field apply_drop_field apply_modify_field apply_rename_field
  apply_op (add_field if_not_exists f) def = apply_add_field if_not_exists f def
  apply_op (drop_field if_exists name) def = apply_drop_field if_exists name def
  apply_op (modify_field name f) def = apply_modify_field name f def
  apply_op (rename_field from to) def = apply_rename_field from to def
  apply_op add_index def = ok (unchanged def)
  apply_op drop_index def = ok (unchanged def)

-- Hints on the sources of the fields are dropped where an operation did not set them.
abbrev pub discard_stale : Bool → Option SourceSchema → Option SourceSchema
discard_stale updated none = none
discard_stale updated (some schema) =
    if schema.key_mode == "" && not updated
    then some (record schema { fields = [] })
    else some schema

-- The definition that is flushed after an operation.
abbrev pub flushed : Applied → CollectionInfo
flushed a = record a.def {
  source_schema = discard_stale a.source_fields_updated a.def.source_schema;
}
