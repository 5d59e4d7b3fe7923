-- ===== src/Ddl/Alter/Consistency.antt =====
-- Every alteration (schema_modifier.go) keeps the order of the columns within the columns, as
-- describeCollectionDefinition needs it.
use mathlib.Core.Path.{subst}
use dalgo2ingitdb.Base.{
  String, ◌==◌, ◌≡◌, refl, ap, ◌∙◌, Bool, true, false, not, ◌||◌, Option, none, some, List, [], ◌∷◌,
  ◌++◌, select, contains, arith, eq_iff, Bool-cases, Option-cases, inl, inr, if◌then◌else◌,
}
use dalgo2ingitdb.Base.Dict.{Dict, lookup, insert, erase, lookup-insert, lookup-erase}
use dalgo2ingitdb.Base.Result.{wrapped, ok, >>=-eq-ok}
use dalgo2ingitdb.Disk.Action.{wrap_error}
use dalgo2ingitdb.Schema.{ColumnType, ColumnDef, SourceSchema, CollectionInfo}
use dalgo2ingitdb.TypeMapping.{dbschema_type_to_ingitdb}
use dalgo2ingitdb.Ddl.{FieldDef, Dbschema}
use dalgo2ingitdb.Ddl.Build.{new_column}
use dalgo2ingitdb.Ddl.Alter.{
  AlterOp, add_field, drop_field, modify_field, rename_field, add_index, drop_index, Applied,
  rename_in, move_column, renamed, apply_add_field, apply_drop_field, apply_rename_field,
  apply_modify_field, modified_column, modify_source, named, after_source, apply_op, flushed,
}

abbrev pub is_there {ℓ} : {A : Type ℓ} → Option A → Bool
is_there none = false
is_there (some a) = true

abbrev pub has_column : String → Dict (Option ColumnDef) → Bool
has_column name columns = is_there (lookup name columns)

-- Each name of the order is a column.
abbrev pub IsOrdered : Dict (Option ColumnDef) → List String → Type 0
IsOrdered columns order =
    (name : String) → contains order name ≡ true → has_column name columns ≡ true

abbrev pub IsConsistent : CollectionInfo → Type 0
IsConsistent def = IsOrdered def.columns def.columns_order

contains-append :
    (xs : List String) (x name : String)
    → contains (xs ++ x ∷ []) name ≡ (contains xs name || x == name)
contains-append [] x name = ground arith
contains-append (y ∷ xs) x name = let ih = contains-append xs x name in ground (arith, ih)

contains-select :
    (drop' name : String) (xs : List String)
    → contains (select (λ n. not (n == drop')) xs) name ≡ true
    → (contains xs name ≡ true) × ((drop' == name) ≡ false)
contains-select drop' name [] h = cc h
contains-select drop' name (x ∷ xs) h =
    let ih = contains-select drop' name xs in
    ground (arith, eq_iff x drop', eq_iff x name, eq_iff drop' name, ih)

contains-rename_in :
    (from to name : String) (xs : List String)
    → contains (rename_in from to xs) name ≡ true
    → ((to == name) ≡ false)
    → (contains xs name ≡ true) × ((from == name) ≡ false)
contains-rename_in from to name [] h k = cc h
contains-rename_in from to name (x ∷ xs) h k =
    let ih = contains-rename_in from to name xs in
    ground (arith, eq_iff x from, eq_iff x name, eq_iff from name, eq_iff to name, ih)

has_column-insert :
    (key name : String) (col : Option ColumnDef) (columns : Dict (Option ColumnDef))
    → has_column name (insert key col columns)
      ≡ (if key == name then true else has_column name columns)
has_column-insert key name col columns =
    ap is_there (lookup-insert key name col columns)
    ∙ elim (Bool-cases (key == name)) [ inl e ↦ rw e refl | inr e ↦ rw e refl ]

has_column-erase :
    (key name : String) (columns : Dict (Option ColumnDef))
    → (key == name) ≡ false
    → has_column name (erase key columns) ≡ has_column name columns
has_column-erase key name columns e = ap is_there (lookup-erase key name columns ∙ rw e refl)

insert-IsOrdered :
    (key : String) (col : Option ColumnDef) (columns : Dict (Option ColumnDef))
    (order : List String)
    → IsOrdered columns order
    → IsOrdered (insert key col columns) order
insert-IsOrdered key col columns order h name k =
    let there = h name k in
    let i = has_column-insert key name col columns in ground (arith, there, i)

move_column-IsConsistent :
    (from to : String) (col : Option ColumnDef) (def : CollectionInfo)
    → IsConsistent def
    → IsConsistent (move_column from to col def)
move_column-IsConsistent from to col def h name k =
    let i = has_column-insert to name col (erase from def.columns) in
    elim (Bool-cases (to == name)) [
      | inl e ↦ i ∙ rw e refl
      | inr e ↦
          let (there, other) = contains-rename_in from to name def.columns_order k e in
          i ∙ rw e (has_column-erase from name def.columns other ∙ h name there)
    ]

ok_def : {a b : Applied} → ok a ≡ ok b → a.def ≡ b.def
ok_def e = cc e

renamed-IsConsistent :
    (message from to : String) (updated : Bool) (col : Option ColumnDef) (def : CollectionInfo)
    (a : Applied)
    → IsConsistent def
    → renamed message from to updated col def ≡ ok a
    → IsConsistent a.def
renamed-IsConsistent message from to updated col def a h e =
    elim (Option-cases (lookup to def.columns)) [
      | inl f ↦
          let e' = rw (f, renamed) at e in
          subst IsConsistent (ok_def e') (move_column-IsConsistent from to col def h)
      | inr (other, f) ↦ absurd (let e' = rw (f, renamed) at e in ground arith)
    ]

add_field-IsConsistent :
    (if_not_exists : Bool) (f : FieldDef) (def : CollectionInfo) (a : Applied)
    → IsConsistent def
    → apply_add_field if_not_exists f def ≡ ok a
    → IsConsistent a.def
unfolding apply_add_field
add_field-IsConsistent if_not_exists f def a h e = elim (Option-cases (lookup f.name def.columns)) [
  | inr (col, g) ↦ elim (Bool-cases if_not_exists) [
    | inl t ↦ let e' = rw (g, t, apply_add_field) at e in subst IsConsistent (ok_def e') h
    | inr t ↦ absurd (let e' = rw (g, t, apply_add_field) at e in ground arith)
  ]
  | inl g ↦
      let e' = rw (g, apply_add_field) at e in
      let (type, t, e'') =
        >>=-eq-ok (wrap_error (wrapped "AddField") (dbschema_type_to_ingitdb f.type)) _ e' in
      subst IsConsistent (ok_def e'') λ name k.
        let i = has_column-insert f.name name (some (new_column type f.nullable)) def.columns in
        let c = contains-append def.columns_order f.name name in
        let there = h name in ground (arith, i, c, there, k)
]

drop_field-IsConsistent :
    (if_exists : Bool) (dropped : String) (def : CollectionInfo) (a : Applied)
    → IsConsistent def
    → apply_drop_field if_exists dropped def ≡ ok a
    → IsConsistent a.def
unfolding apply_drop_field
drop_field-IsConsistent if_exists dropped def a h e =
    elim (Option-cases (lookup dropped def.columns)) [
      | inl g ↦ elim (Bool-cases if_exists) [
        | inl t ↦ let e' = rw (g, t, apply_drop_field) at e in subst IsConsistent (ok_def e') h
        | inr t ↦ absurd (let e' = rw (g, t, apply_drop_field) at e in ground arith)
      ]
      | inr (col, g) ↦
          let e' = rw (g, apply_drop_field) at e in
          subst IsConsistent (ok_def e') λ name k.
            let (there, other) = contains-select dropped name def.columns_order k in
            has_column-erase dropped name def.columns other ∙ h name there
    ]

rename_field-IsConsistent :
    (from to : String) (def : CollectionInfo) (a : Applied)
    → IsConsistent def
    → apply_rename_field from to def ≡ ok a
    → IsConsistent a.def
unfolding apply_rename_field
rename_field-IsConsistent from to def a h e = elim (Option-cases (lookup from def.columns)) [
  | inl g ↦ absurd (let e' = rw (g, apply_rename_field) at e in ground arith)
  | inr (col, g) ↦
      renamed-IsConsistent "RenameField: target name already in use" from to false col def a h
        (rw (g, apply_rename_field) at e)
]

module _ (db : Dbschema) where
  after_source-IsConsistent :
      (old : String) (new : FieldDef) (type : ColumnType) (col : Option ColumnDef)
      (def : CollectionInfo) (schema : Option SourceSchema) (updated : Bool) (a : Applied)
      → IsConsistent def
      → after_source db old new type col def (schema, updated) ≡ ok a
      → IsConsistent a.def
  after_source-IsConsistent old new type col def schema updated a h e =
      let col' = modified_column type new.nullable col in
      let def' : CollectionInfo = record def {
        source_schema = schema;
        columns = insert old col' def.columns;
      } in
      let kept : IsConsistent def' = insert-IsOrdered old col' def.columns def.columns_order h in
      elim (Bool-cases (new.name == old)) [
        | inl t ↦ let e' = rw t at e in subst IsConsistent (ok_def e') kept
        | inr t ↦
            renamed-IsConsistent "ModifyField: target name already in use" old new.name updated col'
              def' a kept (rw t at e)
      ]

  modify_field-IsConsistent :
      (old : String) (new : FieldDef) (def : CollectionInfo) (a : Applied)
      → IsConsistent def
      → apply_modify_field db old new def ≡ ok a
      → IsConsistent a.def
  unfolding apply_modify_field
  modify_field-IsConsistent old new def a h e = elim (Option-cases (lookup old def.columns)) [
    | inl g ↦ absurd (let e' = rw (g, apply_modify_field) at e in ground arith)
    | inr (col, g) ↦
        let e' = rw (g, apply_modify_field) at e in
        let (type, t, e₁) =
          >>=-eq-ok (wrap_error (wrapped "ModifyField") (dbschema_type_to_ingitdb new.type)) _ e' in
        let (source, s, e₂) =
          >>=-eq-ok (modify_source db old (named db old new) def.source_schema) _ e₁ in
        after_source-IsConsistent old (named db old new) type col def source.0 source.1 a h e₂
  ]

  -- An alteration that succeeds keeps each name of the order a column, in the definition that is
  -- flushed.
  pub apply_op-IsConsistent :
      (op : AlterOp) (def : CollectionInfo) (a : Applied)
      → IsConsistent def
      → apply_op db op def ≡ ok a
      → IsConsistent (flushed a)
  unfolding apply_op
  apply_op-IsConsistent (add_field o f) def a h e = add_field-IsConsistent o f def a h e
  apply_op-IsConsistent (drop_field o n) def a h e = drop_field-IsConsistent o n def a h e
  apply_op-IsConsistent (modify_field n f) def a h e = modify_field-IsConsistent n f def a h e
  apply_op-IsConsistent (rename_field m n) def a h e = rename_field-IsConsistent m n def a h e
  apply_op-IsConsistent add_index def a h e = subst IsConsistent (ok_def e) h
  apply_op-IsConsistent drop_index def a h e = subst IsConsistent (ok_def e) h
