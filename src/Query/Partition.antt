-- ===== src/Query/Partition.antt =====
-- The groups of GROUP BY (query.go) are the rows of each key, in their order.
use mathlib.Core.Path.{subst}
use mathlib.Core.List.{append_assoc, append-nil}
use dalgo2ingitdb.Base.{
  String, ◌≡◌, ◌≢◌, refl, sym, ap, ◌∙◌, Bool, true, false, List, [], ◌∷◌, ◌++◌, ◌==◌, arith, eq_iff,
  Bool-cases, inl, inr, if◌then◌else◌,
}
use dalgo2ingitdb.Base.Value.{Value, Fields, Runtime}
use dalgo2ingitdb.Base.Result.{Result, ok, err, >>=-eq-ok}
use dalgo2ingitdb.Readers.Stored.{KeyedStored}
use dalgo2ingitdb.Query.Grouping.{ColumnExpression, Group, add_row, group_key_str, partition}

separator_test : "\0" ≡ String.◌∷◌ "\0" ""
separator_test = refl

-- The rows of the group of a key, none where there is no such group.
abbrev pub rows_of : String → List Group → List Fields
rows_of key [] = []
rows_of key (g ∷ gs) = if g.key == key then g.rows else rows_of key gs

abbrev pub has_group : String → List Group → Bool
has_group key [] = false
has_group key (g ∷ gs) = if g.key == key then true else has_group key gs

-- Each group has rows, and no other group has its key.
abbrev pub IsPartition : List Group → Type 0
IsPartition [] = Unit
IsPartition (g ∷ gs) = (g.rows ≢ []) × (has_group g.key gs ≡ false) × IsPartition gs

append_some : (rows : List Fields) (row : Fields) → (rows ++ row ∷ []) ≢ []
append_some [] row e = cc e
append_some (r ∷ rows) row e = cc e

rows_of-add_row :
    (asked key : String) (row : Fields) (gs : List Group)
    → rows_of asked (add_row key row gs)
      ≡ (if key == asked then rows_of asked gs ++ row ∷ [] else rows_of asked gs)
unfolding add_row
rows_of-add_row asked key row [] = refl
rows_of-add_row asked key row (g ∷ gs) =
    let ih = rows_of-add_row asked key row gs in
    ground (arith, eq_iff key asked, eq_iff g.key key, eq_iff g.key asked, ih)

has_group-add_row :
    (asked key : String) (row : Fields) (gs : List Group)
    → has_group asked (add_row key row gs) ≡ (if key == asked then true else has_group asked gs)
unfolding add_row
has_group-add_row asked key row [] = refl
has_group-add_row asked key row (g ∷ gs) =
    let ih = has_group-add_row asked key row gs in
    ground (arith, eq_iff key asked, eq_iff g.key key, eq_iff g.key asked, ih)

add_row-IsPartition :
    (key : String) (row : Fields) (gs : List Group)
    → IsPartition gs
    → IsPartition (add_row key row gs)
unfolding add_row
add_row-IsPartition key row [] h = (append_some [] row, refl, tt)
add_row-IsPartition key row (g ∷ gs) (some, alone, h) = elim (Bool-cases (g.key == key)) [
  | inl e ↦ rw e (append_some g.rows row, alone, h)
  | inr e ↦
      let kept = has_group-add_row g.key key row gs in
      let apart : has_group g.key (add_row key row gs) ≡ false =
        ground (arith, eq_iff key g.key, eq_iff g.key key, kept) in
      rw e (some, apart, add_row-IsPartition key row gs h)
]

module _ (rt : Runtime) (is_null_value : Value → Bool) (group_by : List ColumnExpression) where
  abbrev pub is_key : String → Result String → Bool
  is_key key (ok k) = k == key
  is_key key (err e) = false

  -- The rows whose GROUP BY values give this key, in their order.
  abbrev pub rows_with : String → List KeyedStored → List Fields
  rows_with key [] = []
  rows_with key (rec ∷ recs) =
      if is_key key (group_key_str rt is_null_value group_by rec.stored rec.key)
      then rec.stored ∷ rows_with key recs
      else rows_with key recs

  joined :
      (k key : String) (rec : KeyedStored) (recs : List KeyedStored) (groups : List Group)
      → group_key_str rt is_null_value group_by rec.stored rec.key ≡ ok k
      → rows_of key (add_row k rec.stored groups) ++ rows_with key recs
        ≡ rows_of key groups ++ rows_with key (rec ∷ recs)
  joined k key rec recs groups f = elim (Bool-cases (k == key)) [
    | inl e ↦
        rw (rows_of-add_row key k rec.stored groups, f, e)
          (append_assoc (rows_of key groups) (rec.stored ∷ []) (rows_with key recs))
    | inr e ↦ rw (rows_of-add_row key k rec.stored groups, f, e) refl
  ]

  partition_from :
      (groups out : List Group) (recs : List KeyedStored)
      → IsPartition groups
      → partition rt is_null_value group_by groups recs ≡ ok out
      → ((key : String) → rows_of key out ≡ rows_of key groups ++ rows_with key recs)
        × IsPartition out
  unfolding partition
  partition_from groups out [] h e =
      let same : groups ≡ out = cc e in
      (
        (λ key. ap (rows_of key) (sym same) ∙ sym (append-nil (rows_of key groups))),
        subst IsPartition same h,
      )
  partition_from groups out (rec ∷ recs) h e =
      let (k, f, e') = >>=-eq-ok (group_key_str rt is_null_value group_by rec.stored rec.key) _ e in
      let (rows, split) =
        partition_from (add_row k rec.stored groups) out recs
          (add_row-IsPartition k rec.stored groups h) e' in
      ((λ key. rows key ∙ joined k key rec recs groups f), split)

  -- Groups that are made at all hold, under each key, exactly the rows of that key in their order;
  -- no key has two groups, and no group is empty.
  pub partition_rows :
      (groups : List Group) (recs : List KeyedStored)
      → partition rt is_null_value group_by [] recs ≡ ok groups
      → ((key : String) → rows_of key groups ≡ rows_with key recs) × IsPartition groups
  partition_rows groups recs e = partition_from [] groups recs tt e
