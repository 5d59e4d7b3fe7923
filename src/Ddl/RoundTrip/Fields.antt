-- ===== src/Ddl/RoundTrip/Fields.antt =====
-- The fields of a portable schema as describeCollectionDefinition (schema_reader.go) finds them.
use mathlib.Core.Path.{subst}
use mathlib.Core.List.{append_assoc}
use dalgo2ingitdb.Base.{
  ℕ, suc, ◌+◌, String, ◌==◌, ◌≡◌, refl, ap, Bool, true, false, not, ◌&&◌, Option, none, some, List,
  [], ◌∷◌, ◌++◌, length, contains, All, arith, eq_refl,
}
use dalgo2ingitdb.Base.Dict.{Dict}
use dalgo2ingitdb.Base.Value.{pos}
use dalgo2ingitdb.Base.Result.{ok}
use dalgo2ingitdb.Schema.{ColumnType, ColumnDef}
use dalgo2ingitdb.TypeMapping.{DbType, dbschema_type_to_ingitdb, ingitdb_type_to_dbschema}
use dalgo2ingitdb.Ddl.{no_default, FieldDef}
use dalgo2ingitdb.Ddl.Describe.{position_of, describe_fields, pk_field_name}
use dalgo2ingitdb.Ddl.RoundTrip.{names, Distinct, HasColumn, both_false}

same_type : {a b : ColumnType} → ok a ≡ ok b → a ≡ b
same_type h = cc h

typed_as :
    (t : DbType) {a b : ColumnType}
    → a ≡ b
    → ingitdb_type_to_dbschema a ≡ ok t
    → ingitdb_type_to_dbschema b ≡ ok t
typed_as t e h = subst (λ c. ingitdb_type_to_dbschema c ≡ ok t) e h

-- A type that has a column type is described by some type.
described_type :
    (t : DbType) (type : ColumnType)
    → dbschema_type_to_ingitdb t ≡ ok type
    → (t' : DbType) × (ingitdb_type_to_dbschema type ≡ ok t')
unfolding dbschema_type_to_ingitdb ingitdb_type_to_dbschema
described_type DbType.bool type h = (DbType.bool, typed_as DbType.bool (same_type h) refl)
described_type DbType.int type h = (DbType.int, typed_as DbType.int (same_type h) refl)
described_type DbType.float type h = (DbType.float, typed_as DbType.float (same_type h) refl)
described_type DbType.decimal type h = (DbType.string, typed_as DbType.string (same_type h) refl)
described_type DbType.string type h = (DbType.string, typed_as DbType.string (same_type h) refl)
described_type DbType.bytes type h = (DbType.string, typed_as DbType.string (same_type h) refl)
described_type DbType.time type h = (DbType.time, typed_as DbType.time (same_type h) refl)
described_type DbType.null type h = cc h
described_type (DbType.other n) type h = cc h

and_false : (b : Bool) → (b && false) ≡ false
and_false true = refl
and_false false = refl

-- A described field has the name of the field.
abbrev pub NamesMatch : List FieldDef → List FieldDef → Type 0
NamesMatch [] [] = Unit
NamesMatch (f ∷ fs) (g ∷ gs) = (g.name ≡ f.name) × NamesMatch fs gs
NamesMatch [] (g ∷ gs) = ⊥
NamesMatch (f ∷ fs) [] = ⊥

pub describe_fields-names :
    (columns : Dict (Option ColumnDef)) (fs : List FieldDef)
    → All (HasColumn columns) fs
    → All (λ f. (f.name == pk_field_name) ≡ false) fs
    → (gs : List FieldDef) × (describe_fields false columns (names fs) ≡ ok gs) × NamesMatch fs gs
unfolding describe_fields
describe_fields-names columns [] h k = ([], refl, tt)
describe_fields-names columns (f ∷ fs) ((type, typed, there), h) (no_key, k) =
    let (gs, e, m) = describe_fields-names columns fs h k in
    let (t', e') = described_type f.type type typed in
    let g : FieldDef = record {
      name = f.name;
      type = t';
      nullable = not (not f.nullable);
      auto_increment = false;
      length = pos 0;
      default = no_default;
      precision = none;
    } in
    (g ∷ gs, rw (and_false (f.name == "$ID"), no_key, there, e', e) refl, (refl, m))

-- The position of a name behind other fields.
position_of-append :
    (pre rest : List FieldDef) (k i : ℕ) (n : String)
    → position_of (k + length pre) n rest ≡ some i
    → position_of k n (pre ++ rest) ≡ some i
unfolding position_of
position_of-append [] rest k i n h =
    subst (λ m. position_of m n rest ≡ some i) (let z : k + 0 ≡ k = omega arith in z) h
position_of-append (p ∷ pre) rest k i n h =
    let ih = position_of-append pre rest (suc k) i n (
      subst (λ m. position_of m n rest ≡ some i)
        (let z : k + suc (length pre) ≡ suc k + length pre = omega arith in z) h) in
    rw ih refl

position_of-none :
    (k : ℕ) (n : String) (fs : List FieldDef)
    → contains (names fs) n ≡ false
    → position_of k n fs ≡ none
unfolding position_of
position_of-none k n [] h = refl
position_of-none k n (f ∷ fs) h =
    let (other, h') = both_false (f.name == n) (contains (names fs) n) h in
    rw (position_of-none (suc k) n fs h', other) refl

position_of_head :
    (k : ℕ) (g : FieldDef) (gs : List FieldDef)
    → contains (names gs) g.name ≡ false
    → position_of k g.name (g ∷ gs) ≡ some k
unfolding position_of
position_of_head k g gs h = rw (position_of-none (suc k) g.name gs h, eq_refl g.name) refl

-- Each field stands at its position.
abbrev pub IsPlaced : List FieldDef → ℕ → List FieldDef → Type 0
IsPlaced all i [] = Unit
IsPlaced all i (g ∷ gs) = (position_of 0 g.name all ≡ some i) × IsPlaced all (suc i) gs

length_snoc : (pre : List FieldDef) (g : FieldDef) → length (pre ++ g ∷ []) ≡ suc (length pre)
length_snoc [] g = refl
length_snoc (p ∷ pre) g = ap suc (length_snoc pre g)

pub placed : (pre gs : List FieldDef) → Distinct (names gs) → IsPlaced (pre ++ gs) (length pre) gs
placed pre [] d = tt
placed pre (g ∷ gs) (n, d) =
    let head = position_of-append pre (g ∷ gs) 0 (length pre) g.name (
      subst (λ m. position_of m g.name (g ∷ gs) ≡ some (length pre))
        (let z : length pre ≡ 0 + length pre = omega arith in z)
        (position_of_head (length pre) g gs n)) in
    let tail = placed (pre ++ g ∷ []) gs d in
    (
      head,
      subst (λ all. IsPlaced all (suc (length pre)) gs) (append_assoc pre (g ∷ []) gs)
          (subst (λ i. IsPlaced ((pre ++ g ∷ []) ++ gs) i gs) (length_snoc pre g) tail),
    )
