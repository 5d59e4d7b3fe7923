-- ===== src/Base/Value.antt =====
-- Go's `any` as this program meets it: what YAML, JSON, CSV and formulas deliver.
use Prim.Native.Nat.{ℕ}
use Prim.Native.String.{String}
use mathlib.Core.Path.{◌≡◌, refl}
use mathlib.Core.Bool.{Bool}
use mathlib.Core.Option.{Option, none, some}
use mathlib.Core.List.{List}
use native.Mathlib.Omega.{arith}
use text.Mathlib.Text.{◌==◌}
use text.Mathlib.TextEquality.{eq_iff}
use dalgo2ingitdb.Base.Tests.{if◌then◌else◌}

-- Signed integers over the native numbers; `negsuc n` is -(n + 1).
pub data ℤ : Type 0 where
  pos : ℕ → ℤ
  negsuc : ℕ → ℤ

pub data IntKind : Type 0 where
  int int8 int16 int32 int64 uint uint8 uint16 uint32 uint64 : IntKind

pub data FloatKind : Type 0 where
  float32 float64 : FloatKind

-- A float64 is its bit pattern, and its arithmetic is in the record `Runtime` below.
abbrev pub Float : Type 0
Float = ℕ

-- `opaque t p` is a value of another Go type `t` with the printed form `p`, such as a `time.Time`.
mutual
  pub data Value : Type 0 where
    null : Value
    bool : Bool → Value
    integer : IntKind → ℤ → Value
    floating : FloatKind → Float → Value
    string : String → Value
    bytes : List ℕ → Value
    list : Items → Value
    object : Fields → Value
    opaque : String → String → Value

  pub data Items : Type 0 where
    nil : Items
    cons : Value → Items → Items

  -- `map[string]any`
  pub data Fields : Type 0 where
    end : Fields
    field : String → Value → Fields → Fields

unfoldable pub get_field : String → Fields → Option Value
get_field k end = none
get_field k (field j v fs) = if j == k then some v else get_field k fs

-- `m[k]` without its `ok`: nil where the key is missing
abbrev pub or_null : Option Value → Value
or_null none = null
or_null (some v) = v

unfoldable pub set_field : String → Value → Fields → Fields
set_field k v end = field k v end
set_field k v (field j w fs) = if j == k then field k v fs else field j w (set_field k v fs)

unfoldable pub delete_field : String → Fields → Fields
delete_field k end = end
delete_field k (field j w fs) =
    let rest = delete_field k fs in if j == k then rest else field j w rest

pub get_field-set_field :
    (k j : String) (v : Value) (fs : Fields)
    → get_field j (set_field k v fs) ≡ (if k == j then some v else get_field j fs)
unfolding get_field set_field
get_field-set_field k j v end = refl
get_field-set_field k j v (field i w fs) =
    ground (arith, eq_iff k j, eq_iff i k, eq_iff i j, get_field-set_field k j v fs)

pub get_field-delete_field :
    (k j : String) (fs : Fields)
    → get_field j (delete_field k fs) ≡ (if k == j then none else get_field j fs)
unfolding get_field delete_field
get_field-delete_field k j end = ground arith
get_field-delete_field k j (field i w fs) =
    ground (arith, eq_iff k j, eq_iff i k, eq_iff i j, get_field-delete_field k j fs)

-- What the program uses of Go's float64 arithmetic and of `fmt`.
pub record Runtime : Type 0 where
  pub of_int : ℤ → Float
  pub to_int64 : Float → ℤ
  pub widen : FloatKind → Float → Float
  pub float_lt : Float → Float → Bool
  pub float_eq : Float → Float → Bool
  pub float_add : Float → Float → Float
  pub float_div : Float → Float → Float
  pub float_zero : Float
  -- `fmt.Sprintf("%v", v)` and `fmt.Sprintf("%T", v)`
  pub show : Value → String
  pub type_name : Value → String
  -- `base64.StdEncoding.DecodeString`
  pub decode_base64 : String → Option (List ℕ)
