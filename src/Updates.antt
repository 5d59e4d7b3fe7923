-- ===== src/Updates.antt =====
-- Field updates: tx_readwrite.go, lines 377 to 553. The map that the source changes in place is
-- returned; after an error every caller drops it.
pub mod Paths
use dalgo2ingitdb.Base.{
  String, ◌==◌, Bool, true, false, Option, none, some, List, [], ◌∷◌, if◌then◌else◌,
}
use dalgo2ingitdb.Base.Value.{
  ℤ, IntKind, int64, FloatKind, float64, Value, null, integer, floating, string, object, Fields,
  end, get_field, set_field, delete_field, or_null, Runtime, Float,
}
use dalgo2ingitdb.Base.Result.{Error, quoted, failure, Result, ok, err, ◌>>=◌}

-- `Value()` of an update: a plain value, one of the two sentinels, or a transform with its name.
pub data NewValue : Type 0 where
  plain : Value → NewValue
  delete_sentinel : NewValue
  server_timestamp : NewValue
  transform : String → Value → NewValue

pub record Update : Type 0 where
  pub field_name : String
  pub field_path : List String
  pub value : NewValue

-- The map under a segment; a missing one is created.
abbrev pub nested_map : Value → Option Fields
nested_map null = some end
nested_map (object m) = some m
nested_map v = none

-- The walk to the map that holds the leaf, with the missing maps created, and the change of the
-- leaf by `f`. No path is empty here.
unfoldable pub modify_at : (Value → Result Value) → List String → Fields → Result Fields
unfolding get_field set_field
modify_at f [] root = ok root
modify_at f (leaf ∷ []) root = do v ← f (or_null (get_field leaf root)); ok (set_field leaf v root)
modify_at f (segment ∷ next ∷ path) root = elim (nested_map (or_null (get_field segment root))) [
  | none ↦ err (quoted "field is not a map" segment)
  | some m ↦ do child ← modify_at f (next ∷ path) m; ok (set_field segment (object child) root)
]

unfoldable pub set_at : List String → Value → Fields → Result Fields
unfolding modify_at
set_at path v root = modify_at (λ old. ok v) path root

unfoldable pub apply_delete : List String → Fields → Fields
unfolding get_field set_field delete_field
apply_delete [] root = root
apply_delete (leaf ∷ []) root = delete_field leaf root
apply_delete (segment ∷ next ∷ path) root = elim (get_field segment root) [
  | some (object m) ↦ set_field segment (object (apply_delete (next ∷ path) m)) root
  | _ ↦ root
]

abbrev pub is_int : Value → Bool
is_int (integer k n) = true
is_int _ = false

module _ (rt : Runtime) where
  unfoldable pub to_numeric_float64 : Value → Option Float
  to_numeric_float64 (integer k n) = some (rt.of_int n)
  to_numeric_float64 (floating k x) = some (rt.widen k x)
  to_numeric_float64 v = none

  unfoldable pub is_integral : Float → Bool
  is_integral x = rt.float_eq x (rt.of_int (rt.to_int64 x))

  -- A missing or nil field counts as 0.
  unfoldable pub current_number : Value → Option Float
  unfolding to_numeric_float64
  current_number null = some rt.float_zero
  current_number v = to_numeric_float64 v

  -- An integer increment of a whole sum stays an integer.
  abbrev pub sum_value : Value → Float → Value
  sum_value delta x =
      if is_integral x
      then if is_int delta then integer int64 (rt.to_int64 x) else floating float64 x
      else floating float64 x

  unfoldable pub increment : Value → Value → Result Value
  unfolding to_numeric_float64 current_number is_integral
  increment delta old = elim (to_numeric_float64 delta) [
    | none ↦ err (failure "increment delta is not numeric")
    | some dx ↦ elim (current_number old) [
      | none ↦ err (failure "increment target field has non-numeric value")
      | some x ↦ ok (sum_value delta (rt.float_add x dx))
    ]
  ]

  unfoldable pub apply_increment : List String → Value → Fields → Result Fields
  unfolding modify_at increment
  apply_increment path delta root = modify_at (increment delta) path root

  -- `now` is the current time in RFC 3339 form.
  unfoldable pub apply_field_update : String → List String → NewValue → Fields → Result Fields
  unfolding set_at apply_delete apply_increment
  apply_field_update now path delete_sentinel root = ok (apply_delete path root)
  apply_field_update now path server_timestamp root = set_at path (string now) root
  apply_field_update now path (transform name v) root =
      if name == "increment"
      then apply_increment path v root
      else err (quoted "unsupported transform" name)
  apply_field_update now path (plain v) root = set_at path v root

  abbrev pub apply_update : String → Update → Fields → Result Fields
  apply_update now u root =
      if u.field_name == ""
      then elim u.field_path [
        | [] ↦ ok root
        | s ∷ ss ↦ apply_field_update now (s ∷ ss) u.value root
      ]
      else apply_field_update now (u.field_name ∷ []) u.value root

  unfoldable pub apply_updates : String → List Update → Fields → Result Fields
  unfolding apply_field_update
  apply_updates now [] root = ok root
  apply_updates now (u ∷ us) root = do root' ← apply_update now u root; apply_updates now us root'
