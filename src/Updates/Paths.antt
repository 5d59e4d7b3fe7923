-- ===== src/Updates/Paths.antt =====
-- What a set and a deletion along a field path do to this and to every other path.
use dalgo2ingitdb.Base.{
  String, ◌≡◌, refl, sym, ◌∙◌, ◌==◌, eq_iff, eq_refl, arith, ap, Bool-cases, Option-cases, inl, inr,
  Bool, true, false, Option, none, some, List, [], ◌∷◌, if◌then◌else◌,
}
use dalgo2ingitdb.Base.Value.{
  Value, object, Fields, end, get_field, set_field, or_null, get_field-set_field,
  get_field-delete_field,
}
use dalgo2ingitdb.Base.Result.{ok, >>=-eq-ok}
use dalgo2ingitdb.Updates.{set_at, modify_at, nested_map, apply_delete}

-- The value at a path of nested maps.
unfoldable pub get_path : List String → Fields → Option Value
unfolding get_field
get_path [] root = none
get_path (leaf ∷ []) root = get_field leaf root
get_path (segment ∷ next ∷ path) root = elim (get_field segment root) [
  | some (object m) ↦ get_path (next ∷ path) m
  | _ ↦ none
]

-- The paths part at some segment: neither is a part of the other.
abbrev pub diverge : List String → List String → Bool
diverge [] q = false
diverge (a ∷ p) [] = false
diverge (a ∷ p) (b ∷ q) = if a == b then diverge p q else true

-- The fields under a segment, none where it is no map.
abbrev pub nested : String → Fields → Fields
nested s root = elim (get_field s root) [ some (object m) ↦ m | _ ↦ end ]

get_path-end : (q : List String) → get_path q end ≡ none
unfolding get_path get_field
get_path-end [] = refl
get_path-end (a ∷ []) = refl
get_path-end (a ∷ b ∷ q) = refl

get_path-nested :
    (s n : String) (q : List String) (root : Fields)
    → get_path (s ∷ n ∷ q) root ≡ get_path (n ∷ q) (nested s root)
unfolding get_path
get_path-nested s n q root = ground (arith, get_path-end (n ∷ q))

nested_map-nested :
    (s : String) (root m : Fields)
    → nested_map (or_null (get_field s root)) ≡ some m
    → m ≡ nested s root
nested_map-nested s root m h = ground arith

nested-set_field : (s : String) (m root : Fields) → nested s (set_field s (object m) root) ≡ m
nested-set_field s m root = ground (arith, get_field-set_field s s (object m) root, eq_refl s)

nested-other :
    (s b : String) (v : Value) (root : Fields)
    → (s == b) ≡ false
    → nested b (set_field s v root) ≡ nested b root
nested-other s b v root e = ground (arith, get_field-set_field s b v root)

set_at-step :
    (s n : String) (path : List String) (v : Value) (root after : Fields)
    → set_at (s ∷ n ∷ path) v root ≡ ok after
    → (child : Fields) × (set_at (n ∷ path) v (nested s root) ≡ ok child)
      × (after ≡ set_field s (object child) root)
unfolding set_at modify_at
set_at-step s n path v root after h =
    elim (Option-cases (nested_map (or_null (get_field s root)))) [
      | inl e ↦ absurd (let h' = rw (e, modify_at) at h in ground arith)
      | inr (m, e) ↦
          let h' = rw (e, modify_at) at h in
          let (child, made, set) = >>=-eq-ok (set_at (n ∷ path) v m) _ h' in
          let same = nested_map-nested s root m e in
          (child, ap (set_at (n ∷ path) v) (sym same) ∙ made, cc set)
    ]

-- After a set the path holds the value that was set.
pub set_at_self :
    (s : String) (path : List String) (v : Value) (root after : Fields)
    → set_at (s ∷ path) v root ≡ ok after
    → get_path (s ∷ path) after ≡ some v
unfolding set_at modify_at get_path
set_at_self s [] v root after h = ground (arith, get_field-set_field s s v root, eq_refl s)
set_at_self s (n ∷ path) v root after h =
    let (child, made, set) = set_at-step s n path v root after h in
    get_path-nested s n path after
    ∙ ap (get_path (n ∷ path)) (ap (nested s) set ∙ nested-set_field s child root)
    ∙ set_at_self n path v (nested s root) child made

-- A set changes no path that parts from its own.
pub set_at_other :
    (s : String) (path : List String) (q : List String) (v : Value) (root after : Fields)
    → set_at (s ∷ path) v root ≡ ok after
    → diverge (s ∷ path) q ≡ true
    → get_path q after ≡ get_path q root
unfolding set_at modify_at get_path
set_at_other s path [] v root after h apart = refl
set_at_other s [] (b ∷ []) v root after h apart = ground (arith, get_field-set_field s b v root)
set_at_other s [] (b ∷ c ∷ q) v root after h apart = ground (arith, get_field-set_field s b v root)
set_at_other s (n ∷ path) (b ∷ []) v root after h apart =
    let (child, made, set) = set_at-step s n path v root after h in
    ground (arith, set, get_field-set_field s b (object child) root)
set_at_other s (n ∷ path) (b ∷ c ∷ q) v root after h apart =
    let (child, made, set) = set_at-step s n path v root after h in
    get_path-nested b c q after
    ∙ elim (Bool-cases (s == b)) [
      | inl e ↦
          ap (get_path (c ∷ q)) (
            ap (λ k. nested k after) (sym ((eq_iff s b).0 e))
            ∙ ap (nested s) set
            ∙ nested-set_field s child root)
          ∙ set_at_other n path (c ∷ q) v (nested s root) child made (rw e at apart)
          ∙ ap (λ k. get_path (c ∷ q) (nested k root)) ((eq_iff s b).0 e)
      | inr e ↦ ap (get_path (c ∷ q)) (ap (nested b) set ∙ nested-other s b (object child) root e)
    ]
    ∙ sym (get_path-nested b c q root)

-- After a deletion the path holds nothing.
apply_delete_gone :
    (s : String) (path : List String) (root : Fields)
    → get_path (s ∷ path) (apply_delete (s ∷ path) root) ≡ none
unfolding apply_delete get_path
apply_delete_gone s [] root = ground (arith, get_field-delete_field s s root, eq_refl s)
apply_delete_gone s (n ∷ path) root =
    let under = apply_delete (n ∷ path) (nested s root) in
    ground (
      arith,
      get_field-set_field s s (object under) root,
      eq_refl s,
      apply_delete_gone n path (nested s root),
    )
