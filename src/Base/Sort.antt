-- ===== src/Base/Sort.antt =====
-- `sort.Strings` and `sort.SliceStable` of the Go library, as the stable insertion sort.
use mathlib.Core.Path.{◌≡◌, refl, ◌∙◌}
use mathlib.Core.Bool.{Bool}
use mathlib.Core.List.{List, [], ◌∷◌, Permᴰ}
use native.Mathlib.Omega.{arith}
use Prim.Native.String.{String}
use dalgo2ingitdb.Base.Tests.{if◌then◌else◌}
use dalgo2ingitdb.Base.Order.{str_leb, str_leb_total, str_leb_trans, str_leb_antisymm}

module _ {ℓ} {A : Type ℓ} where
  -- `before x y` says that `x` may stand in front of a `y` that came later.
  unfoldable pub insert_sorted : (A → A → Bool) → A → List A → List A
  insert_sorted before x [] = x ∷ []
  insert_sorted before x (y ∷ ys) = if before x y then x ∷ y ∷ ys else y ∷ insert_sorted before x ys

  unfoldable pub sort : (A → A → Bool) → List A → List A
  unfolding insert_sorted
  sort before [] = []
  sort before (x ∷ xs) = insert_sorted before x (sort before xs)

unfoldable pub sort_strings : List String → List String
unfolding sort
sort_strings = sort str_leb

insert_swap :
    (x y : String) (l : List String)
    → insert_sorted str_leb x (insert_sorted str_leb y l)
      ≡ insert_sorted str_leb y (insert_sorted str_leb x l)
unfolding insert_sorted
insert_swap x y [] = ground (arith, str_leb_total x y, str_leb_antisymm x y)
insert_swap x y (z ∷ l) = ground (
  arith,
  insert_swap x y l,
  str_leb_total x y,
  str_leb_total x z,
  str_leb_total y z,
  str_leb_antisymm x y,
  str_leb_trans x y z,
  str_leb_trans y x z,
)

-- Sorting strings forgets the order in which they came, as from a range over a Go map.
pub sort_strings-perm : {l r : List String} → Permᴰ l r → sort_strings l ≡ sort_strings r
unfolding sort_strings sort
sort_strings-perm Permᴰ.nil = refl
sort_strings-perm (Permᴰ.cons {a = x} {l₁ = l} e p) = cc (e, sort_strings-perm p)
sort_strings-perm (Permᴰ.swap {a = x} {b = y} {l = l} e f) =
    insert_swap x y (sort str_leb l) ∙ cc (e, f)
sort_strings-perm (Permᴰ.trans p q) = sort_strings-perm p ∙ sort_strings-perm q
