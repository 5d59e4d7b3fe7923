-- ===== src/Base/Order.antt =====
-- The order of Go strings: byte by byte, which on UTF-8 is the order of the code points.
use Prim.Native.Nat.{Ordering}
use Prim.Native.Char.{Char, code}
use Prim.Native.String.{String, [], ◌∷◌}
use mathlib.Core.Path.{◌≡◌, refl, ap₂}
use mathlib.Core.Bool.{Bool, true, false}
use native.Mathlib.Omega.{arith}
use text.Mathlib.TextEquality.{Char-path}
use dalgo2ingitdb.Base.Tests.{ltb, if◌then◌else◌}

-- `strings.Compare`
unfoldable pub str_compare : String → String → Ordering
str_compare [] [] = Ordering.eq
str_compare [] (d ∷ t) = Ordering.lt
str_compare (c ∷ s) [] = Ordering.gt
str_compare (c ∷ s) (d ∷ t) =
    if ltb (code c) (code d)
    then Ordering.lt
    else if ltb (code d) (code c)
    then Ordering.gt
    else str_compare s t

abbrev pub is_le : Ordering → Bool
is_le Ordering.gt = false
is_le _ = true

abbrev pub str_leb : String → String → Bool
str_leb s t = is_le (str_compare s t)

pub str_leb_total : (s t : String) → str_leb s t ≡ false → str_leb t s ≡ true
unfolding str_compare
str_leb_total [] [] h = ground arith
str_leb_total [] (d ∷ t) h = ground arith
str_leb_total (c ∷ s) [] h = ground arith
str_leb_total (c ∷ s) (d ∷ t) h = ground (arith, str_leb_total s t)

pub str_leb_trans : (s t u : String) → str_leb s t ≡ true → str_leb t u ≡ true → str_leb s u ≡ true
unfolding str_compare
str_leb_trans [] t [] h k = refl
str_leb_trans [] t (e ∷ u) h k = refl
str_leb_trans (c ∷ s) [] u h k = ground arith
str_leb_trans (c ∷ s) (d ∷ t) [] h k = ground arith
str_leb_trans (c ∷ s) (d ∷ t) (e ∷ u) h k = ground (arith, str_leb_trans s t u)

codes-eq : (c d : Char) → ltb (code c) (code d) ≡ false → ltb (code d) (code c) ≡ false → c ≡ d
codes-eq c d h k = Char-path c d (ground arith)

pub str_leb_antisymm : (s t : String) → str_leb s t ≡ true → str_leb t s ≡ true → s ≡ t
unfolding str_compare
str_leb_antisymm [] [] h k = refl
str_leb_antisymm [] (d ∷ t) h k = ground arith
str_leb_antisymm (c ∷ s) [] h k = ground arith
str_leb_antisymm (c ∷ s) (d ∷ t) h k =
    ap₂ ◌∷◌ (Char-path c d (ground arith)) (str_leb_antisymm s t (ground arith) (ground arith))

pub str_compare_flip :
    (s t : String) → (str_compare s t ≡ Ordering.lt) → str_compare t s ≡ Ordering.gt
unfolding str_compare
str_compare_flip [] [] h = ground arith
str_compare_flip [] (d ∷ t) h = refl
str_compare_flip (c ∷ s) [] h = ground arith
str_compare_flip (c ∷ s) (d ∷ t) h = ground (arith, str_compare_flip s t)

pub str_compare_refl : (s : String) → str_compare s s ≡ Ordering.eq
unfolding str_compare
str_compare_refl [] = refl
str_compare_refl (c ∷ s) = ground (arith, str_compare_refl s)
