-- ===== src/Rooted/Scope/Inside.antt =====
-- Paths that rooted_files.go takes stay below the scope, and only allowed scopes are opened.
use mathlib.Core.Path.{subst}
use mathlib.Core.List.{reverse, reverse-cons}
use dalgo2ingitdb.Base.{
  String, ◌≡◌, refl, sym, ap, ◌∙◌, Bool, false, ◌||◌, List, [], ◌∷◌, ◌++◌, ◌==◌, arith, Bool-cases,
  inl, inr, All,
}
use dalgo2ingitdb.Base.Result.{ok}
use dalgo2ingitdb.Paths.{CleanPath, clean, is_rooted}
use dalgo2ingitdb.Paths.Clean.{IsClean, clean-IsClean}
use dalgo2ingitdb.Rooted.Scope.{has_byte, leaves_root, rooted_relative_path}

-- An element that does not step up.
abbrev pub IsDown : String → Type 0
IsDown seg = (seg == "..") ≡ false

All-append : (xs ys : List String) → All IsDown xs → All IsDown ys → All IsDown (xs ++ ys)
All-append [] ys h k = k
All-append (x ∷ xs) ys (p, h) k = (p, All-append xs ys h k)

All-last : (xs : List String) (t : String) → All IsDown (xs ++ t ∷ []) → IsDown t
All-last [] t h = h.0
All-last (x ∷ xs) t h = All-last xs t h.1

leaves_root-append :
    (xs : List String) (t s : String)
    → leaves_root ((xs ++ t ∷ []) ++ s ∷ []) ≡ leaves_root (xs ++ t ∷ [])
leaves_root-append [] t s = refl
leaves_root-append (x ∷ xs) t s = refl

-- Without a step up at the front there is none at all.
reverse-All :
    (rooted : Bool) (out : List String)
    → IsClean rooted out
    → leaves_root (reverse out) ≡ false
    → All IsDown (reverse out)
reverse-All rooted [] c h = tt
reverse-All rooted (s ∷ []) c h = (h, tt)
reverse-All rooted (s ∷ t ∷ out) c h =
    let l = leaves_root-append (reverse out) t s in
    let h' : leaves_root (reverse (t ∷ out)) ≡ false =
      ap leaves_root (reverse-cons t out)
      ∙ sym l
      ∙ sym (ap leaves_root (reverse-cons s (t ∷ out) ∙ ap (λ r. r ++ s ∷ []) (reverse-cons t out)))
      ∙ h in
    let ih = reverse-All rooted (t ∷ out) c.2 h' in
    let last = All-last (reverse out) t (rw (reverse-cons t out) at ih) in
    let both = c.1 in
    rw (reverse-cons s (t ∷ out))
      (All-append (reverse (t ∷ out)) (s ∷ []) ih ((ground (arith, last, both)), tt))

-- A path that is taken is relative, has an element, and never steps up.
pub rooted_relative_path-IsDown :
    (value : String) (path : CleanPath)
    → rooted_relative_path value ≡ ok path
    → (path ≡ clean value) × (path.rooted ≡ false) × All IsDown path.elements
unfolding rooted_relative_path clean
rooted_relative_path-IsDown value path h =
    let unusable = value == "" || has_byte b'\\' value || is_rooted value in
    elim (Bool-cases unusable) [
      | inl e ↦ absurd (let h' = rw (e, rooted_relative_path) at h in ground arith)
      | inr e ↦ elim (Bool-cases (leaves_root (clean value).elements)) [
        | inl f ↦ absurd (let h' = rw (e, f, rooted_relative_path) at h in ground arith)
        | inr f ↦
            let h' : ok (clean value) ≡ ok path = rw (e, f, rooted_relative_path) at h in
            let same : clean value ≡ path = cc h' in
            let (out, g, c) = clean-IsClean value in
            let down = rw g at (reverse-All (is_rooted value) out c (ap leaves_root g ∙ f)) in
            (
              sym same,
              sym (ap (λ q. q.rooted) same) ∙ ground (arith, e),
              subst (λ q. All IsDown q.elements) same down,
            )
      ]
    ]
