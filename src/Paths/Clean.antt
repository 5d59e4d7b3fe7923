-- ===== src/Paths/Clean.antt =====
-- `filepath.Clean` is idempotent, so the cleaned text of a path stands for its file.
use mathlib.Core.List.{reverse, foldl, foldl-append, reverse-cons}
use dalgo2ingitdb.Base.{
  String, Char, code, ◌<>◌, ◌≡◌, refl, sym, ap, ◌∙◌, Bool, true, false, ◌||◌, ◌&&◌, not, List, [],
  ◌∷◌, ◌++◌, ◌==◌, eq_iff, arith, eqb, Bool-cases, inl, inr, All,
}
use dalgo2ingitdb.Paths.{
  split_slash, push_char, clean_step, clean_elements, is_rooted, clean, join_slash, render,
}
use text.Mathlib.TextLemmas.{cons-append, nil-append}

abbrev pub has_slash : String → Bool
has_slash String.[] = false
has_slash (String.◌∷◌ c s) = eqb (code c) b'/' || has_slash s

abbrev pub IsPlain : String → Type 0
IsPlain s = has_slash s ≡ false

-- An element that cleaning keeps.
abbrev pub IsKept : String → Type 0
IsKept s = IsPlain s × ((s == "") ≡ false) × ((s == ".") ≡ false)

-- Cleaned elements, back to front: a step up has only steps up before it, and none at a root.
abbrev pub IsClean : Bool → List String → Type 0
IsClean rooted [] = Unit
IsClean rooted (s ∷ []) = IsKept s × (((s == "..") && rooted) ≡ false)
IsClean rooted (s ∷ t ∷ out) =
    IsKept s × (((s == "..") && not (t == "..")) ≡ false) × IsClean rooted (t ∷ out)

split_slash-All : (s : String) → All IsPlain (split_slash s)
unfolding split_slash
split_slash-All String.[] = (refl, tt)
split_slash-All (String.◌∷◌ c s) = elim (Bool-cases (eqb (code c) b'/')) [
  | inl slash ↦ rw slash (refl, split_slash-All s)
  | inr other ↦ rw other (push_char-All c (split_slash s) other (split_slash-All s))
]
  where
    push_char-All :
        (c : Char) (ss : List String)
        → eqb (code c) b'/' ≡ false
        → All IsPlain ss
        → All IsPlain (push_char c ss)
    push_char-All c [] p h = (ground arith, tt)
    push_char-All c (s ∷ ss) p (h, k) = (ground arith, k)

clean_step-IsClean :
    (rooted : Bool) (out : List String) (seg : String)
    → IsPlain seg
    → IsClean rooted out
    → IsClean rooted (clean_step rooted out seg)
clean_step-IsClean rooted [] seg p h = ground arith
clean_step-IsClean rooted (last ∷ []) seg p h = ground arith
clean_step-IsClean rooted (last ∷ t ∷ out) seg p h = ground arith

fold-IsClean :
    (rooted : Bool) (segs out : List String)
    → All IsPlain segs
    → IsClean rooted out
    → IsClean rooted (foldl (clean_step rooted) out segs)
fold-IsClean rooted [] out p h = h
fold-IsClean rooted (seg ∷ segs) out (p, ps) h =
    fold-IsClean rooted segs (clean_step rooted out seg) ps (clean_step-IsClean rooted out seg p h)

clean_elements-foldl :
    (rooted : Bool) (out segs : List String)
    → clean_elements rooted out segs ≡ reverse (foldl (clean_step rooted) out segs)
unfolding clean_elements
clean_elements-foldl rooted out [] = refl
clean_elements-foldl rooted out (seg ∷ segs) =
    clean_elements-foldl rooted (clean_step rooted out seg) segs

-- Cleaning takes cleaned elements as they are.
clean_step_kept :
    (rooted : Bool) (s : String) (out : List String)
    → IsClean rooted (s ∷ out)
    → clean_step rooted out s ≡ s ∷ out
clean_step_kept rooted s [] h = ground arith
clean_step_kept rooted s (t ∷ out) h = ground arith

IsClean-tail :
    (rooted : Bool) (s : String) (out : List String) → IsClean rooted (s ∷ out) → IsClean rooted out
IsClean-tail rooted s [] h = tt
IsClean-tail rooted s (t ∷ out) h = h.2

fold-reverse :
    (rooted : Bool) (out : List String)
    → IsClean rooted out
    → foldl (clean_step rooted) [] (reverse out) ≡ out
fold-reverse rooted [] h = refl
fold-reverse rooted (s ∷ out) h =
    rw (reverse-cons s out, foldl-append, fold-reverse rooted out (IsClean-tail rooted s out h))
      (clean_step_kept rooted s out h)

split-plain_append :
    (s r : String) → IsPlain s → split_slash (s <> String.◌∷◌ "/" r) ≡ s ∷ split_slash r
unfolding split_slash
split-plain_append String.[] r h = rw nil-append refl
split-plain_append (String.◌∷◌ c s) r h =
    rw (cons-append, split_slash) (rw (split-plain_append s r (ground arith)) (ground arith))

split-plain : (s : String) → IsPlain s → split_slash s ≡ s ∷ []
unfolding split_slash
split-plain String.[] h = refl
split-plain (String.◌∷◌ c s) h = rw (split-plain s (ground arith)) (ground arith)

split-join :
    (s : String) (ss : List String)
    → All IsPlain (s ∷ ss)
    → split_slash (join_slash (s ∷ ss)) ≡ s ∷ ss
unfolding join_slash
split-join s [] (h, k) = split-plain s h
split-join s (t ∷ ss) (h, k) = rw cons-append (
    rw nil-append
      (rw (split-plain_append s (join_slash (t ∷ ss)) h) (ap (◌∷◌ s) (split-join t ss k))))

All-append : (xs ys : List String) → All IsKept xs → All IsKept ys → All IsKept (xs ++ ys)
All-append [] ys h k = k
All-append (x ∷ xs) ys (p, h) k = (p, All-append xs ys h k)

All-reverse : (xs : List String) → All IsKept xs → All IsKept (reverse xs)
All-reverse [] h = tt
All-reverse (x ∷ xs) (p, h) =
    rw (reverse-cons x xs) (All-append (reverse xs) (x ∷ []) (All-reverse xs h) (p, tt))

IsClean-All : (rooted : Bool) (out : List String) → IsClean rooted out → All IsKept out
IsClean-All rooted [] h = tt
IsClean-All rooted (s ∷ []) h = (h.0, tt)
IsClean-All rooted (s ∷ t ∷ out) h = (h.0, IsClean-All rooted (t ∷ out) h.2)

All-IsPlain : (xs : List String) → All IsKept xs → All IsPlain xs
All-IsPlain [] h = tt
All-IsPlain (x ∷ xs) (p, h) = (p.0, All-IsPlain xs h)

is_rooted-join :
    (s : String) (ss : List String) → IsKept s → is_rooted (join_slash (s ∷ ss)) ≡ false
unfolding join_slash
is_rooted-join String.[] ss h = absurd (ground (arith, eq_iff "" ""))
is_rooted-join (String.◌∷◌ c s) [] h = ground arith
is_rooted-join (String.◌∷◌ c s) (t ∷ ss) h = rw cons-append (ground arith)

clean_elements_kept :
    (rooted : Bool) (out : List String)
    → IsClean rooted out
    → clean_elements rooted [] (reverse out) ≡ reverse out
clean_elements_kept rooted out h =
    clean_elements-foldl rooted [] (reverse out) ∙ ap reverse (fold-reverse rooted out h)

IsKept-reverse :
    (rooted : Bool) (es out : List String) → reverse out ≡ es → IsClean rooted out → All IsKept es
IsKept-reverse rooted es out e h = rw e at (All-reverse out (IsClean-All rooted out h))

pub clean-render :
    (rooted : Bool) (es out : List String)
    → reverse out ≡ es
    → IsClean rooted out
    → clean (render (record { rooted = rooted; elements = es }))
      ≡ record { rooted = rooted; elements = es }
unfolding clean render clean_elements split_slash
clean-render true [] out e h = refl
clean-render false [] out e h = refl
clean-render true (s ∷ ss) out e h =
    let kept = IsKept-reverse true (s ∷ ss) out e h in
    let again : clean_elements true [] (s ∷ ss) ≡ s ∷ ss =
      rw e at (clean_elements_kept true out h) in
    rw (split-join s ss (All-IsPlain (s ∷ ss) kept))
      (λ i. record { rooted = true; elements = again i })
clean-render false (s ∷ ss) out e h =
    let kept = IsKept-reverse false (s ∷ ss) out e h in
    let again : clean_elements false [] (s ∷ ss) ≡ s ∷ ss =
      rw e at (clean_elements_kept false out h) in
    rw (is_rooted-join s ss kept.0, split-join s ss (All-IsPlain (s ∷ ss) kept))
      (λ i. record { rooted = false; elements = again i })

pub clean_idem : (path : String) → clean (render (clean path)) ≡ clean path
unfolding clean
clean_idem path =
    let rooted = is_rooted path in
    let out = foldl (clean_step rooted) [] (split_slash path) in
    clean-render rooted (clean path).elements out
      (sym (clean_elements-foldl rooted [] (split_slash path)))
      (fold-IsClean rooted (split_slash path) [] (split_slash-All path) tt)

-- The elements of a cleaned path, back to front.
pub clean-IsClean :
    (path : String)
    → (out : List String) × (reverse out ≡ (clean path).elements) × IsClean (is_rooted path) out
unfolding clean
clean-IsClean path =
    let rooted = is_rooted path in
    (
      foldl (clean_step rooted) [] (split_slash path),
      sym (clean_elements-foldl rooted [] (split_slash path)),
      fold-IsClean rooted (split_slash path) [] (split_slash-All path) tt,
    )
