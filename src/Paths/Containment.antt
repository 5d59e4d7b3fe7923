-- ===== src/Paths/Containment.antt =====
-- What `requireContainedPath` accepts lies strictly inside the directory.
use dalgo2ingitdb.Base.{
  String, ◌≡◌, refl, sym, Bool, true, false, some, List, [], ◌∷◌, ◌++◌, ◌==◌, eq_iff, arith,
  Bool-cases, Option-cases, inl, inr,
}
use dalgo2ingitdb.Base.Result.{ok, is_ok}
use dalgo2ingitdb.Paths.{
  CleanPath, clean, rel_elements, rel, same_bool, is_below, go_up, require_contained_path, join,
}

join_test : join ("/db/spaces" ∷ "" ∷ "../x/./a.yaml" ∷ []) ≡ "/db/x/a.yaml"
unfolding join
join_test = refl

escape_test : is_ok (require_contained_path "/db/spaces" "/db/spaces/../x") ≡ false
unfolding require_contained_path
escape_test = refl

no_step_up : (rest segs : List String) → segs ≡ ".." ∷ rest → is_below segs ≡ true → ⊥
no_step_up rest [] e k = cc
no_step_up rest (s ∷ segs) e k = ground (arith, eq_iff s "..")

-- A relative path with no step up is the rest of the target behind the base.
rel_elements-is_below :
    (base targ segs : List String)
    → rel_elements base targ ≡ some segs
    → is_below segs ≡ true
    → targ ≡ base ++ segs
unfolding rel_elements
rel_elements-is_below [] targ segs h k = ground arith
rel_elements-is_below (b ∷ base) [] segs h k = elim (Bool-cases (b == "..")) [
  | inl up ↦ absurd (let h' = rw up at h in ground arith)
  | inr plain ↦
      let h' = rw plain at h in
      absurd
        (no_step_up (go_up base) segs (let e : some (go_up (b ∷ base)) ≡ some segs = h' in cc) k)
]
rel_elements-is_below (b ∷ base) (t ∷ targ) segs h k = elim (Bool-cases (b == t)) [
  | inl same ↦ ground (arith, eq_iff b t, rel_elements-is_below base targ segs)
  | inr other ↦ elim (Bool-cases (b == "..")) [
    | inl up ↦ absurd (let h' = rw (other, up) at h in ground arith)
    | inr plain ↦
        let h' = rw (other, plain) at h in
        absurd (
          no_step_up (go_up base ++ t ∷ targ) segs
            (let e : some (go_up (b ∷ base) ++ t ∷ targ) ≡ some segs = h' in cc) k)
  ]
]

same_bool-eq : (a b : Bool) → same_bool a b ≡ true → a ≡ b
same_bool-eq true b h = ground arith
same_bool-eq false b h = ground arith

rel-some :
    (base targ : CleanPath) (segs : List String)
    → rel base targ ≡ some segs
    → (same_bool base.rooted targ.rooted ≡ true)
      × (rel_elements base.elements targ.elements ≡ some segs)
unfolding rel
rel-some base targ segs h = elim (Bool-cases (same_bool base.rooted targ.rooted)) [
  | inl same ↦ (same, rw same at h)
  | inr other ↦ absurd (let h' = rw other at h in ground arith)
]

-- `path` has the elements of `dir` and at least one more below them, and no step up follows `dir`.
pub record IsInside (dir path : String) : Type 0 where
  pub rooted : (clean path).rooted ≡ (clean dir).rooted
  pub below : List String
  pub elements : (clean path).elements ≡ (clean dir).elements ++ below
  pub strict : is_below below ≡ true

-- An accepted path lies strictly inside the directory.
pub require_contained_path-IsInside :
    (dir path : String) → require_contained_path dir path ≡ ok tt → IsInside dir path
unfolding require_contained_path
require_contained_path-IsInside dir path h = elim (Option-cases (rel (clean dir) (clean path))) [
  | inl fails ↦ absurd (let h' = rw (fails, require_contained_path) at h in ground arith)
  | inr (segs, found) ↦
      let h' = rw (found, require_contained_path) at h in
      let strict : is_below segs ≡ true = ground arith in
      let (same, e) = rel-some (clean dir) (clean path) segs found in
      record {
        rooted = sym (same_bool-eq _ _ same);
        below = segs;
        elements = rel_elements-is_below _ _ segs e strict;
        strict = strict;
      }
]
