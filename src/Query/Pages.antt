-- ===== src/Query/Pages.antt =====
-- The page of rows that a query (query.go) returns.
pub mod Whole
use dalgo2ingitdb.Base.{
  ℕ, zero, suc, ◌≤◌, ◌≡◌, refl, sym, ap, ◌∙◌, Bool, true, some, List, [], ◌∷◌, map, length, take,
  drop, select, All, ltb, leb, arith, Bool-cases, inl, inr,
}
use mathlib.Core.Path.{subst}
use dalgo2ingitdb.Base.Value.{ℤ, pos, negsuc, Value, Runtime}
use dalgo2ingitdb.Base.Result.{Result, ok, err, >>=-eq-ok}
use dalgo2ingitdb.Readers.Stored.{KeyedStored}
use dalgo2ingitdb.Query.{Condition, apply_where}
use dalgo2ingitdb.Query.Selection.{matches, is_true, apply_where-select}
use dalgo2ingitdb.Query.Execution.{
  SortPackage, StructuredQuery, OrderExpression, apply_offset, apply_limit, apply_order_by,
  sort_unless_empty, where_if, execute_on_rows,
}

module _ {ℓ} {A : Type ℓ} where
  drop_all : (n : ℕ) (rows : List A) → length rows ≤ n → drop n rows ≡ []
  drop_all zero [] h = refl
  drop_all zero (r ∷ rows) h = absurd (omega arith)
  drop_all (suc n) [] h = refl
  drop_all (suc n) (r ∷ rows) h = drop_all n rows (omega arith)

  take_all : (n : ℕ) (rows : List A) → length rows ≤ n → take n rows ≡ rows
  take_all zero [] h = refl
  take_all zero (r ∷ rows) h = absurd (omega arith)
  take_all (suc n) [] h = refl
  take_all (suc n) (r ∷ rows) h = ap (◌∷◌ r) (take_all n rows (omega arith))

  apply_offset-drop : (n : ℕ) (rows : List A) → apply_offset (pos n) rows ≡ drop n rows
  unfolding apply_offset
  apply_offset-drop zero rows = refl
  apply_offset-drop (suc n) rows = elim (Bool-cases (leb (length rows) (suc n))) [
    | inl e ↦ rw e (sym (drop_all (suc n) rows (ground arith)))
    | inr e ↦ rw e refl
  ]

  apply_limit-take : (n : ℕ) (rows : List A) → apply_limit (pos (suc n)) rows ≡ take (suc n) rows
  unfolding apply_limit
  apply_limit-take n rows = elim (Bool-cases (ltb (suc n) (length rows))) [
    | inl e ↦ rw e refl
    | inr e ↦ rw e (sym (take_all (suc n) rows (ground arith)))
  ]

  -- The rows behind the offset, up to the limit where it is not 0.
  abbrev pub page_of : ℕ → ℕ → List A → List A
  page_of offset zero rows = drop offset rows
  page_of offset (suc limit) rows = take (suc limit) (drop offset rows)

  pub apply_limit-apply_offset :
      (offset limit : ℕ) (rows : List A)
      → apply_limit (pos limit) (apply_offset (pos offset) rows) ≡ page_of offset limit rows
  unfolding apply_limit
  apply_limit-apply_offset offset zero rows = apply_offset-drop offset rows
  apply_limit-apply_offset offset (suc limit) rows =
      apply_limit-take limit (apply_offset (pos offset) rows)
      ∙ ap (take (suc limit)) (apply_offset-drop offset rows)

module _ {ℓ κ} {A : Type ℓ} {B : Type κ} (f : A → B) where
  map-drop : (n : ℕ) (rows : List A) → map f (drop n rows) ≡ drop n (map f rows)
  map-drop zero rows = refl
  map-drop (suc n) [] = refl
  map-drop (suc n) (r ∷ rows) = map-drop n rows

  map-take : (n : ℕ) (rows : List A) → map f (take n rows) ≡ take n (map f rows)
  map-take zero rows = refl
  map-take (suc n) [] = refl
  map-take (suc n) (r ∷ rows) = ap (◌∷◌ (f r)) (map-take n rows)

  pub map-page_of :
      (offset limit : ℕ) (rows : List A)
      → map f (page_of offset limit rows) ≡ page_of offset limit (map f rows)
  map-page_of offset zero rows = map-drop offset rows
  map-page_of offset (suc limit) rows =
      map-take (suc limit) (drop offset rows) ∙ ap (take (suc limit)) (map-drop offset rows)

module _ {ℓ κ} {A : Type ℓ} (P : A → Type κ) where
  All-drop : (n : ℕ) (rows : List A) → All P rows → All P (drop n rows)
  All-drop zero rows h = h
  All-drop (suc n) [] h = tt
  All-drop (suc n) (r ∷ rows) (p, h) = All-drop n rows h

  All-take : (n : ℕ) (rows : List A) → All P rows → All P (take n rows)
  All-take zero rows h = tt
  All-take (suc n) [] h = tt
  All-take (suc n) (r ∷ rows) (p, h) = (p, All-take n rows h)

  All-apply_offset : (n : ℤ) (rows : List A) → All P rows → All P (apply_offset n rows)
  unfolding apply_offset
  All-apply_offset (negsuc n) rows h = h
  All-apply_offset (pos n) rows h =
      subst (All P) (sym (apply_offset-drop n rows)) (All-drop n rows h)

  All-apply_limit : (n : ℤ) (rows : List A) → All P rows → All P (apply_limit n rows)
  unfolding apply_limit
  All-apply_limit (negsuc n) rows h = h
  All-apply_limit (pos zero) rows h = h
  All-apply_limit (pos (suc n)) rows h =
      subst (All P) (sym (apply_limit-take n rows)) (All-take (suc n) rows h)

  All-select : (p : A → Bool) (rows : List A) → ((r : A) → p r ≡ true → P r) → All P (select p rows)
  All-select p [] f = tt
  All-select p (r ∷ rows) f = elim (Bool-cases (p r)) [
    | inl e ↦ rw e (f r e, All-select p rows f)
    | inr e ↦ rw e (All-select p rows f)
  ]

module _ (rt : Runtime) (is_null_value : Value → Bool) where
  abbrev pub IsMatch : Condition → KeyedStored → Type 0
  IsMatch cond rec = matches rt is_null_value cond rec ≡ ok true

  true_match : (r : Result Bool) → is_true r ≡ true → r ≡ ok true
  true_match (ok b) e = ap (λ x. ok x) e
  true_match (err e') e = cc e

-- A sort only reorders, so what holds of every element still does.
pub record IsReordering (sort : SortPackage) : Type 1 where
  pub slice_stable-All :
      {A : Type 0} (P : A → Type 0) (less : A → A → Bool) (rows : List A)
      → All P rows
      → All P (sort.slice_stable less rows)

module _ (rt : Runtime) (is_null_value : Value → Bool) (sort : SortPackage)
    (reordering : IsReordering sort) where
  sorted-All :
      (P : KeyedStored → Type 0) (os all : List OrderExpression) (recs : List KeyedStored)
      → All P recs
      → All P (
          sort_unless_empty rt is_null_value sort os
            (apply_order_by rt is_null_value sort all)
            recs)
  unfolding apply_order_by
  sorted-All P [] all recs h = h
  sorted-All P (o ∷ os) all recs h = reordering.slice_stable-All P _ recs h

  -- Every row that a query without groups and columns returns satisfies its WHERE condition,
  -- whatever the order and the page.
  pub execute_on_rows-All :
      (query : StructuredQuery) (cond : Condition) (recs out : List KeyedStored)
      → query.where_condition ≡ some cond
      → query.group_by ≡ []
      → query.columns ≡ []
      → execute_on_rows rt is_null_value sort query recs ≡ ok out
      → All (IsMatch rt is_null_value cond) out
  unfolding execute_on_rows
  execute_on_rows-All query cond recs out w g c h =
      let (chosen, e, h') =
        >>=-eq-ok (where_if rt is_null_value sort query.where_condition recs) _ h in
      let e' : apply_where rt is_null_value cond recs ≡ ok chosen = rw w at e in
      let matching =
        All-select (IsMatch rt is_null_value cond)
          (λ rec. is_true (matches rt is_null_value cond rec)) recs
          (λ rec t. true_match rt is_null_value (matches rt is_null_value cond rec) t) in
      let all =
        subst (All (IsMatch rt is_null_value cond))
          (sym (apply_where-select rt is_null_value cond recs chosen e')) matching in
      let sorted =
        sorted-All (IsMatch rt is_null_value cond) query.order_by query.order_by chosen all in
      let page =
        All-apply_limit (IsMatch rt is_null_value cond) query.limit _
          (All-apply_offset (IsMatch rt is_null_value cond) query.offset _ sorted) in
      let h'' = rw g at h' in
      let same = rw c at h'' in subst (All (IsMatch rt is_null_value cond)) (cc same) page
