-- ===== src/Query/Pages/Whole.antt =====
-- A query with an offset and a limit (query.go) against the same query without them.
use dalgo2ingitdb.Base.{
  suc, Bool, ℕ, String, ◌≡◌, ◌≢◌, ◌⊎◌, inl, inr, refl, sym, ap, ◌∙◌, List, [], ◌∷◌, map,
}
use dalgo2ingitdb.Base.Value.{pos, Value, Fields, Runtime}
use dalgo2ingitdb.Base.Result.{ok, >>=-eq-ok}
use dalgo2ingitdb.Readers.Stored.{KeyedStored}
use dalgo2ingitdb.Query.Grouping.{ColumnExpression, Group, partition}
use dalgo2ingitdb.Query.Execution.{
  SortPackage, StructuredQuery, apply_offset, apply_limit, apply_order_by, sort_unless_empty,
  project_groups, having_if, order_groups, number_rows, apply_group_by, grouped_or_not, where_if,
  execute_on_rows,
}
use dalgo2ingitdb.Query.Pages.{page_of, apply_limit-apply_offset, map-page_of}

abbrev pub unpaged : StructuredQuery → StructuredQuery
unpaged query = record query { offset = pos 0; limit = pos 0 }

-- What a row is compared by. The key of a grouped row is its number on the page.
abbrev pub row_of : List ColumnExpression → KeyedStored → String × Fields
row_of [] rec = (rec.key, rec.stored)
row_of (e ∷ es) rec = ("", rec.stored)

same_rows : {A : Type 0} {a b : A} → ok a ≡ ok b → a ≡ b
same_rows h = cc h

module _ (rt : Runtime) (is_null_value : Value → Bool) (sort : SortPackage) where
  map-number_rows :
      (e : ColumnExpression) (es : List ColumnExpression) (i : ℕ) (gs : List (Fields × Group))
      → map (row_of (e ∷ es)) (number_rows rt is_null_value sort i gs) ≡ map (λ g. ("", g.0)) gs
  unfolding number_rows
  map-number_rows e es i [] = refl
  map-number_rows e es i ((out, g) ∷ gs) = ap (◌∷◌ ("", out)) (map-number_rows e es (suc i) gs)

  -- The page is cut as the source cuts it.
  abbrev IsPage :
      List ColumnExpression → StructuredQuery → ℕ → ℕ → List KeyedStored → List KeyedStored → Type 0
  IsPage groups query offset limit chosen all =
      (out : List KeyedStored) × (grouped_or_not rt is_null_value sort groups query chosen ≡ ok out)
      × (map (row_of groups) out ≡ page_of offset limit (map (row_of groups) all))

  ungrouped-IsPage :
      (query : StructuredQuery) (offset limit : ℕ) (chosen all : List KeyedStored)
      → query.columns ≡ []
      → query.offset ≡ pos offset
      → query.limit ≡ pos limit
      → grouped_or_not rt is_null_value sort [] (unpaged query) chosen ≡ ok all
      → IsPage [] query offset limit chosen all
  unfolding apply_offset apply_limit
  ungrouped-IsPage query offset limit chosen all c o l h =
      let sorted : List KeyedStored =
        sort_unless_empty rt is_null_value sort query.order_by
          (apply_order_by rt is_null_value sort query.order_by) chosen in
      let same : sorted ≡ all = same_rows (rw c at h) in
      let paged = apply_limit-apply_offset offset limit sorted in
      (
        page_of offset limit sorted,
        rw (c, o, l) (ap (λ x. ok x) paged),
        map-page_of (row_of []) offset limit sorted
            ∙ ap (λ rows. page_of offset limit (map (row_of []) rows)) same,
      )

  grouped-IsPage :
      (e : ColumnExpression) (es : List ColumnExpression) (query : StructuredQuery)
      (offset limit : ℕ) (chosen all : List KeyedStored)
      → query.offset ≡ pos offset
      → query.limit ≡ pos limit
      → grouped_or_not rt is_null_value sort (e ∷ es) (unpaged query) chosen ≡ ok all
      → IsPage (e ∷ es) query offset limit chosen all
  unfolding apply_group_by apply_offset apply_limit
  grouped-IsPage e es query offset limit chosen all o l h =
      let (groups, e₁, h₁) = >>=-eq-ok (partition rt is_null_value query.group_by [] chosen) _ h in
      let (projected, e₂, h₂) =
        >>=-eq-ok (project_groups rt is_null_value sort query.columns groups) _ h₁ in
      let (kept, e₃, h₃) =
        >>=-eq-ok (having_if rt is_null_value sort query.having projected) _ h₂ in
      let sorted : List (Fields × Group) =
        sort_unless_empty rt is_null_value sort query.order_by
          (order_groups rt is_null_value sort query.order_by) kept in
      let same : number_rows rt is_null_value sort 0 sorted ≡ all = same_rows h₃ in
      let numbered = λ (gs : List (Fields × Group)). map-number_rows e es 0 gs in
      (
        number_rows rt is_null_value sort 0 (page_of offset limit sorted),
        rw (e₁, e₂, e₃, o, l)
            (ap (λ x. ok (number_rows rt is_null_value sort 0 x))
              (apply_limit-apply_offset offset limit sorted)),
        numbered (page_of offset limit sorted)
            ∙ map-page_of (λ g. ("", g.0)) offset limit sorted
            ∙ ap (page_of offset limit) (sym (numbered sorted))
            ∙ ap (λ rows. page_of offset limit (map (row_of (e ∷ es)) rows)) same,
      )

  any-IsPage :
      (groups : List ColumnExpression) (query : StructuredQuery) (offset limit : ℕ)
      (chosen all : List KeyedStored)
      → (groups ≢ []) ⊎ (query.columns ≡ [])
      → query.offset ≡ pos offset
      → query.limit ≡ pos limit
      → grouped_or_not rt is_null_value sort groups (unpaged query) chosen ≡ ok all
      → IsPage groups query offset limit chosen all
  any-IsPage [] query offset limit chosen all (inl n) o l h = absurd (n refl)
  any-IsPage [] query offset limit chosen all (inr c) o l h =
      ungrouped-IsPage query offset limit chosen all c o l h
  any-IsPage (e ∷ es) query offset limit chosen all k o l h =
      grouped-IsPage e es query offset limit chosen all o l h

  -- A query that groups its rows or projects no columns, with an offset and a limit, returns the
  -- rows behind the offset up to the limit of what it returns without them, or all of them behind
  -- the offset where the limit is 0. Ungrouped rows keep their keys; grouped rows are numbered anew.
  pub execute_on_rows-page :
      (query : StructuredQuery) (offset limit : ℕ) (recs all : List KeyedStored)
      → (query.group_by ≢ []) ⊎ (query.columns ≡ [])
      → query.offset ≡ pos offset
      → query.limit ≡ pos limit
      → execute_on_rows rt is_null_value sort (unpaged query) recs ≡ ok all
      → (out : List KeyedStored) × (execute_on_rows rt is_null_value sort query recs ≡ ok out)
        × (map (row_of query.group_by) out ≡ page_of offset limit (map (row_of query.group_by) all))
  unfolding execute_on_rows
  execute_on_rows-page query offset limit recs all k o l h =
      let (chosen, e, h') =
        >>=-eq-ok (where_if rt is_null_value sort query.where_condition recs) _ h in
      let (out, done, page) = any-IsPage query.group_by query offset limit chosen all k o l h' in
      (out, rw e done, page)
