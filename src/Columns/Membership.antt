-- ===== src/Columns/Membership.antt =====
-- Which columns the ordered lists hold.
use dalgo2ingitdb.Base.{
  String, ◌≡◌, ◌↔◌, refl, sym, ap, ◌∙◌, Bool, true, false, not, ◌&&◌, ◌||◌, List, [], ◌∷◌, ◌++◌,
  ◌==◌, eq_iff, eq_refl, arith, contains, select, Bool-cases, inl, inr,
}
use dalgo2ingitdb.Base.Dict.{lookup, NodupKeys}
use dalgo2ingitdb.Base.Sort.{sort_strings, sort, insert_sorted}
use dalgo2ingitdb.Base.Order.{str_leb}
use dalgo2ingitdb.Base.Value.{Fields}
use dalgo2ingitdb.Base.Result.{ok}
use dalgo2ingitdb.Schema.{ColumnDef, CollectionInfo}
use dalgo2ingitdb.Columns.{
  Columns, is_wanted, remaining, from_order, order_columns, ordered_columns,
  ordered_computed_columns, is_computed, has_field, reject_stored,
  validate_no_stored_computed_values,
}

contains-append :
    (xs ys : List String) (k : String) → contains (xs ++ ys) k ≡ (contains xs k || contains ys k)
contains-append [] ys k = refl
contains-append (x ∷ xs) ys k = ground (arith, contains-append xs ys k)

contains-insert_sorted :
    (x : String) (l : List String) (k : String)
    → contains (insert_sorted str_leb x l) k ≡ (x == k || contains l k)
unfolding insert_sorted
contains-insert_sorted x [] k = refl
contains-insert_sorted x (y ∷ l) k = ground (arith, contains-insert_sorted x l k)

pub contains-sort_strings :
    (l : List String) (k : String) → contains (sort_strings l) k ≡ contains l k
unfolding sort_strings sort
contains-sort_strings [] k = refl
contains-sort_strings (x ∷ l) k =
    contains-insert_sorted x (sort str_leb l) k ∙ ap (λ b. x == k || b) (contains-sort_strings l k)

pub contains-select :
    (p : String → Bool) (l : List String) (k : String)
    → contains (select p l) k ≡ (contains l k && p k)
contains-select p [] k = refl
contains-select p (x ∷ l) k = ground (arith, contains-select p l k, eq_iff x k)

contains-remaining :
    (pred : ColumnDef → Bool) (seen : List String) (cols : Columns) (k : String)
    → NodupKeys cols
    → contains (remaining pred seen cols) k
      ≡ (is_wanted pred (lookup k cols) && not (contains seen k))
unfolding remaining lookup
contains-remaining pred seen [] k u = refl
contains-remaining pred seen ((j, c) ∷ cols) k (fresh, u) =
    ground (arith, contains-remaining pred seen cols k u, eq_iff j k)

contains-order_columns :
    (cols : Columns) (order : List String) (pred : ColumnDef → Bool) (k : String)
    → NodupKeys cols
    → contains (order_columns cols order pred) k ≡ is_wanted pred (lookup k cols)
unfolding order_columns from_order lookup
contains-order_columns [] order pred k u = refl
contains-order_columns (entry ∷ cols) order pred k u =
    let fields = from_order pred (entry ∷ cols) order in
    contains-append fields _ k
    ∙ ap (λ b. contains fields k || b)
        (contains-sort_strings (remaining pred fields (entry ∷ cols)) k
          ∙ contains-remaining pred fields (entry ∷ cols) k u)
    ∙ settle (contains fields k) (is_wanted pred (lookup k (entry ∷ cols))) (contains order k)
        (contains-select (λ j. is_wanted pred (lookup j (entry ∷ cols))) order k)
  where
    settle : (f w o : Bool) → f ≡ (o && w) → (f || (w && not f)) ≡ w
    settle f w o e = ground arith

-- The ordered list holds exactly the wanted columns of the collection.
pub contains-ordered_columns :
    (col : CollectionInfo) (pred : ColumnDef → Bool) (k : String)
    → NodupKeys col.columns
    → contains (ordered_columns col pred) k ≡ is_wanted pred (lookup k col.columns)
unfolding ordered_columns
contains-ordered_columns col pred k u =
    contains-order_columns col.columns col.columns_order pred k u

reject_stored_sound :
    (fields : List String) (data' : Fields) (k : String)
    → reject_stored fields data' ≡ ok tt
    → contains fields k ≡ true
    → has_field k data' ≡ false
unfolding reject_stored
reject_stored_sound [] data' k h m = absurd (ground arith)
reject_stored_sound (f ∷ fields) data' k h m = elim (Bool-cases (has_field f data')) [
  | inl stored ↦ absurd (let h' = rw (stored, reject_stored) at h in ground arith)
  | inr free ↦
      let h' = rw (free, reject_stored) at h in
      ground (arith, eq_iff f k, reject_stored_sound fields data' k h')
]

reject_stored_complete :
    (fields : List String) (data' : Fields)
    → ((k : String) → contains fields k ≡ true → has_field k data' ≡ false)
    → reject_stored fields data' ≡ ok tt
unfolding reject_stored
reject_stored_complete [] data' h = refl
reject_stored_complete (f ∷ fields) data' h =
    rw (h f (ground (arith, eq_refl f)), reject_stored)
      (reject_stored_complete fields data' (λ k m. h k (ground arith)))

-- A write is free of stored computed values exactly when no field of it names a computed column.
pub validate_no_stored_computed_values_iff :
    (col : CollectionInfo) (data' : Fields)
    → NodupKeys col.columns
    → (validate_no_stored_computed_values col data' ≡ ok tt) ↔ (
        (k : String)
        → is_wanted is_computed (lookup k col.columns) ≡ true
        → has_field k data' ≡ false)
unfolding validate_no_stored_computed_values ordered_computed_columns
validate_no_stored_computed_values_iff col data' u =
    let same = λ (k : String). contains-ordered_columns col is_computed k u in
    (
      λ h k w. reject_stored_sound _ data' k h (same k ∙ w),
      λ h. reject_stored_complete _ data' (λ k m. h k (sym (same k) ∙ m)),
    )
