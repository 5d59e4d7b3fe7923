-- ===== src/Columns/Order.antt =====
-- The ordered lists do not depend on the order in which `range` visits the columns.
use mathlib.Core.Path.{subst, subst₂, fun_ext}
use mathlib.Core.List.{Permᴰ}
use mathlib.Core.List.Permᴰ
use dalgo2ingitdb.Base.{
  String, ◌≡◌, refl, sym, ap, ◌∙◌, Bool, false, not, ◌&&◌, Option, some, List, [], ◌∷◌, ◌++◌, ◌==◌,
  eq_iff, arith, contains, select, Bool-cases, inl, inr, if◌then◌else◌,
}
use dalgo2ingitdb.Base.Dict.{lookup, NodupKeys}
use dalgo2ingitdb.Base.Sort.{sort_strings, sort_strings-perm}
use dalgo2ingitdb.Schema.{ColumnDef, CollectionInfo}
use dalgo2ingitdb.Columns.{
  Columns, is_wanted, remaining, from_order, order_columns, ordered_columns,
}

abbrev Entry : Type 0
Entry = String × Option ColumnDef

SameMap : Columns → Columns → Type 0
SameMap m n = NodupKeys n × ((k : String) → lookup k m ≡ lookup k n)

swap-SameMap : (a b : Entry) (m : Columns) → NodupKeys (a ∷ b ∷ m) → SameMap (a ∷ b ∷ m) (b ∷ a ∷ m)
unfolding lookup SameMap
swap-SameMap (i, c) (j, d) m (fresh, (fresh', u)) =
    let apart : (j == i) ≡ false = ground arith in
    (
      (ground (arith, eq_iff i j, eq_iff j i), (ground arith, u)),
      λ k. ground (arith, eq_iff i k, eq_iff j k, eq_iff j i),
    )

-- Permuting the entries of a map changes no lookup and repeats no key.
lookup-perm : {m n : Columns} → Permᴰ m n → NodupKeys m → SameMap m n
unfolding lookup SameMap
lookup-perm Permᴰ.nil u = (tt, λ k. refl)
lookup-perm (Permᴰ.cons {a = (i, c)} {b = (j, d)} {l₁ = m} {l₂ = n} e p) (fresh, u) =
    let (v, same) = lookup-perm p u in
    let key : i ≡ j = ap (λ (x : Entry). x.0) e in
    let value : c ≡ d = ap (λ (x : Entry). x.1) e in
    ((cc (same i, same j, fresh, ap (λ k. lookup k n) key), v), λ k. ground (arith, same k))
lookup-perm (Permᴰ.swap {a = a} {b = b} {a' = a'} {b' = b'} {l = m} e f) u =
    subst₂ (λ x y. SameMap (a ∷ b ∷ m) (x ∷ y ∷ m)) f e (swap-SameMap a b m u)
lookup-perm (Permᴰ.trans p q) u =
    let (v, same) = lookup-perm p u in
    let (w, same') = lookup-perm q v in (w, λ k. same k ∙ same' k)

module _ (pred : ColumnDef → Bool) (seen : List String) where
  keeps : Entry → Bool
  keeps (k, c) = not (contains seen k) && is_wanted pred (some c)

  remaining-cons :
      (a : Entry) (m : Columns)
      → remaining pred seen (a ∷ m)
        ≡ (if keeps a then a.0 ∷ remaining pred seen m else remaining pred seen m)
  unfolding remaining keeps
  remaining-cons (k, c) m = ground arith

  cons-perm :
      (a : Entry) (m n : Columns)
      → Permᴰ (remaining pred seen m) (remaining pred seen n)
      → Permᴰ (remaining pred seen (a ∷ m)) (remaining pred seen (a ∷ n))
  cons-perm a m n p = rw remaining-cons (
      rw remaining-cons (elim (Bool-cases (keeps a)) [
        | inl kept ↦ rw kept (Permᴰ.cons refl p)
        | inr left ↦ rw left p
      ]))

  swap-perm :
      (a b : Entry) (m : Columns)
      → Permᴰ (remaining pred seen (a ∷ b ∷ m)) (remaining pred seen (b ∷ a ∷ m))
  swap-perm a b m = simp remaining-cons (elim (Bool-cases (keeps a)) [
    | inl ka ↦ elim (Bool-cases (keeps b)) [
      | inl kb ↦ rw (ka, kb) (Permᴰ.swap refl refl)
      | inr lb ↦ rw (ka, lb) (Permᴰ.refl _)
    ]
    | inr la ↦ elim (Bool-cases (keeps b)) [
      | inl kb ↦ rw (la, kb) (Permᴰ.refl _)
      | inr lb ↦ rw (la, lb) (Permᴰ.refl _)
    ]
  ])

  remaining-perm :
      {m n : Columns} → Permᴰ m n → Permᴰ (remaining pred seen m) (remaining pred seen n)
  unfolding remaining
  remaining-perm Permᴰ.nil = Permᴰ.nil
  remaining-perm (Permᴰ.cons {a = a} {l₁ = m} {l₂ = n} e p) =
      subst (λ b. Permᴰ (remaining pred seen (a ∷ m)) (remaining pred seen (b ∷ n))) e
        (cons-perm a m n (remaining-perm p))
  remaining-perm (Permᴰ.swap {a = a} {b = b} {l = m} e f) =
      subst₂ (λ x y. Permᴰ (remaining pred seen (a ∷ b ∷ m)) (remaining pred seen (x ∷ y ∷ m))) f e
        (swap-perm a b m)
  remaining-perm (Permᴰ.trans p q) = Permᴰ.trans (remaining-perm p) (remaining-perm q)

select-none : (l : List String) → select (λ k. false) l ≡ []
select-none [] = refl
select-none (x ∷ l) = select-none l

order_columns-append :
    (cols : Columns) (order : List String) (pred : ColumnDef → Bool)
    → order_columns cols order pred
      ≡ from_order pred cols order
        ++ sort_strings (remaining pred (from_order pred cols order) cols)
unfolding order_columns from_order remaining lookup
order_columns-append [] order pred = rw (select-none order)
order_columns-append (entry ∷ cols) order pred = refl

from_order-perm :
    (pred : ColumnDef → Bool) (m n : Columns) (order : List String)
    → ((k : String) → lookup k m ≡ lookup k n)
    → from_order pred m order ≡ from_order pred n order
unfolding from_order
from_order-perm pred m n order same =
    ap (λ p. select p order) (fun_ext (λ k. ap (is_wanted pred) (same k)))

order_columns-perm :
    (m n : Columns) (order : List String) (pred : ColumnDef → Bool)
    → Permᴰ m n
    → NodupKeys m
    → order_columns m order pred ≡ order_columns n order pred
unfolding SameMap
order_columns-perm m n order pred p u =
    let same = from_order-perm pred m n order (lookup-perm p u).1 in
    let fields = from_order pred m order in
    order_columns-append m order pred
    ∙ ap (λ l. fields ++ l) (sort_strings-perm (remaining-perm pred fields p))
    ∙ ap (λ (l : List String). l ++ sort_strings (remaining pred l n)) same
    ∙ sym (order_columns-append n order pred)

-- Whatever order `range` visits the columns in, the list of ordered columns is the same.
pub ordered_columns-perm :
    (a b : CollectionInfo) (pred : ColumnDef → Bool)
    → Permᴰ a.columns b.columns
    → a.columns_order ≡ b.columns_order
    → NodupKeys a.columns
    → ordered_columns a pred ≡ ordered_columns b pred
unfolding ordered_columns
ordered_columns-perm a b pred p e u =
    order_columns-perm a.columns b.columns a.columns_order pred p u
    ∙ ap (λ order. order_columns b.columns order pred) e
