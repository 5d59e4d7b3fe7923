-- ===== src/Registry/Prefix.antt =====
-- The collection of an ID (collection.go) is the one with the longest prefix, in any order of the map.
use dalgo2ingitdb.Base.{
  ℕ, ◌≤◌, ◌≡◌, refl, ◌∙◌, ◌⊎◌, inl, inr, String, ◌<>◌, ◌==◌, Option, none, some, [], ◌∷◌, ltb,
  arith, Bool-cases, Option-cases, All,
}
use dalgo2ingitdb.Base.Dict.{Dict}
use dalgo2ingitdb.Base.Result.{Result, ok, Result-cases}
use dalgo2ingitdb.Disk.Action.{wrap_error}
use dalgo2ingitdb.Base.Result.{wrapped}
use dalgo2ingitdb.Schema.{Collection, Definition}
use dalgo2ingitdb.Registry.{
  cut_prefix, str_length, before_slash, Best, best_len, better, best_match, found_key,
  collection_for_key,
}

-- The ID of an entry, as a prefix, is no longer than the best match.
abbrev pub IsCovered : String → Best → String × Collection → Type 0
IsCovered id best (other, col) =
    (key : String) → cut_prefix (other <> "/") id ≡ some key → str_length other ≤ best_len best

-- The match is one of the entries.
abbrev pub IsMatchOf : String → Best → Dict Collection → Type 0
IsMatchOf id best [] = ⊥
IsMatchOf id best ((col_id, col) ∷ cols) =
    ((key : String) × (cut_prefix (col_id <> "/") id ≡ some key)
      × (best ≡ some (str_length col_id, (col, key))))
    ⊎ IsMatchOf id best cols

better_len :
    (col_id : String) (col : Collection) (best : Best) (cut : Option String)
    → best_len best ≤ best_len (better col_id col best cut)
better_len col_id col best none = omega arith
better_len col_id col best (some key) =
    elim (Bool-cases (ltb (best_len best) (str_length col_id))) [
      | inl e ↦ rw e (ground arith)
      | inr e ↦ rw e (omega arith)
    ]

better_covers :
    (col_id : String) (col : Collection) (best : Best) (key : String)
    → str_length col_id ≤ best_len (better col_id col best (some key))
better_covers col_id col best key = elim (Bool-cases (ltb (best_len best) (str_length col_id))) [
  | inl e ↦ rw e (omega arith)
  | inr e ↦ rw e (ground arith)
]

better_from :
    (id col_id : String) (col : Collection) (best : Best) (cut : Option String)
    → (better col_id col best cut ≡ best)
      ⊎ ((key : String) × (cut ≡ some key)
          × (better col_id col best cut ≡ some (str_length col_id, (col, key))))
better_from id col_id col best none = inl refl
better_from id col_id col best (some key) =
    elim (Bool-cases (ltb (best_len best) (str_length col_id))) [
      | inl e ↦ rw e (inr (key, refl, refl))
      | inr e ↦ rw e (inl refl)
    ]

best_match_len :
    (id : String) (best : Best) (cols : Dict Collection)
    → best_len best ≤ best_len (best_match id best cols)
unfolding best_match
best_match_len id best [] = omega arith
best_match_len id best ((col_id, col) ∷ cols) =
    let step = better_len col_id col best (cut_prefix (col_id <> "/") id) in
    let rest = best_match_len id (better col_id col best (cut_prefix (col_id <> "/") id)) cols in
    omega arith

best_match-All :
    (id : String) (best : Best) (cols : Dict Collection)
    → All (IsCovered id (best_match id best cols)) cols
unfolding best_match
best_match-All id best [] = tt
best_match-All id best ((col_id, col) ∷ cols) = (
  (λ key e.
      let step = better_covers col_id col best key in
      let rest = best_match_len id (better col_id col best (some key)) cols in rw e (omega arith)),
  best_match-All id (better col_id col best (cut_prefix (col_id <> "/") id)) cols,
)

best_match_from :
    (id : String) (best : Best) (cols : Dict Collection)
    → (best_match id best cols ≡ best) ⊎ IsMatchOf id (best_match id best cols) cols
unfolding best_match
best_match_from id best [] = inl refl
best_match_from id best ((col_id, col) ∷ cols) =
    let next = better col_id col best (cut_prefix (col_id <> "/") id) in
    elim (best_match_from id next cols) [
      | inr h ↦ inr (inr h)
      | inl e ↦ elim (better_from id col_id col best (cut_prefix (col_id <> "/") id)) [
        | inl f ↦ inl (e ∙ f)
        | inr (key, f, g) ↦ inr (inl (key, f, e ∙ g))
      ]
    ]

found_key-ok :
    (id : String) (best : Best) (col : Collection) (key : String)
    → found_key id best ≡ ok (col, key)
    → (n : ℕ) × (best ≡ some (n, (col, key)))
found_key-ok id none col key h = cc h
found_key-ok id (some (n, (c, k))) col key h = elim (Bool-cases (k == "")) [
  | inl e ↦ absurd (let h' = rw e at h in ground arith)
  | inr e ↦ let h' : ok (c, k) ≡ ok (col, key) = rw e at h in (n, cc h')
]

-- The collection and key that an ID stands for come from an entry of the map, and no other entry
-- whose ID is a prefix is longer.
pub collection_for_key_longest :
    (validate : String → Result (Unit {0})) (def : Definition) (id : String) (col : Collection)
    (key : String)
    → collection_for_key validate def id ≡ ok (col, key)
    → (n : ℕ) × IsMatchOf id (some (n, (col, key))) def.collections
      × All (IsCovered id (some (n, (col, key)))) def.collections
unfolding collection_for_key best_match
collection_for_key_longest validate def id col key h = elim (Option-cases (before_slash id)) [
  | inl e ↦ absurd (let h' = rw (e, collection_for_key) at h in ground arith)
  | inr (segment, e) ↦
      elim (Result-cases (wrap_error (wrapped "invalid collection in ID") (validate segment))) [
        | inr (failed, f) ↦ absurd (let h' = rw (e, f, collection_for_key) at h in ground arith)
        | inl (done, f) ↦
            let h' = rw (e, f, collection_for_key) at h in
            let best = best_match id none def.collections in
            let (n, g) = found_key-ok id best col key h' in
            let covered = rw g at (best_match-All id none def.collections) in
            let from : IsMatchOf id best def.collections =
              elim (best_match_from id none def.collections) [
                | inl none_found ↦ cc (none_found, g)
                | inr m ↦ m
              ] in
            (n, rw g at from, covered)
      ]
]
