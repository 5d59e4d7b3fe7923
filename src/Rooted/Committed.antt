-- ===== src/Rooted/Committed.antt =====
-- The committed lines of a JSONL stream (rooted_files.go) when bytes are added behind them.
use mathlib.Core.List.{append-nil}
use dalgo2ingitdb.Base.{
  ℕ, ◌≡◌, refl, ap, ◌∙◌, inl, inr, true, false, not, ◌||◌, List, [], ◌∷◌, ◌++◌, length, take, All,
  eqb, arith, Bool-cases, if◌then◌else◌,
}
use dalgo2ingitdb.Base.Result.{Error, Result, ok, err, ◌>>=◌}
use dalgo2ingitdb.Schema.{Bytes}
use dalgo2ingitdb.Rooted.{Json}
use dalgo2ingitdb.Rooted.Lines.{
  push_byte, split_lines, ends_line, last_newline_end, committed, objects, starts_object, is_blank,
}

abbrev pub IsOneLine : Bytes → Type 0
IsOneLine = All (λ b. eqb b b'\n' ≡ false)

newline_end-one_line : (bs : Bytes) → IsOneLine bs → last_newline_end bs ≡ 0
unfolding last_newline_end
newline_end-one_line [] h = refl
newline_end-one_line (b ∷ bs) (e, h) = rw (newline_end-one_line bs h, e) refl

last_newline_end-append :
    (p t : Bytes) → ends_line p ≡ true → IsOneLine t → last_newline_end (p ++ t) ≡ length p
unfolding last_newline_end ends_line
last_newline_end-append [] t e h = newline_end-one_line t h
last_newline_end-append (b ∷ []) t e h = rw (newline_end-one_line t h, e) (omega arith)
last_newline_end-append (b ∷ c ∷ p) t e h = rw (last_newline_end-append (c ∷ p) t e h) refl

pub ends_line-append : (p t : Bytes) (b : ℕ) → ends_line (p ++ b ∷ t) ≡ ends_line (b ∷ t)
unfolding ends_line
ends_line-append [] t b = refl
ends_line-append (c ∷ []) t b = refl
ends_line-append (c ∷ d ∷ p) t b = ends_line-append (d ∷ p) t b

one_line-ends : (b : ℕ) (t : Bytes) → IsOneLine (b ∷ t) → ends_line (b ∷ t) ≡ false
unfolding ends_line
one_line-ends b [] (e, h) = e
one_line-ends b (c ∷ t) (e, h) = one_line-ends c t h

take-append : (p t : Bytes) → take (length p) (p ++ t) ≡ p
take-append [] t = refl
take-append (b ∷ p) t = ap (◌∷◌ b) (take-append p t)

pub committed_ended : (c : Bytes) → ends_line c ≡ true → committed c ≡ c
unfolding committed
committed_ended c e = rw e refl

-- An interrupted line behind committed ones is not committed.
pub committed-append : (p t : Bytes) → ends_line p ≡ true → IsOneLine t → committed (p ++ t) ≡ p
unfolding committed
committed-append p [] e h = rw (append-nil p) (committed_ended p e)
committed-append p (b ∷ t) e h = interrupted p b t e h
  where
    interrupted :
        (p : Bytes) (b : ℕ) (t : Bytes)
        → ends_line p ≡ true
        → IsOneLine (b ∷ t)
        → committed (p ++ b ∷ t) ≡ p
    interrupted p b t e h =
        rw (ends_line-append p t b, one_line-ends b t h, last_newline_end-append p (b ∷ t) e h)
          (take-append p (b ∷ t))

-- The lines of a text that ends with a newline.
abbrev pub complete_lines : Bytes → List Bytes
complete_lines [] = []
complete_lines (b ∷ bs) =
    let rest = complete_lines bs in if eqb b b'\n' then [] ∷ rest else push_byte b rest

push_byte-append :
    (b : ℕ) (line : Bytes) (xs ys : List Bytes)
    → push_byte b ((line ∷ xs) ++ ys) ≡ push_byte b (line ∷ xs) ++ ys
push_byte-append b line xs ys = refl

complete_lines-cons :
    (b : ℕ) (bs : Bytes)
    → (line : Bytes) × (xs : List Bytes) × (complete_lines (b ∷ bs) ≡ line ∷ xs)
complete_lines-cons b bs = elim (Bool-cases (eqb b b'\n')) [
  | inl e ↦ rw e ([], complete_lines bs, refl)
  | inr e ↦ rw e (pushed (complete_lines bs))
]
  where
    pushed : (ls : List Bytes) → (line : Bytes) × (xs : List Bytes) × (push_byte b ls ≡ line ∷ xs)
    pushed [] = (b ∷ [], [], refl)
    pushed (l ∷ ls) = (b ∷ l, ls, refl)

pub split_lines-append :
    (p q : Bytes) → ends_line p ≡ true → split_lines (p ++ q) ≡ complete_lines p ++ split_lines q
unfolding split_lines ends_line
split_lines-append [] q e = refl
split_lines-append (b ∷ []) q e = rw e refl
split_lines-append (b ∷ c ∷ p) q e =
    let (line, xs, f) = complete_lines-cons c p in
    let ih = split_lines-append (c ∷ p) q e in
    elim (Bool-cases (eqb b b'\n')) [
      | inl g ↦ rw g (ap (◌∷◌ []) ih)
      | inr g ↦ rw g (ap (push_byte b) ih ∙ rw f refl)
    ]

pub split-one_line : (r q : Bytes) → IsOneLine r → split_lines (r ++ b'\n' ∷ q) ≡ r ∷ split_lines q
unfolding split_lines
split-one_line [] q h = refl
split-one_line (b ∷ r) q (e, h) = rw (e, split-one_line r q h) refl

append_found :
    (line : Bytes) (r q : Result (List Bytes))
    → ((r >>= λ before. q >>= λ after. ok (before ++ after)) >>= λ records. ok (line ∷ records))
      ≡ ((r >>= λ records. ok (line ∷ records)) >>= λ before. q >>= λ after. ok (before ++ after))
append_found line (ok a) (ok b) = refl
append_found line (ok a) (err e) = refl
append_found line (err e) q = refl

append_none : (q : Result (List Bytes)) → q ≡ (q >>= λ after. ok after)
append_none (ok a) = refl
append_none (err e) = refl

module _ (json : Json) (failed : Error) where
  pub objects-append :
      (xs ys : List Bytes)
      → objects json failed (xs ++ ys) ≡ (
          objects json failed xs >>= λ before.
          objects json failed ys >>= λ after. ok (before ++ after))
  unfolding objects
  objects-append [] ys = append_none (objects json failed ys)
  objects-append (x ∷ xs) ys =
      let line = json.trim_space x in
      elim (Bool-cases (is_blank line)) [
        | inl e ↦ rw e (objects-append xs ys)
        | inr e ↦ elim (Bool-cases (not (json.valid line) || not (starts_object line))) [
          | inl f ↦ rw (e, f) refl
          | inr f ↦
              rw (e, f)
                (ap (λ r. r >>= λ records. ok (line ∷ records)) (objects-append xs ys)
                  ∙ append_found line (objects json failed xs) (objects json failed ys))
        ]
      ]
