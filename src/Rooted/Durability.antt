-- ===== src/Rooted/Durability.antt =====
-- What a JSONL stream (rooted_files.go) keeps over crashes: its log of committed records.
use mathlib.Core.List.{append-nil, append_assoc}
use dalgo2ingitdb.Base.{
  ℕ, suc, zero, ◌≡◌, refl, sym, ap, ◌∙◌, ◌⊎◌, inl, inr, true, not, ◌||◌, List, [], ◌∷◌, ◌++◌, take,
  eqb, arith, Bool-cases, if◌then◌else◌,
}
use dalgo2ingitdb.Base.Result.{Error, failure, Result, ok, err, ◌>>=◌, >>=-eq-ok}
use dalgo2ingitdb.Schema.{Bytes}
use dalgo2ingitdb.Rooted.{Json}
use dalgo2ingitdb.Rooted.Lines.{
  split_lines, ends_line, last_newline_end, committed, objects, starts_object, is_blank,
}
use dalgo2ingitdb.Rooted.Committed.{
  IsOneLine, complete_lines, ends_line-append, committed_ended, committed-append,
  split_lines-append, split-one_line, objects-append,
}

-- The line that commits a record.
abbrev pub line_of : Bytes → Bytes
line_of r = r ++ b'\n' ∷ []

module _ (json : Json) where
  -- The abstract view of a stream: the records of its committed lines, in order.
  unfoldable pub log_of : Bytes → Result (List Bytes)
  unfolding committed split_lines objects
  log_of content = objects json (failure "invalid record") (split_lines (committed content))

  -- An encoded record: an object on one line, without space around it.
  pub record IsRecord (r : Bytes) : Type 0 where
    pub one_line : IsOneLine r
    pub trimmed : json.trim_space r ≡ r
    pub valid : json.valid r ≡ true
    pub object : starts_object r ≡ true

zero_or_suc : (n : ℕ) → (n ≡ 0) ⊎ ((m : ℕ) × (n ≡ suc m))
zero_or_suc zero = inl refl
zero_or_suc (suc n) = inr (n, refl)

cut : (b : ℕ) (bs : Bytes) → ends_line (take (if eqb b b'\n' then 1 else 0) (b ∷ bs)) ≡ true
unfolding ends_line
cut b bs = elim (Bool-cases (eqb b b'\n')) [ inl e ↦ rw e e | inr e ↦ rw e refl ]

ends_line-take : (c : Bytes) → ends_line (take (last_newline_end c) c) ≡ true
unfolding ends_line last_newline_end
ends_line-take [] = refl
ends_line-take (b ∷ []) = cut b []
ends_line-take (b ∷ c ∷ bs) = elim (zero_or_suc (last_newline_end (c ∷ bs))) [
  | inl e ↦ rw (e, last_newline_end) (cut b (c ∷ bs))
  | inr (n, e) ↦ let ih = rw e at (ends_line-take (c ∷ bs)) in rw (e, last_newline_end) ih
]

pub ends_line-committed : (c : Bytes) → ends_line (committed c) ≡ true
unfolding committed
ends_line-committed c = elim (Bool-cases (ends_line c)) [
  | inl e ↦ rw e e
  | inr e ↦ rw e (ends_line-take c)
]

pub committed_idem : (c : Bytes) → committed (committed c) ≡ committed c
committed_idem c = committed_ended (committed c) (ends_line-committed c)

take-nil {ℓ} : {A : Type ℓ} (k : ℕ) → take {A = A} k [] ≡ []
take-nil zero = refl
take-nil (suc k) = refl

-- A part of a line that ends with a newline is the whole, or a part of it before the newline.
pub take-line :
    (k : ℕ) (r : Bytes)
    → IsOneLine r
    → (take k (line_of r) ≡ line_of r) ⊎ IsOneLine (take k (line_of r))
take-line zero r h = inr tt
take-line (suc k) [] h = inl (ap (◌∷◌ b'\n') (take-nil k))
take-line (suc k) (b ∷ r) (e, h) = elim (take-line k r h) [
  | inl f ↦ inl (ap (◌∷◌ b) f)
  | inr f ↦ inr (e, f)
]

module _ (json : Json) where
  -- The log before the record was added, or with it.
  abbrev pub HasLog : List Bytes → Bytes → Bytes → Type 0
  HasLog rs r c = (log_of json c ≡ ok rs) ⊎ (log_of json c ≡ ok (rs ++ r ∷ []))

  -- Bytes that do not complete a line leave the log as it was.
  pub log_of-interrupted :
      (c t : Bytes) → IsOneLine t → log_of json (committed c ++ t) ≡ log_of json c
  unfolding log_of
  log_of-interrupted c t h =
      ap (λ d. objects json (failure "invalid record") (split_lines d))
        (committed-append (committed c) t (ends_line-committed c) h)

  pub log_of-committed : (c : Bytes) → log_of json (committed c) ≡ log_of json c
  unfolding log_of
  log_of-committed c =
      ap (λ d. objects json (failure "invalid record") (split_lines d)) (committed_idem c)

  ends_line-record : (c r : Bytes) → ends_line (c ++ line_of r) ≡ true
  unfolding ends_line
  ends_line-record c r =
      ap ends_line (sym (append_assoc c r (b'\n' ∷ []))) ∙ ends_line-append (c ++ r) [] b'\n'

  objects_blank :
      json.trim_space [] ≡ [] → objects json (failure "invalid record") ([] ∷ []) ≡ ok []
  unfolding objects
  objects_blank t = rw t refl

  objects_record :
      (failed : Error) (r : Bytes)
      → json.trim_space [] ≡ []
      → IsRecord json r
      → objects json failed (r ∷ [] ∷ []) ≡ ok (r ∷ [])
  unfolding objects
  objects_record failed [] t h = cc (h.object)
  objects_record failed (b ∷ r) t h = rw (h.trimmed, h.valid, h.object, t) refl

  ok_append-nil :
      (r : Result (List Bytes)) (rs : List Bytes)
      → (r >>= λ before. ok (before ++ [])) ≡ ok rs
      → r ≡ ok rs
  ok_append-nil (ok a) rs h = ap (λ l. ok l) (sym (append-nil a)) ∙ h
  ok_append-nil (err e) rs h = cc h

  objects_before :
      (c : Bytes) (rs : List Bytes)
      → json.trim_space [] ≡ []
      → log_of json c ≡ ok rs
      → objects json (failure "invalid record") (complete_lines (committed c)) ≡ ok rs
  unfolding log_of split_lines
  objects_before c rs t e =
      let failed = failure "invalid record" in
      let apart = split_lines-append (committed c) [] (ends_line-committed c) in
      let split_apart = ap split_lines (sym (append-nil (committed c))) ∙ apart in
      let both =
        sym (
          ap (objects json failed) split_apart
          ∙ objects-append json failed (complete_lines (committed c)) ([] ∷ []))
        ∙ e in
      ok_append-nil (objects json failed (complete_lines (committed c))) rs
        (rw (objects_blank t) at both)

  -- A whole line adds its record to the log.
  pub log_of-record :
      (c r : Bytes) (rs : List Bytes)
      → json.trim_space [] ≡ []
      → IsRecord json r
      → log_of json c ≡ ok rs
      → log_of json (committed c ++ line_of r) ≡ ok (rs ++ r ∷ [])
  unfolding log_of split_lines
  log_of-record c r rs t h e =
      let failed = failure "invalid record" in
      let line = line_of r in
      let all = committed_ended (committed c ++ line) (ends_line-record (committed c) r) in
      let apart = split_lines-append (committed c) line (ends_line-committed c) in
      rw
        (
          all,
          apart,
          split-one_line r [] h.one_line,
          objects-append json failed (complete_lines (committed c)) (r ∷ [] ∷ []),
          objects_before c rs t e,
          objects_record failed r t h,
        )
        refl

  -- The error for a line that is no object makes no difference to the records.
  pub objects_ok :
      (f g : Error) (ls rs : List Bytes) → objects json f ls ≡ ok rs → objects json g ls ≡ ok rs
  unfolding objects
  objects_ok f g [] rs h = cc h
  objects_ok f g (raw ∷ ls) rs h =
      let line = json.trim_space raw in
      elim (Bool-cases (is_blank line)) [
        | inl e ↦ rw e (objects_ok f g ls rs (rw (e, objects) at h))
        | inr e ↦ elim (Bool-cases (not (json.valid line) || not (starts_object line))) [
          | inl b ↦ absurd (let h' = rw (e, b, objects) at h in ground arith)
          | inr b ↦
              let h' = rw (e, b, objects) at h in
              let (rs', e', h'') =
                >>=-eq-ok (objects json f ls) (λ records. ok (line ∷ records)) h' in
              rw (e, b, objects_ok f g ls rs' e') h''
        ]
      ]
