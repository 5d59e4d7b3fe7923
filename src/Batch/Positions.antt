-- ===== src/Batch/Positions.antt =====
-- What holds of the records that a batch (batch_parsers.go) gives.
use mathlib.Core.Path.{subst}
use dalgo2ingitdb.Base.{
  ℕ, suc, ◌<◌, ◌≡◌, refl, sym, String, Bool, none, List, [], ◌∷◌, arith, eq_refl, Bool-cases, inl,
  inr, All,
}
use dalgo2ingitdb.Base.Value.{Fields, get_field, delete_field, get_field-delete_field}
use dalgo2ingitdb.Base.Result.{wrapped, Result, ok, >>=-eq-ok}
use dalgo2ingitdb.Disk.Action.{wrap_error, wrap_error-ok}
use dalgo2ingitdb.Batch.{ParsedRecord, validate_record_key, key_of, batch_record, parse_batch_jsonl}

-- The positions grow, from behind `n`.
abbrev pub IsIncreasing : ℕ → List ParsedRecord → Type 0
IsIncreasing n [] = Unit
IsIncreasing n (r ∷ rs) = (n < r.position) × IsIncreasing r.position rs

absent-delete_field :
    (name : String) (data' : Fields) → get_field name (delete_field name data') ≡ none
absent-delete_field name data' =
    ground (arith, get_field-delete_field name name data', eq_refl name)

lower : (n m : ℕ) (rs : List ParsedRecord) → n < m → IsIncreasing m rs → IsIncreasing n rs
lower n m [] h k = tt
lower n m (r ∷ rs) h (k, l) = (omega arith, l)

module _ (trim_space : String → String) where
  -- A key that can name a record, which the data no longer hold.
  abbrev pub IsKeyed : String → ParsedRecord → Type 0
  IsKeyed id r = (validate_record_key trim_space r.key ≡ ok tt) × (get_field id r.data' ≡ none)

  batch_record_lem :
      (id : String) (n : ℕ) (data' : Fields) (r : ParsedRecord)
      → batch_record trim_space id n data' ≡ ok r
      → (r.position ≡ n) × IsKeyed id r
  unfolding batch_record
  batch_record_lem id n data' r h =
      let inner = wrap_error-ok (wrapped "record of the batch") _ h in
      let (key, e, inner') = >>=-eq-ok (key_of trim_space (get_field id data')) _ inner in
      let (done, f, made) = >>=-eq-ok (validate_record_key trim_space key) _ inner' in
      let same : record { position = n; key = key; data' = delete_field id data' } ≡ r = cc made in
      subst (λ q. (q.position ≡ n) × IsKeyed id q) same (refl, (f, absent-delete_field id data'))

  -- The records of a JSONL batch stand in the order of their lines, and each has a key that can name
  -- a record and data without it.
  pub parse_batch_jsonl-All :
      {L : Type 0} (is_blank : L → Bool) (decode : L → Result Fields) (scanned : Result (Unit {0}))
      (line_no : ℕ) (lines : List L) (records : List ParsedRecord)
      → parse_batch_jsonl trim_space is_blank decode scanned line_no lines ≡ ok records
      → All (IsKeyed "$id") records × IsIncreasing line_no records
  unfolding parse_batch_jsonl
  parse_batch_jsonl-All is_blank decode scanned n [] records h =
      let (done, e, made) = >>=-eq-ok (wrap_error (wrapped "read jsonl stream") scanned) _ h in
      let same : [] ≡ records = cc made in
      subst (λ rs. All (IsKeyed "$id") rs × IsIncreasing n rs) same (tt, tt)
  parse_batch_jsonl-All is_blank decode scanned n (raw ∷ lines) records h =
      elim (Bool-cases (is_blank raw)) [
        | inl e ↦
            let (all, increasing) =
              parse_batch_jsonl-All is_blank decode scanned (suc n) lines records
                (rw (e, parse_batch_jsonl) at h) in
            (all, lower n (suc n) records (omega arith) increasing)
        | inr e ↦
            let h' = rw (e, parse_batch_jsonl) at h in
            let (data', f, h₁) =
              >>=-eq-ok (wrap_error (wrapped "invalid JSON") (decode raw)) _ h' in
            let (r, g, h₂) = >>=-eq-ok (batch_record trim_space "$id" (suc n) data') _ h₁ in
            let (rest, k, made) =
              >>=-eq-ok (parse_batch_jsonl trim_space is_blank decode scanned (suc n) lines) _ h₂ in
            let (at', keyed) = batch_record_lem "$id" (suc n) data' r g in
            let (all, increasing) =
              parse_batch_jsonl-All is_blank decode scanned (suc n) lines rest k in
            let same : r ∷ rest ≡ records = cc made in
            subst (λ rs. All (IsKeyed "$id") rs × IsIncreasing n rs) same
              ((keyed, all), (omega arith, subst (λ m. IsIncreasing m rest) (sym at') increasing))
      ]
