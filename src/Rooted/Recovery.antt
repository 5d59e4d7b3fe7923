-- ===== src/Rooted/Recovery.antt =====
-- The recovery of a JSONL stream, and a record appended to it, on every outcome (rooted_files.go).
use dalgo2ingitdb.Base.{
  ℕ, suc, zero, String, ◌≡◌, refl, sym, ap, ◌∙◌, ◌⊎◌, inl, inr, [], ◌∷◌, length, take, eqb, arith,
  Bool-cases,
}
use dalgo2ingitdb.Base.Value.{ℤ}
use dalgo2ingitdb.Base.Result.{quoted, wrapped, ok}
use dalgo2ingitdb.Disk.Action.{pure, lift, ◌>>◌, wrap_error-ok, bind-ok, bind-cases}
use dalgo2ingitdb.Schema.{Bytes}
use dalgo2ingitdb.Rooted.{FileOps, Json}
use dalgo2ingitdb.Rooted.Lines.{split_lines, ends_line, last_newline_end, committed, objects}
use dalgo2ingitdb.Rooted.Log.{
  wrapping, truncate_tail, recover_content, recover_jsonl_tail_with_limit,
}
use dalgo2ingitdb.Rooted.File.{IsFile, read_then-ok, read_then-cases}

pub take_all : (n : ℕ) (c : Bytes) → length (take n c) ≡ length c → take n c ≡ c
take_all zero [] h = refl
take_all zero (b ∷ c) h = absurd (omega arith)
take_all (suc n) [] h = refl
take_all (suc n) (b ∷ c) h = ap (◌∷◌ b) (take_all n c (omega arith))

take-length : (n : ℕ) (c : Bytes) → take (length (take n c)) c ≡ take n c
take-length zero c = refl
take-length (suc n) [] = refl
take-length (suc n) (b ∷ c) = ap (◌∷◌ b) (take-length n c)

take_whole : (c : Bytes) → take (length c) c ≡ c
take_whole [] = refl
take_whole (b ∷ c) = ap (◌∷◌ b) (take_whole c)

committed_all : (c : Bytes) → length (committed c) ≡ length c → committed c ≡ c
unfolding committed
committed_all c h = elim (Bool-cases (ends_line c)) [
  | inl e ↦ rw e refl
  | inr e ↦ rw (e, committed) (take_all (last_newline_end c) c (rw (e, committed) at h))
]

take-committed : (c : Bytes) → take (length (committed c)) c ≡ committed c
unfolding committed
take-committed c = elim (Bool-cases (ends_line c)) [
  | inl e ↦ rw (e, committed) (take_whole c)
  | inr e ↦ rw (e, committed) (take-length (last_newline_end c) c)
]

module _ {S : Type 0} (json : Json) (ops : FileOps S) (content : S → Bytes) (position : S → ℕ)
    (file : IsFile ops content position) where
  truncate_tail-ok :
      (c : Bytes) (s : S)
      → content s ≡ c
      → (truncate_tail json ops c s).0 ≡ ok tt
      → content (truncate_tail json ops c s).1 ≡ committed c
  unfolding pure
  truncate_tail-ok c s e h = elim (Bool-cases (eqb (length (committed c)) (length c))) [
    | inl f ↦ rw f (e ∙ sym (committed_all c (ground arith)))
    | inr f ↦
        let n = length (committed c) in
        let cutting = wrapping "truncate interrupted JSONL tail" (ops.truncate n) in
        let syncing = wrapping "sync recovered JSONL" ops.sync in
        let h' : ((cutting >> syncing) s).0 ≡ ok tt = rw f at h in
        let (u, e', goes) = bind-ok cutting (λ _. syncing) s h' in
        let cut_off =
          file.truncate-ok n s
            (wrap_error-ok (wrapped "truncate interrupted JSONL tail") (ops.truncate n s).0 e') in
        let synced = file.sync-content (ops.truncate n s).1 in
        rw f (ap (λ r. content r.1) goes ∙ synced ∙ cut_off ∙ ap (take n) e ∙ take-committed c)
  ]

  -- The content is as it was, or without its interrupted tail.
  abbrev pub IsRecovering : Bytes → S → Type 0
  IsRecovering c s = (content s ≡ c) ⊎ (content s ≡ committed c)

  moved : (c : Bytes) (t t' : S) → content t' ≡ content t → IsRecovering c t → IsRecovering c t'
  moved c t t' e (inl f) = inl (e ∙ f)
  moved c t t' e (inr f) = inr (e ∙ f)

  truncate_tail-IsRecovering :
      (c : Bytes) (s : S) → content s ≡ c → IsRecovering c (truncate_tail json ops c s).1
  unfolding pure
  truncate_tail-IsRecovering c s e = elim (Bool-cases (eqb (length (committed c)) (length c))) [
    | inl f ↦ rw f (inl e)
    | inr f ↦
        let n = length (committed c) in
        let cutting = wrapping "truncate interrupted JSONL tail" (ops.truncate n) in
        let syncing = wrapping "sync recovered JSONL" ops.sync in
        let t = (ops.truncate n s).1 in
        let cut_off : IsRecovering c t = elim (file.truncate-content n s) [
          | inl g ↦ inl (g ∙ e)
          | inr g ↦ inr (g ∙ ap (take n) e ∙ take-committed c)
        ] in
        rw f (
          bind-cases (IsRecovering c) cutting (λ _. syncing) s (λ _ _. cut_off)
            λ _ _. moved c t (ops.sync t).1 (file.sync-content t) cut_off)
  ]

  recover_content-ok :
      (path : String) (c : Bytes) (s : S)
      → content s ≡ c
      → (recover_content json ops path c s).0 ≡ ok tt
      → content (recover_content json ops path c s).1 ≡ committed c
  unfolding lift
  recover_content-ok path c s e h =
      let check =
        lift (
          objects json (quoted "invalid committed JSONL record" path)
            (split_lines (committed c))) in
      let seeking = wrapping "seek JSONL for append" ops.seek_end in
      let (rs, e', goes) = bind-ok check (λ _. truncate_tail json ops c >> seeking) s h in
      let (u, e'', goes') =
        bind-ok (truncate_tail json ops c) (λ _. seeking) s (sym (ap (λ r. r.0) goes) ∙ h) in
      ap (λ r. content r.1) (goes ∙ goes')
      ∙ file.seek_end-content (truncate_tail json ops c s).1
      ∙ truncate_tail-ok c s e e''

  recover_content-IsRecovering :
      (path : String) (c : Bytes) (s : S)
      → content s ≡ c
      → IsRecovering c (recover_content json ops path c s).1
  unfolding lift
  recover_content-IsRecovering path c s e =
      let check =
        lift (
          objects json (quoted "invalid committed JSONL record" path)
            (split_lines (committed c))) in
      let seeking = wrapping "seek JSONL for append" ops.seek_end in
      let t = (truncate_tail json ops c s).1 in
      let after = truncate_tail-IsRecovering c s e in
      bind-cases (IsRecovering c) check (λ _. truncate_tail json ops c >> seeking) s (λ _ _. inl e)
        λ _ _.
          bind-cases (IsRecovering c) (truncate_tail json ops c) (λ _. seeking) s (λ _ _. after)
            λ _ _. moved c t (ops.seek_end t).1 (file.seek_end-content t) after

  -- A recovery that succeeds leaves exactly the committed lines.
  pub recover_jsonl_tail_ok :
      (path : String) (limit : ℤ) (s : S)
      → (recover_jsonl_tail_with_limit json ops path limit s).0 ≡ ok tt
      → content (recover_jsonl_tail_with_limit json ops path limit s).1 ≡ committed (content s)
  unfolding recover_jsonl_tail_with_limit
  recover_jsonl_tail_ok path limit s h =
      let next = recover_content json ops path in
      let (t, e, goes) =
        read_then-ok ops content position file "seek JSONL for recovery" "read JSONL for recovery"
          limit next s h in
      ap (λ r. content r.1) goes
      ∙ recover_content-ok path (content s) t e (sym (ap (λ r. r.0) goes) ∙ h)

  -- One that fails leaves the content, or the committed lines of it.
  pub recover_jsonl_tail-IsRecovering :
      (path : String) (limit : ℤ) (s : S)
      → IsRecovering (content s) (recover_jsonl_tail_with_limit json ops path limit s).1
  unfolding recover_jsonl_tail_with_limit
  recover_jsonl_tail-IsRecovering path limit s =
      read_then-cases ops content position file "seek JSONL for recovery" "read JSONL for recovery"
        limit (recover_content json ops path) (IsRecovering (content s)) s (λ t e. inl e)
        λ t e. recover_content-IsRecovering path (content s) t e
