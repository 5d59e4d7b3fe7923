-- ===== src/Rooted/Replay.antt =====
-- Appending to a JSONL stream and reading it back, on every outcome (rooted_files.go).
use mathlib.Core.Path.{subst}
use dalgo2ingitdb.Base.{
  ℕ, String, ◌≡◌, sym, ap, ◌∙◌, ◌⊎◌, inl, inr, List, [], ◌∷◌, ◌++◌, take, arith, Bool-cases,
}
use dalgo2ingitdb.Base.Value.{ℤ, negsuc}
use dalgo2ingitdb.Base.Result.{failure, quoted, wrapped, ok}
use dalgo2ingitdb.Disk.Action.{Action, lift, ◌>>◌, wrap_error-ok, bind-ok, bind-cases}
use dalgo2ingitdb.Schema.{Bytes}
use dalgo2ingitdb.Rooted.{FileOps, Json}
use dalgo2ingitdb.Rooted.Lines.{split_lines, ends_line, committed}
use dalgo2ingitdb.Rooted.Log.{
  wrapping, recover_jsonl_tail_with_limit, recover_jsonl_tail, append_line, records_of,
  read_jsonl_records, recover_and_read,
}
use dalgo2ingitdb.Rooted.File.{IsFile, read_then-ok}
use dalgo2ingitdb.Rooted.Recovery.{
  IsRecovering, recover_jsonl_tail_ok, recover_jsonl_tail-IsRecovering,
}
use dalgo2ingitdb.Rooted.Committed.{committed_ended}
use dalgo2ingitdb.Rooted.Durability.{
  HasLog, line_of, take-line, log_of, IsRecord, log_of-interrupted, log_of-committed, log_of-record,
  objects_ok,
}

module _ {S : Type 0} (json : Json) (ops : FileOps S) (content : S → Bytes) (position : S → ℕ)
    (file : IsFile ops content position) where
  -- What a finished recovery, or one that stopped, leaves has the same log.
  log_of-IsRecovering :
      (c : Bytes) (s : S)
      → IsRecovering json ops content position file c s
      → log_of json (content s) ≡ log_of json c
  log_of-IsRecovering c s (inl e) = ap (log_of json) e
  log_of-IsRecovering c s (inr e) = ap (log_of json) e ∙ log_of-committed json c

  -- The log after part of a line was written behind the committed ones.
  log_of-written :
      (c r : Bytes) (rs : List Bytes) (k : ℕ)
      → json.trim_space [] ≡ []
      → IsRecord json r
      → log_of json c ≡ ok rs
      → HasLog json rs r (committed c ++ take k (line_of r))
  log_of-written c r rs k t h e = elim (take-line k r h.one_line) [
    | inl f ↦ inr (ap (λ l. log_of json (committed c ++ l)) f ∙ log_of-record json c r rs t h e)
    | inr f ↦ inl (log_of-interrupted json c (take k (line_of r)) f ∙ e)
  ]

  module _ (path : String) (sync_parent : Action S (Unit {0}))
      (quiet : (s : S) → content (sync_parent s).1 ≡ content s) where
    -- An append that succeeds adds its record at the end of the log.
    pub append_line_ok :
        (r : Bytes) (rs : List Bytes) (s : S)
        → json.trim_space [] ≡ []
        → IsRecord json r
        → log_of json (content s) ≡ ok rs
        → (append_line json ops path (line_of r) sync_parent s).0 ≡ ok tt
        → log_of json (content (append_line json ops path (line_of r) sync_parent s).1)
          ≡ ok (rs ++ r ∷ [])
    unfolding append_line recover_jsonl_tail
    append_line_ok r rs s t h e done =
        let line = line_of r in
        let recovering = recover_jsonl_tail_with_limit json ops path (negsuc 0) in
        let writing = wrapping "append JSONL" (ops.write line) in
        let syncing = wrapping "sync JSONL" ops.sync in
        let (u, e₁, goes₁) = bind-ok recovering (λ _. writing >> (syncing >> sync_parent)) s done in
        let s₁ = (recovering s).1 in
        let (v, e₂, goes₂) =
          bind-ok writing (λ _. syncing >> sync_parent) s₁ (sym (ap (λ q. q.0) goes₁) ∙ done) in
        let s₂ = (ops.write line s₁).1 in
        let (w, e₃, goes₃) =
          bind-ok syncing (λ _. sync_parent) s₂ (sym (ap (λ q. q.0) (goes₁ ∙ goes₂)) ∙ done) in
        let s₃ = (ops.sync s₂).1 in
        let recovered = recover_jsonl_tail_ok json ops content position file path (negsuc 0) s e₁ in
        let written =
          file.write-ok line s₁ (wrap_error-ok (wrapped "append JSONL") (ops.write line s₁).0 e₂) in
        let held = quiet s₃ ∙ file.sync-content s₂ ∙ written ∙ ap (λ d. d ++ line) recovered in
        ap (λ q. log_of json (content q.1)) (goes₁ ∙ goes₂ ∙ goes₃)
        ∙ ap (log_of json) held
        ∙ log_of-record json (content s) r rs t h e

    -- Whatever fails on the way, the log has the new record or is as it was.
    pub append_line_atomic :
        (r : Bytes) (rs : List Bytes) (s : S)
        → json.trim_space [] ≡ []
        → IsRecord json r
        → log_of json (content s) ≡ ok rs
        → (log_of json (content (append_line json ops path (line_of r) sync_parent s).1) ≡ ok rs)
          ⊎ (log_of json (content (append_line json ops path (line_of r) sync_parent s).1)
              ≡ ok (rs ++ r ∷ []))
    unfolding append_line recover_jsonl_tail
    append_line_atomic r rs s t h e =
        let line = line_of r in
        let recovering = recover_jsonl_tail_with_limit json ops path (negsuc 0) in
        let writing = wrapping "append JSONL" (ops.write line) in
        let syncing = wrapping "sync JSONL" ops.sync in
        let s₁ = (recovering s).1 in
        let s₂ = (ops.write line s₁).1 in
        let s₃ = (ops.sync s₂).1 in
        let before =
          log_of-IsRecovering (content s) s₁
            (recover_jsonl_tail-IsRecovering json ops content position file path (negsuc 0) s)
          ∙ e in
        let P : S → Type 0 = λ q. HasLog json rs r (content q) in
        bind-cases P recovering (λ _. writing >> (syncing >> sync_parent)) s (λ _ _. inl before)
          λ u e₁.
            let recovered =
              recover_jsonl_tail_ok json ops content position file path (negsuc 0) s e₁ in
            let (k, part) = file.write-content line s₁ in
            let landed = part ∙ ap (λ d. d ++ take k line) recovered in
            let after : P s₂ =
              subst (HasLog json rs r) (sym landed) (log_of-written (content s) r rs k t h e) in
            let after' : P s₃ = subst (HasLog json rs r) (sym (file.sync-content s₂)) after in
            bind-cases P writing (λ _. syncing >> sync_parent) s₁ (λ _ _. after)
              λ _ _.
                bind-cases P syncing (λ _. sync_parent) s₂ (λ _ _. after')
                  λ _ _. subst (HasLog json rs r) (sym (quiet s₃)) after'

  records_of-ok :
      (path : String) (c : Bytes) (rs : List Bytes)
      → records_of json path c ≡ ok rs
      → log_of json c ≡ ok rs
  unfolding records_of log_of
  records_of-ok path c rs h = elim (Bool-cases (ends_line c)) [
    | inl e ↦ rw (committed_ended c e) (
        objects_ok json (quoted "invalid JSONL record" path) (failure "invalid record")
          (split_lines c) rs (rw (e, records_of) at h))
    | inr e ↦ absurd (let h' = rw (e, records_of) at h in ground arith)
  ]

  -- A locked read that succeeds gives the log of what was there before it.
  pub recover_and_read_ok :
      (path : String) (limit : ℤ) (s : S) (rs : List Bytes)
      → (recover_and_read json ops path limit s).0 ≡ ok rs
      → log_of json (content s) ≡ ok rs
  unfolding recover_and_read read_jsonl_records lift
  recover_and_read_ok path limit s rs h =
      let recovering = recover_jsonl_tail_with_limit json ops path limit in
      let reading = read_jsonl_records json ops path limit in
      let (u, e, goes) = bind-ok recovering (λ _. reading) s h in
      let s' = (recovering s).1 in
      let h' = sym (ap (λ q. q.0) goes) ∙ h in
      let (t, same, goes') =
        read_then-ok ops content position file "seek JSONL for read" "read JSONL" limit
          (λ c. lift (records_of json path c)) s' h' in
      let after =
        log_of-IsRecovering (content s) s'
          (recover_jsonl_tail-IsRecovering json ops content position file path limit s) in
      sym after ∙ records_of-ok path (content s') rs (sym (ap (λ q. q.0) goes') ∙ h')
