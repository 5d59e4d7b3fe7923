-- ===== src/Rooted/File.antt =====
-- What the streams of rooted_files.go rely on of an open file, and reading a whole one.
use mathlib.Core.Path.{subst}
use dalgo2ingitdb.Base.{
  ℕ, String, suc, zero, ◌-◌, ◌≡◌, refl, sym, ap, ◌∙◌, ◌⊎◌, inl, inr, some, [], ◌++◌, length, take,
  drop, ltb, arith, Bool-cases,
}
use dalgo2ingitdb.Base.Value.{ℤ, pos, negsuc}
use dalgo2ingitdb.Base.Result.{wrapped, Result, ok}
use dalgo2ingitdb.Disk.Action.{Action, ◌>>=◌, ◌>>◌, wrap_error-ok, bind-ok, bind-cases}
use dalgo2ingitdb.Schema.{Bytes}
use dalgo2ingitdb.Rooted.{FileOps}
use dalgo2ingitdb.Rooted.Content.{
  max_int, read_jsonl_content, read_loop, probe_rooted_jsonl_overflow, is_full, next_capacity,
  after_read, rooted_jsonl_buffer_size, rooted_jsonl_buffer_size_with_max,
  min_rooted_jsonl_read_capacity,
}
use dalgo2ingitdb.Rooted.Limits.{read_loop_ends, Progress-cases}
use dalgo2ingitdb.Rooted.Delivery.{IsReader, limited, read_jsonl_content-limited}
use dalgo2ingitdb.Rooted.Log.{wrapping}

-- A file opened with O_APPEND: `content` is what it holds and `position` is where reading goes on.
pub record IsFile {S : Type 0} (ops : FileOps S) (content : S → Bytes) (position : S → ℕ)
    : Type 0 where
  pub seek_start-ok : (s : S) → (ops.seek_start s).0 ≡ ok tt → position (ops.seek_start s).1 ≡ 0
  pub seek_start-content : (s : S) → content (ops.seek_start s).1 ≡ content s
  pub seek_end-content : (s : S) → content (ops.seek_end s).1 ≡ content s
  pub sync-content : (s : S) → content (ops.sync s).1 ≡ content s
  pub read_all-ok :
      (s : S) (c : Bytes) → (ops.read_all s).0 ≡ ok c → c ≡ drop (position s) (content s)
  pub read_all-content : (s : S) → content (ops.read_all s).1 ≡ content s
  pub reads : IsReader ops (λ s. drop (position s) (content s))
  pub read_some-content : (n : ℕ) (s : S) → content (ops.read_some n s).1 ≡ content s
  pub truncate-ok :
      (n : ℕ) (s : S)
      → (ops.truncate n s).0 ≡ ok tt
      → content (ops.truncate n s).1 ≡ take n (content s)
  -- a call that fails may have had its effect, and a write may stop anywhere
  pub truncate-content :
      (n : ℕ) (s : S)
      → (content (ops.truncate n s).1 ≡ content s)
        ⊎ (content (ops.truncate n s).1 ≡ take n (content s))
  pub write-ok :
      (b : Bytes) (s : S) → (ops.write b s).0 ≡ ok tt → content (ops.write b s).1 ≡ content s ++ b
  pub write-content :
      (b : Bytes) (s : S) → (k : ℕ) × (content (ops.write b s).1 ≡ content s ++ take k b)

module _ {S : Type 0} (ops : FileOps S) (content : S → Bytes) (position : S → ℕ)
    (file : IsFile ops content position) where
  read_loop-content :
      (fuel max capacity : ℕ) (data' : Bytes) (s : S) (r : Result Bytes) (t : S)
      → read_loop ops fuel max capacity data' s ≡ some (r, t)
      → content t ≡ content s
  unfolding read_loop probe_rooted_jsonl_overflow
  read_loop-content zero max capacity data' s r t h = cc h
  read_loop-content (suc fuel) max capacity data' s r t h =
      let grown = next_capacity max data' capacity in
      let (o, s') = ops.read_some (grown - length data') s in
      let same = file.read_some-content (grown - length data') s in
      elim (Bool-cases (is_full max data' capacity)) [
        | inl e ↦
            let h' : some (probe_rooted_jsonl_overflow ops data' s) ≡ some (r, t) =
              rw (e, read_loop) at h in
            let moved : (ops.read_some 1 s).1 ≡ t = cc h' in
            ap content (sym moved) ∙ file.read_some-content 1 s
        | inr e ↦ elim (Progress-cases (after_read (grown - length data') data' o)) [
          | inl (r', f) ↦
              let h' : some (r', s') ≡ some (r, t) = rw (e, f, read_loop) at h in
              let moved : s' ≡ t = cc h' in ap content (sym moved) ∙ same
          | inr (c, f) ↦
              read_loop-content fuel max grown c s' r t (rw (e, f, read_loop) at h) ∙ same
        ]
      ]

  read_jsonl_content-content :
      (limit : ℤ) (s : S) → content (read_jsonl_content ops limit s).1 ≡ content s
  unfolding read_jsonl_content rooted_jsonl_buffer_size rooted_jsonl_buffer_size_with_max
  read_jsonl_content-content (negsuc n) s = file.read_all-content s
  read_jsonl_content-content (pos zero) s = refl
  read_jsonl_content-content (pos (suc n)) s = elim (Bool-cases (ltb max_int (suc n))) [
    | inl e ↦ rw (e, read_jsonl_content) refl
    | inr e ↦
        let (end, f) = read_loop_ends ops (suc n) s (omega arith) in
        rw (e, f, read_jsonl_content)
          (read_loop-content (suc (suc n)) (suc n) (min_rooted_jsonl_read_capacity (suc n)) [] s
            end.0 end.1 f)
  ]

  limited-ok : (n : ℕ) (d c : Bytes) → limited n d ≡ ok c → c ≡ d
  limited-ok n d c h = ground (arith, h)

  read_jsonl_content-whole :
      (limit : ℤ) (s : S) (c : Bytes)
      → (read_jsonl_content ops limit s).0 ≡ ok c
      → c ≡ drop (position s) (content s)
  unfolding read_jsonl_content rooted_jsonl_buffer_size rooted_jsonl_buffer_size_with_max
  read_jsonl_content-whole (negsuc n) s c h = file.read_all-ok s c h
  read_jsonl_content-whole (pos zero) s c h = cc h
  read_jsonl_content-whole (pos (suc n)) s c h = elim (Bool-cases (ltb max_int (suc n))) [
    | inl e ↦ absurd (let h' = rw (e, read_jsonl_content) at h in ground arith)
    | inr e ↦
        let l =
          read_jsonl_content-limited ops (λ t. drop (position t) (content t)) file.reads (suc n) s
            (omega arith) (ground arith) in
        limited-ok (suc n) (drop (position s) (content s)) c (sym l ∙ h)
  ]

  from_start :
      (limit : ℤ) (s : S)
      → (ops.seek_start s).0 ≡ ok tt
      → (c : Bytes) → (read_jsonl_content ops limit (ops.seek_start s).1).0 ≡ ok c
      → c ≡ content s
  from_start limit s e c h =
      let s' = (ops.seek_start s).1 in
      read_jsonl_content-whole limit s' c h
      ∙ ap (λ p. drop p (content s')) (file.seek_start-ok s e)
      ∙ file.seek_start-content s

  module _ {A : Type 0} (seeking reading : String) (limit : ℤ) (f : Bytes → Action S A) where
    -- Both readings of a stream begin like this.
    abbrev pub read_then : Action S A
    read_then =
        wrapping seeking ops.seek_start >> (wrapping reading (read_jsonl_content ops limit) >>= f)

    -- Where it succeeds, what follows gets the whole content.
    pub read_then-ok :
        (s : S) {a : A}
        → (read_then s).0 ≡ ok a
        → (t : S) × (content t ≡ content s) × (read_then s ≡ f (content s) t)
    read_then-ok s h =
        let n = wrapping reading (read_jsonl_content ops limit) in
        let (u, e, goes) = bind-ok (wrapping seeking ops.seek_start) (λ _. n >>= f) s h in
        let s' = (ops.seek_start s).1 in
        let (c, e', goes') = bind-ok n f s' (sym (ap (λ r. r.0) goes) ∙ h) in
        let whole =
          from_start limit s (wrap_error-ok (wrapped seeking) (ops.seek_start s).0 e) c
            (wrap_error-ok (wrapped reading) (read_jsonl_content ops limit s').0 e') in
        let t = (read_jsonl_content ops limit s').1 in
        (
          t,
          read_jsonl_content-content limit s' ∙ file.seek_start-content s,
          goes ∙ goes' ∙ ap (λ d. f d t) whole,
        )

    -- Nothing before what follows changes the content.
    pub read_then-cases :
        (P : S → Type 0) (s : S)
        → ((t : S) → content t ≡ content s → P t)
        → ((t : S) → content t ≡ content s → P (f (content s) t).1)
        → P (read_then s).1
    read_then-cases P s same next =
        let n = wrapping reading (read_jsonl_content ops limit) in
        let s' = (ops.seek_start s).1 in
        let t = (read_jsonl_content ops limit s').1 in
        let kept = read_jsonl_content-content limit s' ∙ file.seek_start-content s in
        bind-cases P (wrapping seeking ops.seek_start) (λ _. n >>= f) s
          (λ _ _. same s' (file.seek_start-content s))
          λ u e.
            bind-cases P n f s' (λ _ _. same t kept)
              λ c e'.
                let whole =
                  from_start limit s (wrap_error-ok (wrapped seeking) (ops.seek_start s).0 e) c
                    (wrap_error-ok (wrapped reading) (read_jsonl_content ops limit s').0 e') in
                subst (λ d. P (f d t).1) (sym whole) (next t kept)
