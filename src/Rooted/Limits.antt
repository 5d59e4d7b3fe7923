-- ===== src/Rooted/Limits.antt =====
-- What reading within a limit guarantees (readJSONLContent of rooted_files.go).
use dalgo2ingitdb.Base.{
  ℕ, suc, zero, ◌+◌, ◌-◌, ◌≤◌, ◌<◌, ◌≡◌, refl, ◌∙◌, ◌⊎◌, inl, inr, false, none, some, List, [], ◌∷◌,
  ◌++◌, length, arith, ltb, Bool-cases,
}
use dalgo2ingitdb.Base.Value.{pos}
use dalgo2ingitdb.Base.Result.{Result, ok}
use dalgo2ingitdb.Schema.{Bytes}
use dalgo2ingitdb.Rooted.{eof, other, Outcome, negative, read, FileOps}
use dalgo2ingitdb.Rooted.Content.{
  max_int, Progress, finished, more, after_read, after_probe, is_full, next_capacity,
  grow_rooted_jsonl_buffer, read_loop, probe_rooted_jsonl_overflow, read_jsonl_content,
  rooted_jsonl_buffer_size, rooted_jsonl_buffer_size_with_max, min_rooted_jsonl_read_capacity,
}

pub length-append {ℓ} : {A : Type ℓ} (xs ys : List A) → length (xs ++ ys) ≡ length xs + length ys
length-append [] ys = omega arith
length-append (x ∷ xs) ys = let l = length-append xs ys in omega arith

pub Progress-cases :
    (p : Progress) → ((r : Result Bytes) × (p ≡ finished r)) ⊎ ((c : Bytes) × (p ≡ more c))
Progress-cases (finished r) = inl (r, refl)
Progress-cases (more c) = inr (c, refl)

-- Of a read with room for `available` bytes.
after_read-more :
    (available : ℕ) (content : Bytes) (o : Outcome) (c : Bytes)
    → after_read available content o ≡ more c
    → (length content < length c) × (length c ≤ length content + available)
unfolding after_read
after_read-more available content negative c h = cc h
after_read-more available content (read bs (some eof)) c h = absurd (ground arith)
after_read-more available content (read bs (some (other e))) c h = absurd (ground arith)
after_read-more available content (read [] none) c h = cc h
after_read-more available content (read (b ∷ bs) none) c h =
    let l = length-append content (b ∷ bs) in ground (arith, l)

pub next_capacity-room :
    (max capacity : ℕ) (content : Bytes)
    → length content ≤ capacity
    → capacity ≤ max
    → 0 < capacity
    → is_full max content capacity ≡ false
    → (length content < next_capacity max content capacity)
      × (next_capacity max content capacity ≤ max)
unfolding grow_rooted_jsonl_buffer
next_capacity-room max capacity content h k p f = ground arith

after_read-ok :
    (available : ℕ) (content : Bytes) (o : Outcome) (c : Bytes)
    → after_read available content o ≡ finished (ok c)
    → length c ≤ length content + available
unfolding after_read
after_read-ok available content negative c h = cc h
after_read-ok available content (read bs (some eof)) c h =
    let l = length-append content bs in ground (arith, l)
after_read-ok available content (read bs (some (other e))) c h = absurd (ground arith)
after_read-ok available content (read [] none) c h = cc h
after_read-ok available content (read (b ∷ bs) none) c h = absurd (ground arith)

after_probe-ok :
    (content : Bytes) (o : Outcome) (c : Bytes) → after_probe content o ≡ ok c → content ≡ c
after_probe-ok content negative c h = cc h
after_probe-ok content (read [] none) c h = cc h
after_probe-ok content (read [] (some eof)) c h = cc h
after_probe-ok content (read [] (some (other e))) c h = cc h
after_probe-ok content (read (b ∷ []) failed) c h = cc h
after_probe-ok content (read (b ∷ d ∷ bs) failed) c h = cc h

module _ {S : Type 0} (ops : FileOps S) where
  -- The content and the capacity of the buffer between two turns of the loop.
  pub record IsWithin (max capacity : ℕ) (content : Bytes) : Type 0 where
    pub fits : length content ≤ capacity
    pub capped : capacity ≤ max
    pub positive : 0 < capacity

  pub grown-IsWithin :
      (max capacity : ℕ) (content : Bytes) (o : Outcome) (c : Bytes)
      → IsWithin max capacity content
      → is_full max content capacity ≡ false
      → after_read (next_capacity max content capacity - length content) content o ≡ more c
      → (length content < length c) × IsWithin max (next_capacity max content capacity) c
  grown-IsWithin max capacity content o c w f e =
      let (lt, le) = next_capacity-room max capacity content w.fits w.capped w.positive f in
      let (lt', le') =
        after_read-more (next_capacity max content capacity - length content) content o c e in
      (lt', record { fits = omega arith; capped = le; positive = omega arith })

  -- Enough fuel ends the loop, whatever the reader does.
  pub read_loop_total :
      (fuel max capacity : ℕ) (content : Bytes) (s : S)
      → IsWithin max capacity content
      → max < fuel + length content
      → (end : Result Bytes × S) × (read_loop ops fuel max capacity content s ≡ some end)
  unfolding read_loop
  read_loop_total zero max capacity content s w h =
      absurd (let a = w.fits in let b = w.capped in omega arith)
  read_loop_total (suc fuel) max capacity content s w h =
      elim (Bool-cases (is_full max content capacity)) [
        | inl e ↦ rw e (_, refl)
        | inr e ↦
            let grown = next_capacity max content capacity in
            let (o, s') = ops.read_some (grown - length content) s in
            rw e (elim (Progress-cases (after_read (grown - length content) content o)) [
              | inl (r, f) ↦ rw f (_, refl)
              | inr (c, f) ↦
                  let (lt, w') = grown-IsWithin max capacity content o c w e f in
                  rw f (read_loop_total fuel max grown c s' w' (omega arith))
            ])
      ]

  read_loop_bound :
      (fuel max capacity : ℕ) (content : Bytes) (s : S) (r : Result Bytes) (t : S) (c : Bytes)
      → IsWithin max capacity content
      → read_loop ops fuel max capacity content s ≡ some (r, t)
      → r ≡ ok c
      → length c ≤ max
  unfolding read_loop probe_rooted_jsonl_overflow
  read_loop_bound zero max capacity content s r t c w h k = cc h
  read_loop_bound (suc fuel) max capacity content s r t c w h k =
      elim (Bool-cases (is_full max content capacity)) [
        | inl e ↦
            let h' : some (probe_rooted_jsonl_overflow ops content s) ≡ some (r, t) =
              rw (e, read_loop) at h in
            let a = after_probe-ok content (ops.read_some 1 s).0 c (cc (h', k)) in
            let l : length content ≤ max = (let f = w.fits in let d = w.capped in omega arith) in
            rw a at l
        | inr e ↦
            let grown = next_capacity max content capacity in
            let room = next_capacity-room max capacity content w.fits w.capped w.positive e in
            let o = (ops.read_some (grown - length content) s).0 in
            elim (Progress-cases (after_read (grown - length content) content o)) [
              | inl (r', f) ↦
                  let h' : some (r', (ops.read_some (grown - length content) s).1) ≡ some (r, t) =
                    rw (e, f, read_loop) at h in
                  let e' : finished r' ≡ finished (ok c) = cc (h', k) in
                  let a : length c ≤ length content + (grown - length content) =
                    after_read-ok (grown - length content) content o c (f ∙ e') in
                  omega arith
              | inr (c', f) ↦
                  let w' = grown-IsWithin max capacity content o c' w e f in
                  read_loop_bound fuel max grown c' (ops.read_some (grown - length content) s).1 r t
                    c w'.1 (rw (e, f, read_loop) at h) k
            ]
      ]

  -- The loop starts with an empty buffer that has room for a byte.
  pub start-IsWithin : (max : ℕ) → 0 < max → IsWithin max (min_rooted_jsonl_read_capacity max) []
  unfolding min_rooted_jsonl_read_capacity
  start-IsWithin max h = record {
    fits = omega arith;
    capped = ground arith;
    positive = ground arith;
  }

  -- With one turn more than the limit has bytes, the loop ends.
  pub read_loop_ends :
      (max : ℕ) (s : S)
      → 0 < max
      → (end : Result Bytes × S) × (read_loop ops
            (suc max)
            max
            (min_rooted_jsonl_read_capacity max)
            []
            s
          ≡ some end)
  read_loop_ends max s h =
      read_loop_total (suc max) max (min_rooted_jsonl_read_capacity max) [] s (start-IsWithin max h)
        (omega arith)

  -- Content that is read is within the limit.
  pub read_jsonl_content_bound :
      (max : ℕ) (s : S) (c : Bytes) → (read_jsonl_content ops (pos max) s).0 ≡ ok c → length c ≤ max
  unfolding read_jsonl_content rooted_jsonl_buffer_size rooted_jsonl_buffer_size_with_max
  read_jsonl_content_bound zero s c h = cc h
  read_jsonl_content_bound (suc n) s c h = elim (Bool-cases (ltb max_int (suc n))) [
    | inl e ↦ absurd (let h' = rw (e, read_jsonl_content) at h in ground arith)
    | inr e ↦
        let (end, f) = read_loop_ends (suc n) s (omega arith) in
        let h' = rw (e, f, read_jsonl_content) at h in
        read_loop_bound (suc (suc n)) (suc n) (min_rooted_jsonl_read_capacity (suc n)) [] s end.0
          end.1 c (start-IsWithin (suc n) (omega arith)) f h'
  ]
