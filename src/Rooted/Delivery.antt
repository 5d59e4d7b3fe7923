-- ===== src/Rooted/Delivery.antt =====
-- What reading within a limit gives for a reader that delivers a file (readJSONLContent of rooted_files.go).
use mathlib.Core.List.{append_assoc, append-nil}
use dalgo2ingitdb.Base.{
  ℕ, suc, zero, ◌+◌, ◌-◌, ◌≤◌, ◌<◌, ◌≡◌, sym, ap, ◌∙◌, inl, inr, false, Option, none, some, [], ◌∷◌,
  ◌++◌, length, arith, ltb, leb, Bool-cases, if◌then◌else◌,
}
use dalgo2ingitdb.Base.Value.{pos}
use dalgo2ingitdb.Base.Result.{failure, Result, ok, err}
use dalgo2ingitdb.Schema.{Bytes}
use dalgo2ingitdb.Rooted.{eof, Outcome, read, FileOps}
use dalgo2ingitdb.Rooted.Limits.{
  length-append, next_capacity-room, IsWithin, grown-IsWithin, start-IsWithin, read_loop_ends,
}
use dalgo2ingitdb.Rooted.Content.{
  max_int, finished, more, after_read, is_full, next_capacity, read_loop,
  probe_rooted_jsonl_overflow, read_jsonl_content, rooted_jsonl_buffer_size,
  rooted_jsonl_buffer_size_with_max, min_rooted_jsonl_read_capacity,
}

-- The whole content where it is within the limit.
abbrev pub limited : ℕ → Bytes → Result Bytes
limited max data' =
    if leb (length data') max
    then ok data'
    else err (failure "JSONL exceeds configured maximum bytes")

abbrev pub result_of {ℓ} : {S : Type ℓ} → Option (Result Bytes × S) → Option (Result Bytes)
result_of none = none
result_of (some (r, s)) = some r

after_read-some_bytes :
    (available : ℕ) (content : Bytes) (b : ℕ) (bs : Bytes)
    → suc (length bs) ≤ available
    → after_read available content (read (b ∷ bs) none) ≡ more (content ++ b ∷ bs)
unfolding after_read
after_read-some_bytes available content b bs h = ground arith

after_read-last_bytes :
    (available : ℕ) (content bs : Bytes)
    → length bs ≤ available
    → after_read available content (read bs (some eof)) ≡ finished (ok (content ++ bs))
unfolding after_read
after_read-last_bytes available content bs h = ground arith

limited_fits : (max : ℕ) (data' : Bytes) → length data' ≤ max → limited max data' ≡ ok data'
limited_fits max data' h = ground arith

-- One read with room for `room` bytes of a file with `before` left, as io.Reader allows it: some of
-- the bytes, as many as it likes, or the last of them together with the end of the file.
pub data Delivers (room : ℕ) (before : Bytes) (o : Outcome) (after : Bytes) : Type 0 where
  some_bytes :
      (b : ℕ) (bs : Bytes)
      → suc (length bs) ≤ room
      → before ≡ b ∷ bs ++ after
      → o ≡ read (b ∷ bs) none
      → Delivers room before o after
  last_bytes :
      (bs : Bytes)
      → length bs ≤ room
      → before ≡ bs
      → o ≡ read bs (some eof)
      → Delivers room before o after

-- `rest` is what a state of the file has left to read.
pub record IsReader {S : Type 0} (ops : FileOps S) (rest : S → Bytes) : Type 0 where
  pub delivers :
      (room : ℕ) (s : S)
      → 0 < room
      → Delivers room (rest s) (ops.read_some room s).0 (rest (ops.read_some room s).1)

module _ {S : Type 0} (ops : FileOps S) (rest : S → Bytes) (reader : IsReader ops rest) where
  probe_limited :
      (content : Bytes) (s : S)
      → (probe_rooted_jsonl_overflow ops content s).0 ≡ limited (length content) (content ++ rest s)
  unfolding probe_rooted_jsonl_overflow
  probe_limited content s = elim (reader.delivers 1 s (omega arith)) [
    | some_bytes b [] le e f ↦
        let l = length-append content (b ∷ rest (ops.read_some 1 s).1) in
        rw (e, f) (ground (arith, l))
    | some_bytes b (c ∷ bs) le e f ↦ absurd (omega arith)
    | last_bytes [] le e f ↦ rw (e, f, append-nil content) (ground arith)
    | last_bytes (b ∷ []) le e f ↦
        let l = length-append content (b ∷ []) in rw (e, f) (ground (arith, l))
    | last_bytes (b ∷ c ∷ bs) le e f ↦ absurd (omega arith)
  ]

  read_loop-limited :
      (fuel max capacity : ℕ) (content : Bytes) (s : S)
      → IsWithin ops max capacity content
      → max < fuel + length content
      → result_of (read_loop ops fuel max capacity content s)
        ≡ some (limited max (content ++ rest s))
  unfolding read_loop probe_rooted_jsonl_overflow
  read_loop-limited zero max capacity content s w h =
      absurd (let a = w.fits in let b = w.capped in omega arith)
  read_loop-limited (suc fuel) max capacity content s w h =
      elim (Bool-cases (is_full max content capacity)) [
        | inl e ↦
            let full : length content ≡ max = ground arith in
            let p = probe_limited content s in
            rw (e, probe_rooted_jsonl_overflow)
              (ap (λ r. some r) (p ∙ ap (λ n. limited n (content ++ rest s)) full))
        | inr e ↦
            let grown = next_capacity max content capacity in
            let (lt, le) = next_capacity-room max capacity content w.fits w.capped w.positive e in
            let o = (ops.read_some (grown - length content) s).0 in
            let s' = (ops.read_some (grown - length content) s).1 in
            elim (reader.delivers (grown - length content) s (omega arith)) [
              | some_bytes b bs room f g ↦
                  let more_than : after_read (grown - length content) content o
                      ≡ more (content ++ b ∷ bs) =
                    rw g (after_read-some_bytes (grown - length content) content b bs room) in
                  let (longer, w') =
                    grown-IsWithin ops max capacity content o (content ++ b ∷ bs) w e more_than in
                  let ih =
                    read_loop-limited fuel max grown (content ++ b ∷ bs) s' w' (omega arith) in
                  rw (e, more_than)
                    (ih
                      ∙ ap (λ d. some (limited max d))
                          (append_assoc content (b ∷ bs) (rest s')
                            ∙ ap (λ d. content ++ d) (sym f)))
              | last_bytes bs room f g ↦
                  let done : after_read (grown - length content) content o
                      ≡ finished (ok (content ++ bs)) =
                    rw g (after_read-last_bytes (grown - length content) content bs room) in
                  let l = length-append content bs in
                  rw (e, done, f)
                    (ap (λ r. some r) (sym (limited_fits max (content ++ bs) (omega arith))))
            ]
      ]

  -- Reading within a limit gives the whole content, or fails where that is longer.
  pub read_jsonl_content-limited :
      (max : ℕ) (s : S)
      → 0 < max
      → max ≤ max_int
      → (read_jsonl_content ops (pos max) s).0 ≡ limited max (rest s)
  unfolding read_jsonl_content rooted_jsonl_buffer_size rooted_jsonl_buffer_size_with_max
  read_jsonl_content-limited zero s h k = absurd (omega arith)
  read_jsonl_content-limited (suc n) s h k =
      let in_range : ltb max_int (suc n) ≡ false = ground arith in
      let start = start-IsWithin ops (suc n) h in
      let (end, e) = read_loop_ends ops (suc n) s h in
      let l =
        read_loop-limited (suc (suc n)) (suc n) (min_rooted_jsonl_read_capacity (suc n)) [] s start
          (omega arith) in
      let l' : some end.0 ≡ some (limited (suc n) (rest s)) = rw e at l in
      rw (in_range, e, read_jsonl_content) (cc l')
