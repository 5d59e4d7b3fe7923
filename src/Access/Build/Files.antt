-- ===== src/Access/Build/Files.antt =====
-- The file of a policy with a safe name, as buildGeneration and readAndVerifyGeneration
-- (access_generation.go) write it.
use text.Mathlib.TextLemmas.{cons-append, append_assoc}
use dalgo2ingitdb.Base.{
  ℕ, zero, suc, String, Char, code, ◌<>◌, ◌==◌, ◌≡◌, refl, sym, ap, ◌∙◌, true, false, [], ◌∷◌,
  arith, eq_iff, Bool-cases, inl, inr,
}
use dalgo2ingitdb.Paths.{render, join, join_slash}
use dalgo2ingitdb.Paths.Clean.{has_slash, IsKept, clean-render}
use dalgo2ingitdb.Access.Names.{id_rest, is_alphanumeric, safe_policy_id}
use dalgo2ingitdb.Access.Build.{file_of}

id_rest-no_slash : (n : ℕ) (s : String) → id_rest n s ≡ true → has_slash (s <> ".yaml") ≡ false
unfolding id_rest
id_rest-no_slash n String.[] h = refl
id_rest-no_slash zero (String.◌∷◌ c s) h = cc h
id_rest-no_slash (suc n) (String.◌∷◌ c s) h =
    let rest : id_rest n s ≡ true = ground arith in
    let ih = id_rest-no_slash n s rest in rw (cons-append c s ".yaml") (ground (arith, ih))

abbrev head_code : String → ℕ
head_code String.[] = 0
head_code (String.◌∷◌ c s) = code c

apart : (a b : String) → (a ≡ b → ⊥) → (a == b) ≡ false
apart a b k = elim (Bool-cases (a == b)) [ inl e ↦ absurd (k ((eq_iff a b).0 e)) | inr e ↦ e ]

cons_apart :
    (c : Char) (t b : String)
    → is_alphanumeric (code c) ≡ true
    → is_alphanumeric (head_code b) ≡ false
    → (String.◌∷◌ c t == b) ≡ false
cons_apart c t b first other =
    apart (String.◌∷◌ c t) b (λ e. let same : code c ≡ head_code b = ap head_code e in ground arith)

safe_policy_id-IsKept :
    (id : String)
    → safe_policy_id id ≡ true
    → IsKept (id <> ".yaml") × ((id <> ".yaml" == "..") ≡ false)
unfolding safe_policy_id
safe_policy_id-IsKept String.[] h = cc h
safe_policy_id-IsKept (String.◌∷◌ c s) h =
    let rest : id_rest 127 s ≡ true = ground arith in
    let first : is_alphanumeric (code c) ≡ true = ground arith in
    let no_slash = id_rest-no_slash 127 s rest in
    rw (cons-append c s ".yaml") (
      (
        ground (arith, no_slash),
        cons_apart c (s <> ".yaml") "" first refl,
        cons_apart c (s <> ".yaml") "." first refl,
      ),
      cons_apart c (s <> ".yaml") ".." first refl,
    )

-- No cleaning is needed.
pub file_of-safe_policy_id :
    (id : String) → safe_policy_id id ≡ true → file_of id ≡ "policies/" <> id <> ".yaml"
unfolding join render join_slash
file_of-safe_policy_id id h =
    let (kept, up) = safe_policy_id-IsKept id h in
    ap render (
      clean-render false ("policies" ∷ (id <> ".yaml") ∷ []) ((id <> ".yaml") ∷ "policies" ∷ [])
        refl (kept, rw up refl, ((refl, refl, refl), refl)))
    ∙ sym (append_assoc "policies" "/" (id <> ".yaml"))
