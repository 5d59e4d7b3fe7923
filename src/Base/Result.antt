-- ===== src/Base/Result.antt =====
-- Errors and results. An error is its kind, with the names that its message shows.
use Prim.Native.String.{String}
use mathlib.Core.Path.{◌≡◌, refl}
use mathlib.Core.Logic.{◌⊎◌, inl, inr}
use mathlib.Core.Bool.{Bool, true, false}

pub data Error : Type 0 where
  -- an error of the operating system, a parser, an encoder or another library
  external : String → Error
  -- the sentinels
  record_not_found : Error
  record_exists : Error
  collection_not_in_definition : String → Error
  not_supported : Error
  -- the adapter's own errors, by a short name of the message and what it quotes
  failure : String → Error
  quoted : String → String → Error
  -- `fmt.Errorf("...: %w", err)`
  wrapped : String → Error → Error

pub data Result {ℓ} (A : Type ℓ) : Type ℓ where
  ok : A → Result A
  err : Error → Result A

module _ {ℓ κ} {A : Type ℓ} {B : Type κ} where
  -- `if err != nil { return err }`
  infixl 5 ◌>>=◌
  abbrev pub ◌>>=◌ : Result A → (A → Result B) → Result B
  err failed >>= next = err failed
  ok value >>= next = next value

  -- Both steps of a chain that succeeds.
  pub >>=-eq-ok :
      (first : Result A) (next : A → Result B) {end : B}
      → (first >>= next) ≡ ok end
      → (value : A) × (first ≡ ok value) × (next value ≡ ok end)
  >>=-eq-ok (err failed) next h = cc
  >>=-eq-ok (ok value) next h = (value, refl, h)

infixl 5 ◌>>◌
abbrev pub ◌>>◌ {ℓ} : {B : Type ℓ} → Result (Unit {0}) → Result B → Result B
check >> rest = check >>= λ done. rest

-- `errors.Is` against two of the sentinels
abbrev pub is_unknown_collection : Error → Bool
is_unknown_collection (collection_not_in_definition c) = true
is_unknown_collection (wrapped m e) = is_unknown_collection e
is_unknown_collection _ = false

abbrev pub is_not_found : Error → Bool
is_not_found record_not_found = true
is_not_found (wrapped m e) = is_not_found e
is_not_found _ = false

abbrev pub is_ok {ℓ} : {A : Type ℓ} → Result A → Bool
is_ok (ok a) = true
is_ok (err e) = false

pub Result-cases {ℓ} :
    {A : Type ℓ} (r : Result A) → ((a : A) × (r ≡ ok a)) ⊎ ((e : Error) × (r ≡ err e))
Result-cases (ok a) = inl (a, refl)
Result-cases (err e) = inr (e, refl)
