-- ===== src/Disk/Action.antt =====
-- Actions: functions that change a state and return a value or an error. What was changed before
-- an error stays changed.
use dalgo2ingitdb.Base.{◌≡◌, refl, Bool, true, false, if◌then◌else◌}
use dalgo2ingitdb.Base.Result.{Error, Result, ok, err}

abbrev pub Action {ℓ} : Type ℓ → Type 0 → Type ℓ
Action S A = S → Result A × S

module _ {ℓ} {S : Type ℓ} {A : Type 0} where
  unfoldable pub pure : A → Action S A
  pure a s = (ok a, s)

  unfoldable pub raise : Error → Action S A
  raise e s = (err e, s)

  unfoldable pub lift : Result A → Action S A
  lift r s = (r, s)

module _ {ℓ} {S : Type ℓ} {A B : Type 0} where
  abbrev pub continue : Result A → (A → Action S B) → Action S B
  continue (ok a) f s = f a s
  continue (err e) f s = (err e, s)

  infixl 10 ◌>>=◌ ◌>>◌
  unfoldable pub ◌>>=◌ : Action S A → (A → Action S B) → Action S B
  ◌>>=◌ m f s = let (r, s') = m s in continue r f s'

  abbrev pub ◌>>◌ : Action S A → Action S B → Action S B
  m >> n = m >>= λ _. n

  -- The result of `m` rewritten, as by `fmt.Errorf("...: %w", err)`.
  abbrev pub map_result : (Result A → Result B) → Action S A → Action S B
  map_result f m s = let (r, s') = m s in (f r, s')

abbrev pub wrap_error {ℓ} : {A : Type ℓ} → (Error → Error) → Result A → Result A
wrap_error f (ok a) = ok a
wrap_error f (err e) = err (f e)

-- `m` keeps `P`, whether it returns or fails.
pub record Keeps {ℓ κ} {S : Type ℓ} {A : Type 0} (P : S → Type κ) (m : Action S A)
    : Type (ℓ ⊔ κ) where
  pub at : (s : S) → P s → P (m s).1

module _ {ℓ κ} {S : Type ℓ} {A : Type 0} {P : S → Type κ} where
  pub Keeps-lift : (res : Result A) → Keeps P (lift res)
  unfolding lift
  Keeps-lift res = record { at = λ s kept. kept }

  pub Keeps-raise : (e : Error) → Keeps P (raise {A = A} e)
  unfolding raise
  Keeps-raise e = record { at = λ s kept. kept }

  pub Keeps-pure : (value : A) → Keeps P (pure value)
  unfolding pure
  Keeps-pure value = record { at = λ s kept. kept }

  pub Keeps-if :
      (b : Bool) (m n : Action S A) → Keeps P m → Keeps P n → Keeps P (if b then m else n)
  Keeps-if true m n km kn = km
  Keeps-if false m n km kn = kn

module _ {ℓ κ} {S : Type ℓ} {A B : Type 0} {P : S → Type κ} where
  Keeps-continue :
      (r : Result A) (f : A → Action S B) (s : S)
      → ((a : A) → Keeps P (f a))
      → P s
      → P (continue r f s).1
  Keeps-continue (ok a) f s kf h = (kf a).at s h
  Keeps-continue (err e) f s kf h = h

  -- The first action is known to keep `P` from this state only.
  pub bind-at :
      (m : Action S A) (f : A → Action S B) (s : S)
      → P (m s).1
      → ((a : A) → Keeps P (f a))
      → P ((m >>= f) s).1
  unfolding ◌>>=◌
  bind-at m f s h kf = Keeps-continue (m s).0 f (m s).1 kf h

  -- A chain keeps what its first action and all that may follow keep.
  pub Keeps-bind :
      (first : Action S A) (next : A → Action S B)
      → Keeps P first
      → ((value : A) → Keeps P (next value))
      → Keeps P (first >>= next)
  unfolding ◌>>=◌
  Keeps-bind first next keeps_first keeps_next = record {
    at = λ s h. Keeps-continue (first s).0 next (first s).1 keeps_next (keeps_first.at s h);
  }

  pub Keeps-map_result :
      (f : Result A → Result B) (m : Action S A) → Keeps P m → Keeps P (map_result f m)
  Keeps-map_result f m km = record { at = λ s h. km.at s h }

module _ {ℓ κ} {S : Type ℓ} {A B : Type 0} (P : S → Type κ) where
  -- What holds after each outcome of the first action.
  pub bind-cases :
      (m : Action S A) (f : A → Action S B) (s : S)
      → ((e : Error) → (m s).0 ≡ err e → P (m s).1)
      → ((a : A) → (m s).0 ≡ ok a → P (f a (m s).1).1)
      → P ((m >>= f) s).1
  unfolding ◌>>=◌
  bind-cases m f s on_err on_ok = split (m s).0 (m s).1 f on_err on_ok
    where
      split :
          (r : Result A) (t : S) (f : A → Action S B)
          → ((e : Error) → r ≡ err e → P t)
          → ((a : A) → r ≡ ok a → P (f a t).1)
          → P (continue r f t).1
      split (ok a) t f on_err on_ok = on_ok a refl
      split (err e) t f on_err on_ok = on_err e refl

pub wrap_error-ok {ℓ} :
    {A : Type ℓ} (f : Error → Error) (r : Result A) {a : A} → wrap_error f r ≡ ok a → r ≡ ok a
wrap_error-ok f (ok b) h = h
wrap_error-ok f (err e) h = cc h

module _ {ℓ} {S : Type ℓ} {A B : Type 0} where
  -- A chain that succeeds is its second action, after the first one succeeded.
  pub bind-ok :
      (m : Action S A) (f : A → Action S B) (s : S) {b : B}
      → ((m >>= f) s).0 ≡ ok b
      → (a : A) × ((m s).0 ≡ ok a) × ((m >>= f) s ≡ f a (m s).1)
  unfolding ◌>>=◌
  bind-ok m f s h = split (m s).0 (m s).1 f h
    where
      split :
          (r : Result A) (t : S) (f : A → Action S B) {b : B}
          → (continue r f t).0 ≡ ok b
          → (a : A) × (r ≡ ok a) × (continue r f t ≡ f a t)
      split (ok a) t f h = (a, refl, refl)
      split (err e) t f h = cc h

pub ruleset keeps_rules =
    (Keeps-pure, Keeps-raise, Keeps-lift, Keeps-if, Keeps-bind, Keeps-map_result)
