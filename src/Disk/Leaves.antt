-- ===== src/Disk/Leaves.antt =====
-- What an action leaves where it succeeds.
use mathlib.Core.Path.{subst}
use dalgo2ingitdb.Base.{◌≡◌, sym, ap, ◌∙◌}
use dalgo2ingitdb.Base.Result.{ok}
use dalgo2ingitdb.Disk.Action.{Action, ◌>>=◌, Keeps, bind-ok}

pub record Leaves {ℓ κ} {S : Type ℓ} {A : Type 0} (P : S → Type κ) (m : Action S A)
    : Type (ℓ ⊔ κ) where
  pub at : (s : S) (a : A) → (m s).0 ≡ ok a → P (m s).1

module _ {ℓ κ} {S : Type ℓ} {A B : Type 0} {P : S → Type κ} where
  -- What follows a success of the first action leaves it.
  pub Leaves-then :
      (m : Action S A) (f : A → Action S B)
      → ((s : S) (a : A) → (m s).0 ≡ ok a → Leaves P (f a))
      → Leaves P (m >>= f)
  Leaves-then m f k = record {
    at = λ s b h.
        let (a, e, same) = bind-ok m f s h in
        subst (λ x. P x.1) (sym same) ((k s a e).at (m s).1 b (sym (ap (λ x. x.0) same) ∙ h));
  }

  -- The first action leaves it, and what follows keeps it.
  pub Leaves-first :
      (m : Action S A) (f : A → Action S B)
      → Leaves P m
      → ((a : A) → Keeps P (f a))
      → Leaves P (m >>= f)
  Leaves-first m f l k = record {
    at = λ s b h.
        let (a, e, same) = bind-ok m f s h in
        subst (λ x. P x.1) (sym same) ((k a).at (m s).1 (l.at s a e));
  }
