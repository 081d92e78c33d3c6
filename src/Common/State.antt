-- ===== src/Common/State.antt =====
-- Code that changes a state and may fail: an action returns its result and the new state.
use mathlib.Core.Path.{◌≡◌, refl}
use iroh_proxy.Common.Results.{Result, ok, err}

abbrev pub Action : Type 0 → Type 0 → Type 0 → Type 0
Action S E A = S → Result E A × S

module _ {S E : Type 0} where
  abbrev pub pure : {A : Type 0} → A → Action S E A
  pure a s = (ok a, s)

  abbrev pub fail : {A : Type 0} → E → Action S E A
  fail e s = (err e, s)

  -- Code that does not touch the state.
  abbrev pub lift : {A : Type 0} → Result E A → Action S E A
  lift r s = (r, s)

  abbrev pub continue : {A B : Type 0} → Result E A × S → (A → Action S E B) → Result E B × S
  continue (ok a, s) f = f a s
  continue (err e, s) f = (err e, s)

  infixl 5 ◌>>=◌ ◌>>◌
  abbrev pub ◌>>=◌ : {A B : Type 0} → Action S E A → (A → Action S E B) → Action S E B
  ◌>>=◌ m f s = continue (m s) f

  abbrev pub ◌>>◌ : {B : Type 0} → Action S E (Unit {0}) → Action S E B → Action S E B
  m >> k = m >>= λ _. k

  -- A step that does not touch the state fails or goes on.
  pub continue_lift {ℓ} :
      {A B : Type 0} (P : Result E B × S → Type ℓ) (r : Result E A) (s : S) (f : A → Action S E B)
      → ((e : E) → r ≡ err e → P (err e, s))
      → ((a : A) → r ≡ ok a → P (f a s))
      → P (continue (r, s) f)
  continue_lift P (ok a) s f fails goes = goes a refl
  continue_lift P (err e) s f fails goes = fails e refl
