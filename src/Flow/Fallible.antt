-- ===== src/Flow/Fallible.antt =====
-- Functions that return `(A, error)`: a returned error ends the block, `if err != nil { return }`.
pub mod Laws
pub mod Total
use hegel_go.Errors.{Err}
use hegel_go.Flow.{Flow, Result, ok, err, returns, panics, exhausted}
use hegel_go.Flow.Exec.{Exec}
use hegel_go.Flow.Exec

abbrev pub Fallible {ℓ κ} : Type ℓ → Type κ → Type (ℓ ⊔ κ)
Fallible S A = Exec S (Result A)

module _ {ℓ κ} {S : Type ℓ} {A : Type κ} where
  unfoldable pub pure : A → Fallible S A
  pure a s = (returns (ok a), s)

  unfoldable pub fail : Err → Fallible S A
  fail e s = (returns (err e), s)

  -- A call of a function without an error result.
  unfoldable pub from_exec : Exec S A → Fallible S A
  unfolding pure
  from_exec m = Exec.◌>>=◌ m pure

module _ {ℓ κ ι} {S : Type ℓ} {A : Type κ} {B : Type ι} where
  abbrev pub continue : Flow (Result A) → (A → Fallible S B) → Fallible S B
  continue (returns (ok a)) f s = f a s
  continue (returns (err e)) f s = (returns (err e), s)
  continue (panics c pcs) f s = (panics c pcs, s)
  continue exhausted f s = (exhausted, s)

  infixl 5 ◌>>=◌ ◌>>◌
  -- Opening this opens the three above too.
  unfoldable pub ◌>>=◌ : Fallible S A → (A → Fallible S B) → Fallible S B
  unfolding pure fail from_exec
  ◌>>=◌ m f s = let (r, s') = m s in continue r f s'

  abbrev pub ◌>>◌ : Fallible S A → Fallible S B → Fallible S B
  m >> n = m >>= λ _. n
