-- ===== src/Flow/Exec.antt =====
-- Functions without an error result: the rest runs only after a return.
pub mod Laws
pub mod Total
use hegel_go.Prelude.{◌≡◌}
use hegel_go.Flow.{Flow, returns, panics, exhausted}

abbrev pub Exec {ℓ κ} : Type ℓ → Type κ → Type (ℓ ⊔ κ)
Exec S A = S → Flow A × S

module _ {ℓ κ} {S : Type ℓ} {A : Type κ} where
  abbrev pub pure : A → Exec S A
  pure a s = (returns a, s)

module _ {ℓ κ ι} {S : Type ℓ} {A : Type κ} {B : Type ι} where
  abbrev pub continue : Flow A → (A → Exec S B) → Exec S B
  continue (returns a) f s = f a s
  continue (panics c pcs) f s = (panics c pcs, s)
  continue exhausted f s = (exhausted, s)

  infixl 5 ◌>>=◌ ◌>>◌
  abbrev pub ◌>>=◌ : Exec S A → (A → Exec S B) → Exec S B
  ◌>>=◌ m f s = let (r, s') = m s in continue r f s'

  abbrev pub ◌>>◌ : Exec S A → Exec S B → Exec S B
  m >> n = m >>= λ _. n

  continue_returns :
      (r : Flow A) (f : A → Exec S B) (s s' : S) (b : B)
      → continue r f s ≡ (returns b, s')
      → (a : A) × (f a s ≡ (returns b, s'))
  continue_returns (returns a) f s s' b e = (a, e)
  continue_returns (panics c pcs) f s s' b e = absurd (cc)
  continue_returns exhausted f s s' b e = absurd (cc)

  -- A block returns only if its first action does.
  pub bind_returns :
      (m : Exec S A) (f : A → Exec S B) (s s' : S) (b : B)
      → (m >>= f) s ≡ (returns b, s')
      → (a : A) × (f a (m s).1 ≡ (returns b, s'))
  bind_returns m f s s' b e = continue_returns (m s).0 f (m s).1 s' b e
