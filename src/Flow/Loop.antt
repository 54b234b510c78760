-- ===== src/Flow/Loop.antt =====
-- A Go `for` loop over local variables of type A whose body may return early: `round` gives the
-- variables of the next round, or the loop's result. The fuel bounds the rounds.
pub mod Laws
use hegel_go.Prelude.{ℕ, zero, suc}
use hegel_go.Flow.{exhausted}
use hegel_go.Flow.Fallible.{Fallible, pure, ◌>>=◌}

pub data Step {ℓ} (A B : Type ℓ) : Type ℓ where
  again : A → Step A B
  done : B → Step A B

abbrev pub out_of_fuel {ℓ κ} : {S : Type ℓ} {B : Type κ} → Fallible S B
out_of_fuel s = (exhausted, s)

module _ {ℓ κ} {S : Type ℓ} {A B : Type κ} where
  abbrev pub next : (A → Fallible S B) → Step A B → Fallible S B
  next k (again a) = k a
  next k (done b) = pure b

  unfoldable pub loop : (A → Fallible S (Step A B)) → ℕ → A → Fallible S B
  loop round zero a = out_of_fuel
  loop round (suc n) a = round a >>= next (loop round n)
