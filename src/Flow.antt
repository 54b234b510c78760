-- ===== src/Flow.antt =====
-- How a piece of the program ends, and the two monads in which it is written. A Go function that
-- returns `(A, error)` is a `Fallible`, one that returns `A` is an `Exec`. Both may also leave by a
-- panic, with its value and the stack at which it was raised.
pub mod Exec
pub mod Fallible
pub mod Loop
use hegel_go.Prelude.{List, Bool, true, false}
use hegel_go.Errors.{Err, Cause, Frame}

pub data Result {ℓ} (A : Type ℓ) : Type ℓ where
  ok : A → Result A
  err : Err → Result A

-- `exhausted` marks a loop that ran out of the model's fuel.
pub data Flow {ℓ} (A : Type ℓ) : Type ℓ where
  returns : A → Flow A
  panics : Cause → List Frame → Flow A
  exhausted : Flow A

-- The end of a Fallible is the success of its value.
abbrev pub succeeds {ℓ} : {A : Type ℓ} → Flow (Result A) → Bool
succeeds (returns (ok a)) = true
succeeds _ = false
