-- ===== src/Flow/Fallible/Total.antt =====
-- Total correctness of blocks: `Ends m s Q` says that `m` does not run out of fuel from s, and that Q
-- holds of the value and the final state when it returns a value.
use hegel_go.Prelude.{◌≡◌, ◌≢◌, refl, Bool, true, false, if◌then◌else◌}
use hegel_go.Errors.{Err}
use hegel_go.Flow.{Flow, Result, ok, err, returns, panics, exhausted}
use hegel_go.Flow.Fallible.{Fallible, continue, pure, fail, ◌>>=◌}

module _ {ℓ κ} {S : Type ℓ} {A : Type κ} where
  abbrev pub Reached : (A → S → Type 0) → Flow (Result A) → S → Type 0
  Reached Q (returns (ok a)) s = Q a s
  Reached Q (returns (err e)) s = Unit
  Reached Q (panics c pcs) s = Unit
  Reached Q exhausted s = ⊥

  pub record Ends (m : Fallible S A) (s : S) (Q : A → S → Type 0) : Type 0 where
    pub at : Reached Q (m s).0 (m s).1

  pub Ends-pure : (a : A) (s : S) (Q : A → S → Type 0) → Q a s → Ends (pure a) s Q
  unfolding pure
  Ends-pure a s Q h = record { at = h }

  pub Ends-fail : (e : Err) (s : S) (Q : A → S → Type 0) → Ends (fail e) s Q
  unfolding fail
  Ends-fail e s Q = record { at = tt }

  pub Ends-if :
      (b : Bool) (m n : Fallible S A) (s : S) (Q : A → S → Type 0)
      → (b ≡ true → Ends m s Q)
      → (b ≡ false → Ends n s Q)
      → Ends (if b then m else n) s Q
  Ends-if true m n s Q hm hn = hm refl
  Ends-if false m n s Q hm hn = hn refl

  Reached-mono :
      (P Q : A → S → Type 0) (r : Flow (Result A)) (s : S)
      → ((a : A) → P a s → Q a s)
      → Reached P r s
      → Reached Q r s
  Reached-mono P Q (returns (ok a)) s k h = k a h
  Reached-mono P Q (returns (err e)) s k h = tt
  Reached-mono P Q (panics c pcs) s k h = tt
  Reached-mono P Q exhausted s k h = h

  pub Ends-mono :
      (m : Fallible S A) (s : S) (P Q : A → S → Type 0)
      → Ends m s P
      → ((a : A) (t : S) → P a t → Q a t)
      → Ends m s Q
  Ends-mono m s P Q e k = record { at = Reached-mono P Q (m s).0 (m s).1 (λ a. k a (m s).1) e.at }

  Reached-not_exhausted :
      (Q : A → S → Type 0) (r : Flow (Result A)) (s : S) → Reached Q r s → r ≢ exhausted
  Reached-not_exhausted Q (returns (ok a)) s h = λ e. cc
  Reached-not_exhausted Q (returns (err e)) s h = λ e. cc
  Reached-not_exhausted Q (panics c pcs) s h = λ e. cc
  Reached-not_exhausted Q exhausted s h = absurd h

  pub Ends-not_exhausted :
      (m : Fallible S A) (s : S) (Q : A → S → Type 0) → Ends m s Q → (m s).0 ≢ exhausted
  Ends-not_exhausted m s Q e = Reached-not_exhausted Q (m s).0 (m s).1 e.at

module _ {ℓ κ} {S : Type ℓ} {A B : Type κ} where
  Reached-continue :
      (r : Flow (Result A)) (t : S) (f : A → Fallible S B) (Q : B → S → Type 0)
      → Reached (λ a u. Ends (f a) u Q) r t
      → Reached Q (continue r f t).0 (continue r f t).1
  Reached-continue (returns (ok a)) t f Q h = h.at
  Reached-continue (returns (err e)) t f Q h = tt
  Reached-continue (panics c pcs) t f Q h = tt
  Reached-continue exhausted t f Q h = h

  pub Ends-bind :
      (m : Fallible S A) (f : A → Fallible S B) (s : S) (Q : B → S → Type 0)
      → Ends m s (λ a t. Ends (f a) t Q)
      → Ends (m >>= f) s Q
  unfolding ◌>>=◌
  Ends-bind m f s Q e = record { at = Reached-continue (m s).0 (m s).1 f Q e.at }
