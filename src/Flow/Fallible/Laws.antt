-- ===== src/Flow/Fallible/Laws.antt =====
-- Partial correctness of blocks: `Wp m s Q` says that Q holds of the value and the final state
-- whenever `m` returns a value from `s`. One rule for each way to build a block.
use hegel_go.Prelude.{◌≡◌, refl, subst, Bool, true, false, if◌then◌else◌}
use hegel_go.Errors.{Err}
use hegel_go.Flow.{Flow, Result, ok, err, returns, panics, exhausted}
use hegel_go.Flow.Exec.{Exec}
use hegel_go.Flow.Exec
use hegel_go.Flow.Fallible.{Fallible, continue, pure, fail, from_exec, ◌>>=◌}

module _ {ℓ κ ι} {S : Type ℓ} {A : Type κ} where
  abbrev pub Holds : (A → S → Type ι) → Flow (Result A) → S → Type ι
  Holds Q (returns (ok a)) s = Q a s
  Holds Q (returns (err e)) s = Unit
  Holds Q (panics c pcs) s = Unit
  Holds Q exhausted s = Unit

  pub record Wp (m : Fallible S A) (s : S) (Q : A → S → Type ι) : Type ι where
    pub at : Holds Q (m s).0 (m s).1

  pub Wp-returns :
      (m : Fallible S A) (s : S) (Q : A → S → Type ι) (a : A) (s' : S)
      → Wp m s Q
      → m s ≡ (returns (ok a), s')
      → Q a s'
  Wp-returns m s Q a s' w e = subst (λ r. Holds Q r.0 r.1) e w.at

  pub Wp-pure : (a : A) (s : S) (Q : A → S → Type ι) → Q a s → Wp (pure a) s Q
  unfolding pure
  Wp-pure a s Q h = record { at = h }

  pub Wp-fail : (e : Err) (s : S) (Q : A → S → Type ι) → Wp (fail e) s Q
  unfolding fail
  Wp-fail e s Q = record { at = tt }

  Holds-mono :
      (P Q : A → S → Type ι) (r : Flow (Result A)) (s : S)
      → ((a : A) → P a s → Q a s)
      → Holds P r s
      → Holds Q r s
  Holds-mono P Q (returns (ok a)) s k h = k a h
  Holds-mono P Q (returns (err e)) s k h = tt
  Holds-mono P Q (panics c pcs) s k h = tt
  Holds-mono P Q exhausted s k h = tt

  pub Wp-mono :
      (m : Fallible S A) (s : S) (P Q : A → S → Type ι)
      → Wp m s P
      → ((a : A) (s' : S) → P a s' → Q a s')
      → Wp m s Q
  Wp-mono m s P Q w k = record { at = Holds-mono P Q (m s).0 (m s).1 (λ a. k a (m s).1) w.at }

  Holds-any :
      (Q : A → S → Type ι) (r : Flow (Result A)) (s : S) → ((a : A) (t : S) → Q a t) → Holds Q r s
  Holds-any Q (returns (ok a)) s k = k a s
  Holds-any Q (returns (err e)) s k = tt
  Holds-any Q (panics c pcs) s k = tt
  Holds-any Q exhausted s k = tt

  -- Of an action about which nothing is known.
  pub Wp-any :
      (m : Fallible S A) (s : S) (Q : A → S → Type ι) → ((a : A) (t : S) → Q a t) → Wp m s Q
  Wp-any m s Q k = record { at = Holds-any Q (m s).0 (m s).1 k }

  Holds-self :
      (r : Flow (Result A)) (s : S) (Q : A → S → Type ι)
      → ((a : A) → r ≡ returns (ok a) → Q a s)
      → Holds Q r s
  Holds-self (returns (ok a)) s Q k = k a refl
  Holds-self (returns (err e)) s Q k = tt
  Holds-self (panics c pcs) s Q k = tt
  Holds-self exhausted s Q k = tt

  -- Of an action about which it is known what it returns.
  pub Wp-self :
      (m : Fallible S A) (s : S) (Q : A → S → Type ι)
      → ((a : A) → (m s).0 ≡ returns (ok a) → Q a (m s).1)
      → Wp m s Q
  Wp-self m s Q k = record { at = Holds-self (m s).0 (m s).1 Q k }

  -- The branches may use the test.
  pub Wp-if :
      (b : Bool) (m n : Fallible S A) (s : S) (Q : A → S → Type ι)
      → (b ≡ true → Wp m s Q)
      → (b ≡ false → Wp n s Q)
      → Wp (if b then m else n) s Q
  Wp-if true m n s Q hm hn = hm refl
  Wp-if false m n s Q hm hn = hn refl

  Holds-from_exec :
      (r : Flow A) (s : S) (Q : A → S → Type ι)
      → ((a : A) → r ≡ returns a → Q a s)
      → Holds Q (Exec.continue r pure s).0 (Exec.continue r pure s).1
  unfolding pure
  Holds-from_exec (returns a) s Q k = k a refl
  Holds-from_exec (panics c pcs) s Q k = tt
  Holds-from_exec exhausted s Q k = tt

  pub Wp-from_exec :
      (m : Exec S A) (s : S) (Q : A → S → Type ι)
      → ((a : A) → (m s).0 ≡ returns a → Q a (m s).1)
      → Wp (from_exec m) s Q
  unfolding from_exec
  Wp-from_exec m s Q k = record { at = Holds-from_exec (m s).0 (m s).1 Q k }

module _ {ℓ κ ι} {S : Type ℓ} {A B : Type κ} where
  Holds-continue :
      (r : Flow (Result A)) (t : S) (f : A → Fallible S B) (Q : B → S → Type ι)
      → Holds (λ a t'. Wp (f a) t' Q) r t
      → Holds Q (continue r f t).0 (continue r f t).1
  Holds-continue (returns (ok a)) t f Q h = h.at
  Holds-continue (returns (err e)) t f Q h = tt
  Holds-continue (panics c pcs) t f Q h = tt
  Holds-continue exhausted t f Q h = tt

  pub Wp-bind :
      (m : Fallible S A) (f : A → Fallible S B) (s : S) (Q : B → S → Type ι)
      → Wp m s (λ a t. Wp (f a) t Q)
      → Wp (m >>= f) s Q
  unfolding ◌>>=◌
  Wp-bind m f s Q w = record { at = Holds-continue (m s).0 (m s).1 f Q w.at }

  -- The first action of a block, when nothing about it is needed.
  pub Wp-skip :
      (m : Fallible S A) (f : A → Fallible S B) (s : S) (Q : B → S → Type ι)
      → ((a : A) (t : S) → Wp (f a) t Q)
      → Wp (m >>= f) s Q
  Wp-skip m f s Q k = Wp-bind m f s Q (Wp-any m s _ k)
