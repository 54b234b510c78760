-- ===== src/Flow/Exec/Laws.antt =====
-- Partial correctness of functions without an error result: `Gives m s Q` says that Q holds of the
-- value and the final state whenever `m` returns from `s`.
use hegel_go.Prelude.{◌≡◌, refl, subst, Bool, true, false, if◌then◌else◌}
use hegel_go.Flow.{Flow, returns, panics, exhausted}
use hegel_go.Flow.Exec.{Exec, continue, pure, ◌>>=◌}

module _ {ℓ κ ι} {S : Type ℓ} {A : Type κ} where
  abbrev pub Returned : (A → S → Type ι) → Flow A → S → Type ι
  Returned Q (returns a) s = Q a s
  Returned Q (panics c pcs) s = Unit
  Returned Q exhausted s = Unit

  pub record Gives (m : Exec S A) (s : S) (Q : A → S → Type ι) : Type ι where
    pub at : Returned Q (m s).0 (m s).1

  pub Gives-returns :
      (m : Exec S A) (s : S) (Q : A → S → Type ι) (a : A) (s' : S)
      → Gives m s Q
      → m s ≡ (returns a, s')
      → Q a s'
  Gives-returns m s Q a s' w e = subst (λ r. Returned Q r.0 r.1) e w.at

  pub Gives-pure : (a : A) (s : S) (Q : A → S → Type ι) → Q a s → Gives (pure a) s Q
  Gives-pure a s Q h = record { at = h }

  Returned-self :
      (r : Flow A) (s : S) (Q : A → S → Type ι) → ((a : A) → r ≡ returns a → Q a s) → Returned Q r s
  Returned-self (returns a) s Q k = k a refl
  Returned-self (panics c pcs) s Q k = tt
  Returned-self exhausted s Q k = tt

  -- Of an action about which it is known what it returns.
  pub Gives-self :
      (m : Exec S A) (s : S) (Q : A → S → Type ι)
      → ((a : A) → (m s).0 ≡ returns a → Q a (m s).1)
      → Gives m s Q
  Gives-self m s Q k = record { at = Returned-self (m s).0 (m s).1 Q k }

  pub Gives-mono :
      (m : Exec S A) (s : S) (P Q : A → S → Type ι)
      → Gives m s P
      → ((a : A) (t : S) → P a t → Q a t)
      → Gives m s Q
  Gives-mono m s P Q w k =
      Gives-self m s Q (λ a e. k a (m s).1 (subst (λ r. Returned P r (m s).1) e w.at))

  pub Gives-if :
      (b : Bool) (m n : Exec S A) (s : S) (Q : A → S → Type ι)
      → (b ≡ true → Gives m s Q)
      → (b ≡ false → Gives n s Q)
      → Gives (if b then m else n) s Q
  Gives-if true m n s Q hm hn = hm refl
  Gives-if false m n s Q hm hn = hn refl

module _ {ℓ κ ι} {S : Type ℓ} {A B : Type κ} where
  Returned-continue :
      (r : Flow A) (t : S) (f : A → Exec S B) (Q : B → S → Type ι)
      → Returned (λ a u. Gives (f a) u Q) r t
      → Returned Q (continue r f t).0 (continue r f t).1
  Returned-continue (returns a) t f Q h = h.at
  Returned-continue (panics c pcs) t f Q h = tt
  Returned-continue exhausted t f Q h = tt

  pub Gives-bind :
      (m : Exec S A) (f : A → Exec S B) (s : S) (Q : B → S → Type ι)
      → Gives m s (λ a t. Gives (f a) t Q)
      → Gives (m >>= f) s Q
  Gives-bind m f s Q w = record { at = Returned-continue (m s).0 (m s).1 f Q w.at }

  -- The first action of a block, when only what it returns is needed.
  pub Gives-then :
      (m : Exec S A) (f : A → Exec S B) (s : S) (Q : B → S → Type ι)
      → ((a : A) (t : S) → m s ≡ (returns a, t) → Gives (f a) t Q)
      → Gives (m >>= f) s Q
  Gives-then m f s Q k = Gives-bind m f s Q (Gives-self m s _ (λ a e. k a (m s).1 (pair e)))
    where
      pair : {a : A} → (m s).0 ≡ returns a → m s ≡ (returns a, (m s).1)
      pair e = λ i. (e i, (m s).1)
