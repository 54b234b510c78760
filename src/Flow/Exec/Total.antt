-- ===== src/Flow/Exec/Total.antt =====
-- Total correctness of functions without an error result: `Lands m s Q` says that `m` returns from s,
-- and that Q holds of its value and the final state.
use hegel_go.Prelude.{◌≡◌, refl, Bool, true, false, if◌then◌else◌}
use hegel_go.Flow.{Flow, returns, panics, exhausted}
use hegel_go.Flow.Exec.{Exec, continue, pure, ◌>>=◌}

module _ {ℓ κ} {S : Type ℓ} {A : Type κ} where
  abbrev pub Landed : (A → S → Type 0) → Flow A → S → Type 0
  Landed Q (returns a) s = Q a s
  Landed Q (panics c pcs) s = ⊥
  Landed Q exhausted s = ⊥

  pub record Lands (m : Exec S A) (s : S) (Q : A → S → Type 0) : Type 0 where
    pub at : Landed Q (m s).0 (m s).1

  pub Lands-pure : (a : A) (s : S) (Q : A → S → Type 0) → Q a s → Lands (pure a) s Q
  Lands-pure a s Q h = record { at = h }

  Landed-mono :
      (P Q : A → S → Type 0) (r : Flow A) (s : S)
      → ((a : A) → P a s → Q a s)
      → Landed P r s
      → Landed Q r s
  Landed-mono P Q (returns a) s k h = k a h
  Landed-mono P Q (panics c pcs) s k h = h
  Landed-mono P Q exhausted s k h = h

  pub Lands-mono :
      (m : Exec S A) (s : S) (P Q : A → S → Type 0)
      → Lands m s P
      → ((a : A) (t : S) → P a t → Q a t)
      → Lands m s Q
  Lands-mono m s P Q w k = record { at = Landed-mono P Q (m s).0 (m s).1 (λ a. k a (m s).1) w.at }

  pub Lands-if :
      (b : Bool) (m n : Exec S A) (s : S) (Q : A → S → Type 0)
      → (b ≡ true → Lands m s Q)
      → (b ≡ false → Lands n s Q)
      → Lands (if b then m else n) s Q
  Lands-if true m n s Q hm hn = hm refl
  Lands-if false m n s Q hm hn = hn refl

  Landed-value :
      (Q : A → S → Type 0) (r : Flow A) (s : S) → Landed Q r s → (a : A) × (r ≡ returns a) × Q a s
  Landed-value Q (returns a) s h = (a, refl, h)
  Landed-value Q (panics c pcs) s h = absurd h
  Landed-value Q exhausted s h = absurd h

  -- The value and the final state.
  pub Lands-value :
      (m : Exec S A) (s : S) (Q : A → S → Type 0)
      → Lands m s Q
      → (a : A) × ((m s).0 ≡ returns a) × Q a (m s).1
  Lands-value m s Q w = Landed-value Q (m s).0 (m s).1 w.at

module _ {ℓ κ} {S : Type ℓ} {A B : Type κ} where
  Landed-continue :
      (r : Flow A) (t : S) (f : A → Exec S B) (Q : B → S → Type 0)
      → Landed (λ a u. Lands (f a) u Q) r t
      → Landed Q (continue r f t).0 (continue r f t).1
  Landed-continue (returns a) t f Q h = h.at
  Landed-continue (panics c pcs) t f Q h = absurd h
  Landed-continue exhausted t f Q h = absurd h

  pub Lands-bind :
      (m : Exec S A) (f : A → Exec S B) (s : S) (Q : B → S → Type 0)
      → Lands m s (λ a t. Lands (f a) t Q)
      → Lands (m >>= f) s Q
  Lands-bind m f s Q w = record { at = Landed-continue (m s).0 (m s).1 f Q w.at }
