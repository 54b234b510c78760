-- ===== src/Flow/Loop/Laws.antt =====
-- Rules for loops: an invariant of the rounds, and a measure that bounds them.
use hegel_go.Prelude.{ℕ, zero, suc, ◌<◌, ◌≢◌, arith}
use hegel_go.Flow.{Flow, Result, ok, err, returns, panics, exhausted}
use hegel_go.Flow.Fallible.{Fallible, pure, continue, ◌>>=◌}
use hegel_go.Flow.Fallible.Laws.{Wp, Wp-pure, Wp-bind, Wp-mono}
use hegel_go.Flow.Loop.{Step, again, done, next, loop}

module _ {ℓ κ ι} {S : Type ℓ} {A B : Type κ} where
  abbrev pub After : (A → S → Type ι) → (B → S → Type ι) → Step A B → S → Type ι
  After P Q (again a) s = P a s
  After P Q (done b) s = Q b s

  module _ (round : A → Fallible S (Step A B)) (P : A → S → Type ι) (Q : B → S → Type ι)
      (keep : (a : A) (s : S) → P a s → Wp (round a) s (After P Q)) where
    Wp-next :
        (k : A → Fallible S B) (x : Step A B) (s : S)
        → ((a : A) → P a s → Wp (k a) s Q)
        → After P Q x s
        → Wp (next k x) s Q
    Wp-next k (again a) s go h = go a h
    Wp-next k (done b) s go h = Wp-pure b s Q h

    -- An invariant that every round keeps holds when the loop returns.
    pub Wp-loop : (n : ℕ) (a : A) (s : S) → P a s → Wp (loop round n a) s Q
    unfolding loop
    Wp-loop zero a s h = record { at = tt }
    Wp-loop (suc n) a s h = Wp-bind (round a) (next (loop round n)) s Q (
        Wp-mono (round a) s (After P Q) _ (keep a s h)
          (λ x t. Wp-next (loop round n) x t (λ b. Wp-loop n b t)))

module _ {ℓ κ} {S : Type ℓ} {A B : Type κ} (P : A → S → Type 0) (measure : A → S → ℕ) where
  -- A round does not run out of fuel itself, and if it goes on it lowers the measure below `n`.
  abbrev pub Lowers : ℕ → Flow (Result (Step A B)) → S → Type 0
  Lowers n (returns (ok (again a))) s = P a s × (measure a s < n)
  Lowers n (returns (ok (done b))) s = Unit
  Lowers n (returns (err e)) s = Unit
  Lowers n (panics c pcs) s = Unit
  Lowers n exhausted s = ⊥

  module _ (round : A → Fallible S (Step A B))
      (lower : (a : A) (s : S) → P a s → Lowers (measure a s) (round a s).0 (round a s).1) where
    next_total :
        (k : A → Fallible S B) (n : ℕ) (r : Flow (Result (Step A B))) (t : S)
        → Lowers n r t
        → ((a : A) → P a t → measure a t < n → (k a t).0 ≢ exhausted)
        → (continue r (next k) t).0 ≢ exhausted
    unfolding pure
    next_total k n (returns (ok (again a))) t h go = go a h.0 h.1
    next_total k n (returns (ok (done b))) t h go = λ e. cc
    next_total k n (returns (err e)) t h go = λ e. cc
    next_total k n (panics c pcs) t h go = λ e. cc
    next_total k n exhausted t h go = absurd h

    -- With more fuel than the measure the loop does not run out of it.
    pub loop_total :
        (n : ℕ) (a : A) (s : S) → P a s → measure a s < n → (loop round n a s).0 ≢ exhausted
    unfolding loop ◌>>=◌
    loop_total zero a s h lt = elim lt [ ]
    loop_total (suc n) a s h lt =
        next_total (loop round n) (measure a s) (round a s).0 (round a s).1 (lower a s h)
          (λ b hb ltb. loop_total n b (round a s).1 hb (omega arith))
