-- ===== src/Generator/Filter.antt =====
-- generators.go: what a filtered generator draws, and when it gives up.
use hegel_go.Prelude.{ℕ, zero, suc, ◌≡◌, refl, ◌∙◌, Bool, true, false}
use hegel_go.Errors.{Err, ErrorCode}
use hegel_go.Flow.{Result, ok, err, returns}
use hegel_go.Flow.Fallible.{fail, ◌>>=◌}
use hegel_go.Flow.Fallible.Laws.{Wp, Wp-pure, Wp-fail, Wp-bind, Wp-if, Wp-any, Wp-returns}
use hegel_go.Engine.{Engine}
use hegel_go.TestCase.{TestCase, start_span, stop_span}
use hegel_go.Generator.{Generator, draw, filter_attempts, filtered}

module _ ⦃eng : Engine⦄ {A : Type 0} (g : Generator A) (p : A → Bool) where
  attempts-satisfy : (n : ℕ) (s : TestCase) → Wp (filter_attempts g p n) s (λ v _. p v ≡ true)
  unfolding filter_attempts
  attempts-satisfy zero s = Wp-fail _ s _
  attempts-satisfy (suc n) s = Wp-bind (start_span _) _ s _ (
      Wp-any (start_span _) s _ (λ _ t. Wp-bind (draw g) _ t _ (
        Wp-any (draw g) t _ (λ v u.
          Wp-if (p v) _ _ u _
            (λ yes_p.
              Wp-bind (stop_span false) _ u _
                (Wp-any (stop_span false) u _ (λ _ w. Wp-pure v w _ yes_p)))
            (λ _.
              Wp-bind (stop_span true) _ u _
                (Wp-any (stop_span true) u _ (λ _ w. attempts-satisfy n w)))))))

  -- Every value that a filtered generator draws satisfies the predicate.
  pub filtered-satisfies :
      (typ : ℕ) (s s' : TestCase) (v : A)
      → (filtered typ g p).draw_value s ≡ (returns (ok v), s')
      → p v ≡ true
  unfolding filtered
  filtered-satisfies typ s s' v = Wp-returns _ s (λ x _. p x ≡ true) v s' (attempts-satisfy 3 s)

  -- One attempt from s to s' whose value the predicate rejects: its span is discarded.
  pub data Rejected (s s' : TestCase) : Type 0 where
    rejected :
        (t u : TestCase) (v : A)
        → start_span (eng.label_of_name "filter") s ≡ (returns (ok tt), t)
        → draw g t ≡ (returns (ok v), u)
        → p v ≡ false
        → stop_span true u ≡ (returns (ok tt), s')
        → Rejected s s'

  -- One attempt from s to s' whose value v the predicate accepts: its span is kept.
  pub data Accepted (v : A) (s s' : TestCase) : Type 0 where
    accepted :
        (t u : TestCase)
        → start_span (eng.label_of_name "filter") s ≡ (returns (ok tt), t)
        → draw g t ≡ (returns (ok v), u)
        → p v ≡ true
        → stop_span false u ≡ (returns (ok tt), s')
        → Accepted v s s'

  attempt-Rejected :
      (n : ℕ) (s s' : TestCase)
      → Rejected s s'
      → filter_attempts g p (suc n) s ≡ filter_attempts g p n s'
  unfolding filter_attempts ◌>>=◌
  attempt-Rejected n s s' (rejected t u v a b c d) =
      rw (a, ◌>>=◌) (rw (b, ◌>>=◌) (rw c (rw (d, ◌>>=◌))))

  attempt-Accepted :
      (n : ℕ) (v : A) (s s' : TestCase)
      → Accepted v s s'
      → filter_attempts g p (suc n) s ≡ (returns (ok v), s')
  unfolding filter_attempts ◌>>=◌
  attempt-Accepted n v s s' (accepted t u a b c d) =
      rw (a, ◌>>=◌) (rw (b, ◌>>=◌) (rw c (rw (d, ◌>>=◌))))

  -- At most n attempts from s, with their result and the state after them: the first accepted value,
  -- or E_ASSUME after n rejections.
  pub data Attempts : ℕ → TestCase → Result A → TestCase → Type 0 where
    give_up : {s : TestCase} → Attempts 0 s (err (Err.code ErrorCode.assume)) s
    accept : {n : ℕ} {s s' : TestCase} (v : A) → Accepted v s s' → Attempts (suc n) s (ok v) s'
    again :
        {n : ℕ} {s t w : TestCase} {r : Result A}
        → Rejected s t
        → Attempts n t r w
        → Attempts (suc n) s r w

  Attempts-run :
      {n : ℕ} {s w : TestCase} {r : Result A}
      → Attempts n s r w
      → filter_attempts g p n s ≡ (returns r, w)
  unfolding filter_attempts fail
  Attempts-run give_up = refl
  Attempts-run (accept {n = n} {s = s} {s' = s'} v a) = attempt-Accepted n v s s' a
  Attempts-run (again {n = n} {s = s} {t = t} a rest) = attempt-Rejected n s t a ∙ Attempts-run rest

  -- A filtered generator makes at most three attempts, each in a span of its own that is kept for an
  -- accepted value and discarded for a rejected one: the first accepted value is the result, and
  -- three rejections end in E_ASSUME.
  pub filtered-Attempts :
      (typ : ℕ) (s w : TestCase) (r : Result A)
      → Attempts 3 s r w
      → (filtered typ g p).draw_value s ≡ (returns r, w)
  unfolding filtered
  filtered-Attempts typ s w r a = Attempts-run a
