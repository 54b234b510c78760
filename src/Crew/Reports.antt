-- ===== src/Crew/Reports.antt =====
-- stateful.go: how often a worker stands among those that still work, and among those that reported.
use hegel_go.Prelude.{
  ℕ, zero, suc, ◌+◌, ◌≡◌, refl, List, [], ◌∷◌, ◌++◌, some, get_elem?, arith, ◌==◌, if◌then◌else◌,
  subst,
}
use hegel_go.Engine.{Engine}
use hegel_go.Crew.{Live, remove_at}
use hegel_go.Workgroup.{WorkerResult}

abbrev pub once : ℕ → ℕ → ℕ
once w i = if i == w then 1 else 0

-- The results of worker w.
unfoldable pub reports : ℕ → List WorkerResult → ℕ
reports w [] = 0
reports w (r ∷ rs) = once w r.worker + reports w rs

pub reports-append :
    (w : ℕ) (rs : List WorkerResult) (r : WorkerResult)
    → reports w (rs ++ r ∷ []) ≡ once w r.worker + reports w rs
unfolding reports
reports-append w [] r = refl
reports-append w (x ∷ rs) r = let h = reports-append w rs r in omega (arith, h)

module _ ⦃eng : Engine⦄ where
  -- The places of worker w among those that have not ended.
  unfoldable pub working : ℕ → List Live → ℕ
  working w [] = 0
  working w (x ∷ xs) = once w x.index + working w xs

  pub working-remove_at :
      (w : ℕ) (xs : List Live) (p : ℕ) (x : Live)
      → get_elem? xs p ≡ some x
      → once w x.index + working w (remove_at p xs) ≡ working w xs
  unfolding working remove_at
  working-remove_at w [] p x e = absurd (cc)
  working-remove_at w (y ∷ ys) zero x e =
      let same : y ≡ x = cc in
      subst (λ z. once w z.index + working w ys ≡ once w y.index + working w ys) same refl
  working-remove_at w (y ∷ ys) (suc p) x e = omega (arith, working-remove_at w ys p x e)
