-- ===== src/Workload/Checks.antt =====
-- workload.go: parseHealthCheck and HealthCheck.String.
use hegel_go.Prelude.{
  ℕ, ◌≡◌, sym, subst, ap, refl, String, List, [], ◌∷◌, str_eq, eq_iff, Bool-cases, inl, inr, ◌⊎◌,
  ◌↔◌, if◌then◌else◌, ◌∙◌,
}
use hegel_go.Errors.{Err}
use hegel_go.Flow.{ok, err}
use hegel_go.Workload.{
  all_health_checks, health_check_string, find_health_check, parse_health_check,
}

-- FilterTooMuch, TooSlow, TestCasesTooLarge or LargeInitialTestCase
abbrev pub IsHealthCheck : ℕ → Type 0
IsHealthCheck i = (i ≡ 1) ⊎ ((i ≡ 2) ⊎ ((i ≡ 4) ⊎ (i ≡ 8)))

abbrev OneOf : List ℕ → ℕ → Type 0
OneOf [] i = ⊥
OneOf (hc ∷ hcs) i = (i ≡ hc) ⊎ OneOf hcs i

not_found : {x : Err} {i : ℕ} → err x ≡ ok i → ⊥
not_found e = cc

found : {i j : ℕ} → ok i ≡ ok j → i ≡ j
found e = cc

module _ (format_int : ℕ → String) where
  find_sound :
      (name : String) (hcs : List ℕ) (i : ℕ)
      → find_health_check format_int name hcs ≡ ok i
      → OneOf hcs i × (health_check_string format_int i ≡ name)
  unfolding find_health_check
  find_sound name [] i e = absurd (not_found e)
  find_sound name (hc ∷ hcs) i e =
      elim (Bool-cases (str_eq (health_check_string format_int hc) name)) [
        | inl same ↦
            let it : hc ≡ i = found (
              subst (λ b. (if b then ok hc else find_health_check format_int name hcs) ≡ ok i) same
                e) in
            (
              inl (sym it),
              ap (health_check_string format_int) (sym it)
                  ∙ (eq_iff (health_check_string format_int hc) name).0 same,
            )
        | inr other ↦
            let rest = find_sound name hcs i (
              subst (λ b. (if b then ok hc else find_health_check format_int name hcs) ≡ ok i) other
                e) in
            (inr rest.0, rest.1)
      ]

  parse-string :
      (i : ℕ)
      → IsHealthCheck i
      → parse_health_check format_int (health_check_string format_int i) ≡ ok i
  unfolding parse_health_check find_health_check health_check_string all_health_checks
  parse-string i (inl e) = rw e refl
  parse-string i (inr (inl e)) = rw e refl
  parse-string i (inr (inr (inl e))) = rw e refl
  parse-string i (inr (inr (inr e))) = rw e refl

  is_check : (i : ℕ) → OneOf all_health_checks i → IsHealthCheck i
  unfolding all_health_checks
  is_check i (inl e) = inl e
  is_check i (inr (inl e)) = inr (inl e)
  is_check i (inr (inr (inl e))) = inr (inr (inl e))
  is_check i (inr (inr (inr (inl e)))) = inr (inr (inr e))
  is_check i (inr (inr (inr (inr e)))) = absurd e

  -- parseHealthCheck gives a check exactly for the name that HealthCheck.String gives to one of the four
  -- health checks.
  pub parse_health_check_iff :
      (name : String) (i : ℕ)
      → (parse_health_check format_int name ≡ ok i)
        ↔ (IsHealthCheck i × (health_check_string format_int i ≡ name))
  unfolding parse_health_check
  parse_health_check_iff name i = (
    (λ e. let h = find_sound name all_health_checks i e in (is_check i h.0, h.1)),
    (λ h. subst (λ n. parse_health_check format_int n ≡ ok i) h.1 (parse-string i h.0)),
  )
