-- ===== src/Dates/Years.antt =====
-- primitives.go: the years that cross to the library.
use hegel_go.Prelude.{◌≡◌, sym, subst, arith, ◌||◌, Bool-cases, inl, inr}
use hegel_go.Prelude.Int.{ℤ, pos, negsuc, ◌≤ℤ◌, ltb_ℤ, to_int32}
use hegel_go.Flow.{ok}
use hegel_go.Engine.{Engine, Date}
use hegel_go.Dates.{date_from_time}

to_int32_small : (y : ℤ) → negsuc 999998 ≤ℤ y → y ≤ℤ pos 999999 → to_int32 y ≡ y
to_int32_small (pos n) lo hi = ground arith
to_int32_small (negsuc n) lo hi = ground arith

module _ ⦃eng : Engine⦄ where
  -- A bound of a date generator that is accepted has a year from -999999 to 999999, and its int32 is
  -- that year, not a wrapped one.
  pub date_from_time_year :
      (v : eng.Time) (d : Date)
      → date_from_time v ≡ ok d
      → (d.year ≡ eng.year v) × (negsuc 999998 ≤ℤ d.year) × (d.year ≤ℤ pos 999999)
  unfolding date_from_time
  date_from_time_year v d e =
      elim (Bool-cases (ltb_ℤ (eng.year v) (negsuc 999998) || ltb_ℤ (pos 999999) (eng.year v))) [
        | inl bad ↦ absurd (ground (arith, bad, e))
        | inr good ↦
            let low : negsuc 999998 ≤ℤ eng.year v = ground (arith, good) in
            let high : eng.year v ≤ℤ pos 999999 = ground (arith, good) in
            let same : d.year ≡ eng.year v =
              ground (arith, good, e, to_int32_small (eng.year v) low high) in
            (
              same,
              subst (λ y. negsuc 999998 ≤ℤ y) (sym same) low,
              subst (λ y. y ≤ℤ pos 999999) (sym same) high,
            )
      ]
