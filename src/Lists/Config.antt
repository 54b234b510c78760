-- ===== src/Lists/Config.antt =====
-- collections.go: the checks at the head of each draw.
use hegel_go.Prelude.{ℕ, ◌≡◌, ◌↔◌, Bool, true, none, some, arith, Option-cases, inl, inr}
use hegel_go.Prelude.Int.{pos, ◌≤ℤ◌}
use hegel_go.Errors.{Err, Message}
use hegel_go.Flow.{returns, err}
use hegel_go.Flow.Fallible.{fail}
use hegel_go.Engine.{Engine}
use hegel_go.TestCase.{TestCase}
use hegel_go.Generator.{Generator}
use hegel_go.Lists.{Sizes, check_sizes, checked, lists, unique_lists_by, maps}

-- A minimum that is not negative and, with a maximum, not above it.
pub record IsValid (g : Sizes) : Type 0 where
  pub nonnegative : pos 0 ≤ℤ g.min_size
  pub ordered : g.has_max ≡ true → g.min_size ≤ℤ g.max_size

-- The checks pass exactly for the valid sizes.
pub check_sizes_iff : (g : Sizes) → (check_sizes g ≡ none) ↔ IsValid g
unfolding check_sizes
check_sizes_iff g =
    (λ h. record { nonnegative = ground arith; ordered = λ m. ground arith }, λ v. ground arith)

refused : (g : Sizes) → ¬ (IsValid g) → (m : Message) × (check_sizes g ≡ some m)
refused g invalid = elim (Option-cases (check_sizes g)) [
  | inl passes ↦ absurd (invalid ((check_sizes_iff g).0 passes))
  | inr found ↦ found
]

module _ ⦃eng : Engine⦄ {A B : Type 0} (elements : Generator A) (values : Generator B)
    (key_eq : A → A → Bool) (is_comparable : A → Bool) where
  -- With a negative minimum, or a maximum below the minimum, the draws of Lists, UniqueLists and Maps
  -- return one and the same error, and neither call the library nor draw an element.
  pub invalid_sizes :
      (fuel fuel' fuel'' typ typ' typ'' : ℕ) (g : Sizes) (s : TestCase)
      → ¬ (IsValid g)
      → (m : Message) × ((lists elements fuel typ g).draw_value s
          ≡ (returns (err (Err.message m)), s))
        × ((unique_lists_by elements (λ x. x) key_eq is_comparable fuel' typ' g).draw_value s
            ≡ (returns (err (Err.message m)), s))
        × ((maps elements values key_eq fuel'' typ'' g).draw_value s
            ≡ (returns (err (Err.message m)), s))
  unfolding lists unique_lists_by maps checked fail
  invalid_sizes fuel fuel' fuel'' typ typ' typ'' g s invalid =
      let (m, h) = refused g invalid in (m, rw (h, checked), rw (h, checked), rw (h, checked))
