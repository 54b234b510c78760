-- ===== src/TestCase/Laws.antt =====
-- runner.go: what the span methods do to the test case when they succeed.
use hegel_go.Prelude.{ℕ, ◌≡◌, refl, Bool}
use hegel_go.Prelude.Int.{inc, dec}
use hegel_go.Flow.{Flow, Result, ok, err, returns, panics, exhausted}
use hegel_go.Flow.Fallible.Laws.{Wp, Holds}
use hegel_go.Engine.{Engine}
use hegel_go.Native
use hegel_go.TestCase.{TestCase, count_up, count_down, start_span, stop_span, native}
use hegel_go.Flow.Exec

module _ ⦃eng : Engine⦄ where
  abbrev pub Opened : TestCase → TestCase → Type 0
  Opened s s' = s' ≡ record s { world = s'.world; depth = inc s.depth }

  abbrev pub Closed : TestCase → TestCase → Type 0
  Closed s s' = s' ≡ record s { world = s'.world; depth = dec s.depth }

  Holds-count_up :
      (r : Flow (Result (Unit {0}))) (s : TestCase) (w : eng.World)
      → Holds
          (λ _. Opened s)
          (Exec.continue r count_up (record s { world = w })).0
          (Exec.continue r count_up (record s { world = w })).1
  unfolding count_up
  Holds-count_up (returns (ok _)) s w = refl
  Holds-count_up (returns (err e)) s w = tt
  Holds-count_up (panics c pcs) s w = tt
  Holds-count_up exhausted s w = tt

  Holds-count_down :
      (r : Flow (Result (Unit {0}))) (s : TestCase) (w : eng.World)
      → Holds
          (λ _. Closed s)
          (Exec.continue r count_down (record s { world = w })).0
          (Exec.continue r count_down (record s { world = w })).1
  unfolding count_down
  Holds-count_down (returns (ok _)) s w = refl
  Holds-count_down (returns (err e)) s w = tt
  Holds-count_down (panics c pcs) s w = tt
  Holds-count_down exhausted s w = tt

  pub Wp-start_span : (l : ℕ) (s : TestCase) → Wp (start_span l) s (λ _. Opened s)
  unfolding start_span native
  Wp-start_span l s =
      let (r, w) = Native.start_span s.tc l s.world in record { at = Holds-count_up r s w }

  pub Wp-stop_span : (b : Bool) (s : TestCase) → Wp (stop_span b) s (λ _. Closed s)
  unfolding stop_span native
  Wp-stop_span b s =
      let (r, w) = Native.stop_span s.tc b s.world in record { at = Holds-count_down r s w }
