-- ===== src/Generator/Callbacks.antt =====
-- composite.go: what the steps of a Composite's callback keep of the test case.
use hegel_go.Prelude.{refl, String, Bool, true, false, arith}
use hegel_go.Flow.{Flow, Result, ok, err, returns, panics, exhausted}
use hegel_go.Flow.Exec.{Exec}
use hegel_go.Flow.Exec
use hegel_go.Flow.Fallible.{Fallible, from_exec, pure}
use hegel_go.Flow.Fallible.Laws.{Wp-mono, Holds}
use hegel_go.Engine.{Engine}
use hegel_go.Native
use hegel_go.TestCase.{TestCase, native, must, or_abort, abort, note, assume_that}
use hegel_go.Generator.{Generator, draw, draw_or_abort, report_draw, report_unless_nested}
use hegel_go.Generator.Spans.{OnlyWorld, OnlyWorld-trans, Settles, draw-Settles}

module _ ⦃eng : Engine⦄ where
  -- A step of a callback that keeps the test case whenever it returns.
  abbrev pub Keeps : {A : Type 0} → Exec TestCase A → Type 0
  Keeps m = Settles (from_exec m)

  pub pure-Keeps : {A : Type 0} (a : A) → Keeps (Exec.pure a)
  unfolding from_exec pure
  pure-Keeps a = record { at = λ s. record { at = refl } }

  pub bind-Keeps :
      {A B : Type 0} (m : Exec TestCase A) (k : A → Exec TestCase B)
      → Keeps m
      → ((a : A) → Keeps (k a))
      → Keeps (Exec.◌>>=◌ m k)
  unfolding from_exec pure
  bind-Keeps {A = A} m k hm hk = record {
    at = λ s. record { at = go (m s).0 s (m s).1 (hm.at s).at };
  }
    where
      go :
          (r : Flow A) (s t : TestCase)
          → Holds (λ _. OnlyWorld s) (Exec.continue r pure t).0 (Exec.continue r pure t).1
          → Holds
              (λ _. OnlyWorld s)
              (from_exec (λ u. Exec.continue r k t) t).0
              (from_exec (λ u. Exec.continue r k t) t).1
      go (returns a) s t h =
          (Wp-mono (from_exec (k a)) t _ _ ((hk a).at t)
            (λ _ u same. OnlyWorld-trans s t u h same)).at
      go (panics c pcs) s t h = tt
      go exhausted s t h = tt

  must-Keeps : {A : Type 0} (m : Fallible TestCase A) → Settles m → Keeps (must m)
  unfolding from_exec pure must or_abort abort
  must-Keeps {A = A} m h = record { at = λ s. record { at = go (m s).0 s (m s).1 (h.at s).at } }
    where
      go :
          (r : Flow (Result A)) (s t : TestCase)
          → Holds (λ _. OnlyWorld s) r t
          → Holds
              (λ _. OnlyWorld s)
              (from_exec (λ u. Exec.continue r or_abort t) t).0
              (from_exec (λ u. Exec.continue r or_abort t) t).1
      go (returns (ok a)) s t h = h
      go (returns (err e)) s t h = tt
      go (panics c pcs) s t h = tt
      go exhausted s t h = tt

  pub note-Keeps : (text : String) → Keeps (note text)
  unfolding note must or_abort abort native Native.note from_exec pure
  note-Keeps text = record { at = λ s. record { at = ground arith } }

  pub assume-Keeps : (b : Bool) → Keeps (assume_that b)
  unfolding assume_that abort from_exec pure
  assume-Keeps true = record { at = λ s. record { at = refl } }
  assume-Keeps false = record { at = λ s. record { at = ground arith } }

  report-Keeps : {A : Type 0} (show : A → String) (v : A) → Keeps (report_unless_nested show v)
  unfolding report_unless_nested report_draw note must or_abort abort native Native.note from_exec
      pure
  report-Keeps show v = record { at = λ s. record { at = ground arith } }

  pub draw-Keeps :
      {A : Type 0} (show : A → String) (g : Generator A)
      → Settles g.draw_value
      → Keeps (draw_or_abort show g)
  unfolding draw_or_abort
  draw-Keeps show g h =
      bind-Keeps (must (draw g)) (report_unless_nested show)
        (must-Keeps (draw g) (draw-Settles g h)) (report-Keeps show)
