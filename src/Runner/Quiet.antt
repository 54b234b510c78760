-- ===== src/Runner/Quiet.antt =====
-- runner.go: when the deferred function of `run` leaves the test case as it is.
use hegel_go.Prelude.{ℕ, ◌≡◌, refl, String, Bool, true, false, Option, none, some, if◌then◌else◌}
use hegel_go.Errors.{Err, Status, Invocation, as_invocation}
use hegel_go.Flow.{ok, returns}
use hegel_go.Flow.Exec.{Exec}
use hegel_go.Flow.Exec
use hegel_go.Engine.{Engine}
use hegel_go.TestCase.{TestCase}
use hegel_go.Report.{as_worker, format_invocation_result, print_outcome, flush_native_output}
use hegel_go.Runner.{joined, if_returned, complete, report, is_probe, join}

module _ ⦃eng : Engine⦄ where
  if_same : {A : Type 0} (b : Bool) (y z : A) → z ≡ y → (if b then y else z) ≡ y
  if_same true y z e = refl
  if_same false y z e = e

  print_outcome_unseen :
      (worker : Option ℕ) (i : Option Invocation) (s : TestCase)
      → s.out ≡ none
      → print_outcome worker i s ≡ s
  unfolding print_outcome
  print_outcome_unseen worker none s out = refl
  print_outcome_unseen worker (some i) s out = rw out

  flush_unseen : (s : TestCase) → s.out ≡ none → flush_native_output s ≡ (returns (ok tt), s)
  unfolding flush_native_output
  flush_unseen s out = rw out

  print_unseen :
      (result : Option Err) (s : TestCase) → s.out ≡ none → format_invocation_result result s ≡ s
  unfolding format_invocation_result
  print_unseen none s out = refl
  print_unseen (some e) s out = print_outcome_unseen (as_worker e) (as_invocation e) s out

  joined-ok : (x : Bool × Option Err) → joined x (returns (ok tt)) ≡ returns x
  unfolding joined join
  joined-ok (failed, none) = refl
  joined-ok (failed, some e) = refl

  report_unseen :
      (result : Option Err) (x : Bool × Option Err) (s : TestCase)
      → s.out ≡ none
      → report result x s ≡ (returns x, s)
  unfolding report
  report_unseen result x s out =
      if_same (is_probe result) _ _
        (rw (flush_unseen s out, joined-ok x, print_unseen result s out, if_returned))

  pub complete_unseen :
      (origin : String) (s : TestCase) (result : Option Err)
      → s.out ≡ none
      → Exec.continue
          (complete true Status.interesting origin s).0
          (report result)
          (complete true Status.interesting origin s).1
        ≡ complete true Status.interesting origin s
  unfolding complete
  complete_unseen origin s result out = report_unseen result _ _ out

  report_probe :
      (result : Option Err) (x : Bool × Option Err) (s : TestCase)
      → is_probe result ≡ true
      → report result x s ≡ (returns x, s)
  unfolding report
  report_probe result x s probe = rw probe

  pub complete_returns :
      (status : Status) (origin : String) (s : TestCase) (result : Option Err)
      → is_probe result ≡ true
      → Exec.continue
          (complete true status origin s).0
          (report result)
          (complete true status origin s).1
        ≡ complete true status origin s
  unfolding complete
  complete_returns status origin s result probe = report_probe result _ _ probe
