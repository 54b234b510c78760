-- ===== src/Runner/Verdict.antt =====
-- runner.go: what a test case tells the library and prints, and what `invoke` makes of a body.
use hegel_go.Prelude.{
  ◌≡◌, refl, ap, String, Bool, true, false, ◌||◌, Option, none, some, List, if◌then◌else◌,
  false≢true, arith,
}
use hegel_go.Errors.{
  Err, Cause, Frame, ErrorCode, Status, is_code, cause_is_code, code_eq, code_value,
  interesting_invocation_error, as_invocation, value, not_an_error, error_value,
}
use hegel_go.Flow.{Flow, returns, panics, exhausted}
use hegel_go.Flow.Exec.{Exec}
use hegel_go.Flow.Exec
use hegel_go.Engine.{Engine}
use hegel_go.TestCase.{
  TestCase, TestBody, capture_user_panics, invoke, abort, assume_that, recover_abort, recover_panic,
}
use hegel_go.Report.{flush_native_output, is_not_hegel_frame, find_caller}
use hegel_go.Report.Frames.{OriginOf, find_caller-OriginOf}
use hegel_go.Runner.Quiet.{complete_unseen, complete_returns}
use hegel_go.Runner.{
  complete_outcome, run, complete, conclude, report, is_probe, after_invoke, flushed,
}

or_false : (a b : Bool) → (a || b) ≡ false → (a ≡ false) × (b ≡ false)
or_false a b h = ground arith

module _ ⦃eng : Engine⦄ where
  -- Where the body starts in invoke.
  abbrev pub started : TestCase → TestCase
  started s = record s { scoped = true; aborted = false }

  run_after :
      (fn : TestBody) (s : TestCase) → run fn s ≡ after_invoke (invoke fn s).0 (invoke fn s).1
  unfolding run
  run_after fn s = refl

  invoke_abort :
      (fn : TestBody) (e : Err) (pcs : List Frame) (s t : TestCase)
      → fn (started s) ≡ (panics (error_value e) pcs, t)
      → t.aborted ≡ true
      → invoke fn s ≡ (returns (some e), record s { world = t.world })
  unfolding invoke recover_abort
  invoke_abort fn e pcs s t h a = rw (h, a)

  after_returns :
      (result : Option Err) (s : TestCase)
      → after_invoke (returns result) s
        ≡ Exec.continue (conclude result s).0 (report result) (conclude result s).1
  unfolding after_invoke
  after_returns result s = refl

  conclude_by :
      (e : Err) (s : TestCase) (b c : Bool)
      → is_code ErrorCode.assume e ≡ b
      → is_code ErrorCode.stop_test e ≡ c
      → (b || c) ≡ true
      → conclude (some e) s ≡ complete true (if b then Status.invalid else Status.overrun) "" s
  unfolding conclude
  conclude_by e s true c assumed stop probe = rw assumed
  conclude_by e s false true assumed stop probe = rw (assumed, stop)
  conclude_by e s false false assumed stop probe = absurd (false≢true probe)

  conclude_probe :
      (e : Err) (s : TestCase)
      → (is_code ErrorCode.assume e || is_code ErrorCode.stop_test e) ≡ true
      → after_invoke (returns (some e)) s
        ≡ complete true (if is_code ErrorCode.assume e then Status.invalid else Status.overrun) "" s
  unfolding is_probe
  conclude_probe e s probe =
      rw (after_returns (some e) s, conclude_by e s _ _ refl refl probe)
        (complete_returns _ "" s (some e) probe)

  invoke_panic :
      (fn : TestBody) (c : Cause) (pcs : List Frame) (s t : TestCase)
      → fn (started s) ≡ (panics c pcs, t)
      → t.aborted ≡ false
      → s.panic_policy ≡ capture_user_panics
      → invoke fn s
        ≡ (returns (some (interesting_invocation_error pcs c)), record s { world = t.world })
  unfolding invoke recover_panic
  invoke_panic fn c pcs s t h a policy = rw (h, a, policy)

  -- A body with a deferred function that recovers every panic.
  swallow : Flow (Unit {0}) → Flow (Unit {0})
  swallow (returns _) = returns tt
  swallow (panics c pcs) = returns tt
  swallow exhausted = exhausted

  unfoldable pub recovering : TestBody → TestBody
  unfolding swallow
  recovering fn s = let (r, s') = fn s in (swallow r, s')

  invoke_recovered_abort :
      (fn : TestBody) (s s' : TestCase)
      → fn (started s) ≡ (returns tt, s')
      → s'.aborted ≡ true
      → invoke fn s
        ≡ (panics (value not_an_error) (eng.callers s'.world), record s { world = s'.world })
  unfolding invoke recover_abort
  invoke_recovered_abort fn s s' e a = rw (e, a)

  after_panic :
      (c : Cause) (pcs : List Frame) (s : TestCase)
      → s.out ≡ none
      → after_invoke (panics c pcs) s ≡ (panics c pcs, s)
  unfolding after_invoke flushed flush_native_output
  after_panic c pcs s out = rw out

  -- A body that aborts, after code that has returned, and recovers the abort's panic itself: without a
  -- destination, running the case panics, whatever the error, the policy and the code after the
  -- abort, and the library is never told an outcome: its state is the one that the code before the
  -- abort has left.
  pub run_swallowed_abort :
      (before rest : TestBody) (e : Err) (s t : TestCase)
      → before (started s) ≡ (returns tt, t)
      → t.scoped ≡ true
      → s.out ≡ none
      → run (recovering (Exec.◌>>◌ before (Exec.◌>>◌ (abort {A = Unit {0}} e) rest))) s
        ≡ (panics (value not_an_error) (eng.callers t.world), record s { world = t.world })
  unfolding abort recovering swallow
  run_swallowed_abort before rest e s t h sc out = rw (
    run_after (recovering (Exec.◌>>◌ before (Exec.◌>>◌ (abort {A = Unit {0}} e) rest))) s,
    invoke_recovered_abort (recovering (Exec.◌>>◌ before (Exec.◌>>◌ (abort {A = Unit {0}} e) rest)))
        s (record t { aborted = true }) (rw (h, sc) refl) refl,
    after_panic (value not_an_error) (eng.callers t.world) (record s { world = t.world }) out,
  )

  -- A body that aborts with an error that is E_ASSUME or E_STOP_TEST: the case fails, the library is
  -- told INVALID or OVERRUN, without an origin, and nothing but the library's state changes: nothing
  -- is printed, whatever the body has noted.
  pub run_probe :
      (fn : TestBody) (e : Err) (pcs : List Frame) (s t : TestCase)
      → fn (started s) ≡ (panics (error_value e) pcs, t)
      → t.aborted ≡ true
      → (is_code ErrorCode.assume e || is_code ErrorCode.stop_test e) ≡ true
      → run fn s
        ≡ complete true
            (if is_code ErrorCode.assume e then Status.invalid else Status.overrun)
            ""
            (record s { world = t.world })
  run_probe fn e pcs s t h a probe = rw (
    run_after fn s,
    invoke_abort fn e pcs s t h a,
    conclude_probe e (record s { world = t.world }) probe,
  )

  -- A false assumption, after code that has returned and before any code: the case fails, the library
  -- is told INVALID without an origin, and nothing but the library's state changes.
  pub run_assume :
      (before rest : TestBody) (s t : TestCase)
      → before (started s) ≡ (returns tt, t)
      → t.scoped ≡ true
      → run (Exec.◌>>◌ before (Exec.◌>>◌ (assume_that false) rest)) s
        ≡ complete true Status.invalid "" (record s { world = t.world })
  unfolding assume_that abort is_code code_eq code_value
  run_assume before rest s t e sc =
      run_probe _ (Err.code ErrorCode.assume) (eng.callers t.world) s (record t { aborted = true })
        (rw (e, sc)) refl refl

  conclude_interesting :
      (c : Cause) (pcs : List Frame) (s : TestCase)
      → (cause_is_code ErrorCode.assume c || cause_is_code ErrorCode.stop_test c) ≡ false
      → conclude (some (interesting_invocation_error pcs c)) s
        ≡ complete true Status.interesting
            (find_caller pcs is_not_hegel_frame)
            (record s { failure_origin = find_caller pcs is_not_hegel_frame })
  unfolding conclude complete_outcome interesting_invocation_error is_code as_invocation
  conclude_interesting c pcs s probe =
      let (not_assume, not_stop) = or_false (cause_is_code ErrorCode.assume c) _ probe in
      rw (not_assume, not_stop)

  conclude_panic :
      (c : Cause) (pcs : List Frame) (s : TestCase)
      → s.out ≡ none
      → (cause_is_code ErrorCode.assume c || cause_is_code ErrorCode.stop_test c) ≡ false
      → after_invoke (returns (some (interesting_invocation_error pcs c))) s
        ≡ complete true Status.interesting
            (find_caller pcs is_not_hegel_frame)
            (record s { failure_origin = find_caller pcs is_not_hegel_frame })
  conclude_panic c pcs s out probe =
      rw
        (
          after_returns (some (interesting_invocation_error pcs c)) s,
          conclude_interesting c pcs s probe,
        )
        (complete_unseen _ (record s { failure_origin = find_caller pcs is_not_hegel_frame }) _ out)

  -- A body that panics without having aborted, under the capturing policy and without a destination:
  -- unless the value wraps E_ASSUME or E_STOP_TEST the library is told INTERESTING, with the location
  -- of the first frame outside the package as the origin, or `<unknown>:0 (0x0)` when there is none
  -- (an empty stack counts as one empty frame). The origin is also recorded in the test case.
  pub run_panic :
      (fn : TestBody) (c : Cause) (pcs : List Frame) (origin : String) (s t : TestCase)
      → fn (started s) ≡ (panics c pcs, t)
      → t.aborted ≡ false
      → s.panic_policy ≡ capture_user_panics
      → s.out ≡ none
      → (cause_is_code ErrorCode.assume c || cause_is_code ErrorCode.stop_test c) ≡ false
      → OriginOf pcs origin
      → run fn s
        ≡ complete true Status.interesting origin
            (record s { world = t.world; failure_origin = origin })
  run_panic fn c pcs origin s t h a policy out probe from =
      rw
        (
          run_after fn s,
          invoke_panic fn c pcs s t h a policy,
          conclude_panic c pcs (record s { world = t.world }) out probe,
        )
        (ap
          (λ o.
            complete true Status.interesting o (record s { world = t.world; failure_origin = o }))
          (find_caller-OriginOf pcs origin from))
