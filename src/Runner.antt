-- ===== src/Runner.antt =====
-- runner.go: one test case of a run. `run` invokes the body, turns its outcome into the status that
-- the library is told, and has Report print a reportable outcome.
mod Quiet
pub mod Verdict
use hegel_go.Prelude.{
  ℕ, String, Bool, true, false, not, ◌&&◌, ◌||◌, Option, none, some, List, [], ◌∷◌, ◌++◌,
  if◌then◌else◌, str_eq, starts_with,
}
use hegel_go.Prelude.Int.{ℤ, pos}
use hegel_go.Errors.{
  Err, Message, Frame, ErrorCode, Status, Cause, Invocation, is_code, as_invocation,
}
use hegel_go.Flow.{Flow, Result, ok, err, returns, panics, exhausted}
use hegel_go.Flow.Exec.{Exec}
use hegel_go.Flow.Exec
use hegel_go.Flow.Fallible.{Fallible}
use hegel_go.Flow.Fallible
use hegel_go.Engine.{Engine, Handle}
use hegel_go.Native
use hegel_go.Native.Run
use hegel_go.Report.{is_not_hegel_frame, find_caller, flush_native_output, format_invocation_result}
use hegel_go.TestCase.{TestCase, TestBody, PanicPolicy, native, dereference, invoke}

module _ ⦃eng : Engine⦄ where
  fresh : Handle → Option (List String) → Option Handle → PanicPolicy → eng.World → TestCase
  fresh tc out printer policy w = record {
    world = w;
    tc = tc;
    out = out;
    printer = printer;
    depth = pos 0;
    panic_policy = policy;
    scoped = false;
    aborted = false;
    failure_origin = "";
  }

  -- newTestCase, from the library's state. A nil test case panics here; without a destination Go
  -- would panic at the first use of it instead.
  unfoldable pub new_test_case :
      Option Handle → Option (List String) → PanicPolicy → Fallible eng.World TestCase
  unfolding Fallible.◌>>=◌ Native.Run.test_case_printer fresh
  new_test_case none out policy w =
      (panics (Cause.value Message.nil_dereference) (eng.callers w), w)
  new_test_case (some tc) none policy w = Fallible.pure (fresh tc none none policy w) w
  new_test_case (some tc) (some texts) policy w =
      Fallible.◌>>=◌ (Native.Run.test_case_printer tc)
        (λ p u. Fallible.pure (fresh tc (some texts) p policy u) u) w

  error_of : Flow (Result (Unit {0})) → Option Err
  error_of (returns (err e)) = some e
  error_of _ = none

  -- `return failed, s.tc.MarkComplete(...)`
  unfoldable pub complete : Bool → Status → String → Exec TestCase (Bool × Option Err)
  unfolding native error_of Native.mark_complete
  complete failed status origin s =
      let (r, s') = native (λ tc. Native.mark_complete tc status origin) s in
      (returns (failed, error_of r), s')

  complete_outcome : Err → Option Invocation → Exec TestCase (Bool × Option Err)
  unfolding complete find_caller is_not_hegel_frame
  complete_outcome e none s = (returns (true, some e), s)
  complete_outcome e (some i) s =
      let origin = find_caller i.pcs is_not_hegel_frame in
      complete true i.status origin (record s { failure_origin = origin })

  -- The body of run after `invoke`.
  unfoldable pub conclude : Option Err → Exec TestCase (Bool × Option Err)
  unfolding complete complete_outcome
  conclude none = complete false Status.valid ""
  conclude (some e) =
      if is_code ErrorCode.assume e
      then complete true Status.invalid ""
      else if is_code ErrorCode.stop_test e
      then complete true Status.overrun ""
      else complete_outcome e (as_invocation e)

  -- errors.Join, where nil errors are dropped
  unfoldable pub join : Option Err → Option Err → Option Err
  join none b = b
  join (some a) none = some a
  join (some a) (some b) = some (Err.join a b)

  unfoldable is_probe : Option Err → Bool
  is_probe none = false
  is_probe (some e) = is_code ErrorCode.assume e || is_code ErrorCode.stop_test e

  -- What flushing gives: its error joins the error of the run, its panic replaces it.
  unfoldable joined : Bool × Option Err → Flow (Result (Unit {0})) → Flow (Bool × Option Err)
  unfolding join error_of
  joined (failed, e) (panics c pcs) = panics c pcs
  joined (failed, e) exhausted = exhausted
  joined (failed, e) (returns r) = returns (failed, join e (error_of (returns r)))

  unfoldable if_returned : Flow (Result (Unit {0})) → TestCase → TestCase → TestCase
  if_returned (returns r) a b = a
  if_returned _ a b = b

  -- The deferred function of run, when the body of run returns.
  unfoldable pub report : Option Err → Bool × Option Err → Exec TestCase (Bool × Option Err)
  unfolding is_probe joined if_returned format_invocation_result flush_native_output
  report result returned s =
      if is_probe result
      then (returns returned, s)
      else let (f, s') = flush_native_output s in
        (joined returned f, if_returned f (format_invocation_result result s') s')

  -- A panic that leaves `invoke` leaves `run` too, after the output is flushed.
  flushed : Cause → List Frame → Flow (Result (Unit {0})) → Flow (Bool × Option Err)
  flushed c pcs (panics c' pcs') = panics c' pcs'
  flushed c pcs exhausted = exhausted
  flushed c pcs (returns r) = panics c pcs

  after_invoke : Flow (Option Err) → Exec TestCase (Bool × Option Err)
  unfolding conclude report flushed flush_native_output
  after_invoke (returns result) s = Exec.◌>>=◌ (conclude result) (report result) s
  after_invoke (panics c pcs) s = let (f, s') = flush_native_output s in (flushed c pcs f, s')
  after_invoke exhausted s = (exhausted, s)

  -- testCase.run: whether the case failed, and the error of running it.
  unfoldable pub run : TestBody → Exec TestCase (Bool × Option Err)
  unfolding invoke after_invoke
  run fn s = let (r, s') = invoke fn s in after_invoke r s'
