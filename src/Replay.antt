-- ===== src/Replay.antt =====
-- runner.go: replayFailures, which replays or reports every failure of a finished run.
pub mod Fails
use hegel_go.Prelude.{
  ℕ, zero, suc, String, Bool, true, false, ◌&&◌, Option, none, some, List, [], ◌∷◌, ◌++◌,
  if◌then◌else◌, str_eq, not, length,
}
use hegel_go.Errors.{Err, Cause, Message, Frame}
use hegel_go.Flow.{Flow, Result, ok, err, returns, panics, exhausted}
use hegel_go.Flow.Fallible.{Fallible, pure, fail, from_exec, ◌>>=◌, ◌>>◌}
use hegel_go.Engine.{Engine, Handle}
use hegel_go.Native.Run
use hegel_go.Settings.{join}
use hegel_go.TestCase.{TestCase, TestBody, propagate_user_panics}
use hegel_go.Runner.{new_test_case, run}
use hegel_go.Session.{
  Session, Captured, captured_at, in_world, pointer, write_report, report_captured_failure,
}

module _ ⦃eng : Engine⦄ where
  error_of : Flow (Result (Unit {0})) → Option Err
  error_of (returns (err e)) = some e
  error_of _ = none

  or_error : Option Err → Flow (Result (Unit {0}))
  or_error none = returns (ok tt)
  or_error (some e) = returns (err e)

  -- The outcome of the replay and the error of the deferred write.
  replayed : Flow (Bool × Option Err) → Option Err → Flow (Result (Unit {0}))
  unfolding join or_error
  replayed (returns (failed, e)) write_error = or_error (join e write_error)
  replayed (panics c pcs) write_error = panics c pcs
  replayed exhausted write_error = exhausted

  -- The blob is printed also when the replay panics.
  unfoldable pub replay_failure : TestBody → Bool → String → TestCase → Fallible Session (Unit {0})
  unfolding run replayed error_of write_report
  replay_failure fn show blob state s =
      let (r, state') = run fn (record state { world = s.world; out = s.output }) in
      let s1 = record s { world = state'.world; output = state'.out } in
      if show
      then (let (e, s2) = write_report (eng.blob_line blob) s1 in (replayed r (error_of e), s2))
      else (replayed r none, s1)

  has_output : Session → Bool
  has_output s = elim s.output [ none ↦ false | some _ ↦ true ]

  -- A failure with a blob and without a caveat.
  replay_one : Handle → TestBody → String → Fallible Session (Unit {0})
  unfolding in_world has_output replay_failure
  replay_one settings fn blob = do
    show ← in_world (Run.get_print_blob settings)
    tc ← (λ s. in_world (Run.test_case_from_blob settings blob (has_output s)) s)
    state ← (λ s. in_world (new_test_case tc s.output propagate_user_panics) s)
    replay_failure fn show blob state

  report_one : Handle → TestBody → Captured → Handle → String → String → Fallible Session String
  unfolding in_world replay_one report_captured_failure
  report_one settings fn captured f blob caveat =
      if not (str_eq blob "") && str_eq caveat ""
      then (do replay_one settings fn blob; from_exec (in_world (Run.origin f)))
      else (do
        origin ← from_exec (in_world (Run.origin f))
        report_captured_failure settings (captured_at captured origin) caveat blob
        pure origin)

  -- One round of the loop over the failures, with its origin.
  unfoldable pub replay_round : Handle → Handle → TestBody → Captured → ℕ → Fallible Session String
  unfolding in_world pointer report_one
  replay_round settings result fn captured i = do
    handle ← in_world (Run.failure result i)
    f ← pointer handle
    blob ← from_exec (in_world (Run.reproduction_blob f))
    caveat ← from_exec (in_world (Run.caveat f))
    report_one settings fn captured f blob caveat

  -- The failures from i on, n of them.
  unfoldable pub replay_from :
      Handle → Handle → TestBody → Captured → ℕ → ℕ → List String → Fallible Session (List String)
  unfolding replay_round
  replay_from settings result fn captured zero i origins = pure origins
  replay_from settings result fn captured (suc n) i origins = do
    origin ← replay_round settings result fn captured i
    replay_from settings result fn captured n (suc i) (origins ++ origin ∷ [])

  -- It always ends in an error, which names the origins.
  unfoldable pub replay_failures :
      Handle → Handle → TestBody → Captured → Fallible Session (Unit {0})
  unfolding in_world replay_from
  replay_failures settings result fn captured = do
    n ← from_exec (in_world (Run.failure_count result))
    origins ← replay_from settings result fn captured n 0 []
    fail (Err.prop_test_failed (Message.failures (length origins) origins))
