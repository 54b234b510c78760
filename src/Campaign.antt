-- ===== src/Campaign.antt =====
-- runner.go: runWithContext, a whole run from its options to its verdict.
pub mod Verdict
use hegel_go.Prelude.{ℕ, Bool, Option, none, some, List, [], ◌∷◌}
use hegel_go.Errors.{Err, Message}
use hegel_go.Flow.{Flow, Result, ok, err, returns, panics, exhausted}
use hegel_go.Flow.Fallible.{Fallible, pure, fail, from_exec, ◌>>=◌, ◌>>◌}
use hegel_go.Flow.Loop.{loop}
use hegel_go.Engine.{Engine, Handle}
use hegel_go.Native.Run
use hegel_go.Native.Run.{RunStatus, run_passed, run_failed, run_error, run_unnamed}
use hegel_go.Settings.{RunOptions, build_settings}
use hegel_go.TestCase.{TestBody}
use hegel_go.Session.{Session, Captured, in_world, pointer, run_round}
use hegel_go.Replay.{replay_failures}

module _ ⦃eng : Engine⦄ where
  -- The switch on the run's status.
  unfoldable pub verdict :
      Handle → Handle → TestBody → Captured → RunStatus → Fallible Session (Unit {0})
  unfolding in_world replay_failures
  verdict settings result fn captured run_passed = pure tt
  verdict settings result fn captured run_error = do
    text ← from_exec (in_world (Run.error_message result))
    fail (Err.prop_test_failed (Message.run_error text))
  verdict settings result fn captured run_failed = replay_failures settings result fn captured
  verdict settings result fn captured run_unnamed = replay_failures settings result fn captured

  -- The result of the finished run.
  unfoldable pub judge : Handle → Handle → TestBody → Captured → Fallible Session (Unit {0})
  unfolding in_world pointer verdict
  judge settings r fn captured = do
    handle ← in_world (Run.run_result r)
    result ← pointer handle
    status ← from_exec (in_world (Run.status result))
    verdict settings result fn captured status

  has_output : RunOptions → Bool
  has_output o = elim o.output [ none ↦ Bool.false | some _ ↦ Bool.true ]

  -- runWithContext; the fuel bounds the test cases.
  unfoldable pub run_with_context : ℕ → TestBody → RunOptions → Fallible Session (Unit {0})
  unfolding in_world pointer judge has_output
  run_with_context fuel fn opts = do
    built ← in_world (build_settings opts)
    settings ← pointer built
    started ← in_world (Run.run_start settings (has_output opts))
    r ← pointer started
    captured ← loop (run_round fn r) fuel []
    judge settings r fn captured
