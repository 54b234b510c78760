-- ===== src/Replay/Fails.antt =====
-- runner.go: replaying the failures of a run never passes.
use hegel_go.Flow.Fallible.{from_exec}
use hegel_go.Flow.Fallible.Laws.{Wp, Wp-skip, Wp-fail}
use hegel_go.Engine.{Engine, Handle}
use hegel_go.Native.Run
use hegel_go.TestCase.{TestBody}
use hegel_go.Session.{Session, Captured, in_world}
use hegel_go.Replay.{replay_failures, replay_from}

module _ ⦃eng : Engine⦄ where
  -- Whatever the replays do, replayFailures does not return nil.
  pub replay_failures-Wp :
      (settings result : Handle) (fn : TestBody) (captured : Captured) (s : Session)
      → Wp (replay_failures settings result fn captured) s (λ _ _. ⊥)
  unfolding replay_failures
  replay_failures-Wp settings result fn captured s =
      Wp-skip (from_exec (in_world (Run.failure_count result))) _ s _ (λ n t.
        Wp-skip (replay_from settings result fn captured n 0 _) _ t _ (λ origins u. Wp-fail _ u _))
