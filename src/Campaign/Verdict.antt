-- ===== src/Campaign/Verdict.antt =====
-- runner.go: when a run passes.
use hegel_go.Prelude.{ℕ, ◌≡◌, refl, ◌∙◌, ap, sym, subst, Bool, Option, some, none, []}
use hegel_go.Flow.{returns, ok}
use hegel_go.Errors.{ErrorCode}
use hegel_go.Flow.Fallible.{Fallible, from_exec}
use hegel_go.Flow.Fallible.Laws.{
  Wp, Wp-self, Wp-bind, Wp-skip, Wp-fail, Wp-pure, Wp-mono, Wp-from_exec, Wp-returns,
}
use hegel_go.Flow.Loop.{loop}
use hegel_go.Engine.{Engine, Handle}
use hegel_go.Native.Run
use hegel_go.Native.Run.{RunStatus, run_passed, run_failed, run_error, run_unnamed}
use hegel_go.Native.Run.Laws.{
  Gave, run_start-Gave, run_result-Gave, run_result-world, status-passed,
}
use hegel_go.Settings.{RunOptions, build_settings}
use hegel_go.TestCase.{TestBody}
use hegel_go.Session.{Session, Captured, in_world, run_round, pointer}
use hegel_go.Replay.Fails.{replay_failures-Wp}
use hegel_go.Campaign.{has_output, verdict, judge, run_with_context}

module _ ⦃eng : Engine⦄ where
  -- The library started a run, gave its result, and answered the question for the result's status
  -- with success and 0, the value of PASSED, which left it in the state that s has.
  pub data Passed (s : Session) : Type 0 where
    passed :
        (settings run result : Handle) (out : Bool) (before after : eng.World)
        → Gave (eng.run_start settings out before) run
        → Gave (eng.run_result run after) result
        → (eng.result_status result (eng.run_result run after).2).0 ≡ ErrorCode.ok
        → (eng.result_status result (eng.run_result run after).2).1 ≡ 0
        → (eng.result_status result (eng.run_result run after).2).2 ≡ s.world
        → Passed s

  status_of_run :
      (settings run result : Handle) (out : Bool) (before after w : eng.World) (s : Session)
      → Gave (eng.run_start settings out before) run
      → Gave (eng.run_result run after) result
      → w ≡ (eng.run_result run after).2
      → (eng.result_status result w).0 ≡ ErrorCode.ok
      → (eng.result_status result w).1 ≡ 0
      → (eng.result_status result w).2 ≡ s.world
      → Passed s
  status_of_run settings run result out before after w s started given same called answer left =
      passed settings run result out before after started given
        (subst (λ x. (eng.result_status result x).0 ≡ ErrorCode.ok) same called)
        (subst (λ x. (eng.result_status result x).1 ≡ 0) same answer)
        (subst (λ x. (eng.result_status result x).2 ≡ s.world) same left)

  Wp-in_world :
      {A : Type 0} (m : Fallible eng.World A) (s : Session) (Q : A → Session → Type 0)
      → ((a : A) → (m s.world).0 ≡ returns (ok a) → Q a (record s { world = (m s.world).1 }))
      → Wp (in_world m) s Q
  unfolding in_world
  Wp-in_world m s Q k = Wp-self (in_world m) s Q k

  Wp-pointer :
      {A : Type 0} (o : Option A) (s : Session) (Q : A → Session → Type 0)
      → ((a : A) → o ≡ some a → Q a s)
      → Wp (pointer o) s Q
  unfolding pointer
  Wp-pointer none s Q k = record { at = tt }
  Wp-pointer (some a) s Q k = record { at = k a refl }

  verdict-Passed :
      (settings result : Handle) (fn : TestBody) (captured : Captured) (r : RunStatus) (s : Session)
      → (r ≡ run_passed → Passed s)
      → Wp (verdict settings result fn captured r) s (λ _. Passed)
  unfolding verdict
  verdict-Passed settings result fn captured run_passed s k = Wp-pure tt s _ (k refl)
  verdict-Passed settings result fn captured run_error s k =
      Wp-skip (from_exec (in_world (Run.error_message result))) _ s _ (λ text t. Wp-fail _ t _)
  verdict-Passed settings result fn captured run_failed s k =
      Wp-mono _ s _ _ (replay_failures-Wp settings result fn captured s) (λ _ _ h. absurd h)
  verdict-Passed settings result fn captured run_unnamed s k =
      Wp-mono _ s _ _ (replay_failures-Wp settings result fn captured s) (λ _ _ h. absurd h)

  judge-Passed :
      (settings r : Handle) (fn : TestBody) (captured : Captured) (out : Bool) (before : eng.World)
      (s : Session)
      → Gave (eng.run_start settings out before) r
      → Wp (judge settings r fn captured) s (λ _. Passed)
  unfolding judge in_world
  judge-Passed settings r fn captured out before s started =
      Wp-bind (in_world (Run.run_result r)) _ s _ (
        Wp-in_world (Run.run_result r) s _ (λ handle gave. Wp-bind (pointer handle) _ _ _ (
          Wp-pointer handle _ _ (λ result is_handle.
            Wp-bind (from_exec (in_world (Run.status result))) _ _ _ (
              Wp-from_exec (in_world (Run.status result)) _ _ (λ status e.
                verdict-Passed settings result fn captured status _ (λ is_passed.
                  let (called, answer, left) = status-passed result _ (e ∙ ap returns is_passed) in
                  status_of_run settings r result out before s.world _ _ started
                    (run_result-Gave r s.world result (gave ∙ ap (λ o. returns (ok o)) is_handle))
                    (run_result-world r s.world) called answer (sym left))))))))

  -- A run returns no error only when the library has started it, has given its result, and has
  -- answered a successful call for that result's status with PASSED: a failed call, a failed run, a run
  -- without a verdict and a status without a name never pass.
  pub run_with_context-Passed :
      (fuel : ℕ) (fn : TestBody) (opts : RunOptions) (s s' : Session)
      → run_with_context fuel fn opts s ≡ (returns (ok tt), s')
      → Passed s'
  unfolding run_with_context
  run_with_context-Passed fuel fn opts s s' =
      Wp-returns _ s (λ _. Passed) tt s'
        (Wp-skip (in_world (build_settings opts)) _ s _ (λ built t.
          Wp-skip (pointer built) _ t _ (λ settings u.
            Wp-bind (in_world (Run.run_start settings (has_output opts))) _ u _ (
              Wp-in_world (Run.run_start settings (has_output opts)) u _ (λ handle gave.
                Wp-bind (pointer handle) _ _ _ (
                  Wp-pointer handle _ _ (λ r is_handle.
                    Wp-skip (loop (run_round fn r) fuel []) _ _ _ (λ captured x.
                      judge-Passed settings r fn captured (has_output opts) u.world x (
                        run_start-Gave settings (has_output opts) u.world r
                          (gave ∙ ap (λ o. returns (ok o)) is_handle))))))))))
