-- ===== src/Session.antt =====
-- runner.go: the loop of runWithContext, which runs every test case that the library asks for, and
-- the report of a failure from the output that was captured in it.
pub mod Termination
use hegel_go.Prelude.{
  String, Bool, ◌&&◌, Option, none, some, List, [], ◌∷◌, ◌++◌, if◌then◌else◌, str_eq,
}
use Prim.Native.String.{◌++◌ as cat}
use hegel_go.Errors.{Err, Cause, Message}
use hegel_go.Flow.{Flow, Result, ok, err, returns, panics, exhausted}
use hegel_go.Flow.Exec.{Exec}
use hegel_go.Flow.Fallible.{Fallible, pure, ◌>>=◌}
use hegel_go.Flow.Loop.{Step, again, done}
use hegel_go.Engine.{Engine, Handle}
use hegel_go.Native.Run
use hegel_go.Native.Run.{RunStatus}
use hegel_go.TestCase.{TestCase, TestBody, capture_user_panics}
use hegel_go.Runner.{new_test_case, run}

-- The library's state and opts.output.
pub record Session ⦃eng : Engine⦄ : Type 0 where
  pub world : eng.World
  pub output : Option (List String)

-- capturedOutput: the last entry of an origin is the first here.
abbrev pub Captured : Type 0
Captured = List (String × List String)

abbrev pub captured_at : Captured → String → List String
captured_at [] origin = []
captured_at ((key, texts) ∷ rest) origin =
    if str_eq key origin then texts else captured_at rest origin

module _ ⦃eng : Engine⦄ where
  unfoldable pub in_world {ℓ} : {A : Type ℓ} → Exec eng.World A → Exec Session A
  in_world m s = let (r, w) = m s.world in (r, record s { world = w })

  unfoldable pub pointer : {A : Type 0} → Option A → Fallible Session A
  pointer none s = (panics (Cause.value Message.nil_dereference) (eng.callers s.world), s)
  pointer (some a) s = (returns (ok a), s)

  texts_of : Option (List String) → List String
  texts_of none = []
  texts_of (some texts) = texts

  unfoldable ran : TestCase → Flow (Bool × Option Err) → Flow (Result (Bool × TestCase))
  ran state (returns (failed, none)) = returns (ok (failed, state))
  ran state (returns (failed, some e)) = returns (err e)
  ran state (panics c pcs) = panics c pcs
  ran state exhausted = exhausted

  -- `failed, err := state.run(fn)`
  unfoldable pub run_case : TestBody → TestCase → Fallible Session (Bool × TestCase)
  unfolding run ran
  run_case fn state s =
      let (r, state') = run fn (record state { world = s.world }) in
      (ran state' r, record s { world = state'.world })

  unfoldable remember : Bool → TestCase → Captured → Captured
  unfolding texts_of
  remember keep state captured =
      if keep then (state.failure_origin, texts_of state.out) ∷ captured else captured

  -- One test case of the loop, with a buffer of its own when the library asks for its output.
  unfoldable pub case_round :
      TestBody → Handle → Captured → Fallible Session (Step Captured Captured)
  unfolding in_world run_case remember
  case_round fn tc captured = do
    capture ← in_world (Run.should_capture tc)
    state ←
        in_world (new_test_case (some tc) (if capture then some [] else none) capture_user_panics)
    result ← run_case fn state
    pure (again (remember (result.0 && capture) result.1 captured))

  unfoldable next_round :
      TestBody → Captured → Option Handle → Fallible Session (Step Captured Captured)
  unfolding case_round
  next_round fn captured none = pure (done captured)
  next_round fn captured (some tc) = case_round fn tc captured

  unfoldable pub run_round :
      TestBody → Handle → Captured → Fallible Session (Step Captured Captured)
  unfolding in_world next_round
  run_round fn r captured = in_world (Run.next_test_case r) >>= next_round fn captured

  line : String → String
  line text = cat text "\n"

  blob_report : Bool → String → String
  blob_report show blob = if show then eng.blob_line blob else ""

  unfoldable pub write_report : String → Fallible Session (Unit {0})
  write_report report s = elim s.output [
    | none ↦ (returns (ok tt), s)
    | some texts ↦
        if str_eq report ""
        then (returns (ok tt), s)
        else if eng.writer_accepts texts report
        then (returns (ok tt), record s { output = some (texts ++ report ∷ []) })
        else (returns (err (Err.message Message.writer_failed)), s)
  ]

  joined : List String → String
  joined [] = ""
  joined (text ∷ texts) = cat text (joined texts)

  report_with : Handle → List String → String → String → Fallible Session (Unit {0})
  unfolding in_world write_report joined line blob_report
  report_with settings captured caveat blob =
      let report = cat (joined captured) (if str_eq caveat "" then "" else line caveat) in
      if str_eq blob "" then write_report report else (do
        show ← in_world (Run.get_print_blob settings)
        write_report (cat report (blob_report show blob)))

  unfoldable pub report_captured_failure :
      Handle → List String → String → String → Fallible Session (Unit {0})
  unfolding report_with
  report_captured_failure settings captured caveat blob s = elim s.output [
    | none ↦ (returns (ok tt), s)
    | some _ ↦ report_with settings captured caveat blob s
  ]
