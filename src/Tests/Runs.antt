-- ===== src/Tests/Runs.antt =====
-- The theorems on test cases, runs and their settings at concrete inputs.
use hegel_go.Prelude.{◌<◌, ◌≤◌, ◌≢◌, length, arith, ℕ}
use hegel_go.Session.Termination.{CasesBounded, cases_end}
use hegel_go.Engine.{Engine}
use hegel_go.Flow.{exhausted}
use hegel_go.Tests.{Tape}
use hegel_go.Prelude.{
  ◌≡◌, refl, Bool, true, false, ◌||◌, none, some, List, [], ◌∷◌, ◌++◌, All, if◌then◌else◌,
}
use hegel_go.Prelude.Int.{pos}
use hegel_go.Errors.{
  Err, Cause, ErrorCode, Status, Message, Frame, value, not_an_error, is_code, cause_is_code,
  code_eq, code_value,
}
use hegel_go.Flow.{ok, returns, panics, succeeds}
use hegel_go.Flow.Exec.{Exec}
use hegel_go.Flow.Exec
use hegel_go.Flow.Fallible.{◌>>=◌}
use hegel_go.Flow.Loop.{loop}
use hegel_go.Engine.{Setting}
use hegel_go.TestCase.{TestCase, TestBody, abort, assume_that}
use hegel_go.Report.{find_caller_frame, is_not_hegel_frame}
use hegel_go.Report.Frames.{find_caller_frame_first, OriginOf, first_outside}
use hegel_go.Report.{is_hegel_frame}
use hegel_go.Native.Run.{run_start, next_test_case, should_capture, run_result, status}
use hegel_go.Runner.{new_test_case, run, complete}
use hegel_go.Runner.Verdict.{run_probe, run_panic, run_assume, recovering, run_swallowed_abort}
use hegel_go.Settings.{
  RunOptions, no_options, build_settings, apply_options, test_options, with_test_cases,
  initial_settings,
}
use hegel_go.Settings.Applied.{settled, all_accepted, build_settings_lem, test_options_last}
use hegel_go.Session.{Session, run_round}
use hegel_go.Campaign.{run_with_context}
use hegel_go.Campaign.Verdict.{Passed, run_with_context-Passed}
use hegel_go.Tests.{toy, tape, case_on}

abbrev idle : TestCase ⦃eng = toy⦄
idle = case_on (tape [] [])

-- Where the body starts, and where an abort leaves it.
abbrev inside : Bool → TestCase ⦃eng = toy⦄
inside aborted = record (case_on (tape [] [])) { scoped = true; aborted = aborted }

abbrev stop : Err
stop = Err.native "hegel_generate_integer" ErrorCode.stop_test ""

stopping :
    abort ⦃eng = toy⦄ {A = Unit {0}} stop (inside false)
    ≡ (panics (Cause.error_value stop) [], inside true)
unfolding abort
stopping = refl

stop_is_stop : is_code ErrorCode.stop_test stop ≡ true
unfolding is_code code_eq code_value
stop_is_stop = refl

stop-is_probe : (is_code ErrorCode.assume stop || is_code ErrorCode.stop_test stop) ≡ true
unfolding is_code code_eq code_value
stop-is_probe = refl

run_probe_example :
    run ⦃eng = toy⦄ (abort stop) idle
    ≡ complete true
        (if is_code ErrorCode.assume stop then Status.invalid else Status.overrun)
        ""
        idle
run_probe_example =
    run_probe ⦃eng = toy⦄ (abort stop) stop [] idle (inside true) stopping refl stop-is_probe

abbrev nothing : TestBody ⦃eng = toy⦄
nothing s = (returns tt, s)

run_assume_example :
    run ⦃eng = toy⦄ (Exec.◌>>◌ nothing (Exec.◌>>◌ (assume_that false) nothing)) idle
    ≡ complete true Status.invalid "" idle
run_assume_example = run_assume ⦃eng = toy⦄ nothing nothing idle (inside false) refl refl

run_swallowed_abort_example :
    run ⦃eng = toy⦄
      (recovering (Exec.◌>>◌ nothing (Exec.◌>>◌ (abort {A = Unit {0}} stop) nothing)))
      idle
    ≡ (panics (value not_an_error) [], idle)
run_swallowed_abort_example =
    run_swallowed_abort ⦃eng = toy⦄ nothing nothing stop idle (inside false) refl refl refl

abbrev test_frame : Frame
test_frame = record { function = "example.com/app.TestSum"; file = "sum_test.go"; line = 7; pc = 1 }

abbrev hegel_frame : Frame
hegel_frame = record {
  function = "hegel.dev/go/hegel.Draw";
  file = "generators.go";
  line = 9;
  pc = 2;
}

abbrev stack : List Frame
stack = hegel_frame ∷ test_frame ∷ []

abbrev boom : Cause
boom = value (Message.user "boom")

abbrev crashing : TestBody ⦃eng = toy⦄
crashing s = (panics boom stack, s)

boom-no_probe :
    (cause_is_code ErrorCode.assume boom || cause_is_code ErrorCode.stop_test boom) ≡ false
unfolding is_code
boom-no_probe = refl

stack-Origin : OriginOf ⦃eng = toy⦄ stack (Engine.frame_origin toy test_frame)
unfolding is_hegel_frame
stack-Origin = first_outside (hegel_frame ∷ []) test_frame [] (refl, tt) refl

run_panic_example :
    run ⦃eng = toy⦄ crashing idle
    ≡ complete true Status.interesting
        (Engine.frame_origin toy test_frame)
        (record idle { failure_origin = Engine.frame_origin toy test_frame })
run_panic_example =
    run_panic ⦃eng = toy⦄ crashing boom stack (Engine.frame_origin toy test_frame) idle
      (inside false) refl refl refl refl boom-no_probe stack-Origin

found : find_caller_frame stack is_not_hegel_frame ≡ some test_frame
unfolding find_caller_frame is_not_hegel_frame
found = refl

find_caller_frame_first_example :
    (before : List Frame) × (after : List Frame) × (stack ≡ before ++ test_frame ∷ after)
    × All (λ f. is_not_hegel_frame f.function ≡ false) before
    × (is_not_hegel_frame test_frame.function ≡ true)
find_caller_frame_first_example =
    find_caller_frame_first stack is_not_hegel_frame test_frame (λ e. cc) found

abbrev short_run : RunOptions
short_run = record no_options {
  settings_appliers = Setting.test_cases 5 ∷ Setting.derandomize true ∷ [];
}

created : initial_settings ⦃eng = toy⦄ short_run (tape [] []) ≡ (returns (ok (some 1)), tape [] [])
unfolding initial_settings ◌>>=◌
created = refl

build_settings_lem_example :
    ((build_settings ⦃eng = toy⦄ short_run (tape [] [])).1
      ≡ settled ⦃eng = toy⦄ 1 short_run.settings_appliers (tape [] []))
    × (succeeds (build_settings ⦃eng = toy⦄ short_run (tape [] [])).0
        ≡ all_accepted ⦃eng = toy⦄ 1 short_run.settings_appliers (tape [] []))
build_settings_lem_example =
    build_settings_lem ⦃eng = toy⦄ short_run 1 (tape [] []) (tape [] []) created

test_options_last_example :
    (apply_options
      (test_options true "TestSum" none (with_test_cases (pos 500) ∷ []))
      no_options).settings_appliers
    ≡ (apply_options (with_test_cases (pos 500) ∷ []) no_options).settings_appliers
      ++ (if true
          then Setting.database_key "TestSum" ∷ Setting.test_cases 10 ∷ []
          else Setting.database_key "TestSum" ∷ [])
test_options_last_example =
    test_options_last true "TestSum" none (with_test_cases (pos 500) ∷ []) no_options

abbrev before_run : Session ⦃eng = toy⦄
before_run = record { world = tape (true ∷ []) []; output = none }

abbrev after_run : Session ⦃eng = toy⦄
after_run = record { world = record (tape [] []) { told = Status.valid ∷ [] }; output = none }

-- One test case, whose body returns.
passing_run :
    run_with_context ⦃eng = toy⦄ 2 nothing no_options before_run ≡ (returns (ok tt), after_run)
unfolding run_with_context ◌>>=◌ loop build_settings run_start run_round next_test_case
    should_capture new_test_case run_result status
passing_run = refl

run_with_context-Passed_example : Passed ⦃eng = toy⦄ after_run
run_with_context-Passed_example =
    run_with_context-Passed ⦃eng = toy⦄ 2 nothing no_options before_run after_run passing_run

-- The tape's bits are the test cases to come.
abbrev bits_left : Tape → ℕ
bits_left t = length t.bits

handing :
    (bits : List Bool) (t : Tape)
    → t.bits ≡ bits
    → (Engine.next_test_case toy 1 t).1 ≢ 0
    → bits_left (Engine.next_test_case toy 1 t).2 < bits_left t
handing [] t e h = absurd (ground (arith, e, h))
handing (b ∷ bits) t e h = ground (arith, e)

tape-CasesBounded : CasesBounded ⦃eng = toy⦄ bits_left
tape-CasesBounded = record {
  next_lowers = λ r t _. handing t.bits t refl;
  capture_keeps = λ tc t. omega arith;
  printer_keeps = λ tc t. omega arith;
}

nothing_ends : (c : TestCase ⦃eng = toy⦄) → (run ⦃eng = toy⦄ nothing c).0 ≢ exhausted
unfolding run complete
nothing_ends c = ground arith

nothing_keeps :
    (c : TestCase ⦃eng = toy⦄) → bits_left (run ⦃eng = toy⦄ nothing c).1.world ≤ bits_left c.world
unfolding run complete
nothing_keeps c = ground arith

cases_end_example : (loop (run_round ⦃eng = toy⦄ nothing 1) 2 [] before_run).0 ≢ exhausted
cases_end_example =
    cases_end ⦃eng = toy⦄ bits_left tape-CasesBounded nothing
      (record { ends = nothing_ends; keeps = nothing_keeps }) 1 2 [] before_run (omega arith)
