-- ===== src/Tests/Rounds.antt =====
-- The run of a state machine, and its workers, at a concrete machine.
use hegel_go.Prelude.{
  ℕ, zero, suc, ◌≡◌, refl, subst, arith, true, false, none, some, List, [], ◌∷◌, length, get_elem?,
  ◌≤◌,
}
use hegel_go.Prelude.Int.{ℤ, pos, eq_ℤ}
use hegel_go.Errors.{ErrorCode}
use hegel_go.Flow.{returns}
use hegel_go.Flow.Exec
use hegel_go.Flow.Exec.Total.{Lands}
use hegel_go.Flow.Fallible.{◌>>=◌}
use hegel_go.Engine.{Engine}
use hegel_go.Native.Machine.{state_machine_done}
use hegel_go.Native.Machine as Calls
use hegel_go.TestCase.{
  TestCase, native, dereference, must, or_abort, note, invoke, recover_panic, recover_abort,
  capture_user_panics,
}
use hegel_go.Stateful.{new_machine, invoke_rule}
use hegel_go.Workgroup.{sort, failed_of}
use hegel_go.Crew.{
  Rule, Crew, element, log, create, clone_case, on_worker, work, take_turn, worker_turn, after_turn,
  remove_at, all_arrived, started, free_all, freed, crew_work, run_crew,
}
use hegel_go.Crew.Schedule.{StepsBounded, Ended, work_ends}
use hegel_go.Machine.{
  Machine, names, check, check_all, check_sampled, settle, round_body, rounds, run_rounds,
  run_machine,
}
use hegel_go.Machine.Invariants.{Completed, run_machine-Completed}
use hegel_go.Tests.{Tape, toy, tape, case_on}

abbrev idle_rule : Rule ⦃eng = toy⦄
idle_rule = record { name = "RuleIdle"; fn = Exec.pure tt }

abbrev balanced : Rule ⦃eng = toy⦄
balanced = record { name = "InvariantBalanced"; fn = Exec.pure tt }

abbrev account : Machine ⦃eng = toy⦄
account = record {
  config = record new_machine {
    rules = "RuleIdle" ∷ [];
    invariants = "InvariantBalanced" ∷ [];
    rule_groups = 0 ∷ [];
    invariant_always_check = false ∷ [];
  };
  rules = idle_rule ∷ [];
  invariants = balanced ∷ [];
}

-- One round with one rule.
abbrev start : TestCase ⦃eng = toy⦄
start = case_on (tape (true ∷ []) (pos 0 ∷ pos 0 ∷ state_machine_done ∷ state_machine_done ∷ []))

account_runs :
    run_machine ⦃eng = toy⦄ account (λ _. 0 ∷ 0 ∷ []) 2 start ≡ (returns tt, case_on (tape [] []))
unfolding run_machine names native must or_abort Calls.new_state_machine ◌>>=◌ log note check_all
    check invoke_rule invoke recover_panic recover_abort run_rounds rounds dereference
    Calls.next_group round_body element run_crew create clone_case Calls.clone on_worker work
    take_turn worker_turn Calls.next_rule after_turn remove_at all_arrived started free_all
    Calls.free freed crew_work settle sort failed_of check_sampled Calls.should_check_invariant
account_runs = refl

run_machine-Completed_example :
    Completed ⦃eng = toy⦄ account (λ _. 0 ∷ 0 ∷ []) start (case_on (tape [] []))
run_machine-Completed_example =
    run_machine-Completed account (λ _. 0 ∷ 0 ∷ []) 2 start (case_on (tape [] [])) account_runs

abbrev serve : List ℤ → Tape → ErrorCode × ℤ × Tape
serve [] t = (ErrorCode.ok, state_machine_done, t)
serve (n ∷ ns) t = (ErrorCode.ok, pos 0, record t { ints = ns })

-- A library that hands out rule 0 as long as its tape lasts.
abbrev drill : Engine
drill = record toy { next_rule = λ _ _ _ t. serve t.ints t }

abbrev drilled : Rule ⦃eng = drill⦄
drilled = record { name = "RuleDrilled"; fn = Exec.pure tt }

abbrev rules_left : Tape → ℕ
rules_left t = length t.ints

serve_exists :
    (ns : List ℤ) (t : Tape)
    → eq_ℤ (serve ns t).1 state_machine_done ≡ false
    → (j : ℕ) × ((serve ns t).1 ≡ pos j)
      × (rule : Rule ⦃eng = drill⦄) × (get_elem? (drilled ∷ []) j ≡ some rule)
serve_exists [] t more = absurd (cc)
serve_exists (n ∷ ns) t more = (0, refl, drilled, refl)

drill-StepsBounded : StepsBounded ⦃eng = drill⦄ rules_left (drilled ∷ [])
drill-StepsBounded = record {
  rule_lowers = λ tc machine i w more. ground arith;
  rule_keeps = λ tc machine i w. ground arith;
  rule_exists = λ tc machine i w. serve_exists w.ints w;
  rejected_keeps = λ tc machine i w. omega arith;
  note_accepted = λ tc text w. refl;
  note_keeps = λ tc text w. omega arith;
}

abbrev drill_case : Tape → TestCase ⦃eng = drill⦄
drill_case t = record {
  world = t;
  tc = 1;
  out = none;
  printer = none;
  depth = pos 0;
  panic_policy = capture_user_panics;
  scoped = false;
  aborted = false;
  failure_origin = "";
}

drilled_ends :
    (j : ℕ) (rule : Rule ⦃eng = drill⦄) (s : TestCase ⦃eng = drill⦄)
    → get_elem? (drilled ∷ []) j ≡ some rule
    → Lands (invoke_rule ⦃eng = drill⦄ rule.fn) s (λ _ t. rules_left t.world ≤ rules_left s.world)
unfolding invoke_rule invoke recover_panic
drilled_ends zero rule s e =
    subst
      (λ (r : Rule ⦃eng = drill⦄).
        Lands (invoke_rule ⦃eng = drill⦄ r.fn) s (λ _ t. rules_left t.world ≤ rules_left s.world))
      (some_injective e) (record { at = omega arith })
  where
    some_injective : {x y : Rule ⦃eng = drill⦄} → some x ≡ some y → x ≡ y
    some_injective h = cc
drilled_ends (suc j) rule s e = absurd (cc)

abbrev pair : Crew ⦃eng = drill⦄
pair = record {
  live =
      record { index = 0; handle = drill_case (tape [] []) }
      ∷ record { index = 1; handle = drill_case (tape [] []) }
      ∷ [];
  arrived = [];
}

-- Two workers share two rules, in some order of turns.
work_ends_example :
    Lands
      (work ⦃eng = drill⦄ (drilled ∷ []) (some 1) (1 ∷ 0 ∷ 0 ∷ 1 ∷ []) pair)
      (drill_case (tape [] (pos 0 ∷ pos 0 ∷ [])))
      (λ crew' _. Ended ⦃eng = drill⦄ pair crew')
work_ends_example =
    work_ends ⦃eng = drill⦄ rules_left (drilled ∷ []) drill-StepsBounded
      (record { ends = drilled_ends }) 1 (1 ∷ 0 ∷ 0 ∷ 1 ∷ []) pair
      (drill_case (tape [] (pos 0 ∷ pos 0 ∷ []))) (omega arith)
