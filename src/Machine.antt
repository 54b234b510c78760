-- ===== src/Machine.antt =====
-- stateful.go: stateMachine.Run, the rounds that the library asks for with the invariants round
-- them, and RunStateful. `schedule` tells how the workers of a round are interleaved.
pub mod Invariants
use hegel_go.Prelude.{
  ℕ, zero, suc, ◌+◌, String, Bool, true, false, not, Option, none, some, List, [], ◌∷◌, map, ltb,
  if◌then◌else◌,
}
use hegel_go.Prelude.Int.{ℤ, pos, negsuc, eq_ℤ}
use hegel_go.Errors.{Err, Cause, Invocation, value, error_value, bad_channel_size, as_invocation}
use hegel_go.Flow.{Flow, Result, ok, err, returns, panics, exhausted}
use hegel_go.Flow.Exec.{Exec, pure, ◌>>=◌, ◌>>◌}
use hegel_go.Engine.{Engine, Handle}
use hegel_go.Native.Machine.{state_machine_done}
use hegel_go.Native.Machine as Calls
use hegel_go.Report.{find_caller, is_not_hegel_frame}
use hegel_go.TestCase.{TestCase, TestBody, native, dereference, abort, must, raise_panic}
use hegel_go.Stateful.{
  StateMachine, RuleGroup, Method, MachineOption, new_state_machine, invoke_rule,
}
use hegel_go.Workgroup.{Failed, sort, failed_of, to_worker_error}
use hegel_go.Crew.{Rule, element, log, run_crew}

-- The order in which the dropped failures are logged.
unfoldable pub insert_by_worker : Failed → List Failed → List Failed
insert_by_worker x [] = x ∷ []
insert_by_worker x (y ∷ ys) =
    let rest = insert_by_worker x ys in if ltb y.worker x.worker then y ∷ rest else x ∷ y ∷ ys

unfoldable pub sort_by_worker : List Failed → List Failed
unfolding insert_by_worker
sort_by_worker [] = []
sort_by_worker (x ∷ xs) = insert_by_worker x (sort_by_worker xs)

module _ ⦃eng : Engine⦄ where
  -- stateMachine, with the functions of its rules and invariants.
  pub record Machine : Type 0 where
    pub config : StateMachine
    pub rules : List Rule
    pub invariants : List Rule

  unfoldable pub names : List Rule → List String
  names rules = map (λ r. r.name) rules

  -- `if _, err := invokeRule(tc, inv.fn); err != nil { tc.abort(err) }`
  abort_on : Bool × Option Err → Exec TestCase (Unit {0})
  unfolding abort
  abort_on (rejected, none) = pure tt
  abort_on (rejected, some e) = abort e

  unfoldable pub check : Rule → Exec TestCase (Unit {0})
  unfolding invoke_rule abort_on
  check inv = invoke_rule inv.fn >>= abort_on

  -- The loops before the first round and after the last.
  unfoldable pub check_all : List Rule → Exec TestCase (Unit {0})
  unfolding check
  check_all [] = pure tt
  check_all (inv ∷ invs) = do check inv; check_all invs

  -- The loop after a round, from invariant i on.
  unfoldable pub check_sampled : Handle → ℕ → List Rule → Exec TestCase (Unit {0})
  unfolding check native must
  check_sampled machine i [] = pure tt
  check_sampled machine i (inv ∷ invs) = do
    should ← must (native (λ h. Calls.should_check_invariant h machine (pos i)))
    if should then check inv else pure tt
    check_sampled machine (suc i) invs

  log_dropped : ℕ → Option Invocation → Exec TestCase (Unit {0})
  unfolding log find_caller is_not_hegel_frame
  log_dropped worker none = pure tt
  log_dropped worker (some i) =
      log (eng.dropped_line i.kind worker (find_caller i.pcs is_not_hegel_frame) i.cause)

  unfoldable pub log_all_dropped : List Failed → Exec TestCase (Unit {0})
  unfolding log_dropped as_invocation
  log_all_dropped [] = pure tt
  log_all_dropped (x ∷ xs) = do log_dropped x.worker (as_invocation x.error); log_all_dropped xs

  -- `if len(errs) != 0`
  unfoldable pub settle : List Failed → Exec TestCase (Unit {0})
  unfolding log_all_dropped sort_by_worker to_worker_error abort
  settle [] = pure tt
  settle (x ∷ xs) = do log_all_dropped (sort_by_worker xs); abort (to_worker_error x)

  group_name : StateMachine → ℤ → Exec TestCase String
  unfolding element
  group_name sm (pos zero) = pure "<anonymous>"
  group_name sm (pos (suc i)) = do g ← element sm.configured_rule_groups (pos i); pure g.name
  group_name sm (negsuc i) = do g ← element sm.configured_rule_groups (negsuc (suc i)); pure g.name

  -- The body of the loop, for a group that is not StateMachineDone.
  unfoldable pub round_body : Machine → Handle → ℕ → List ℕ → ℕ → ℤ → Exec TestCase (Unit {0})
  unfolding group_name log run_crew settle sort failed_of check_sampled
  round_body m machine level schedule n group = do
    name ← group_name m.config group
    log (eng.round_line n name)
    results ← run_crew m.rules (some machine) schedule level
    settle (sort (failed_of results))
    check_sampled machine 0 m.invariants

  -- The loop over the rounds, the first of which has number n. The fuel bounds the rounds.
  unfoldable pub rounds :
      Machine → Option Handle → ℕ → (ℕ → List ℕ) → ℕ → ℕ → Exec TestCase (Unit {0})
  unfolding native dereference must round_body
  rounds m o level schedule zero n s = (exhausted, s)
  rounds m o level schedule (suc fuel) n s =
      let rest = rounds m o level schedule fuel (suc n) in
      (do
        machine ← dereference o
        group ← must (native (λ h. Calls.next_group h machine))
        if eq_ℤ group state_machine_done
            then pure tt
            else (do round_body m machine level (schedule n) n group; rest))
        s

  -- `make(workgroup, concurrency)`
  make_workgroup : ℤ → Exec TestCase ℕ
  make_workgroup (pos n) = pure n
  make_workgroup (negsuc n) = raise_panic (value bad_channel_size)

  -- The rounds and what follows them.
  unfoldable pub run_rounds :
      Machine → Option Handle → (ℕ → List ℕ) → ℕ → ℕ → Exec TestCase (Unit {0})
  unfolding rounds log check_all
  run_rounds m o schedule fuel level = do
    rounds m o level schedule fuel 1
    log "Final invariant check."
    check_all m.invariants

  -- stateMachine.Run
  unfoldable pub run_machine : Machine → (ℕ → List ℕ) → ℕ → Exec TestCase (Unit {0})
  unfolding names native must log check_all make_workgroup run_rounds
  run_machine m schedule fuel = do
    made ← must (
        native (λ h.
          Calls.new_state_machine h (names m.rules) (map pos m.config.rule_groups)
            (names m.invariants) m.config.invariant_always_check (pos 1) m.config.max_concurrency
            m.config.step_count))
    if eq_ℤ m.config.max_concurrency (pos 1) then pure tt else log (eng.concurrency_line made.1)
    log "Initial invariant check."
    check_all m.invariants
    level ← make_workgroup made.1
    run_rounds m made.0 schedule fuel level

  -- A method by its name, as the reflected value gives it.
  unfoldable pub bound : (String → TestBody) → String → Rule
  bound method name = record { name = name; fn = method name }

  unfoldable pub machine_of : (String → TestBody) → StateMachine → Machine
  unfolding bound
  machine_of method sm = record {
    config = sm;
    rules = map (bound method) sm.rules;
    invariants = map (bound method) sm.invariants;
  }

  -- RunStateful
  unfoldable pub run_stateful :
      Option (List Method)
      → (String → TestBody)
      → List MachineOption
      → (ℕ → List ℕ)
      → ℕ
      → Exec TestCase (Unit {0})
  unfolding new_state_machine machine_of run_machine
  run_stateful methods method opts schedule fuel = elim (new_state_machine methods opts) [
    | err e ↦ raise_panic (error_value e)
    | ok sm ↦ run_machine (machine_of method sm) schedule fuel
  ]
