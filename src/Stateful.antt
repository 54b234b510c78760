-- ===== src/Stateful.antt =====
-- stateful.go: the configuration of a state machine: the options, and newStateMachine, which finds
-- the rules and invariants of a value and checks the options against them. The reflected method set
-- is an argument; a Go map from names to indices is a search that finds the last index.
pub mod Groups
pub mod Numbering
pub mod Merging
use hegel_go.Prelude.{
  ℕ, zero, suc, ◌+◌, String, Bool, true, false, not, ◌&&◌, ◌||◌, Option, none, some, List, [], ◌∷◌,
  ◌++◌, map, set, replicate, length, if◌then◌else◌, str_eq, starts_with,
}
use hegel_go.Prelude.Int.{ℤ, pos, ltb_ℤ}
use hegel_go.Errors.{
  Err, Message, ErrorCode, is_code, nil_machine, no_rules, bad_concurrency, bad_step_count,
  unprefixed_method, bad_signature, unknown_invariant, unknown_rule, grouped_invariant, empty_group,
  rule_in_two_groups,
}
use hegel_go.Flow.{Flow, Result, ok, err, returns, panics, exhausted}
use hegel_go.Flow.Exec.{Exec}
use hegel_go.Flow.Exec
use hegel_go.Engine.{Engine}
use hegel_go.TestCase.{TestCase, TestBody, invoke}

pub record RuleGroup : Type 0 where
  pub name : String
  pub rules : List String

-- What reflection tells of a method: whether it takes a TestCase, and whether it is func(TestCase).
pub record Method : Type 0 where
  pub name : String
  pub takes_test_case : Bool
  pub is_body : Bool

pub record StateMachine : Type 0 where
  pub rules : List String
  pub invariants : List String
  pub max_concurrency : ℤ
  pub step_count : ℤ
  pub always_check_names : List String
  pub configured_rule_groups : List RuleGroup
  pub rule_groups : List ℕ
  pub invariant_always_check : List Bool

abbrev pub new_machine : StateMachine
new_machine = record {
  rules = [];
  invariants = [];
  max_concurrency = pos 1;
  step_count = pos 50;
  always_check_names = [];
  configured_rule_groups = [];
  rule_groups = [];
  invariant_always_check = [];
}

-- StateMachineOption
abbrev pub MachineOption : Type 0
MachineOption = StateMachine → StateMachine

unfoldable pub with_bounded_concurrency : ℤ → MachineOption
with_bounded_concurrency n sm = record sm { max_concurrency = n }

unfoldable pub with_stateful_step_count : ℤ → MachineOption
with_stateful_step_count n sm = record sm { step_count = n }

unfoldable pub with_always_check_invariants : List String → MachineOption
with_always_check_invariants names sm = record sm {
  always_check_names = sm.always_check_names ++ names;
}

unfoldable pub add_to_group : String → List String → List RuleGroup → List RuleGroup
add_to_group name rules [] = record { name = name; rules = rules } ∷ []
add_to_group name rules (g ∷ gs) =
    let rest = add_to_group name rules gs in
    if str_eq g.name name then record g { rules = g.rules ++ rules } ∷ gs else g ∷ rest

unfoldable pub with_rule_group : String → List String → MachineOption
unfolding add_to_group
with_rule_group name rules sm = record sm {
  configured_rule_groups = add_to_group name rules sm.configured_rule_groups;
}

unfoldable pub apply_machine_options : List MachineOption → StateMachine → StateMachine
apply_machine_options [] sm = sm
apply_machine_options (opt ∷ opts) sm = apply_machine_options opts (opt sm)

add_method : StateMachine → Method → Result StateMachine
add_method sm m =
    let is_rule = starts_with m.name "Rule" in
    if not is_rule && not (starts_with m.name "Invariant")
    then (if m.takes_test_case then err (Err.message (unprefixed_method m.name)) else ok sm)
    else if not m.is_body
    then err (Err.message (bad_signature m.name))
    else if is_rule
    then ok (record sm { rules = sm.rules ++ m.name ∷ [] })
    else ok (record sm { invariants = sm.invariants ++ m.name ∷ [] })

pub then_machine {ℓ κ} : {A : Type ℓ} {B : Type κ} → Result A → (A → Result B) → Result B
then_machine (ok a) f = f a
then_machine (err e) f = err e

-- The loop over the method set.
unfoldable pub discover : List Method → StateMachine → Result StateMachine
unfolding add_method then_machine
discover [] sm = ok sm
discover (m ∷ ms) sm = then_machine (add_method sm m) (discover ms)

-- The index of a name, from i on; the last one wins.
unfoldable pub index_of : String → List String → ℕ → Option ℕ
index_of name [] i = none
index_of name (x ∷ xs) i = elim (index_of name xs (suc i)) [
  | none ↦ if str_eq x name then some i else none
  | some j ↦ some j
]

unfoldable pub mark_always : List String → List String → List Bool → Result (List Bool)
unfolding index_of then_machine
mark_always invariants [] flags = ok flags
mark_always invariants (name ∷ names) flags = elim (index_of name invariants 0) [
  | none ↦ err (Err.message (unknown_invariant name invariants))
  | some i ↦ mark_always invariants names (set flags i true)
]

-- assigned[name]
unfoldable pub assigned_to : String → List (String × ℕ) → Option ℕ
assigned_to name [] = none
assigned_to name ((key, g) ∷ rest) = if str_eq key name then some g else assigned_to name rest

-- The local variables of the loop over the groups.
pub record Assignment : Type 0 where
  pub groups : List ℕ
  pub assigned : List (String × ℕ)

unassigned : StateMachine → ℕ → String → Assignment → ℕ → Option ℕ → Result Assignment
unassigned sm g name a i (some previous) = err (Err.message (rule_in_two_groups name previous g))
unassigned sm g name a i none =
    ok (record { groups = set a.groups i g; assigned = (name, g) ∷ a.assigned })

missing_rule : StateMachine → String → Option ℕ → Err
missing_rule sm name none = Err.message (unknown_rule name sm.rules)
missing_rule sm name (some i) = Err.message (grouped_invariant name)

found_rule : StateMachine → ℕ → String → Assignment → Option ℕ → Result Assignment
unfolding unassigned missing_rule index_of assigned_to
found_rule sm g name a none = err (missing_rule sm name (index_of name sm.invariants 0))
found_rule sm g name a (some i) = unassigned sm g name a i (assigned_to name a.assigned)

-- The loop over the names of group g.
unfoldable pub assign_group : StateMachine → ℕ → List String → Assignment → Result Assignment
unfolding found_rule then_machine
assign_group sm g [] a = ok a
assign_group sm g (name ∷ names) a =
    then_machine (found_rule sm g name a (index_of name sm.rules 0)) (assign_group sm g names)

nonempty : ℕ → List String → Result (List String)
nonempty g [] = err (Err.message (empty_group g))
nonempty g (name ∷ names) = ok (name ∷ names)

-- The loop over the groups, the first of which has number g.
unfoldable pub assign_groups : StateMachine → ℕ → List RuleGroup → Assignment → Result Assignment
unfolding assign_group nonempty then_machine
assign_groups sm g [] a = ok a
assign_groups sm g (group ∷ groups) a =
    then_machine (nonempty g group.rules)
      (λ names. then_machine (assign_group sm g names a) (assign_groups sm (suc g) groups))

with_groups : StateMachine → Assignment → StateMachine
with_groups sm a = record sm { rule_groups = a.groups }

-- The checks of newStateMachine after the method set is known.
unfoldable pub check_machine : StateMachine → Result StateMachine
unfolding mark_always assign_groups then_machine with_groups
check_machine sm = elim sm.rules [
  | [] ↦ err (Err.message no_rules)
  | _ ∷ _ ↦
      then_machine
        (mark_always sm.invariants sm.always_check_names (replicate (length sm.invariants) false))
        (λ flags.
          then_machine
            (assign_groups sm 1 sm.configured_rule_groups
              (record { groups = replicate (length sm.rules) 0; assigned = [] }))
            (λ a. ok (with_groups (record sm { invariant_always_check = flags }) a)))
]

-- newStateMachine; a nil machine has no method set.
unfoldable pub new_state_machine : Option (List Method) → List MachineOption → Result StateMachine
unfolding apply_machine_options discover check_machine then_machine
new_state_machine none opts = err (Err.message nil_machine)
new_state_machine (some methods) opts =
    let sm = apply_machine_options opts new_machine in
    if ltb_ℤ sm.max_concurrency (pos 1)
    then err (Err.message bad_concurrency)
    else if ltb_ℤ sm.step_count (pos 1)
    then err (Err.message bad_step_count)
    else then_machine (discover methods sm) check_machine

module _ ⦃eng : Engine⦄ where
  rule_outcome : Option Err → Bool × Option Err
  unfolding is_code
  rule_outcome none = (false, none)
  rule_outcome (some e) = if is_code ErrorCode.assume e then (true, none) else (false, some e)

  -- invokeRule: whether the rule was rejected, and its error.
  unfoldable pub invoke_rule : TestBody → Exec TestCase (Bool × Option Err)
  unfolding invoke rule_outcome
  invoke_rule fn = Exec.◌>>=◌ (invoke fn) (λ e. Exec.pure (rule_outcome e))
