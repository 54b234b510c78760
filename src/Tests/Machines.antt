-- ===== src/Tests/Machines.antt =====
-- The theorems on state machines and their workers at concrete inputs.
use hegel_go.Prelude.{ℕ, ◌≡◌, refl, some, [], ◌∷◌}
use hegel_go.Errors.{Err, ErrorCode}
use hegel_go.Flow.{ok}
use hegel_go.Stateful.{StateMachine, new_machine, Assignment, assign_groups, with_rule_group}
use hegel_go.Stateful.Numbering.{Numbered, assign_groups-Numbered, assign_groups-Ungrouped}
use hegel_go.Stateful.{index_of}
use hegel_go.Prelude.{get_elem?}
use hegel_go.Stateful.Groups.{unassigned_rules}
use hegel_go.Stateful.Merging.{NamesDistinct, with_rule_group-NamesDistinct}
use hegel_go.Workgroup.{WorkerResult, wait}
use hegel_go.Workgroup.Order.{swapped, wait-Reordered}

abbrev stopped : ℕ → WorkerResult
stopped w = record { worker = w; error = some (Err.code ErrorCode.stop_test) }

abbrev broken : ℕ → WorkerResult
broken w = record { worker = w; error = some (Err.code ErrorCode.internal) }

wait-Reordered_example :
    wait (stopped 0 ∷ broken 1 ∷ stopped 2 ∷ []) ≡ wait (broken 1 ∷ stopped 0 ∷ stopped 2 ∷ [])
wait-Reordered_example =
    wait-Reordered (((λ e. cc), ((λ e. cc), tt)), (((λ e. cc), tt), (tt, tt)))
      (swapped (stopped 0) (broken 1))

abbrev accounts : StateMachine
accounts = record new_machine {
  rules = "RuleClose" ∷ "RuleOpen" ∷ "RulePay" ∷ [];
  configured_rule_groups =
      record { name = "money"; rules = "RulePay" ∷ [] }
      ∷ record { name = "life"; rules = "RuleOpen" ∷ [] }
      ∷ [];
}

abbrev assigned : Assignment
assigned = record { groups = 0 ∷ 2 ∷ 1 ∷ []; assigned = ("RuleOpen", 2) ∷ ("RulePay", 1) ∷ [] }

assigning :
    assign_groups accounts 1 accounts.configured_rule_groups (unassigned_rules accounts)
    ≡ ok assigned
unfolding assign_groups
assigning = refl

assign_groups-Numbered_example :
    Numbered accounts (0 ∷ 2 ∷ 1 ∷ []) 1 accounts.configured_rule_groups
assign_groups-Numbered_example = assign_groups-Numbered accounts assigned assigning

close_first : index_of "RuleClose" accounts.rules 0 ≡ some 0
unfolding index_of
close_first = refl

assign_groups-Ungrouped_example : get_elem? {A = ℕ} (0 ∷ 2 ∷ 1 ∷ []) 0 ≡ some 0
assign_groups-Ungrouped_example =
    assign_groups-Ungrouped accounts assigned "RuleClose" 0 assigning close_first
      ((refl, tt), ((refl, tt), tt))

accounts-NamesDistinct : NamesDistinct accounts.configured_rule_groups
accounts-NamesDistinct = ((refl, tt), (tt, tt))

with_rule_group-NamesDistinct_example :
    NamesDistinct (with_rule_group "money" ("RuleClose" ∷ []) accounts).configured_rule_groups
with_rule_group-NamesDistinct_example =
    with_rule_group-NamesDistinct "money" ("RuleClose" ∷ []) accounts accounts-NamesDistinct
