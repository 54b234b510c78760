-- ===== src/Stateful/Numbering.antt =====
-- stateful.go: the numbers of the configured groups, and the rules that stand in none.
use hegel_go.Prelude.{
  ℕ, zero, suc, ◌≡◌, ◌<◌, refl, sym, ap, ◌∙◌, subst, arith, String, false, Option, none, some, List,
  [], ◌∷◌, set, length, replicate, get_elem?, str_eq, eq_iff, Bool-cases, inl, inr, All, All-map,
  ◌≢◌,
}
use hegel_go.Flow.{ok}
use hegel_go.Stateful.{
  RuleGroup, StateMachine, index_of, assigned_to, Assignment, unassigned, found_rule, assign_group,
  assign_groups, nonempty, then_machine,
}
use hegel_go.Stateful.Groups.{
  Agrees, assign_groups-Agrees, unassigned_rules, unassigned-Agrees, then_machine-ok, index_apart,
  get_elem?-set_other, index_of-get_elem?, get_elem?-bound,
}

-- Names that are assigned keep their groups.
abbrev Kept : Assignment → Assignment → Type 0
Kept a a' =
    (name : String) (g : ℕ)
    → assigned_to name a.assigned ≡ some g
    → assigned_to name a'.assigned ≡ some g

-- A step that puts one name into group g.
abbrev Put : StateMachine → ℕ → String → Assignment → Assignment → Type 0
Put sm g name a a' =
    Kept a a'
    × (assigned_to name a'.assigned ≡ some g)
    × (i : ℕ) × (index_of name sm.rules 0 ≡ some i)
    × (a'.groups ≡ set a.groups i g)

Kept-cons :
    (name : String) (g : ℕ) (a : Assignment) (groups : List ℕ)
    → assigned_to name a.assigned ≡ none
    → Kept a (record { groups = groups; assigned = (name, g) ∷ a.assigned })
unfolding assigned_to
Kept-cons name g a groups fresh name' g' e = elim (Bool-cases (str_eq name name')) [
  | inl equal ↦
      let same : name ≡ name' = (eq_iff name name').0 equal in
      let missing : assigned_to name' a.assigned ≡ none =
        subst (λ n. assigned_to n a.assigned ≡ none) same fresh in
      absurd (cc)
  | inr apart ↦ rw apart e
]

unassigned-Put :
    (sm : StateMachine) (g : ℕ) (name : String) (a a' : Assignment) (i : ℕ) (o : Option ℕ)
    → assigned_to name a.assigned ≡ o
    → index_of name sm.rules 0 ≡ some i
    → unassigned sm g name a i o ≡ ok a'
    → Put sm g name a a'
unfolding unassigned assigned_to
unassigned-Put sm g name a a' i (some previous) before found e = absurd (cc)
unassigned-Put sm g name a a' i none before found e =
    let same : record { groups = set a.groups i g; assigned = (name, g) ∷ a.assigned } ≡ a' = cc in
    subst (Put sm g name a) same (
      Kept-cons name g a (set a.groups i g) before,
      rw ((eq_iff name name).1 refl) refl,
      i,
      found,
      refl,
    )

found-Put :
    (sm : StateMachine) (g : ℕ) (name : String) (a a' : Assignment) (o : Option ℕ)
    → index_of name sm.rules 0 ≡ o
    → found_rule sm g name a o ≡ ok a'
    → Put sm g name a a'
unfolding found_rule
found-Put sm g name a a' none found e = absurd (cc)
found-Put sm g name a a' (some i) found e =
    unassigned-Put sm g name a a' i (assigned_to name a.assigned) refl found e

-- The loop over the names of a group, in its steps.
step :
    (sm : StateMachine) (g : ℕ) (name : String) (names : List String) (a a' : Assignment)
    → assign_group sm g (name ∷ names) a ≡ ok a'
    → (b : Assignment) × Put sm g name a b × (assign_group sm g names b ≡ ok a')
unfolding assign_group
step sm g name names a a' e =
    let (b, first, rest) =
      then_machine-ok (found_rule sm g name a (index_of name sm.rules 0)) (assign_group sm g names)
        a' e in
    (b, found-Put sm g name a b _ refl first, rest)

abbrev AllIn : ℕ → List String → Assignment → Type 0
AllIn g names a = All (λ name. assigned_to name a.assigned ≡ some g) names

group-Kept :
    (sm : StateMachine) (g : ℕ) (names : List String) (a a' : Assignment)
    → assign_group sm g names a ≡ ok a'
    → Kept a a' × AllIn g names a'
unfolding assign_group
group-Kept sm g [] a a' e =
    let same : a ≡ a' = cc in subst (λ x. Kept a x × Unit) same ((λ name g' h. h), tt)
group-Kept sm g (name ∷ names) a a' e =
    let (b, (kept, own, _, _, _), rest) = step sm g name names a a' e in
    let (later, all) = group-Kept sm g names b a' rest in
    ((λ n g' h. later n g' (kept n g' h)), (later name g own, all))

nonempty-same : (g : ℕ) (names names' : List String) → nonempty g names ≡ ok names' → names ≡ names'
unfolding nonempty
nonempty-same g [] names' e = absurd (cc)
nonempty-same g (name ∷ names) names' e = cc

-- The loop over the groups, in its steps.
group_step :
    (sm : StateMachine) (g : ℕ) (group : RuleGroup) (groups : List RuleGroup) (a a' : Assignment)
    → assign_groups sm g (group ∷ groups) a ≡ ok a'
    → (b : Assignment) × (assign_group sm g group.rules a ≡ ok b)
      × (assign_groups sm (suc g) groups b ≡ ok a')
unfolding assign_groups
group_step sm g group groups a a' e =
    let (names, checked, later) =
      then_machine-ok (nonempty g group.rules)
        (λ names. then_machine (assign_group sm g names a) (assign_groups sm (suc g) groups)) a'
        e in
    let (b, first, rest) =
      then_machine-ok (assign_group sm g names a) (assign_groups sm (suc g) groups) a' later in
    (
      b,
      subst (λ ns. assign_group sm g ns a ≡ ok b) (sym (nonempty-same g group.rules names checked))
          first,
      rest,
    )

-- The groups, numbered from g on, hold their names.
abbrev Assigned : ℕ → List RuleGroup → Assignment → Type 0
Assigned g [] a = Unit
Assigned g (group ∷ groups) a = AllIn g group.rules a × Assigned (suc g) groups a

groups-Kept :
    (sm : StateMachine) (g : ℕ) (groups : List RuleGroup) (a a' : Assignment)
    → assign_groups sm g groups a ≡ ok a'
    → Kept a a' × Assigned g groups a'
unfolding assign_groups
groups-Kept sm g [] a a' e =
    let same : a ≡ a' = cc in subst (λ x. Kept a x × Unit) same ((λ name g' h. h), tt)
groups-Kept sm g (group ∷ groups) a a' e =
    let (b, first, rest) = group_step sm g group groups a a' e in
    let (kept, all) = group-Kept sm g group.rules a b first in
    let (later, others) = groups-Kept sm (suc g) groups b a' rest in
    (
      (λ n g' h. later n g' (kept n g' h)),
      (All-map _ _ group.rules (λ name h. later name g h) all, others),
    )

-- Each name of a group is a rule, and the rule's group is the number of that group, from g on.
abbrev pub Numbered : StateMachine → List ℕ → ℕ → List RuleGroup → Type 0
Numbered sm numbers g [] = Unit
Numbered sm numbers g (group ∷ groups) =
    All (λ name. (i : ℕ) × (index_of name sm.rules 0 ≡ some i) × (get_elem? numbers i ≡ some g))
      group.rules
    × Numbered sm numbers (suc g) groups

Assigned-Numbered :
    (sm : StateMachine) (g : ℕ) (groups : List RuleGroup) (a : Assignment)
    → Agrees sm a
    → Assigned g groups a
    → Numbered sm a.groups g groups
Assigned-Numbered sm g [] a h k = tt
Assigned-Numbered sm g (group ∷ groups) a h k = (
  All-map _ _ group.rules (λ name e. h.agree name g e) k.0,
  Assigned-Numbered sm (suc g) groups a h k.1,
)

-- When newStateMachine accepts the configured groups, every name in the first of them is a rule whose
-- group is 1, every name in the second a rule whose group is 2, and so on.
pub assign_groups-Numbered :
    (sm : StateMachine) (a : Assignment)
    → assign_groups sm 1 sm.configured_rule_groups (unassigned_rules sm) ≡ ok a
    → Numbered sm a.groups 1 sm.configured_rule_groups
assign_groups-Numbered sm a e =
    Assigned-Numbered sm 1 sm.configured_rule_groups a
      (assign_groups-Agrees sm 1 sm.configured_rule_groups (unassigned_rules sm) a
        (unassigned-Agrees sm) e)
      (groups-Kept sm 1 sm.configured_rule_groups (unassigned_rules sm) a e).1

-- No group names the rule.
abbrev Others : String → List String → Type 0
Others n names = All (λ name. str_eq name n ≡ false) names

abbrev pub Ungrouped : String → List RuleGroup → Type 0
Ungrouped n groups = All (λ group. Others n group.rules) groups

group-Ungrouped :
    (sm : StateMachine) (g : ℕ) (names : List String) (a a' : Assignment) (n : String) (j : ℕ)
    → index_of n sm.rules 0 ≡ some j
    → Others n names
    → assign_group sm g names a ≡ ok a'
    → get_elem? a.groups j ≡ some 0
    → get_elem? a'.groups j ≡ some 0
unfolding assign_group
group-Ungrouped sm g [] a a' n j at others e zero_at =
    let same : a ≡ a' = cc in subst (λ (x : Assignment). get_elem? x.groups j ≡ some 0) same zero_at
group-Ungrouped sm g (name ∷ names) a a' n j at others e zero_at =
    let (b, (_, _, i, found, put), rest) = step sm g name names a a' e in
    let apart : i ≢ j = index_apart name n sm.rules i j found at others.0 in
    group-Ungrouped sm g names b a' n j at others.1 rest
      (ap (λ l. get_elem? l j) put ∙ get_elem?-set_other a.groups i j g apart ∙ zero_at)

groups-Ungrouped :
    (sm : StateMachine) (g : ℕ) (groups : List RuleGroup) (a a' : Assignment) (n : String) (j : ℕ)
    → index_of n sm.rules 0 ≡ some j
    → Ungrouped n groups
    → assign_groups sm g groups a ≡ ok a'
    → get_elem? a.groups j ≡ some 0
    → get_elem? a'.groups j ≡ some 0
unfolding assign_groups
groups-Ungrouped sm g [] a a' n j at others e zero_at =
    let same : a ≡ a' = cc in subst (λ (x : Assignment). get_elem? x.groups j ≡ some 0) same zero_at
groups-Ungrouped sm g (group ∷ groups) a a' n j at others e zero_at =
    let (b, first, rest) = group_step sm g group groups a a' e in
    groups-Ungrouped sm (suc g) groups b a' n j at others.1 rest
      (group-Ungrouped sm g group.rules a b n j at others.0 first zero_at)

get_elem?-replicate : (n j : ℕ) → j < n → get_elem? {A = ℕ} (replicate n 0) j ≡ some 0
get_elem?-replicate zero j lt = absurd (omega (arith, lt))
get_elem?-replicate (suc n) zero lt = refl
get_elem?-replicate (suc n) (suc j) lt = get_elem?-replicate n j (omega (arith, lt))

-- When newStateMachine accepts the configured groups, a rule that none of them names keeps group 0.
pub assign_groups-Ungrouped :
    (sm : StateMachine) (a : Assignment) (name : String) (j : ℕ)
    → assign_groups sm 1 sm.configured_rule_groups (unassigned_rules sm) ≡ ok a
    → index_of name sm.rules 0 ≡ some j
    → Ungrouped name sm.configured_rule_groups
    → get_elem? a.groups j ≡ some 0
assign_groups-Ungrouped sm a name j e at others =
    let (d, is_d, stands) = index_of-get_elem? name sm.rules 0 j at in
    groups-Ungrouped sm 1 sm.configured_rule_groups (unassigned_rules sm) a name j at others e (
      get_elem?-replicate (length sm.rules) j
        (omega (arith, is_d, get_elem?-bound sm.rules d name stands)))
