-- ===== src/Stateful/Groups.antt =====
-- stateful.go: the table of assigned names, and the groups that the rules are assigned.
use hegel_go.Prelude.{
  ℕ, zero, suc, ◌+◌, ◌≡◌, ◌≢◌, ◌<◌, refl, sym, ap, ◌∙◌, subst, arith, String, false, Option, none,
  some, List, [], ◌∷◌, set, length, length-set, replicate, length-replicate, get_elem?, str_eq,
  eq_iff, Bool-cases, Option-cases, inl, inr, false≢true,
}
use hegel_go.Flow.{Result, ok, err}
use hegel_go.Stateful.{
  RuleGroup, StateMachine, index_of, assigned_to, Assignment, unassigned, found_rule, assign_group,
  assign_groups, nonempty, then_machine,
}

-- A name that is found stands at the index.
pub index_of-get_elem? :
    (name : String) (xs : List String) (k j : ℕ)
    → index_of name xs k ≡ some j
    → (d : ℕ) × (j ≡ k + d) × (get_elem? xs d ≡ some name)
unfolding index_of
index_of-get_elem? name [] k j h = absurd (ground (arith, h))
index_of-get_elem? name (x ∷ xs) k j h = elim (Option-cases (index_of name xs (suc k))) [
  | inl missing ↦ elim (Bool-cases (str_eq x name)) [
    | inl same ↦ (0, ground (arith, h, missing, same), ap some ((eq_iff x name).0 same))
    | inr other ↦ absurd (ground (arith, h, missing, other))
  ]
  | inr (j', found) ↦
      let (d, e, at) = index_of-get_elem? name xs (suc k) j' found in
      let same : j' ≡ j = ground (arith, h, found) in (suc d, omega (arith, e, same), at)
]

module _ {A : Type 0} where
  pub get_elem?-bound : (xs : List A) (i : ℕ) (a : A) → get_elem? xs i ≡ some a → i < length xs
  get_elem?-bound [] i a h = absurd (cc)
  get_elem?-bound (x ∷ xs) zero a h = omega arith
  get_elem?-bound (x ∷ xs) (suc i) a h = omega (arith, get_elem?-bound xs i a h)

  get_elem?-set : (xs : List A) (i : ℕ) (a : A) → i < length xs → get_elem? (set xs i a) i ≡ some a
  get_elem?-set [] i a h = elim h [ ]
  get_elem?-set (x ∷ xs) zero a h = refl
  get_elem?-set (x ∷ xs) (suc i) a h = get_elem?-set xs i a (omega (arith, h))

  pub get_elem?-set_other :
      (xs : List A) (i j : ℕ) (a : A) → i ≢ j → get_elem? (set xs i a) j ≡ get_elem? xs j
  get_elem?-set_other [] i j a ne = refl
  get_elem?-set_other (x ∷ xs) zero zero a ne = absurd (ne refl)
  get_elem?-set_other (x ∷ xs) zero (suc j) a ne = refl
  get_elem?-set_other (x ∷ xs) (suc i) zero a ne = refl
  get_elem?-set_other (x ∷ xs) (suc i) (suc j) a ne =
      get_elem?-set_other xs i j a (λ e. ne (ap suc e))

-- Every assigned name is a rule, and the rule's group is the one that the name was assigned.
pub record Agrees (sm : StateMachine) (a : Assignment) : Type 0 where
  pub sized : length a.groups ≡ length sm.rules
  pub agree :
      (name : String) (g : ℕ)
      → assigned_to name a.assigned ≡ some g
      → (i : ℕ) × (index_of name sm.rules 0 ≡ some i) × (get_elem? a.groups i ≡ some g)

rule_bound :
    (sm : StateMachine) (name : String) (a : Assignment) (i : ℕ)
    → Agrees sm a
    → index_of name sm.rules 0 ≡ some i
    → i < length a.groups
rule_bound sm name a i h found =
    let (d, e, at) = index_of-get_elem? name sm.rules 0 i found in
    omega (arith, e, h.sized, get_elem?-bound sm.rules d name at)

-- Different names have different indices.
pub index_apart :
    (name name' : String) (xs : List String) (i j : ℕ)
    → index_of name xs 0 ≡ some i
    → index_of name' xs 0 ≡ some j
    → str_eq name name' ≡ false
    → i ≢ j
index_apart name name' xs i j found found' other e =
    let (d, i_d, at) = index_of-get_elem? name xs 0 i found in
    let (d', j_d, at') = index_of-get_elem? name' xs 0 j found' in
    let same : d ≡ d' = omega (arith, i_d, j_d, e) in
    let one : some name ≡ some name' = sym at ∙ ap (get_elem? xs) same ∙ at' in
    let equal : name ≡ name' = cc in false≢true (sym other ∙ (eq_iff name name').1 equal)

Agrees-assign :
    (sm : StateMachine) (g : ℕ) (name : String) (a : Assignment) (i : ℕ)
    → Agrees sm a
    → index_of name sm.rules 0 ≡ some i
    → Agrees sm (record { groups = set a.groups i g; assigned = (name, g) ∷ a.assigned })
unfolding assigned_to
Agrees-assign sm g name a i h found = record {
  sized = length-set a.groups i g ∙ h.sized;
  agree = λ name' g' e. elim (Bool-cases (str_eq name name')) [
    | inl same ↦
        let same_name : name ≡ name' = (eq_iff name name').0 same in
        let same_group : g ≡ g' = ground (arith, e, same) in
        (
          i,
          subst (λ n. index_of n sm.rules 0 ≡ some i) same_name found,
          subst (λ x. get_elem? (set a.groups i g) i ≡ some x) same_group
              (get_elem?-set a.groups i g (rule_bound sm name a i h found)),
        )
    | inr other ↦
        let before : assigned_to name' a.assigned ≡ some g' = ground (arith, e, other) in
        let (j, found', at) = h.agree name' g' before in
        let apart : i ≢ j = index_apart name name' sm.rules i j found found' other in
        (j, found', get_elem?-set_other a.groups i j g apart ∙ at)
  ];
}

Agrees-unassigned :
    (sm : StateMachine) (g : ℕ) (name : String) (a a' : Assignment) (i : ℕ) (o : Option ℕ)
    → Agrees sm a
    → index_of name sm.rules 0 ≡ some i
    → unassigned sm g name a i o ≡ ok a'
    → Agrees sm a'
unfolding unassigned
Agrees-unassigned sm g name a a' i none h found e =
    let same : record { groups = set a.groups i g; assigned = (name, g) ∷ a.assigned } ≡ a' = cc in
    subst (Agrees sm) same (Agrees-assign sm g name a i h found)
Agrees-unassigned sm g name a a' i (some previous) h found e = absurd (cc)

Agrees-found :
    (sm : StateMachine) (g : ℕ) (name : String) (a a' : Assignment) (o : Option ℕ)
    → Agrees sm a
    → index_of name sm.rules 0 ≡ o
    → found_rule sm g name a o ≡ ok a'
    → Agrees sm a'
unfolding found_rule
Agrees-found sm g name a a' none h found e = absurd (cc)
Agrees-found sm g name a a' (some i) h found e =
    Agrees-unassigned sm g name a a' i (assigned_to name a.assigned) h found e

pub then_machine-ok :
    {A B : Type 0} (r : Result A) (f : A → Result B) (b : B)
    → then_machine r f ≡ ok b
    → (a : A) × (r ≡ ok a) × (f a ≡ ok b)
unfolding then_machine
then_machine-ok (ok a) f b e = (a, refl, e)
then_machine-ok (err x) f b e = absurd (cc)

Agrees-assign_group :
    (sm : StateMachine) (g : ℕ) (names : List String) (a a' : Assignment)
    → Agrees sm a
    → assign_group sm g names a ≡ ok a'
    → Agrees sm a'
unfolding assign_group
Agrees-assign_group sm g [] a a' h e = let same : a ≡ a' = cc in subst (Agrees sm) same h
Agrees-assign_group sm g (name ∷ names) a a' h e =
    let (a1, first, rest) =
      then_machine-ok (found_rule sm g name a (index_of name sm.rules 0)) (assign_group sm g names)
        a' e in
    Agrees-assign_group sm g names a1 a' (Agrees-found sm g name a a1 _ h refl first) rest

-- When the groups from number g on are accepted, starting from a table that agrees with the rules'
-- groups, the final table agrees with them too: each assigned name is a rule and has its group.
pub assign_groups-Agrees :
    (sm : StateMachine) (g : ℕ) (groups : List RuleGroup) (a a' : Assignment)
    → Agrees sm a
    → assign_groups sm g groups a ≡ ok a'
    → Agrees sm a'
unfolding assign_groups
assign_groups-Agrees sm g [] a a' h e = let same : a ≡ a' = cc in subst (Agrees sm) same h
assign_groups-Agrees sm g (group ∷ groups) a a' h e =
    let (names, _, later) =
      then_machine-ok (nonempty g group.rules)
        (λ names. then_machine (assign_group sm g names a) (assign_groups sm (suc g) groups)) a'
        e in
    let (a1, first, rest) =
      then_machine-ok (assign_group sm g names a) (assign_groups sm (suc g) groups) a' later in
    assign_groups-Agrees sm (suc g) groups a1 a' (Agrees-assign_group sm g names a a1 h first) rest

-- Before the first group.
abbrev pub unassigned_rules : StateMachine → Assignment
unassigned_rules sm = record { groups = replicate (length sm.rules) 0; assigned = [] }

pub unassigned-Agrees : (sm : StateMachine) → Agrees sm (unassigned_rules sm)
unfolding assigned_to
unassigned-Agrees sm = record {
  sized = length-replicate (length sm.rules) 0;
  agree = λ name g e. absurd (cc);
}
