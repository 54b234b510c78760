-- ===== src/Stateful/Merging.antt =====
-- stateful.go: options that name the same rule group build one group.
use hegel_go.Prelude.{
  ◌≡◌, sym, ◌∙◌, false≢true, String, false, List, [], ◌∷◌, All, str_eq, eq_iff, Bool-cases, inl,
  inr,
}
use hegel_go.Stateful.{RuleGroup, StateMachine, add_to_group, with_rule_group}

-- No group of the list has the name.
abbrev pub NotNamed : String → List RuleGroup → Type 0
NotNamed name gs = All (λ (g : RuleGroup). str_eq g.name name ≡ false) gs

-- Different groups have different names.
abbrev pub NamesDistinct : List RuleGroup → Type 0
NamesDistinct [] = Unit
NamesDistinct (g ∷ gs) = NotNamed g.name gs × NamesDistinct gs

add_to_group-NotNamed :
    (name other : String) (rules : List String) (gs : List RuleGroup)
    → str_eq name other ≡ false
    → NotNamed other gs
    → NotNamed other (add_to_group name rules gs)
unfolding add_to_group
add_to_group-NotNamed name other rules [] ne h = (ne, tt)
add_to_group-NotNamed name other rules (g ∷ gs) ne h = elim (Bool-cases (str_eq g.name name)) [
  | inl same ↦ rw same h
  | inr differs ↦ rw differs (h.0, add_to_group-NotNamed name other rules gs ne h.1)
]

str_eq-sym : (s t : String) → str_eq s t ≡ false → str_eq t s ≡ false
str_eq-sym s t h = elim (Bool-cases (str_eq t s)) [
  | inl same ↦ absurd (false≢true (sym h ∙ (eq_iff s t).1 (sym ((eq_iff t s).0 same))))
  | inr differs ↦ differs
]

add_to_group-NamesDistinct :
    (name : String) (rules : List String) (gs : List RuleGroup)
    → NamesDistinct gs
    → NamesDistinct (add_to_group name rules gs)
unfolding add_to_group
add_to_group-NamesDistinct name rules [] h = (tt, tt)
add_to_group-NamesDistinct name rules (g ∷ gs) h = elim (Bool-cases (str_eq g.name name)) [
  | inl same ↦ rw same h
  | inr differs ↦ rw differs (
    add_to_group-NotNamed name g.name rules gs (str_eq-sym g.name name differs) h.0,
    add_to_group-NamesDistinct name rules gs h.1,
  )
]

-- WithRuleGroup keeps the names of the configured groups distinct: a name that is already configured
-- gets no second group.
pub with_rule_group-NamesDistinct :
    (name : String) (rules : List String) (sm : StateMachine)
    → NamesDistinct sm.configured_rule_groups
    → NamesDistinct (with_rule_group name rules sm).configured_rule_groups
unfolding with_rule_group
with_rule_group-NamesDistinct name rules sm h =
    add_to_group-NamesDistinct name rules sm.configured_rule_groups h
