-- ===== src/Lists/Loop.antt =====
-- collections.go: the rules for what the loops share.
use hegel_go.Prelude.{Option, none, some}
use hegel_go.Errors.{Err, Message}
use hegel_go.Flow.Fallible.{Fallible, pure, fail}
use hegel_go.Flow.Fallible.Laws.{Wp, Wp-pure, Wp-fail}
use hegel_go.Engine.{Engine}
use hegel_go.TestCase.{TestCase}
use hegel_go.Collection.{Collection, collection_err}
use hegel_go.Lists.{checked, finish}

module _ ⦃eng : Engine⦄ {A : Type 0} where
  pub Wp-finish :
      (c : Collection) (r : A) (s : TestCase) (Q : A → TestCase → Type 0)
      → Q r s
      → Wp (finish c r) s Q
  unfolding finish collection_err
  Wp-finish c r s Q h = go c.error
    where
      go : (e : Option Err) → Wp (elim e [ none ↦ pure r | some x ↦ fail x ]) s Q
      go none = Wp-pure r s Q h
      go (some e) = Wp-fail e s Q

  pub Wp-checked :
      (o : Option Message) (m : Fallible TestCase A) (s : TestCase) (Q : A → TestCase → Type 0)
      → Wp m s Q
      → Wp (checked o m) s Q
  unfolding checked
  Wp-checked none m s Q h = h
  Wp-checked (some e) m s Q h = Wp-fail (Err.message e) s Q
