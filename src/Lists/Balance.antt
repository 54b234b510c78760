-- ===== src/Lists/Balance.antt =====
-- collections.go: a list, unique list or map that is drawn from balanced generators is balanced.
use hegel_go.Prelude.{ℕ, zero, suc, Bool, Option, none, some, List, not}
use hegel_go.Prelude.Int.{ℤ}
use hegel_go.Errors.{Err, Message}
use hegel_go.Flow.Fallible.{Fallible, pure, fail}
use hegel_go.Flow.Loop.{Step, again, done, next, loop}
use hegel_go.Engine.{Engine}
use hegel_go.TestCase.{TestCase}
use hegel_go.Collection.{Collection, new_collection, collection_err}
use hegel_go.Collection.Laws.{more-Settles, reject-Settles}
use hegel_go.Generator.{Generator, draw}
use hegel_go.Generator.Spans.{
  Settles, pure-Settles, fail-Settles, native-Settles, bind-Settles, if-Settles, draw-Settles,
}
use hegel_go.Lists.{
  Sizes, checked, finish, any, list_round, lists, UniqueVars, unique_element, unique_round,
  unique_lists_by, MapVars, map_entry, map_round, maps,
}

module _ ⦃eng : Engine⦄ {A B : Type 0} where
  next-Settles :
      (k : A → Fallible TestCase B) (x : Step A B) → ((a : A) → Settles (k a)) → Settles (next k x)
  next-Settles k (again a) h = h a
  next-Settles k (done b) h = pure-Settles b

  loop-Settles :
      (round : A → Fallible TestCase (Step A B))
      → ((a : A) → Settles (round a))
      → (n : ℕ) (a : A) → Settles (loop round n a)
  unfolding loop
  loop-Settles round h zero a = record { at = λ s. record { at = tt } }
  loop-Settles round h (suc n) a =
      bind-Settles (round a) _ (h a) (λ x. next-Settles (loop round n) x (loop-Settles round h n))

module _ ⦃eng : Engine⦄ {A : Type 0} where
  finish-Settles : (c : Collection) (r : A) → Settles (finish c r)
  unfolding finish collection_err
  finish-Settles c r = go c.error
    where
      go : (e : Option Err) → Settles (elim e [ none ↦ pure r | some x ↦ fail x ])
      go none = pure-Settles r
      go (some e) = fail-Settles e

  checked-Settles :
      (o : Option Message) (m : Fallible TestCase A) → Settles m → Settles (checked o m)
  unfolding checked
  checked-Settles none m h = h
  checked-Settles (some e) m h = fail-Settles (Err.message e)

module _ ⦃eng : Engine⦄ where
  new_collection-Settles : (lo : ℤ) (hi : Option ℤ) → Settles (new_collection lo hi)
  unfolding new_collection
  new_collection-Settles lo hi = bind-Settles _ _ (native-Settles _) (λ c. pure-Settles _)

  pub lists-Settles :
      {A : Type 0} (elements : Generator A) (fuel typ : ℕ) (g : Sizes)
      → Settles elements.draw_value
      → Settles (lists elements fuel typ g).draw_value
  unfolding lists list_round
  lists-Settles elements fuel typ g h =
      checked-Settles _ _
        (bind-Settles _ _ (new_collection-Settles _ _) (λ c. loop-Settles _ round fuel _))
    where
      round : (x : Collection × List _) → Settles (list_round elements x)
      round (c, r) = bind-Settles _ _ (more-Settles c) (λ answer.
          if-Settles answer.0 _ _
            (bind-Settles (draw elements) _ (draw-Settles elements h) (λ v. pure-Settles _))
            (bind-Settles _ _ (finish-Settles answer.1 r) (λ o. pure-Settles _)))

  module _ {A K : Type 0} (elements : Generator A) (key : A → K) (key_eq : K → K → Bool)
      (is_comparable : K → Bool) (h : Settles elements.draw_value) where
    unique_element-Settles :
        (x : UniqueVars A K) (v : A)
        → Settles (unique_element elements key key_eq is_comparable x v)
    unfolding unique_element
    unique_element-Settles x v = if-Settles (not (is_comparable (key v))) _ _ (fail-Settles _) (
        if-Settles (any (key_eq (key v)) x.seen) _ _
          (bind-Settles _ _ (reject-Settles "duplicate element" x.coll) (λ c. pure-Settles _))
          (pure-Settles _))

    unique_round-Settles :
        (x : UniqueVars A K) → Settles (unique_round elements key key_eq is_comparable x)
    unfolding unique_round
    unique_round-Settles x = bind-Settles _ _ (more-Settles x.coll) (λ answer.
        if-Settles answer.0 _ _
          (bind-Settles (draw elements) _ (draw-Settles elements h)
            (λ v. unique_element-Settles _ v))
          (bind-Settles _ _ (finish-Settles answer.1 x.result) (λ o. pure-Settles _)))

    pub unique_lists_by-Settles :
        (fuel typ : ℕ) (g : Sizes)
        → Settles (unique_lists_by elements key key_eq is_comparable fuel typ g).draw_value
    unfolding unique_lists_by
    unique_lists_by-Settles fuel typ g = checked-Settles _ _ (
        bind-Settles _ _ (new_collection-Settles _ _)
          (λ c. loop-Settles _ unique_round-Settles fuel _))

  module _ {K V : Type 0} (keys : Generator K) (values : Generator V) (key_eq : K → K → Bool)
      (hk : Settles keys.draw_value) (hv : Settles values.draw_value) where
    map_entry-Settles : (x : MapVars K V) (k : K) → Settles (map_entry keys values key_eq x k)
    unfolding map_entry
    map_entry-Settles x k =
        if-Settles (any (λ e. key_eq k e.0) x.result) _ _
          (bind-Settles _ _ (reject-Settles "duplicate key" x.coll) (λ c. pure-Settles _))
          (bind-Settles (draw values) _ (draw-Settles values hv) (λ v. pure-Settles _))

    map_round-Settles : (x : MapVars K V) → Settles (map_round keys values key_eq x)
    unfolding map_round
    map_round-Settles x = bind-Settles _ _ (more-Settles x.coll) (λ answer.
        if-Settles answer.0 _ _
          (bind-Settles (draw keys) _ (draw-Settles keys hk) (λ k. map_entry-Settles _ k))
          (bind-Settles _ _ (finish-Settles answer.1 x.result) (λ o. pure-Settles _)))

    pub maps-Settles :
        (fuel typ : ℕ) (g : Sizes) → Settles (maps keys values key_eq fuel typ g).draw_value
    unfolding maps
    maps-Settles fuel typ g = checked-Settles _ _ (
        bind-Settles _ _ (new_collection-Settles _ _)
          (λ c. loop-Settles _ map_round-Settles fuel _))
