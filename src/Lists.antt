-- ===== src/Lists.antt =====
-- collections.go: the generators of Lists, UniqueLists and Maps. Each `for coll.More()` loop takes
-- fuel. A Go map under construction is the list of its entries in the order in which their keys
-- were added; `key_eq` is
-- `==` on the keys, of which no law is assumed (a floating-point NaN differs from itself).
pub mod Config
pub mod Loop
pub mod Distinct
pub mod Entries
pub mod Balance
pub mod Termination
pub mod Fuel
use hegel_go.Prelude.{
  ℕ, zero, suc, String, Bool, true, false, not, ◌||◌, ◌&&◌, Option, none, some, List, [], ◌∷◌, ◌++◌,
  if◌then◌else◌,
}
use hegel_go.Prelude.Int.{ℤ, pos, ltb_ℤ, is_negative}
use hegel_go.Errors.{
  Err, Message, min_size_negative, max_size_negative, max_below_min, non_comparable_key,
}
use hegel_go.Flow.Fallible.{Fallible, pure, fail, from_exec, ◌>>=◌}
use hegel_go.Flow.Loop.{Step, again, done, loop}
use hegel_go.Engine.{Engine}
use hegel_go.TestCase.{TestCase}
use hegel_go.Collection.{Collection, new_collection, collection_err, more, reject}
use hegel_go.Generator.{Generator, draw}

-- The size fields that the three generators share.
pub record Sizes : Type 0 where
  pub min_size : ℤ
  pub max_size : ℤ
  pub has_max : Bool

-- The generators as Lists, UniqueLists and Maps first return them.
abbrev pub default_sizes : Sizes
default_sizes = record { min_size = pos 0; max_size = pos 0; has_max = false }

unfoldable pub with_min_size : ℤ → Sizes → Sizes
with_min_size n g = record g { min_size = n }

unfoldable pub with_max_size : ℤ → Sizes → Sizes
with_max_size n g = record g { max_size = n; has_max = true }

-- The checks at the head of each draw, in their order.
unfoldable pub check_sizes : Sizes → Option Message
check_sizes g =
    if is_negative g.min_size
    then some (min_size_negative g.min_size)
    else if g.has_max && is_negative g.max_size
    then some (max_size_negative g.max_size)
    else if g.has_max && ltb_ℤ g.max_size g.min_size
    then some (max_below_min g.max_size g.min_size)
    else none

-- The pointer that newCollection gets.
abbrev pub max_pointer : Sizes → Option ℤ
max_pointer g = if g.has_max then some g.max_size else none

unfoldable pub any {ℓ} : {A : Type ℓ} → (A → Bool) → List A → Bool
any p [] = false
any p (x ∷ xs) = p x || any p xs

-- `m[k] = v`: an entry with an equal key gets the new value, or a new entry is added.
unfoldable pub put : {K V : Type 0} → (K → K → Bool) → K → V → List (K × V) → List (K × V)
put key_eq k v [] = (k, v) ∷ []
put key_eq k v (e ∷ es) =
    let rest = put key_eq k v es in if key_eq k e.0 then (e.0, v) ∷ es else e ∷ rest

-- The local variables of the loops of UniqueListGenerator.draw and MapGenerator.draw.
pub record UniqueVars (A K : Type 0) : Type 0 where
  pub coll : Collection
  pub seen : List K
  pub result : List A

pub record MapVars (K V : Type 0) : Type 0 where
  pub coll : Collection
  pub result : List (K × V)

module _ ⦃eng : Engine⦄ where
  -- A failed check is returned before anything is drawn.
  unfoldable pub checked : {A : Type 0} → Option Message → Fallible TestCase A → Fallible TestCase A
  checked none body = body
  checked (some m) body = fail (Err.message m)

  -- `if err := coll.Err(); err != nil` after the loop
  unfoldable pub finish : {A : Type 0} → Collection → A → Fallible TestCase A
  finish coll result = elim (collection_err coll) [ none ↦ pure result | some e ↦ fail e ]

  module _ {A : Type 0} (elements : Generator A) where
    -- The variables are the collection and the result so far.
    unfoldable pub list_round :
        Collection × List A → Fallible TestCase (Step (Collection × List A) (List A))
    list_round (coll, result) = do
      answer ← from_exec (more coll)
      if answer.0
          then (do v ← draw elements; pure (again (answer.1, result ++ v ∷ [])))
          else (do r ← finish answer.1 result; pure (done r))

    -- ListGenerator.draw
    unfoldable pub lists : ℕ → ℕ → Sizes → Generator (List A)
    unfolding list_round checked
    lists fuel typ g = record {
      typ = typ;
      draw_value =
          checked (check_sizes g)
            (do coll ← new_collection g.min_size (max_pointer g); loop list_round fuel (coll, []));
    }

  module _ {A K : Type 0} (elements : Generator A) (key : A → K) (key_eq : K → K → Bool)
      (is_comparable : K → Bool) where
    unfoldable pub unique_element :
        UniqueVars A K → A → Fallible TestCase (Step (UniqueVars A K) (List A))
    unfolding any
    unique_element x v =
        if not (is_comparable (key v))
        then fail (Err.message non_comparable_key)
        else if any (key_eq (key v)) x.seen
        then (do
          coll' ← from_exec (reject "duplicate element" x.coll)
          pure (again (record { coll = coll'; seen = x.seen; result = x.result })))
        else pure
            (again (record { coll = x.coll; seen = key v ∷ x.seen; result = x.result ++ v ∷ [] }))

    unfoldable pub unique_round :
        UniqueVars A K → Fallible TestCase (Step (UniqueVars A K) (List A))
    unfolding unique_element
    unique_round x = do
      answer ← from_exec (more x.coll)
      if answer.0
          then (do
            v ← draw elements
            unique_element (record { coll = answer.1; seen = x.seen; result = x.result }) v)
          else (do r ← finish answer.1 x.result; pure (done r))

    -- UniqueListGenerator.draw
    unfoldable pub unique_lists_by : ℕ → ℕ → Sizes → Generator (List A)
    unfolding unique_round checked
    unique_lists_by fuel typ g = record {
      typ = typ;
      draw_value = checked (check_sizes g) (do
        coll ← new_collection g.min_size (max_pointer g)
        loop unique_round fuel (record { coll = coll; seen = []; result = [] }));
    }

  module _ {K V : Type 0} (keys : Generator K) (values : Generator V) (key_eq : K → K → Bool) where
    unfoldable pub map_entry :
        MapVars K V → K → Fallible TestCase (Step (MapVars K V) (List (K × V)))
    unfolding any put
    map_entry x k =
        if any (λ e. key_eq k e.0) x.result
        then (do
          coll' ← from_exec (reject "duplicate key" x.coll)
          pure (again (record { coll = coll'; result = x.result })))
        else (do
          v ← draw values
          pure (again (record { coll = x.coll; result = put key_eq k v x.result })))

    unfoldable pub map_round : MapVars K V → Fallible TestCase (Step (MapVars K V) (List (K × V)))
    unfolding map_entry
    map_round x = do
      answer ← from_exec (more x.coll)
      if answer.0
          then (do k ← draw keys; map_entry (record { coll = answer.1; result = x.result }) k)
          else (do r ← finish answer.1 x.result; pure (done r))

    -- MapGenerator.draw
    unfoldable pub maps : ℕ → ℕ → Sizes → Generator (List (K × V))
    unfolding map_round checked
    maps fuel typ g = record {
      typ = typ;
      draw_value = checked (check_sizes g) (do
        coll ← new_collection g.min_size (max_pointer g)
        loop map_round fuel (record { coll = coll; result = [] }));
    }
