-- ===== src/Lists/Termination.antt =====
-- collections.go: the loops end. `remaining` bounds how often the library still asks for one more
-- element; no draw, rejection or new collection raises it.
use hegel_go.Prelude.{
  ℕ, zero, suc, ◌≤◌, ◌<◌, ◌≡◌, Option-cases, inl, inr, arith, String, true, Option,
}
use hegel_go.Prelude.Int.{ℤ, to_uint64}
use hegel_go.Errors.{ErrorCode}
use hegel_go.Flow.Fallible.{Fallible, from_exec, ◌>>=◌}
use hegel_go.Flow.Fallible.Total.{Reached, Ends, Ends-pure, Ends-mono, Ends-bind}
use hegel_go.Flow.Loop.{Step, again, done, loop, next}
use hegel_go.Engine.{Engine, Handle}
use hegel_go.Native
use hegel_go.TestCase.{TestCase, native, dereference}
use hegel_go.Collection.{max_value, Collection, more, reject, new_collection}
use hegel_go.Generator.{Generator, draw}

module _ ⦃eng : Engine⦄ (remaining : eng.World → ℕ) where
  -- The library asks for boundedly many elements.
  pub record Bounded : Type 0 where
    pub new_keeps :
        (tc lo hi : ℕ) (w : eng.World) → remaining (eng.new_collection tc lo hi w).2 ≤ remaining w
    pub more_lowers :
        (tc c : Handle) (w : eng.World)
        → (eng.collection_more tc c w).0 ≡ ErrorCode.ok
        → (eng.collection_more tc c w).1 ≡ true
        → remaining (eng.collection_more tc c w).2 < remaining w
    pub reject_keeps :
        (tc c : Handle) (why : String) (w : eng.World)
        → remaining (eng.collection_reject tc c why w).1 ≤ remaining w

  -- Drawing from g ends, and does not raise the bound.
  abbrev pub DrawEnds : {A : Type 0} → Generator A → Type 0
  DrawEnds g = (s : TestCase) → Ends (draw g) s (λ _ t. remaining t.world ≤ remaining s.world)

  unfoldable pub Lowered : {A B : Type 0} → TestCase → Step A B → TestCase → Type 0
  Lowered s (again a) t = remaining t.world < remaining s.world
  Lowered s (done b) t = Unit

  next_Ends :
      {A B : Type 0} (k : A → Fallible TestCase B) (x : Step A B) (s t : TestCase)
      → Lowered s x t
      → ((a : A) → remaining t.world < remaining s.world → Ends (k a) t (λ _ _. Unit))
      → Ends (next k x) t (λ _ _. Unit)
  unfolding Lowered
  next_Ends k (again a) s t low go = go a low
  next_Ends k (done b) s t low go = Ends-pure b t _ tt

  module _ (bounded : Bounded) where
    pub more_lowers_total :
        (c : Collection) (s : TestCase)
        → Reached
            (λ answer t. answer.0 ≡ true → remaining t.world < remaining s.world)
            (from_exec (more c) s).0
            (from_exec (more c) s).1
    unfolding more native dereference from_exec Native.collection_more
    more_lowers_total c s = elim (Option-cases c.id) [
      | inl missing ↦ ground (arith, missing)
      | inr (id, there) ↦ ground (arith, there, bounded.more_lowers s.tc id s.world)
    ]

    pub reject_total :
        (why : String) (c : Collection) (s : TestCase)
        → Reached
            (λ _ t. remaining t.world ≤ remaining s.world)
            (from_exec (reject why c) s).0
            (from_exec (reject why c) s).1
    unfolding reject native dereference from_exec Native.collection_reject
    reject_total why c s = elim (Option-cases c.id) [
      | inl missing ↦ ground (arith, missing)
      | inr (id, there) ↦ ground (arith, there, bounded.reject_keeps s.tc id why s.world)
    ]

    pub new_total :
        (lo : ℤ) (hi : Option ℤ) (s : TestCase)
        → Reached
            (λ _ t. remaining t.world ≤ remaining s.world)
            (new_collection lo hi s).0
            (new_collection lo hi s).1
    unfolding new_collection native Native.new_collection ◌>>=◌
    new_total lo hi s = ground (arith, bounded.new_keeps s.tc (to_uint64 lo) (max_value hi) s.world)

    -- A loop whose rounds end and, when they go on, lower the bound.
    pub loop_Ends :
        {A B : Type 0} (round : A → Fallible TestCase (Step A B))
        → ((a : A) (s : TestCase) → Ends (round a) s (Lowered s))
        → (fuel : ℕ) (a : A) (s : TestCase) → remaining s.world < fuel
        → Ends (loop round fuel a) s (λ _ _. Unit)
    unfolding loop
    loop_Ends round h zero a s lt = elim lt [ ]
    loop_Ends round h (suc n) a s lt = Ends-bind (round a) (next (loop round n)) s _ (
        Ends-mono (round a) s (Lowered s) _ (h a s) (λ x t low.
          next_Ends (loop round n) x s t low
            (λ b lt'. loop_Ends round h n b t (omega (arith, lt, lt')))))
