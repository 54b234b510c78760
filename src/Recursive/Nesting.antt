-- ===== src/Recursive/Nesting.antt =====
-- recursive.go: the nesting of subtrees and the attempts of a recursive draw are bounded.
use hegel_go.Prelude.{
  ℕ, zero, suc, ◌-◌, ◌^◌, ◌≤◌, ◌<◌, ◌≡◌, refl, sym, subst, arith, Bool, true, false, Option, none,
  some, if◌then◌else◌,
}
use hegel_go.Flow.Fallible.{Fallible, from_exec, ◌>>=◌, ◌>>◌}
use hegel_go.Flow.Fallible.Total.{Ends, Ends-pure, Ends-mono, Ends-bind}
use hegel_go.Engine.{Engine, Handle}
use hegel_go.Native
use hegel_go.TestCase.{TestCase, native, dereference, start_span, stop_span}
use hegel_go.Generator.{Generator, draw}
use hegel_go.Recursive.{
  RecursiveGenerator, subtree_draw, deeper, ask_branch, take_leaf, finish_root,
}
use hegel_go.Recursive.Height.{Limited, deeper_small}

module _ ⦃eng : Engine⦄ where
  -- An action that never runs out of fuel.
  abbrev pub Total : {A : Type 0} → Fallible TestCase A → Type 0
  Total m = (s : TestCase) → Ends m s (λ _ _. Unit)

  dereference-Total : (o : Option Handle) → Total (from_exec (dereference o))
  unfolding dereference from_exec
  dereference-Total none s = record { at = tt }
  dereference-Total (some r) s = record { at = tt }

  pub start_span-Total : (l : ℕ) → Total (start_span l)
  unfolding start_span native Native.start_span
  start_span-Total l s = record { at = ground arith }

  pub stop_span-Total : (b : Bool) → Total (stop_span b)
  unfolding stop_span native Native.stop_span
  stop_span-Total b s = record { at = ground arith }

  take_leaf-Total : (o : Option Handle) → Total (take_leaf o)
  unfolding take_leaf dereference from_exec native Native.recursion_leaf ◌>>=◌
  take_leaf-Total none s = record { at = tt }
  take_leaf-Total (some r) s = record { at = ground arith }

  finish_root-Total : (o : Option Handle) (depth : ℕ) → Total (finish_root o depth)
  unfolding finish_root dereference from_exec native Native.recursion_finish ◌>>=◌
  finish_root-Total none zero s = record { at = tt }
  finish_root-Total (some r) zero s = record { at = ground arith }
  finish_root-Total o (suc depth) s = record { at = tt }

  ask_branch_Ends :
      (limit : ℕ) (o : Option Handle) (depth : ℕ) (s : TestCase)
      → Limited limit o
      → Ends (ask_branch o depth) s (λ b _. b ≡ true → depth < limit)
  unfolding ask_branch dereference from_exec native Native.recursion_branch ◌>>=◌
  ask_branch_Ends limit none depth s h = record { at = tt }
  ask_branch_Ends limit (some r) depth s h = record { at = ground (arith, h s.tc depth s.world) }

  pub bind-Total :
      {A B : Type 0} (m : Fallible TestCase A) (f : A → Fallible TestCase B)
      → Total m
      → ((a : A) → Total (f a))
      → Total (m >>= f)
  bind-Total m f hm hf s = Ends-bind m f s _ (Ends-mono m s _ _ (hm s) (λ a t _. hf a t))

  pub draw-Total : {A : Type 0} (g : Generator A) → Total g.draw_value → Total (draw g)
  unfolding draw
  draw-Total g h = bind-Total (start_span _) _ (start_span-Total _) (λ _.
      bind-Total g.draw_value _ h
        (λ v. bind-Total (stop_span false) _ (stop_span-Total false) (λ _ s. Ends-pure v s _ tt)))

  module _ {A : Type 0} (typ : ℕ) (g : RecursiveGenerator A) (leaf : Total (draw g.leaf))
      (branch : (child : Generator A) → Total (draw child) → Total (draw (g.branch child)))
      (limit : ℕ) (fits : limit < 2 ^ 64) (recursion : Option Handle)
      (limited : Limited limit recursion) where
    value-Total :
        (levels depth : ℕ) (b : Bool)
        → (b ≡ true → Total (subtree_draw typ g.leaf g.branch recursion levels (deeper depth)))
        → Total (
            if b
            then draw (
                g.branch (record {
                  typ = typ;
                  draw_value = subtree_draw typ g.leaf g.branch recursion levels (deeper depth);
                }))
            else (do take_leaf recursion; draw g.leaf))
    value-Total levels depth true below = branch _ (draw-Total _ (below refl))
    value-Total levels depth false below =
        bind-Total (take_leaf recursion) _ (take_leaf-Total recursion) (λ _. leaf)

    -- With more levels than the depth that is left, the nesting of subtrees ends: when the leaf
    -- generator always ends, the branch function gives generators that end whenever their children
    -- do, and the library does not branch at the depth limit.
    pub subtree_draw_total :
        (levels depth : ℕ)
        → depth ≤ limit
        → limit - depth < levels
        → (s : TestCase)
        → Ends (subtree_draw typ g.leaf g.branch recursion levels depth) s (λ _ _. Unit)
    unfolding subtree_draw
    subtree_draw_total zero depth le lt s = absurd (omega (arith, lt))
    subtree_draw_total (suc levels) depth le lt s = Ends-bind (start_span _) _ s _ (
        Ends-mono _ s _ _ (start_span-Total _ s) (λ _ t _.
          Ends-bind (ask_branch recursion depth) _ t _ (
            Ends-mono _ t _ _ (ask_branch_Ends limit recursion depth t limited) (λ b u h.
              bind-Total _ _
                (value-Total levels depth b (λ e.
                  subst (λ d. Total (subtree_draw typ g.leaf g.branch recursion levels d))
                    (sym (deeper_small depth (let lower = h e in omega arith)))
                    (let lower = h e in
                      subtree_draw_total levels (suc depth) (omega arith) (omega arith))))
                (λ v.
                  bind-Total (finish_root recursion depth) _ (finish_root-Total recursion depth)
                    (λ _.
                      bind-Total (stop_span false) _ (stop_span-Total false)
                        (λ _ x. Ends-pure v x _ tt)))
                u))))
