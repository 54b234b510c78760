-- ===== src/Recursive/Height.antt =====
-- recursive.go: how deep a recursively drawn value is.
use hegel_go.Prelude.{
  ℕ, zero, suc, ◌-◌, ◌^◌, ◌≤◌, ◌<◌, ◌≡◌, refl, sym, subst, arith, Bool, true, false, Option, none,
  some, if◌then◌else◌,
}
use hegel_go.Prelude.Int.{pos, to_uint64, is_negative}
use hegel_go.Flow.{returns, ok}
use hegel_go.Flow.Fallible.{from_exec, ◌>>=◌, ◌>>◌}
use hegel_go.Flow.Fallible.Laws.{Wp, Wp-pure, Wp-fail, Wp-if, Wp-bind, Wp-skip, Wp-mono, Wp-returns}
use hegel_go.Engine.{Engine, Handle}
use hegel_go.Native
use hegel_go.TestCase.{TestCase, native, dereference, start_span, stop_span}
use hegel_go.Generator.{Generator, draw}
use hegel_go.Recursive.{
  RecursiveGenerator, subtree_draw, subtree, deeper, ask_branch, take_leaf, finish_root,
  recursive_draw, scope,
}
use hegel_go.Recursive.Laws.{Wp-attempts}

pub deeper_small : (depth : ℕ) → suc depth < 2 ^ 64 → deeper depth ≡ suc depth
unfolding deeper
deeper_small depth h = omega arith

module _ ⦃eng : Engine⦄ where
  -- The library lets a scope that it opened with a depth limit branch only above that depth.
  pub record DepthLimited : Type 0 where
    pub no_branch :
        (tc h : Handle) (limit leaves depth : ℕ) (w w' : eng.World)
        → limit ≤ depth
        → (eng.recursion_branch h (eng.new_recursion tc limit leaves w).1 depth w').1 ≡ false

  -- Every value that a generator draws has at most this height.
  pub record HeightWithin {A : Type 0} (height : A → ℕ) (bound : ℕ) (g : Generator A) : Type 0 where
    pub at : (s : TestCase) → Wp (draw g) s (λ v _. height v ≤ bound)

  -- A branch is at most one higher than its children.
  pub record BranchAddsOne {A : Type 0} (height : A → ℕ) (branch : Generator A → Generator A)
      : Type 0 where
    pub at :
        (g : Generator A) (bound : ℕ)
        → HeightWithin height bound g
        → HeightWithin height (suc bound) (branch g)

  -- Of a scope: it branches above the limit only.
  abbrev pub Limited : ℕ → Option Handle → Type 0
  Limited limit none = Unit
  Limited limit (some r) =
      (h : Handle) (depth : ℕ) (w : eng.World)
      → limit ≤ depth
      → (eng.recursion_branch h r depth w).1 ≡ false

  draw-Wp :
      {A : Type 0} (g : Generator A) (P : A → Type 0)
      → ((s : TestCase) → Wp g.draw_value s (λ v _. P v))
      → (s : TestCase) → Wp (draw g) s (λ v _. P v)
  unfolding draw
  draw-Wp g P h s = Wp-skip (start_span _) _ s _ (λ _ t.
      Wp-bind g.draw_value _ t _
        (Wp-mono _ t _ _ (h t) (λ v u p. Wp-skip (stop_span false) _ u _ (λ _ x. Wp-pure v x _ p))))

  ask_branch-Wp :
      (limit : ℕ) (o : Option Handle) (depth : ℕ) (s : TestCase)
      → Limited limit o
      → Wp (ask_branch o depth) s (λ b _. b ≡ true → depth < limit)
  unfolding ask_branch dereference from_exec native Native.recursion_branch ◌>>=◌
  ask_branch-Wp limit none depth s h = record { at = tt }
  ask_branch-Wp limit (some r) depth s h = record { at = ground (arith, h s.tc depth s.world) }

  module _ {A : Type 0} (height : A → ℕ) (typ : ℕ) (g : RecursiveGenerator A)
      (leaf : HeightWithin height 0 g.leaf) (branch : BranchAddsOne height g.branch) (limit : ℕ)
      (fits : limit < 2 ^ 64) (recursion : Option Handle) (limited : Limited limit recursion) where
    child_of : ℕ → ℕ → Generator A
    child_of levels depth = record {
      typ = typ;
      draw_value = subtree_draw typ g.leaf g.branch recursion levels (deeper depth);
    }

    -- The value of a subtree, whose children satisfy the bound one level deeper.
    value-Wp :
        (levels depth : ℕ) (b : Bool) (s : TestCase)
        → (b ≡ true → depth < limit)
        → ((t : TestCase)
            → depth < limit
            → Wp
                (subtree_draw typ g.leaf g.branch recursion levels (suc depth))
                t
                (λ v _. height v ≤ limit - suc depth))
        → Wp
            (if b
              then draw (g.branch (child_of levels depth))
              else (do take_leaf recursion; draw g.leaf))
            s
            (λ v _. height v ≤ limit - depth)
    unfolding child_of
    value-Wp levels depth false s h below =
        Wp-skip (take_leaf recursion) _ s _
          (λ _ t. Wp-mono _ t _ _ (leaf.at t) (λ v u p. omega arith))
    value-Wp levels depth true s h below =
        let lt = h refl in
        Wp-mono _ s _ _
          ((branch.at (child_of levels depth) (limit - suc depth) (record {
            at =
                draw-Wp (child_of levels depth) (λ v. height v ≤ limit - suc depth)
                  (λ t.
                    subst
                      (λ d.
                        Wp (subtree_draw typ g.leaf g.branch recursion levels d) t
                          (λ v _. height v ≤ limit - suc depth))
                      (sym (deeper_small depth (omega arith))) (below t lt));
          })).at
            s)
          (λ v t p. omega arith)

    subtree_draw-Wp :
        (levels depth : ℕ) (s : TestCase)
        → Wp
            (subtree_draw typ g.leaf g.branch recursion levels depth)
            s
            (λ v _. height v ≤ limit - depth)
    unfolding subtree_draw child_of
    subtree_draw-Wp zero depth s = record { at = tt }
    subtree_draw-Wp (suc levels) depth s = Wp-skip (start_span _) _ s _ (λ _ t.
        Wp-bind (ask_branch recursion depth) _ t _ (
          Wp-mono _ t _ _ (ask_branch-Wp limit recursion depth t limited) (λ b u h.
            Wp-bind (if b then _ else _) _ u _ (
              Wp-mono _ u _ _
                (value-Wp levels depth b u h (λ x lt. subtree_draw-Wp levels (suc depth) x))
                (λ v x p.
                  Wp-skip (finish_root recursion depth) _ x _
                    (λ _ y. Wp-skip (stop_span false) _ y _ (λ _ z. Wp-pure v z _ p)))))))

  -- The scope that a successful NewRecursion gives is the one that the library has opened.
  new_recursion-Wp :
      (limit leaves : ℕ) (s : TestCase)
      → Wp
          (native (λ h. Native.new_recursion h limit leaves))
          s
          (λ o _. (r : Handle) → o ≡ some r → r ≡ (eng.new_recursion s.tc limit leaves s.world).1)
  unfolding native Native.new_recursion ◌>>=◌
  new_recursion-Wp limit leaves s = record { at = ground arith }

  new_recursion-Limited :
      (limit leaves : ℕ) (s : TestCase)
      → DepthLimited
      → Wp (native (λ h. Native.new_recursion h limit leaves)) s (λ o _. Limited limit o)
  new_recursion-Limited limit leaves s limited =
      Wp-mono _ s _ _ (new_recursion-Wp limit leaves s) (λ o t. scope_of o)
    where
      scope_of :
          (o : Option Handle)
          → ((r : Handle) → o ≡ some r → r ≡ (eng.new_recursion s.tc limit leaves s.world).1)
          → Limited limit o
      scope_of none e = tt
      scope_of (some r) e = λ h depth w le.
          subst (λ x. (eng.recursion_branch h x depth w).1 ≡ false) (sym (e r refl))
            (limited.no_branch s.tc h limit leaves depth s.world w le)

  -- Let leaves have height 0, and let a branch be at most one higher than its children. Then no value
  -- that a recursive generator draws is higher than its MaxDepth, however many attempts were
  -- discarded, if the library does not branch at the depth limit of the scope.
  pub recursive_draw-height :
      {A : Type 0} (height : A → ℕ) (typ levels rounds limit : ℕ) (g : RecursiveGenerator A)
      (s s' : TestCase) (v : A)
      → DepthLimited
      → HeightWithin height 0 g.leaf
      → BranchAddsOne height g.branch
      → g.max_depth ≡ pos limit
      → limit < 2 ^ 63
      → recursive_draw typ levels rounds g s ≡ (returns (ok v), s')
      → height v ≤ limit
  unfolding recursive_draw subtree
  recursive_draw-height height typ levels rounds limit g s s' v limited leaf branch is_limit fits =
      Wp-returns _ s (λ x _. height x ≤ limit) v s'
        (Wp-if (is_negative g.max_depth) _ _ s _ (λ _. Wp-fail _ s _)
          (λ _.
            Wp-if (is_negative g.max_leaves) _ _ s _ (λ _. Wp-fail _ s _)
              (λ _.
                Wp-bind
                  (native
                    (λ h. Native.new_recursion h (to_uint64 g.max_depth) (to_uint64 g.max_leaves)))
                  _ s _
                  (Wp-mono _ s _ _
                    (new_recursion-Limited (to_uint64 g.max_depth) (to_uint64 g.max_leaves) s
                      limited)
                    (λ o t bounded.
                      Wp-mono _ t _ _
                        (Wp-attempts o (subtree typ g.leaf g.branch o levels 0) t
                          (λ x _. height x ≤ limit)
                          (λ u _.
                            draw-Wp (subtree typ g.leaf g.branch o levels 0) _
                              (λ x.
                                Wp-mono _ x _ _
                                  (subtree_draw-Wp height typ g leaf branch limit (omega arith) o
                                    (subst (λ d. Limited d o) same bounded) levels 0 x)
                                  (λ y z p. omega arith))
                              (scope u))
                          rounds)
                        (λ x u p. p.0))))))
    where
      same : to_uint64 g.max_depth ≡ limit
      same = rw is_limit (omega arith)
