-- ===== src/Recursive/Attempts.antt =====
-- recursive.go: what a recursive draw returns is what its last attempt has drawn.
use hegel_go.Prelude.{ℕ, ◌≡◌, refl, sym, subst, false, Option}
use hegel_go.Prelude.Int.{is_negative, to_uint64}
use hegel_go.Flow.{returns, ok}
use hegel_go.Flow.Fallible.Laws.{Wp, Wp-fail, Wp-if, Wp-bind, Wp-mono, Wp-self, Wp-returns}
use hegel_go.Flow.Loop.{loop}
use hegel_go.Engine.{Engine, Handle}
use hegel_go.Native
use hegel_go.TestCase.{TestCase, native}
use hegel_go.Generator.{Generator, draw}
use hegel_go.Generator.Spans.{OnlyWorld, OnlyWorld-trans}
use hegel_go.Recursive.{RecursiveGenerator, subtree, attempt_round, recursive_draw, scope}
use hegel_go.Recursive.Laws.{Wp-attempts}

module _ ⦃eng : Engine⦄ where
  -- One draw of the root, in a scope of its own and from some state of the library, gave v and left
  -- the library in the state w'.
  pub data LastAttempt {A : Type 0} (root : Generator A) (s : TestCase) (v : A) (w' : eng.World)
      : Type 0 where
    last_attempt :
        (w : eng.World)
        → (draw root (scope (record s { world = w }))).0 ≡ returns (ok v)
        → (draw root (scope (record s { world = w }))).1.world ≡ w'
        → LastAttempt root s v w'

  each-LastAttempt :
      {A : Type 0} (root : Generator A) (s t : TestCase)
      → OnlyWorld s t
      → Wp (draw root) (scope t) (λ v u. LastAttempt root s v u.world)
  each-LastAttempt root s t same =
      subst (λ x. Wp (draw root) (scope x) (λ v u. LastAttempt root s v u.world)) (sym same)
        (Wp-self (draw root) (scope (record s { world = t.world })) _
          (λ v e. last_attempt t.world e refl))

  attempts-LastAttempt :
      {A : Type 0} (rounds : ℕ) (o : Option Handle) (root : Generator A) (s t : TestCase)
      → OnlyWorld s t
      → Wp
          (loop (attempt_round o root) rounds tt)
          t
          (λ v u. LastAttempt root s v u.world × OnlyWorld s u)
  attempts-LastAttempt rounds o root s t same =
      Wp-mono _ t _ _
        (Wp-attempts o root t (LastAttempt root s)
          (λ u p. each-LastAttempt root s u (OnlyWorld-trans s t u same p)) rounds)
        (λ v u p. (p.0, OnlyWorld-trans s t u same p.1))

  -- How a recursive draw that returns v ends: the limits were accepted, the library has opened the
  -- scope `o`, and an attempt in it gave v.
  abbrev pub Drawn : {A : Type 0} → ℕ → ℕ → RecursiveGenerator A → TestCase → A → TestCase → Type 0
  Drawn typ levels g s v s' =
      (is_negative g.max_depth ≡ false)
      × (is_negative g.max_leaves ≡ false)
      × (o : Option Handle) × ((Native.new_recursion s.tc (to_uint64 g.max_depth)
            (to_uint64 g.max_leaves) s.world).0
          ≡ returns (ok o))
      × LastAttempt (subtree typ g.leaf g.branch o levels 0) s v s'.world
      × OnlyWorld s s'

  -- A recursive draw that returns a value has limits that are not negative, returns what one draw of
  -- the root gave in a scope of its own, and leaves the test case as it was but for the library's
  -- state, which is the one after that draw: the discarded attempts leave no depth behind.
  pub recursive_draw-LastAttempt :
      {A : Type 0} (typ levels rounds : ℕ) (g : RecursiveGenerator A) (s s' : TestCase) (v : A)
      → recursive_draw typ levels rounds g s ≡ (returns (ok v), s')
      → Drawn typ levels g s v s'
  unfolding recursive_draw native
  recursive_draw-LastAttempt typ levels rounds g s s' v =
      Wp-returns _ s (Drawn typ levels g s) v s' (
        Wp-if (is_negative g.max_depth) _ _ s _ (λ _. Wp-fail _ s _)
          (λ depth.
            Wp-if (is_negative g.max_leaves) _ _ s _ (λ _. Wp-fail _ s _)
              (λ leaves.
                Wp-bind
                  (native
                    (λ h. Native.new_recursion h (to_uint64 g.max_depth) (to_uint64 g.max_leaves)))
                  _ s _
                  (Wp-self _ s _ (λ o e.
                    Wp-mono _ _ _ _
                      (attempts-LastAttempt rounds o (subtree typ g.leaf g.branch o levels 0) s _
                        refl)
                      (λ x u p. (depth, leaves, o, e, p.0, p.1)))))))
