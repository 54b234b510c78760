-- ===== src/Tests/Trees.antt =====
-- Recursive generators at concrete trees.
use hegel_go.Prelude.{ℕ, suc, ◌≤◌, ◌≡◌, refl, arith, true, false, some, [], ◌∷◌}
use hegel_go.Prelude.Int.{pos}
use hegel_go.Flow.{returns, ok}
use hegel_go.Flow.Fallible.{pure, from_exec, ◌>>=◌}
use hegel_go.Flow.Fallible.Laws.{Wp-bind, Wp-skip, Wp-mono, Wp-pure}
use hegel_go.Flow.Fallible.Total.{Ends, Ends-pure}
use hegel_go.Flow.Loop.{loop}
use hegel_go.Native
use hegel_go.TestCase.{TestCase, native, dereference, must, or_abort, invoke, start_span, stop_span}
use hegel_go.Generator.{Generator, draw, mapped, just}
use hegel_go.Recursive.{
  RecursiveGenerator, recursive_draw, subtree_draw, take_leaf, finish_root, ask_branch, deeper,
  attempted, scope, attempt, after_attempt, attempt_round, subtree,
}
use hegel_go.Recursive.Height.{DepthLimited, HeightWithin, recursive_draw-height}
use hegel_go.Recursive.Attempts.{recursive_draw-LastAttempt, Drawn}
use hegel_go.Recursive.Nesting.{subtree_draw_total, draw-Total, bind-Total}
use hegel_go.Tests.{toy, tape, case_on}

-- Numbers that count the branches above them.
abbrev counter : RecursiveGenerator ⦃eng = toy⦄ ℕ
counter = record {
  leaf = just ⦃eng = toy⦄ 2 0;
  branch = λ child. mapped ⦃eng = toy⦄ 3 child (λ n. suc n);
  max_depth = pos 2;
  max_leaves = pos 5;
}

abbrev start : TestCase ⦃eng = toy⦄
start = case_on (tape (true ∷ true ∷ []) [])

counter_draws :
    recursive_draw ⦃eng = toy⦄ 1 3 1 counter start ≡ (returns (ok 2), case_on (tape [] []))
unfolding recursive_draw ◌>>=◌ native Native.new_recursion loop attempt_round subtree attempt must
    or_abort invoke scope draw subtree_draw start_span Native.start_span ask_branch from_exec
    dereference Native.recursion_branch mapped deeper take_leaf Native.recursion_leaf just
    finish_root Native.recursion_finish stop_span Native.stop_span attempted after_attempt
counter_draws = refl

toy-DepthLimited : DepthLimited ⦃eng = toy⦄
toy-DepthLimited = record { no_branch = λ tc h limit leaves depth w w' le. ground arith }

mapped_within :
    (child : Generator ⦃eng = toy⦄ ℕ) (bound : ℕ)
    → HeightWithin ⦃eng = toy⦄ (λ n. n) bound child
    → HeightWithin ⦃eng = toy⦄ (λ n. n) (suc bound) (mapped ⦃eng = toy⦄ 3 child (λ n. suc n))
unfolding draw mapped
mapped_within child bound h = record {
  at = λ s. Wp-skip (start_span _) _ s _ (λ _ t.
      Wp-bind (mapped 3 child (λ n. suc n)).draw_value _ t _ (
        Wp-bind (draw child) _ t _ (
          Wp-mono _ t _ _ (h.at t) (λ v u p.
            Wp-pure _ u _
              (Wp-skip (stop_span false) _ u _ (λ _ x. Wp-pure _ x _ (omega arith)))))));
}

leaf_within : HeightWithin ⦃eng = toy⦄ (λ n. n) 0 counter.leaf
unfolding draw just
leaf_within = record {
  at = λ s. Wp-skip (start_span _) _ s _ (λ _ t.
      Wp-bind (pure 0) _ t _
        (Wp-pure 0 t _ (Wp-skip (stop_span false) _ t _ (λ _ u. Wp-pure 0 u _ (omega arith)))));
}

recursive_draw-height_example : 2 ≤ 2
recursive_draw-height_example =
    recursive_draw-height (λ n. n) 1 3 1 2 counter start (case_on (tape [] [])) 2 toy-DepthLimited
      leaf_within (record { at = mapped_within }) refl (omega arith) counter_draws

recursive_draw-LastAttempt_example : Drawn ⦃eng = toy⦄ 1 3 counter start 2 (case_on (tape [] []))
recursive_draw-LastAttempt_example =
    recursive_draw-LastAttempt 1 3 1 counter start (case_on (tape [] [])) 2 counter_draws

leaf_ends : (s : TestCase ⦃eng = toy⦄) → Ends (draw counter.leaf) s (λ _ _. Unit)
unfolding just
leaf_ends = draw-Total counter.leaf (λ s. Ends-pure 0 s _ tt)

branch_ends :
    (child : Generator ⦃eng = toy⦄ ℕ)
    → ((s : TestCase ⦃eng = toy⦄) → Ends (draw child) s (λ _ _. Unit))
    → (s : TestCase ⦃eng = toy⦄) → Ends (draw (counter.branch child)) s (λ _ _. Unit)
unfolding mapped
branch_ends child h =
    draw-Total (counter.branch child) (bind-Total (draw child) _ h (λ v s. Ends-pure _ s _ tt))

subtree_draw_total_example :
    Ends (subtree_draw ⦃eng = toy⦄ 1 counter.leaf counter.branch (some 3) 3 0) start (λ _ _. Unit)
subtree_draw_total_example =
    subtree_draw_total 1 counter leaf_ends branch_ends 2 (omega arith) (some 3)
      (λ h depth w le. ground arith) 3 0 (omega arith) (omega arith) start
