-- ===== src/Recursive.antt =====
-- recursive.go: recursive generators. `RecursiveGenerator.draw` opens a recursion scope and draws
-- the root until an attempt ends without a retry error; `subtreeGenerator.draw` asks the library at
-- each depth whether to branch. `levels` bounds the nesting of subtrees, `rounds` the attempts.
pub mod Laws
pub mod Height
pub mod Nesting
pub mod Attempts
use hegel_go.Prelude.{
  ℕ, zero, suc, ◌%◌, ◌^◌, Bool, true, false, ◌||◌, Option, none, some, if◌then◌else◌,
}
use hegel_go.Prelude.Int.{ℤ, pos, negsuc, is_negative, to_uint64}
use hegel_go.Errors.{Err, Cause, ErrorCode, is_code, max_depth_negative, max_leaves_negative}
use hegel_go.Flow.{Flow, Result, ok, err, returns, panics, exhausted}
use hegel_go.Flow.Exec.{Exec}
use hegel_go.Flow.Exec
use hegel_go.Flow.Fallible.{Fallible, pure, fail, from_exec, ◌>>=◌, ◌>>◌}
use hegel_go.Flow.Loop.{Step, again, done, loop, out_of_fuel}
use hegel_go.Engine.{Engine, Handle}
use hegel_go.Native
use hegel_go.TestCase.{TestCase, native, dereference, must, invoke, start_span, stop_span}
use hegel_go.Generator.{Generator, draw}

-- The two errors that ask for another attempt.
pub data RetryKind : Type 0 where
  leaf_budget finish : RetryKind

-- errors.AsType[*leafBudgetRetry] and errors.AsType[*finishRetry]
unfoldable mutual
  pub is_retry : RetryKind → Err → Bool
  is_retry k (Err.native op c msg) = false
  is_retry k (Err.code c) = false
  is_retry k (Err.message m) = false
  is_retry k (Err.invocation kind status cause pcs) = cause_is_retry k cause
  is_retry leaf_budget (Err.leaf_budget_retry e) = true
  is_retry finish (Err.leaf_budget_retry e) = false
  is_retry leaf_budget (Err.finish_retry e) = false
  is_retry finish (Err.finish_retry e) = true
  is_retry k (Err.worker_error w e) = is_retry k e
  is_retry k (Err.join a b) = is_retry k a || is_retry k b
  is_retry k (Err.prop_test_failed m) = false

  pub cause_is_retry : RetryKind → Cause → Bool
  cause_is_retry k (Cause.error_value e) = is_retry k e
  cause_is_retry k (Cause.value m) = false

-- `depth++` of a uint64
unfoldable pub deeper : ℕ → ℕ
deeper depth = suc depth % 2 ^ 64

module _ ⦃eng : Engine⦄ where
  pub record RecursiveGenerator (A : Type 0) : Type 0 where
    pub leaf : Generator A
    pub branch : Generator A → Generator A
    pub max_depth : ℤ
    pub max_leaves : ℤ

  -- Recursive
  unfoldable pub recursive :
      {A : Type 0} → Generator A → (Generator A → Generator A) → RecursiveGenerator A
  recursive leaf branch = record {
    leaf = leaf;
    branch = branch;
    max_depth = pos 32;
    max_leaves = pos 100;
  }

  unfoldable pub with_max_depth : {A : Type 0} → ℤ → RecursiveGenerator A → RecursiveGenerator A
  with_max_depth n g = record g { max_depth = n }

  unfoldable pub with_max_leaves : {A : Type 0} → ℤ → RecursiveGenerator A → RecursiveGenerator A
  with_max_leaves n g = record g { max_leaves = n }

  -- `if errors.Is(err, E_RETRY)`: the error that asks for another attempt.
  mark_retry : (Err → Err) → Err → Err
  unfolding is_code
  mark_retry retry e = if is_code ErrorCode.retry e then retry e else e

  retry_or_fail {ℓ} : {A : Type ℓ} → (Err → Err) → Result A → Fallible TestCase A
  unfolding mark_retry
  retry_or_fail retry (ok a) = pure a
  retry_or_fail retry (err e) = fail (mark_retry retry e)

  -- `recursion.Leaf` with its error marked, and `recursion.Finish` likewise.
  unfoldable pub take_leaf : Option Handle → Fallible TestCase (Unit {0})
  unfolding retry_or_fail
  take_leaf recursion = do
    r ← from_exec (dereference recursion)
    Exec.◌>>=◌ (native (Native.recursion_leaf r)) (retry_or_fail Err.leaf_budget_retry)

  unfoldable pub finish_root : Option Handle → ℕ → Fallible TestCase (Unit {0})
  unfolding retry_or_fail
  finish_root recursion zero = do
    r ← from_exec (dereference recursion)
    Exec.◌>>=◌ (native (Native.recursion_finish r)) (retry_or_fail Err.finish_retry)
  finish_root recursion (suc depth) = pure tt

  unfoldable pub ask_branch : Option Handle → ℕ → Fallible TestCase Bool
  ask_branch recursion depth = do
    r ← from_exec (dereference recursion)
    native (λ h. Native.recursion_branch r h depth)

  module _ {A : Type 0} (typ : ℕ) (leaf : Generator A) (branch : Generator A → Generator A)
      (recursion : Option Handle) where
    -- subtreeGenerator.draw
    unfoldable pub subtree_draw : ℕ → ℕ → Fallible TestCase A
    unfolding take_leaf finish_root ask_branch deeper
    subtree_draw zero depth = out_of_fuel
    subtree_draw (suc levels) depth =
        let child : Generator A = record {
          typ = typ;
          draw_value = subtree_draw levels (deeper depth);
        } in
        (do
          start_span (eng.label_of_name "recursive")
          is_branch ← ask_branch recursion depth
          v ← if is_branch then draw (branch child) else (do take_leaf recursion; draw leaf)
          finish_root recursion depth
          stop_span false
          pure v)

    unfoldable pub subtree : ℕ → ℕ → Generator A
    unfolding subtree_draw
    subtree levels depth = record { typ = typ; draw_value = subtree_draw levels depth }

  -- What the variable `value` holds after an invoke of a callback that ended as `r`.
  unfoldable pub attempted {ℓ} : {A : Type ℓ} → Flow A → Flow (Option Err) → Flow (Result A)
  attempted (returns a) (returns none) = returns (ok a)
  attempted (panics c pcs) (returns none) = panics c pcs
  attempted exhausted (returns none) = exhausted
  attempted r (returns (some e)) = returns (err e)
  attempted r (panics c pcs) = panics c pcs
  attempted r exhausted = exhausted

  unfoldable pub scope : TestCase → TestCase
  scope s = record s { scoped = true; aborted = false }

  -- One attempt: `draw` in the scope of an invoke, an error of which aborts.
  unfoldable pub attempt : {A : Type 0} → Generator A → Fallible TestCase A
  unfolding attempted scope
  attempt g s =
      let body = must (draw g) in
      let (e, s') = invoke (Exec.◌>>=◌ body (λ _. Exec.pure tt)) s in
      (attempted (body (scope s)).0 e, s')

  -- What the loop does after an attempt.
  unfoldable pub after_attempt :
      {A : Type 0} → Option Handle → Result A → Fallible TestCase (Step (Unit {0}) A)
  unfolding is_retry
  after_attempt recursion (ok v) = pure (done v)
  after_attempt recursion (err e) =
      if is_retry leaf_budget e
      then (do
        r ← from_exec (dereference recursion)
        native (Native.recursion_retry r)
        pure (again tt))
      else if is_retry finish e
      then pure (again tt)
      else fail e

  unfoldable pub attempt_round :
      {A : Type 0} → Option Handle → Generator A → Unit {0} → Fallible TestCase (Step (Unit {0}) A)
  unfolding attempt after_attempt
  attempt_round recursion root _ = Exec.◌>>=◌ (attempt root) (after_attempt recursion)

  -- RecursiveGenerator.draw
  unfoldable pub recursive_draw :
      {A : Type 0} → ℕ → ℕ → ℕ → RecursiveGenerator A → Fallible TestCase A
  unfolding subtree attempt_round
  recursive_draw typ levels rounds g =
      if is_negative g.max_depth
      then fail (Err.message (max_depth_negative g.max_depth))
      else if is_negative g.max_leaves
      then fail (Err.message (max_leaves_negative g.max_leaves))
      else (do
        recursion ←
            native (λ h. Native.new_recursion h (to_uint64 g.max_depth) (to_uint64 g.max_leaves))
        loop (attempt_round recursion (subtree typ g.leaf g.branch recursion levels 0)) rounds tt)
