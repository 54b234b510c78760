-- ===== src/Session/Termination.antt =====
-- runner.go: the loop of runWithContext over the test cases ends. `cases` bounds how many test cases
-- the library still hands out.
use hegel_go.Prelude.{
  ℕ, ◌≤◌, ◌<◌, ◌≡◌, ◌≢◌, refl, arith, Bool, Option, none, some, List, [], if◌then◌else◌, String,
}
use hegel_go.Errors.{Err, ErrorCode}
use hegel_go.Flow.{Flow, Result, ok, err, returns, panics, exhausted}
use hegel_go.Flow.Fallible.{Fallible, ◌>>=◌}
use hegel_go.Flow.Fallible.Total.{Reached, Ends, Ends-pure, Ends-mono, Ends-bind}
use hegel_go.Flow.Loop.{Step, again, done, loop}
use hegel_go.Flow.Loop.Laws.{Lowers, loop_total}
use hegel_go.Engine.{Engine, Handle}
use hegel_go.Native.Run
use hegel_go.TestCase.{TestCase, TestBody, PanicPolicy, capture_user_panics}
use hegel_go.Runner.{run, new_test_case}
use hegel_go.Session.{Session, Captured, in_world, run_case, ran, case_round, next_round, run_round}

module _ ⦃eng : Engine⦄ (cases : eng.World → ℕ) where
  -- The library hands out boundedly many test cases.
  pub record CasesBounded : Type 0 where
    pub next_lowers :
        (r : Handle) (w : eng.World)
        → (eng.next_test_case r w).0 ≡ ErrorCode.ok
        → (eng.next_test_case r w).1 ≢ 0
        → cases (eng.next_test_case r w).2 < cases w
    pub capture_keeps : (tc : Handle) (w : eng.World) → cases (eng.should_capture tc w).2 ≤ cases w
    pub printer_keeps :
        (tc : Handle) (w : eng.World) → cases (eng.test_case_printer tc w).2 ≤ cases w

  -- Running the body on any test case ends, and takes no further test case.
  pub record BodyEnds (fn : TestBody) : Type 0 where
    pub ends : (c : TestCase) → (run fn c).0 ≢ exhausted
    pub keeps : (c : TestCase) → cases (run fn c).1.world ≤ cases c.world

  Reached-in_world :
      {A : Type 0} (r : Flow (Result A)) (s : Session) (w : eng.World) (Q : A → eng.World → Type 0)
      → Reached Q r w
      → Reached (λ a t. Q a t.world) r (record s { world = w })
  Reached-in_world (returns (ok a)) s w Q h = h
  Reached-in_world (returns (err e)) s w Q h = tt
  Reached-in_world (panics c pcs) s w Q h = tt
  Reached-in_world exhausted s w Q h = h

  in_world-Ends :
      {A : Type 0} (m : Fallible eng.World A) (s : Session) (Q : A → eng.World → Type 0)
      → Reached Q (m s.world).0 (m s.world).1
      → Ends (in_world m) s (λ a t. Q a t.world)
  unfolding in_world
  in_world-Ends m s Q h = record { at = Reached-in_world (m s.world).0 s (m s.world).1 Q h }

  module _ (bounded : CasesBounded) where
    abbrev Handed : eng.World → Option Handle → eng.World → Type 0
    Handed w none w' = Unit
    Handed w (some tc) w' = cases w' < cases w

    next_total :
        (r : Handle) (w : eng.World)
        → Reached (Handed w) (Run.next_test_case r w).0 (Run.next_test_case r w).1
    unfolding Run.next_test_case ◌>>=◌
    next_total r w = ground (arith, bounded.next_lowers r w)

    capture_total :
        (tc : Handle) (w : eng.World)
        → Reached
            (λ _ w'. cases w' ≤ cases w)
            (Run.should_capture tc w).0
            (Run.should_capture tc w).1
    unfolding Run.should_capture
    capture_total tc w = ground (arith, bounded.capture_keeps tc w)

    new_total :
        (tc : Handle) (out : Option (List String)) (policy : PanicPolicy) (w : eng.World)
        → Reached
            (λ _ w'. cases w' ≤ cases w)
            (new_test_case (some tc) out policy w).0
            (new_test_case (some tc) out policy w).1
    unfolding new_test_case ◌>>=◌ Run.test_case_printer
    new_total tc none policy w = omega arith
    new_total tc (some texts) policy w = ground (arith, bounded.printer_keeps tc w)

    module _ (fn : TestBody) (body : BodyEnds fn) where
      Reached-ran :
          (state : TestCase) (r : Flow (Bool × Option Err)) (t : Session) (n : ℕ)
          → r ≢ exhausted
          → cases t.world ≤ n
          → Reached (λ _ u. cases u.world ≤ n) (ran state r) t
      unfolding ran
      Reached-ran state (returns (failed, none)) t n ne h = h
      Reached-ran state (returns (failed, some e)) t n ne h = tt
      Reached-ran state (panics c pcs) t n ne h = tt
      Reached-ran state exhausted t n ne h = ne refl

      run_case-Ends :
          (state : TestCase) (s : Session)
          → Ends (run_case fn state) s (λ _ t. cases t.world ≤ cases s.world)
      unfolding run_case
      run_case-Ends state s =
          let at = record state { world = s.world } in
          record { at = Reached-ran (run fn at).1 (run fn at).0 _ _ (body.ends at) (body.keeps at) }

      -- A round that goes on has used up a test case.
      abbrev Fewer : ℕ → Step Captured Captured → Session → Type 0
      Fewer n (again a) t = Unit {0} × (cases t.world < n)
      Fewer n (done b) t = Unit

      case_round-Ends :
          (tc : Handle) (captured : Captured) (s : Session) (n : ℕ)
          → cases s.world < n
          → Ends (case_round fn tc captured) s (Fewer n)
      unfolding case_round
      case_round-Ends tc captured s n lt = Ends-bind (in_world (Run.should_capture tc)) _ s _ (
          Ends-mono _ s _ _ (in_world-Ends (Run.should_capture tc) s _ (capture_total tc s.world))
            (λ capture t le.
              Ends-bind
                (in_world
                  (new_test_case (some tc) (if capture then some [] else none) capture_user_panics))
                _ t _
                (Ends-mono _ t _ _
                  (in_world-Ends
                    (new_test_case (some tc) (if capture then some [] else none)
                      capture_user_panics)
                    t _ (new_total tc _ capture_user_panics t.world))
                  (λ state u le'. Ends-bind (run_case fn state) _ u _ (
                    Ends-mono _ u _ _ (run_case-Ends state u)
                      (λ result v le''. Ends-pure _ v _ (tt, omega (arith, lt, le, le', le''))))))))

      next_round-Ends :
          (captured : Captured) (o : Option Handle) (s t : Session)
          → Handed s.world o t.world
          → Ends (next_round fn captured o) t (Fewer (cases s.world))
      unfolding next_round
      next_round-Ends captured none s t h = Ends-pure _ t _ tt
      next_round-Ends captured (some tc) s t h = case_round-Ends tc captured t (cases s.world) h

      run_round-Ends :
          (r : Handle) (captured : Captured) (s : Session)
          → Ends (run_round fn r captured) s (Fewer (cases s.world))
      unfolding run_round
      run_round-Ends r captured s = Ends-bind (in_world (Run.next_test_case r)) _ s _ (
          Ends-mono _ s _ _
            (in_world-Ends (Run.next_test_case r) s (Handed s.world) (next_total r s.world))
            (λ o t h. next_round-Ends captured o s t h))

      round-Lowers :
          (n : ℕ) (r : Flow (Result (Step Captured Captured))) (t : Session)
          → Reached (Fewer n) r t
          → Lowers (λ _ _. Unit) (λ _ u. cases u.world) n r t
      round-Lowers n (returns (ok (again a))) t h = h
      round-Lowers n (returns (ok (done b))) t h = tt
      round-Lowers n (returns (err e)) t h = tt
      round-Lowers n (panics c pcs) t h = tt
      round-Lowers n exhausted t h = h

      -- When the library hands out boundedly many test cases, and running the body ends without taking
      -- a further one, more fuel than the bound lets the loop over the test cases end.
      pub cases_end :
          (r : Handle) (fuel : ℕ) (captured : Captured) (s : Session)
          → cases s.world < fuel
          → (loop (run_round fn r) fuel captured s).0 ≢ exhausted
      cases_end r fuel captured s lt =
          loop_total (λ _ _. Unit) (λ _ u. cases u.world) (run_round fn r)
            (λ a t _. round-Lowers (cases t.world) _ _ ((run_round-Ends r a t).at)) fuel captured s
            tt lt
