-- ===== src/Machine/Invariants.antt =====
-- stateful.go: what a run of a state machine that returns has checked.
use hegel_go.Prelude.{
  ℕ, zero, suc, ◌≡◌, refl, subst, Bool, true, false, Option, none, some, List, [], ◌∷◌, map,
  if◌then◌else◌,
}
use hegel_go.Prelude.Int.{ℤ, pos, negsuc, eq_ℤ}
use hegel_go.Errors.{Err}
use hegel_go.Flow.{Flow, Result, ok, err, returns}
use hegel_go.Flow.Exec.{pure, ◌>>=◌, ◌>>◌}
use hegel_go.Flow.Exec.Laws.{
  Gives, Gives-returns, Gives-pure, Gives-mono, Gives-if, Gives-bind, Gives-then,
}
use hegel_go.Flow.Fallible.{Fallible}
use hegel_go.Engine.{Engine, Handle}
use hegel_go.Native.Machine.{state_machine_done}
use hegel_go.Native.Machine as Calls
use hegel_go.TestCase.{TestCase, native, dereference, abort, must, or_abort, raise_panic}
use hegel_go.Stateful.{invoke_rule}
use hegel_go.Workgroup.{WorkerResult, Failed, sort, failed_of, to_worker_error}
use hegel_go.Workgroup.Order.{AllSucceeded, sort-AllSucceeded}
use hegel_go.Crew.{Rule, log, run_crew}
use hegel_go.Machine.{
  Machine, check, abort_on, check_all, check_sampled, settle, round_body, rounds, run_rounds,
  run_machine, make_workgroup, names, group_name, sort_by_worker, log_all_dropped,
}

module _ ⦃eng : Engine⦄ where
  -- Each of these ran, in this order, from the first state to the last, without an error; a rejection
  -- by Assume is none.
  pub data Checked : List Rule → TestCase → TestCase → Type 0 where
    all_checked : (s : TestCase) → Checked [] s s
    checked :
        (inv : Rule) (invs : List Rule) (rejected : Bool) (s t u : TestCase)
        → invoke_rule inv.fn s ≡ (returns (rejected, none), t)
        → Checked invs t u
        → Checked (inv ∷ invs) s u

  -- The same for those for which the library says so, the first of which is number i.
  pub data Sampled (machine : Handle) : ℕ → List Rule → TestCase → TestCase → Type 0 where
    all_sampled : (i : ℕ) (s : TestCase) → Sampled machine i [] s s
    skipped :
        (i : ℕ) (inv : Rule) (invs : List Rule) (s t u : TestCase)
        → native (λ h. Calls.should_check_invariant h machine (pos i)) s ≡ (returns (ok false), t)
        → Sampled machine (suc i) invs t u
        → Sampled machine i (inv ∷ invs) s u
    sampled :
        (i : ℕ) (inv : Rule) (invs : List Rule) (rejected : Bool) (s t u v : TestCase)
        → native (λ h. Calls.should_check_invariant h machine (pos i)) s ≡ (returns (ok true), t)
        → invoke_rule inv.fn t ≡ (returns (rejected, none), u)
        → Sampled machine (suc i) invs u v
        → Sampled machine i (inv ∷ invs) s v

  must-Gives :
      {A : Type 0} (m : Fallible TestCase A) (s : TestCase) (Q : A → TestCase → Type 0)
      → ((a : A) (t : TestCase) → m s ≡ (returns (ok a), t) → Q a t)
      → Gives (must m) s Q
  unfolding must or_abort abort
  must-Gives m s Q k = Gives-then m or_abort s Q (λ r t e. go r t e)
    where
      go : (r : Result _) (t : TestCase) → m s ≡ (returns r, t) → Gives (or_abort r) t Q
      go (ok a) t e = record { at = k a t e }
      go (err x) t e = record { at = tt }

  check-Gives :
      (inv : Rule) (s : TestCase)
      → Gives
          (check inv)
          s
          (λ _ t. (rejected : Bool) × (invoke_rule inv.fn s ≡ (returns (rejected, none), t)))
  unfolding check abort_on abort
  check-Gives inv s = Gives-then (invoke_rule inv.fn) abort_on s _ (λ r t e. go r t e)
    where
      go :
          (r : Bool × Option Err) (t : TestCase)
          → invoke_rule inv.fn s ≡ (returns r, t)
          → Gives
              (abort_on r)
              t
              (λ _ u. (rejected : Bool) × (invoke_rule inv.fn s ≡ (returns (rejected, none), u)))
      go (rejected, none) t e = record { at = (rejected, e) }
      go (rejected, some x) t e = record { at = tt }

  pub check_all-Checked :
      (invs : List Rule) (s : TestCase) → Gives (check_all invs) s (λ _. Checked invs s)
  unfolding check_all
  check_all-Checked [] s = Gives-pure tt s _ (all_checked s)
  check_all-Checked (inv ∷ invs) s = Gives-bind (check inv) _ s _ (
      Gives-mono (check inv) s _ _ (check-Gives inv s) (λ _ t (rejected, e).
        Gives-mono (check_all invs) t _ _ (check_all-Checked invs t)
          (λ _ u rest. checked inv invs rejected s t u e rest)))

  check_sampled-Sampled :
      (machine : Handle) (i : ℕ) (invs : List Rule) (s : TestCase)
      → Gives (check_sampled machine i invs) s (λ _. Sampled machine i invs s)
  unfolding check_sampled
  check_sampled-Sampled machine i [] s = Gives-pure tt s _ (all_sampled i s)
  check_sampled-Sampled machine i (inv ∷ invs) s = Gives-bind _ _ s _ (
      must-Gives (native (λ h. Calls.should_check_invariant h machine (pos i))) s _ (λ should t e.
        Gives-bind (if should then check inv else pure tt) _ t _
          (first (check_sampled-Sampled machine (suc i) invs) should t e)))
    where
      first :
          ((x : TestCase)
            → Gives (check_sampled machine (suc i) invs) x (λ _. Sampled machine (suc i) invs x))
          → (should : Bool) (t : TestCase)
          → native (λ h. Calls.should_check_invariant h machine (pos i)) s
            ≡ (returns (ok should), t)
          → Gives (if should then check inv else pure tt) t (λ _ u.
            Gives (check_sampled machine (suc i) invs) u (λ _. Sampled machine i (inv ∷ invs) s))
      first below true t e = Gives-mono (check inv) t _ _ (check-Gives inv t) (λ _ u (rejected, e').
          Gives-mono _ u _ _ (below u) (λ _ v rest. sampled i inv invs rejected s t u v e e' rest))
      first below false t e =
          Gives-pure tt t _
            (Gives-mono _ t _ _ (below t) (λ _ v rest. skipped i inv invs s t v e rest))

  settle-none : (fs : List Failed) (s : TestCase) → Gives (settle fs) s (λ _ t. (fs ≡ []) × (t ≡ s))
  unfolding settle abort
  settle-none [] s = Gives-pure tt s _ (refl, refl)
  settle-none (x ∷ xs) s =
      Gives-then (log_all_dropped (sort_by_worker xs)) (λ _. abort (to_worker_error x)) s _
        (λ _ t e. record { at = tt })

  -- The rounds of a run, from round n on: in each, every worker ended without an error, and then the
  -- sampled invariants held; the library has ended the last.
  pub data Rounds (m : Machine) (machine : Handle) (level : ℕ) (schedule : ℕ → List ℕ)
      : ℕ → TestCase → TestCase → Type 0 where
    finished :
        (n : ℕ) (group : ℤ) (s t : TestCase)
        → native (λ h. Calls.next_group h machine) s ≡ (returns (ok group), t)
        → eq_ℤ group state_machine_done ≡ true
        → Rounds m machine level schedule n s t
    clean_round :
        (n : ℕ) (group : ℤ) (results : List WorkerResult) (s t u v w x : TestCase)
        → native (λ h. Calls.next_group h machine) s ≡ (returns (ok group), t)
        → eq_ℤ group state_machine_done ≡ false
        → run_crew m.rules (some machine) (schedule n) level u ≡ (returns results, v)
        → AllSucceeded results
        → Sampled machine 0 m.invariants v w
        → Rounds m machine level schedule (suc n) w x
        → Rounds m machine level schedule n s x

  after_round :
      (m : Machine) (machine : Handle) (level : ℕ) (schedule : ℕ → List ℕ) (n : ℕ) (group : ℤ)
      (s t : TestCase)
      → native (λ h. Calls.next_group h machine) s ≡ (returns (ok group), t)
      → eq_ℤ group state_machine_done ≡ false
      → Gives (round_body m machine level (schedule n) n group) t (λ _ w.
        (x : TestCase)
        → Rounds m machine level schedule (suc n) w x
        → Rounds m machine level schedule n s x)
  unfolding round_body
  after_round m machine level schedule n group s t e more =
      Gives-then (group_name m.config group) _ t _ (λ name u₁ _. Gives-then (log _) _ u₁ _ (λ _ u _.
        Gives-then (run_crew m.rules (some machine) (schedule n) level) _ u _ (λ results v crew.
          Gives-bind (settle (sort (failed_of results))) _ v _ (
            Gives-mono _ v _ _ (settle-none (sort (failed_of results)) v)
              (λ _ v' (none_failed, same).
                Gives-mono (check_sampled machine 0 m.invariants) v' _ _
                  (check_sampled-Sampled machine 0 m.invariants v')
                  (λ _ w checks x rest.
                    clean_round n group results s t u v w x e more crew
                      (sort-AllSucceeded results none_failed)
                      (subst (λ y. Sampled machine 0 m.invariants y w) same checks) rest))))))

  rounds-Rounds :
      (m : Machine) (machine : Handle) (level : ℕ) (schedule : ℕ → List ℕ) (fuel n : ℕ)
      (s : TestCase)
      → Gives
          (rounds m (some machine) level schedule fuel n)
          s
          (λ _. Rounds m machine level schedule n s)
  unfolding rounds dereference
  rounds-Rounds m machine level schedule zero n s = record { at = tt }
  rounds-Rounds m machine level schedule (suc fuel) n s =
      let below = rounds-Rounds m machine level schedule fuel (suc n) in
      record {
        at =
            (Gives-bind (must (native (λ h. Calls.next_group h machine))) _ s _ (
              must-Gives (native (λ h. Calls.next_group h machine)) s _ (λ group t e.
                Gives-if (eq_ℤ group state_machine_done) _ _ t _
                  (λ stop. Gives-pure tt t _ (finished n group s t e stop))
                  (λ more. Gives-bind (round_body m machine level (schedule n) n group) _ t _ (
                    Gives-mono _ t _ _ (after_round m machine level schedule n group s t e more)
                      (λ _ w whole.
                        Gives-mono _ w _ _ (below w) (λ _ x rest. whole x rest))))))).at;
      }

  rounds_nil :
      (m : Machine) (level : ℕ) (schedule : ℕ → List ℕ) (fuel n : ℕ) (s : TestCase)
      (Q : Unit {0} → TestCase → Type 0)
      → Gives (rounds m none level schedule fuel n) s Q
  unfolding rounds dereference
  rounds_nil m level schedule zero n s Q = record { at = tt }
  rounds_nil m level schedule (suc fuel) n s Q = record { at = tt }

  abbrev pub register : Machine → TestCase → Flow (Result (Option Handle × ℤ)) × TestCase
  register m = native (λ h.
      Calls.new_state_machine h (names m.rules) (map pos m.config.rule_groups) (names m.invariants)
        m.config.invariant_always_check (pos 1) m.config.max_concurrency m.config.step_count)

  -- A run from s to s': the library registered the machine and drew the level; every invariant held;
  -- clean rounds followed, and then every invariant held again.
  pub data Completed (m : Machine) (schedule : ℕ → List ℕ) (s s' : TestCase) : Type 0 where
    completed :
        (machine : Handle) (level : ℕ) (t u v w x : TestCase)
        → register m s ≡ (returns (ok (some machine, pos level)), t)
        → Checked m.invariants u v
        → Rounds m machine level schedule 1 v w
        → log "Final invariant check." w ≡ (returns tt, x)
        → Checked m.invariants x s'
        → Completed m schedule s s'

  run_rounds-Completed :
      (m : Machine) (schedule : ℕ → List ℕ) (fuel : ℕ) (o : Option Handle) (level : ℕ)
      (s t u v : TestCase)
      → register m s ≡ (returns (ok (o, pos level)), t)
      → Checked m.invariants u v
      → Gives (run_rounds m o schedule fuel level) v (λ _. Completed m schedule s)
  unfolding run_rounds
  run_rounds-Completed m schedule fuel none level s t u v e first =
      Gives-bind (rounds m none level schedule fuel 1)
        (λ _. log "Final invariant check." >> check_all m.invariants) v _
        (rounds_nil m level schedule fuel 1 v _)
  run_rounds-Completed m schedule fuel (some machine) level s t u v e first =
      Gives-bind (rounds m (some machine) level schedule fuel 1)
        (λ _. log "Final invariant check." >> check_all m.invariants) v _
        (Gives-mono _ v _ _ (rounds-Rounds m machine level schedule fuel 1 v) (λ _ w clean.
          Gives-then (log "Final invariant check.") (λ _. check_all m.invariants) w _
            (λ _ x logged.
              Gives-mono _ x _ _ (check_all-Checked m.invariants x)
                (λ _ s' final. completed machine level t u v w x e first clean logged final))))

  last_part :
      (m : Machine) (schedule : ℕ → List ℕ) (fuel : ℕ) (o : Option Handle) (drawn : ℤ)
      (s t u v : TestCase)
      → register m s ≡ (returns (ok (o, drawn)), t)
      → Checked m.invariants u v
      → Gives
          (make_workgroup drawn >>= run_rounds m o schedule fuel)
          v
          (λ _. Completed m schedule s)
  unfolding make_workgroup raise_panic
  last_part m schedule fuel o (negsuc i) s t u v e first = record { at = tt }
  last_part m schedule fuel o (pos level) s t u v e first = record {
    at = (run_rounds-Completed m schedule fuel o level s t u v e first).at;
  }

  -- A run of a state machine that returns is complete: no invariant failed before the first round,
  -- no worker failed in any round, no invariant that the library sampled failed after it, and no
  -- invariant failed on the final state, after the library had ended the rounds.
  pub run_machine-Completed :
      (m : Machine) (schedule : ℕ → List ℕ) (fuel : ℕ) (s s' : TestCase)
      → run_machine m schedule fuel s ≡ (returns tt, s')
      → Completed m schedule s s'
  unfolding run_machine
  run_machine-Completed m schedule fuel s s' =
      Gives-returns _ s (λ _. Completed m schedule s) tt s'
        (Gives-bind (must (register m)) _ s _ (
          must-Gives (register m) s _ (λ (o, drawn) t e.
            Gives-then (if eq_ℤ m.config.max_concurrency (pos 1) then _ else _) _ t _ (λ _ t₁ _.
              Gives-then (log "Initial invariant check.") _ t₁ _ (λ _ u _.
                Gives-bind (check_all m.invariants) _ u _ (
                  Gives-mono _ u _ _ (check_all-Checked m.invariants u)
                    (λ _ v first. last_part m schedule fuel o drawn s t u v e first)))))))
