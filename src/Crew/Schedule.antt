-- ===== src/Crew/Schedule.antt =====
-- stateful.go: the workers of a round end under every schedule that is long enough.
use hegel_go.Prelude.{
  ℕ, zero, suc, ◌+◌, ◌%◌, ◌≤◌, ◌<◌, ◌≡◌, refl, sym, subst, ◌∙◌, ◌⊎◌, inl, inr, arith, Bool, true,
  false, Option, none, some, List, [], ◌∷◌, length, get_elem?, String,
}
use hegel_go.Prelude.Int.{ℤ, pos, eq_ℤ}
use hegel_go.Errors.{Err, ErrorCode, value, index_out_of_range}
use hegel_go.Flow.{Flow, Result, ok, err, returns, panics, exhausted}
use hegel_go.Flow.Exec.{pure, ◌>>=◌}
use hegel_go.Flow.Exec.Total.{Lands, Landed, Lands-pure, Lands-mono, Lands-if, Lands-bind}
use hegel_go.Engine.{Engine, Handle}
use hegel_go.Native
use hegel_go.Native.Machine.{state_machine_done}
use hegel_go.Native.Machine as Calls
use hegel_go.TestCase.{TestCase, native, dereference, must, or_abort, note, raise_panic}
use hegel_go.Stateful.{invoke_rule}
use hegel_go.Crew.Reports.{reports, reports-append, working, working-remove_at}
use hegel_go.Crew.{
  Rule, element, log, Turn, rejection, after_rule, run_rule, chosen, worker_turn, Live, Crew,
  remove_at, after_turn, turn_end, give_turn, take_turn, on_worker, work,
}

module _ {ℓ} {A : Type ℓ} where
  length-remove_at :
      (xs : List A) (p : ℕ) (x : A)
      → get_elem? xs p ≡ some x
      → suc (length (remove_at p xs)) ≡ length xs
  unfolding remove_at
  length-remove_at [] p x e = absurd (cc)
  length-remove_at (y ∷ ys) zero x e = omega arith
  length-remove_at (y ∷ ys) (suc p) x e = omega (arith, length-remove_at ys p x e)

  elem_below : (xs : List A) (p : ℕ) → p < length xs → (x : A) × (get_elem? xs p ≡ some x)
  elem_below [] p lt = absurd (omega (arith, lt))
  elem_below (y ∷ ys) zero lt = (y, refl)
  elem_below (y ∷ ys) (suc p) lt = elem_below ys p (omega (arith, lt))

  nonempty : (xs : List A) → (xs ≡ []) ⊎ (0 < length xs)
  nonempty [] = inl refl
  nonempty (x ∷ xs) = inr (omega arith)

  length_zero : (xs : List A) → length xs ≤ 0 → xs ≡ []
  length_zero [] le = refl
  length_zero (x ∷ xs) le = absurd (omega (arith, le))

module _ ⦃eng : Engine⦄ where
  -- No worker of the crew is left, and each has reported once for each place that it had in the crew.
  abbrev pub Ended : Crew → Crew → Type 0
  Ended crew crew' =
      (crew'.live ≡ [])
      × ((w : ℕ) → reports w crew'.arrived ≡ working w crew.live + reports w crew.arrived)

module _ ⦃eng : Engine⦄ (steps : eng.World → ℕ) (rules : List Rule) where
  -- The library hands out boundedly many rules, each of which exists, and takes every note.
  pub record StepsBounded : Type 0 where
    pub rule_lowers :
        (tc machine : Handle) (i : ℤ) (w : eng.World)
        → eq_ℤ (eng.next_rule tc machine i w).1 state_machine_done ≡ false
        → steps (eng.next_rule tc machine i w).2 < steps w
    pub rule_keeps :
        (tc machine : Handle) (i : ℤ) (w : eng.World)
        → steps (eng.next_rule tc machine i w).2 ≤ steps w
    pub rule_exists :
        (tc machine : Handle) (i : ℤ) (w : eng.World)
        → eq_ℤ (eng.next_rule tc machine i w).1 state_machine_done ≡ false
        → (j : ℕ) × ((eng.next_rule tc machine i w).1 ≡ pos j)
          × (rule : Rule) × (get_elem? rules j ≡ some rule)
    pub rejected_keeps :
        (tc machine : Handle) (i : ℤ) (w : eng.World)
        → steps (eng.rule_rejected tc machine i w).1 ≤ steps w
    pub note_accepted :
        (tc : Handle) (text : String) (w : eng.World) → (eng.note tc text w).0 ≡ ErrorCode.ok
    pub note_keeps :
        (tc : Handle) (text : String) (w : eng.World) → steps (eng.note tc text w).1 ≤ steps w

  -- A rule returns to its worker from every state, and takes no further rule.
  pub record RulesEnd : Type 0 where
    pub ends :
        (j : ℕ) (rule : Rule) (s : TestCase)
        → get_elem? rules j ≡ some rule
        → Lands (invoke_rule rule.fn) s (λ _ t. steps t.world ≤ steps s.world)

  -- A worker that goes on has used up a step.
  abbrev Progress : ℕ → Turn → TestCase → Type 0
  Progress n none t = steps t.world < n
  Progress n (some e) t = steps t.world ≤ n

  module _ (bounded : StepsBounded) (ends : RulesEnd) where
    log-Lands :
        (text : String) (s : TestCase) → Lands (log text) s (λ _ t. steps t.world ≤ steps s.world)
    unfolding log note must or_abort native Native.note
    log-Lands text s = record {
      at =
          ground
            (arith, bounded.note_accepted s.tc text s.world, bounded.note_keeps s.tc text s.world);
    }

    report-Lands :
        (machine : Handle) (i : ℕ) (s : TestCase)
        → Lands
            (native (λ h. Calls.rule_rejected h machine (pos i)))
            s
            (λ _ t. steps t.world ≤ steps s.world)
    unfolding native Calls.rule_rejected
    report-Lands machine i s = record {
      at = ground (arith, bounded.rejected_keeps s.tc machine (pos i) s.world);
    }

    rejection-Lands :
        (n : ℕ) (r : Result (Unit {0})) (s : TestCase)
        → steps s.world < n
        → Lands (rejection r) s (Progress n)
    unfolding rejection
    rejection-Lands n (err e) s lt = Lands-pure _ s _ (omega arith)
    rejection-Lands n (ok _) s lt =
        Lands-bind (log _) _ s _
          (Lands-mono _ s _ _ (log-Lands _ s) (λ _ t le. Lands-pure none t _ (omega arith)))

    after_rule-Lands :
        (machine : Handle) (i n : ℕ) (outcome : Bool × Option Err) (s : TestCase)
        → steps s.world < n
        → Lands (after_rule machine i outcome) s (Progress n)
    unfolding after_rule
    after_rule-Lands machine i n (rejected, some e) s lt = Lands-pure _ s _ (omega arith)
    after_rule-Lands machine i n (false, none) s lt = Lands-pure none s _ lt
    after_rule-Lands machine i n (true, none) s lt = Lands-bind _ rejection s _ (
        Lands-mono _ s _ _ (report-Lands machine i s)
          (λ r t le. rejection-Lands n r t (omega arith)))

    run_rule-Lands :
        (machine : Handle) (i n j : ℕ) (rule : Rule) (s : TestCase)
        → get_elem? rules j ≡ some rule
        → steps s.world < n
        → Lands (run_rule machine i rule) s (Progress n)
    unfolding run_rule
    run_rule-Lands machine i n j rule s is_rule lt = Lands-bind (log _) _ s _ (
        Lands-mono _ s _ _ (log-Lands _ s) (λ _ t le. Lands-bind (invoke_rule rule.fn) _ t _ (
          Lands-mono _ t _ _ (ends.ends j rule t is_rule)
            (λ outcome u le'. after_rule-Lands machine i n outcome u (omega arith)))))

    -- What NextRule answers is what the library answered.
    next-Lands :
        (machine : Handle) (i : ℕ) (s : TestCase)
        → Lands (native (λ h. Calls.next_rule h machine (pos i))) s (λ r t.
          (t.world ≡ (eng.next_rule s.tc machine (pos i) s.world).2)
          × ((idx : ℤ) → r ≡ ok idx → idx ≡ (eng.next_rule s.tc machine (pos i) s.world).1))
    unfolding native Calls.next_rule
    next-Lands machine i s = record { at = ground arith }

    found-Lands :
        (machine : Handle) (i n j : ℕ) (rule : Rule) (s : TestCase)
        → get_elem? rules j ≡ some rule
        → steps s.world < n
        → Lands (element rules (pos j) >>= run_rule machine i) s (Progress n)
    unfolding element
    found-Lands machine i n j rule s is_rule lt =
        subst
          (λ o.
            Lands
              ((elim o [ none ↦ raise_panic (value index_out_of_range) | some x ↦ pure x ])
                >>= run_rule machine i)
              s (Progress n))
          (sym is_rule)
          (Lands-bind (pure rule) (run_rule machine i) s _
            (Lands-pure rule s _ (run_rule-Lands machine i n j rule s is_rule lt)))

    chosen-Lands :
        (machine : Handle) (i : ℕ) (s t : TestCase) (r : Result ℤ)
        → (t.world ≡ (eng.next_rule s.tc machine (pos i) s.world).2)
        → ((idx : ℤ) → r ≡ ok idx → idx ≡ (eng.next_rule s.tc machine (pos i) s.world).1)
        → Lands (chosen rules machine i r) t (Progress (steps s.world))
    unfolding chosen
    chosen-Lands machine i s t (err e) moved same =
        Lands-pure _ t _ (rw moved (bounded.rule_keeps s.tc machine (pos i) s.world))
    chosen-Lands machine i s t (ok idx) moved same =
        Lands-if (eq_ℤ idx state_machine_done) _ _ t _
          (λ stop. Lands-pure _ t _ (rw moved (bounded.rule_keeps s.tc machine (pos i) s.world)))
          (λ more.
            let going = subst (λ x. eq_ℤ x state_machine_done ≡ false) (same idx refl) more in
            let (j, is_j, rule, is_rule) = bounded.rule_exists s.tc machine (pos i) s.world going in
            subst (λ x. Lands (element rules x >>= run_rule machine i) t (Progress (steps s.world)))
              (sym (same idx refl ∙ is_j))
              (found-Lands machine i (steps s.world) j rule t is_rule
                (rw moved (bounded.rule_lowers s.tc machine (pos i) s.world going))))

    worker_turn-Lands :
        (machine : Handle) (i : ℕ) (s : TestCase)
        → Lands (worker_turn rules (some machine) i) s (Progress (steps s.world))
    unfolding worker_turn dereference
    worker_turn-Lands machine i s = record {
      at =
          (Lands-bind (native (λ h. Calls.next_rule h machine (pos i))) (chosen rules machine i) s _
            (Lands-mono _ s _ _ (next-Lands machine i s)
              (λ r t (moved, same). chosen-Lands machine i s t r moved same))).at;
    }

    -- A turn uses up a step or ends a worker, and every worker is live or has reported.
    abbrev Shrinks : Crew → ℕ → Crew → TestCase → Type 0
    Shrinks crew n crew' t =
        (steps t.world + length crew'.live < n + length crew.live)
        × ((w : ℕ)
            → working w crew'.live + reports w crew'.arrived
              ≡ working w crew.live + reports w crew.arrived)

    -- The flow of a turn on a worker's handle, seen from the root.
    turn_end-Landed :
        (crew : Crew) (p n : ℕ) (worker : Live) (r : Flow Turn) (s t : TestCase)
        → get_elem? crew.live p ≡ some worker
        → Landed (Progress n) r t
        → Landed (Shrinks crew n) (turn_end crew p worker.index r) (record s { world = t.world })
    unfolding turn_end after_turn
    turn_end-Landed crew p n worker (returns none) s t at h = (omega (arith, h), λ w. refl)
    turn_end-Landed crew p n worker (returns (some e)) s t at h =
        let shorter = length-remove_at crew.live p worker at in
        (
          omega (arith, h, shorter),
          λ w.
              let fewer = working-remove_at w crew.live p worker at in
              let one_more =
                reports-append w crew.arrived (record { worker = worker.index; error = e }) in
              omega (arith, fewer, one_more),
        )
    turn_end-Landed crew p n worker (panics c pcs) s t at h = h
    turn_end-Landed crew p n worker exhausted s t at h = h

    give_turn-Lands :
        (machine : Handle) (crew : Crew) (p : ℕ) (worker : Live) (s : TestCase)
        → get_elem? crew.live p ≡ some worker
        → Lands
            (give_turn rules (some machine) crew p (some worker))
            s
            (Shrinks crew (steps s.world))
    unfolding give_turn on_worker
    give_turn-Lands machine crew p worker s at = record {
      at =
          turn_end-Landed crew p (steps s.world) worker _ s _ at
            (worker_turn-Lands machine worker.index (record worker.handle { world = s.world })).at;
    }

    take_turn-Lands :
        (machine : Handle) (crew : Crew) (k : ℕ) (s : TestCase)
        → 0 < length crew.live
        → Lands (take_turn rules (some machine) crew k) s (Shrinks crew (steps s.world))
    unfolding take_turn
    take_turn-Lands machine crew k s some_live =
        let p = k % length crew.live in
        let (worker, at) = elem_below crew.live p (omega (arith, some_live)) in
        subst
          (λ o. Lands (give_turn rules (some machine) crew p o) s (Shrinks crew (steps s.world)))
          (sym at) (give_turn-Lands machine crew p worker s at)

    idle_turn :
        (m : Option Handle) (crew : Crew) (k : ℕ) (s : TestCase)
        → crew.live ≡ []
        → take_turn rules m crew k s ≡ (returns crew, s)
    unfolding take_turn give_turn
    idle_turn m crew k s none_live = rw none_live refl

    -- Once no worker is left, the rest of the schedule changes nothing.
    idle_work :
        (machine : Handle) (schedule : List ℕ) (crew : Crew) (s : TestCase)
        → crew.live ≡ []
        → Lands (work rules (some machine) schedule crew) s (λ crew' _. Ended crew crew')
    unfolding work working
    idle_work machine [] crew s h = Lands-pure crew s _ (h, λ w. rw (h, working) (omega arith))
    idle_work machine (k ∷ ks) crew s h =
        Lands-bind (take_turn rules (some machine) crew k) (work rules (some machine) ks) s _
          (record {
            at =
                subst
                  (λ x.
                    Landed
                      (λ crew₁ t.
                        Lands (work rules (some machine) ks crew₁) t (λ crew' _. Ended crew crew'))
                      x.0 x.1)
                  (sym (idle_turn (some machine) crew k s h)) (idle_work machine ks crew s h);
          })

    -- A round ends under every schedule with an entry for each worker and each rule that the library
    -- still hands out, whatever its order: no worker is left, and each has reported exactly once.
    pub work_ends :
        (machine : Handle) (schedule : List ℕ) (crew : Crew) (s : TestCase)
        → steps s.world + length crew.live ≤ length schedule
        → Lands (work rules (some machine) schedule crew) s (λ crew' _. Ended crew crew')
    unfolding work working
    work_ends machine [] crew s enough =
        let h = length_zero crew.live (omega (arith, enough)) in
        Lands-pure crew s _ (h, λ w. rw (h, working) (omega arith))
    work_ends machine (k ∷ ks) crew s enough = elim (nonempty crew.live) [
      | inl h ↦ idle_work machine (k ∷ ks) crew s h
      | inr h ↦
          Lands-bind (take_turn rules (some machine) crew k) (work rules (some machine) ks) s _ (
            Lands-mono _ s _ _ (take_turn-Lands machine crew k s h) (λ crew₁ t (less, same).
              Lands-mono _ t _ _ (work_ends machine ks crew₁ t (omega (arith, enough)))
                (λ crew' u (gone, count). (gone, λ w. count w ∙ same w))))
    ]
