-- ===== src/Crew.antt =====
-- stateful.go: the workers of one round of stateMachine.Run, each on a clone of the test case. The
-- goroutines are interleaved between the rules that they run: a schedule says whose turn is next, and
-- the results stand in the order in which the workers ended. A panic that leaves a goroutine kills the
-- process, which no deferred function sees: the model then gives no result, `exhausted`.
pub mod Reports
pub mod Schedule
use hegel_go.Prelude.{
  ℕ, zero, suc, ◌%◌, String, Bool, true, false, Option, none, some, List, [], ◌∷◌, ◌++◌, length,
  get_elem?, ltb, if◌then◌else◌,
}
use Prim.Native.String.{◌++◌ as cat}
use hegel_go.Prelude.Int.{ℤ, pos, negsuc, eq_ℤ}
use hegel_go.Errors.{Err, value, index_out_of_range}
use hegel_go.Flow.{Flow, Result, ok, err, returns, panics, exhausted}
use hegel_go.Flow.Exec.{Exec, pure, ◌>>=◌, ◌>>◌}
use hegel_go.Engine.{Engine, Handle}
use hegel_go.Native.Run
use hegel_go.Native.Machine.{state_machine_done}
use hegel_go.Native.Machine as Calls
use hegel_go.TestCase.{TestCase, TestBody, native, dereference, abort, must, note, raise_panic}
use hegel_go.Stateful.{invoke_rule}
use hegel_go.Workgroup.{WorkerResult}

unfoldable pub remove_at {ℓ} : {A : Type ℓ} → ℕ → List A → List A
remove_at i [] = []
remove_at zero (x ∷ xs) = xs
remove_at (suc i) (x ∷ xs) = x ∷ remove_at i xs

module _ ⦃eng : Engine⦄ where
  -- stateMachineRule
  pub record Rule : Type 0 where
    pub name : String
    pub fn : TestBody

  -- `rules[idx]`
  unfoldable pub element {ℓ} : {A : Type ℓ} → List A → ℤ → Exec TestCase A
  element xs (negsuc i) = raise_panic (value index_out_of_range)
  element xs (pos i) = elim (get_elem? xs i) [
    | none ↦ raise_panic (value index_out_of_range)
    | some x ↦ pure x
  ]

  -- testCase.log, of a text that is formatted
  unfoldable pub log : String → Exec TestCase (Unit {0})
  unfolding note
  log text = note text

  abbrev worker_of : TestCase → Handle → Option Handle → TestCase
  worker_of s tc printer = record {
    world = s.world;
    tc = tc;
    out = none;
    printer = printer;
    depth = pos 0;
    panic_policy = s.panic_policy;
    scoped = false;
    aborted = false;
    failure_origin = "";
  }

  with_printer : Handle → Result (Option Handle) → Exec TestCase (Result TestCase)
  unfolding Calls.free
  with_printer tc (ok p) s = (returns (ok (worker_of s tc p)), s)
  with_printer tc (err e) s = (returns (err e), record s { world = Calls.free tc s.world })

  cloned : Result (Option Handle) → Exec TestCase (Result TestCase)
  unfolding with_printer
  cloned (err e) = pure (err e)
  cloned (ok o) = do
    tc ← dereference o
    λ s. elim s.printer [
      | none ↦ pure (ok (worker_of s tc none)) s
      | some _ ↦ (native (λ _. Run.test_case_printer tc) >>= with_printer tc) s
    ]

  -- testCase.clone. A nil handle panics here; Go would panic at the first use of it instead.
  unfoldable pub clone_case : Exec TestCase (Result TestCase)
  unfolding cloned
  clone_case = native Calls.clone >>= cloned

  -- A worker's action on its own handle, in the state that the library has.
  unfoldable pub on_worker {ℓ} : {A : Type ℓ} → TestCase → Exec TestCase A → Exec TestCase A
  on_worker worker m s =
      let (r, worker') = m (record worker { world = s.world }) in
      (r, record s { world = worker'.world })

  -- setWorker of a clone, whose error the root aborts with
  number_worker : Bool → TestCase → ℕ → Exec TestCase (Unit {0})
  unfolding on_worker native must
  number_worker false worker i = pure tt
  number_worker true worker i = must (on_worker worker (native (λ h. Calls.set_worker h (pos i))))

  -- How the loop that creates the workers ends, with the workers that it has created.
  abbrev pub Created : Type 0
  Created = Flow (Unit {0}) × List TestCase × TestCase

  -- `n` workers are missing, the next of which is worker i.
  unfoldable pub create : Bool → ℕ → ℕ → List TestCase → TestCase → Created
  unfolding number_worker clone_case must
  create numbered zero i workers s = (returns tt, workers, s)
  create numbered (suc n) i workers s =
      let (r, s') = must clone_case s in
      elim r [
        | panics c pcs ↦ (panics c pcs, workers, s')
        | exhausted ↦ (exhausted, workers, s')
        | returns worker ↦
            let (r', t) = number_worker numbered worker i s' in
            elim r' [
              | panics c pcs ↦ (panics c pcs, workers ++ worker ∷ [], t)
              | exhausted ↦ (exhausted, workers ++ worker ∷ [], t)
              | returns _ ↦ create numbered n (suc i) (workers ++ worker ∷ []) t
            ]
      ]

  -- `none` goes on, `some` ends the worker with its error or nil.
  abbrev pub Turn : Type 0
  Turn = Option (Option Err)

  rejection : Result (Unit {0}) → Exec TestCase Turn
  unfolding log
  rejection (err e) = pure (some (some e))
  rejection (ok _) = do log "Rule stopped early due to violated assumption."; pure none

  after_rule : Handle → ℕ → Bool × Option Err → Exec TestCase Turn
  unfolding rejection native
  after_rule machine i (rejected, some e) = pure (some (some e))
  after_rule machine i (false, none) = pure none
  after_rule machine i (true, none) =
      native (λ h. Calls.rule_rejected h machine (pos i)) >>= rejection

  run_rule : Handle → ℕ → Rule → Exec TestCase Turn
  unfolding log invoke_rule after_rule
  run_rule machine i rule = do
    log (cat "Rule: " rule.name)
    outcome ← invoke_rule rule.fn
    after_rule machine i outcome

  chosen : List Rule → Handle → ℕ → Result ℤ → Exec TestCase Turn
  unfolding element run_rule
  chosen rules machine i (err e) = pure (some (some e))
  chosen rules machine i (ok idx) =
      if eq_ℤ idx state_machine_done
      then pure (some none)
      else element rules idx >>= run_rule machine i

  -- One iteration of the loop of worker i.
  unfoldable pub worker_turn : List Rule → Option Handle → ℕ → Exec TestCase Turn
  unfolding chosen native dereference
  worker_turn rules m i = do
    machine ← dereference m
    idx ← native (λ h. Calls.next_rule h machine (pos i))
    chosen rules machine i idx

  -- A worker that has not ended.
  pub record Live : Type 0 where
    pub index : ℕ
    pub handle : TestCase

  pub record Crew : Type 0 where
    pub live : List Live
    pub arrived : List WorkerResult

  unfoldable pub after_turn : Crew → ℕ → ℕ → Turn → Crew
  unfolding remove_at
  after_turn crew p i none = crew
  after_turn crew p i (some e) = record {
    live = remove_at p crew.live;
    arrived = crew.arrived ++ record { worker = i; error = e } ∷ [];
  }

  turn_end : Crew → ℕ → ℕ → Flow Turn → Flow Crew
  unfolding after_turn
  turn_end crew p i (returns t) = returns (after_turn crew p i t)
  turn_end crew p i (panics c pcs) = exhausted
  turn_end crew p i exhausted = exhausted

  give_turn : List Rule → Option Handle → Crew → ℕ → Option Live → Exec TestCase Crew
  unfolding turn_end on_worker worker_turn
  give_turn rules m crew p none s = (returns crew, s)
  give_turn rules m crew p (some worker) s =
      let (r, s') = on_worker worker.handle (worker_turn rules m worker.index) s in
      (turn_end crew p worker.index r, s')

  -- Entry k of a schedule gives the turn to live worker k, modulo their number.
  unfoldable pub take_turn : List Rule → Option Handle → Crew → ℕ → Exec TestCase Crew
  unfolding give_turn
  take_turn rules m crew k =
      let p = k % length crew.live in give_turn rules m crew p (get_elem? crew.live p)

  unfoldable pub work : List Rule → Option Handle → List ℕ → Crew → Exec TestCase Crew
  unfolding take_turn
  work rules m [] crew = pure crew
  work rules m (k ∷ ks) crew = take_turn rules m crew k >>= work rules m ks

  -- Wait ends when every worker has ended.
  unfoldable pub all_arrived : Crew → Exec TestCase (List WorkerResult)
  all_arrived crew s = elim crew.live [ [] ↦ (returns crew.arrived, s) | _ ∷ _ ↦ (exhausted, s) ]

  unfoldable pub started : ℕ → List TestCase → List Live
  started i [] = []
  started i (worker ∷ workers) = record { index = i; handle = worker } ∷ started (suc i) workers

  unfoldable pub free_all : List TestCase → eng.World → eng.World
  unfolding Calls.free
  free_all [] w = w
  free_all (worker ∷ workers) w = free_all workers (Calls.free worker.tc w)

  -- The deferred function that frees the workers.
  unfoldable pub freed {ℓ} : {A : Type ℓ} → List TestCase → Flow A × TestCase → Flow A × TestCase
  unfolding free_all
  freed workers (exhausted, s) = (exhausted, s)
  freed workers (r, s) = (r, record s { world = free_all workers s.world })

  unfoldable pub crew_work :
      List Rule → Option Handle → List ℕ → Created → Flow (List WorkerResult) × TestCase
  unfolding work all_arrived started
  crew_work rules m schedule (panics c pcs, workers, s) = (panics c pcs, s)
  crew_work rules m schedule (exhausted, workers, s) = (exhausted, s)
  crew_work rules m schedule (returns _, workers, s) =
      (work rules m schedule (record { live = started 0 workers; arrived = [] }) >>= all_arrived) s

  -- The function literal of a round, for `n` workers.
  unfoldable pub run_crew :
      List Rule → Option Handle → List ℕ → ℕ → Exec TestCase (List WorkerResult)
  unfolding create crew_work freed
  run_crew rules m schedule n s =
      let created = create (ltb 1 n) n 0 [] s in
      freed created.1 (crew_work rules m schedule created)
