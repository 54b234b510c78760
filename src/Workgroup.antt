-- ===== src/Workgroup.antt =====
-- stateful.go: workgroup. The workers of a round send their results over a channel, in any order;
-- Wait takes one result for each worker and gives the errors, sorted by priority and then by worker.
pub mod Order
use hegel_go.Prelude.{
  ℕ, ◌+◌, Bool, true, false, ◌&&◌, ◌||◌, Option, none, some, List, [], ◌∷◌, map, ltb, ◌==◌,
  if◌then◌else◌,
}
use hegel_go.Errors.{Err, ErrorCode, is_code, as_invocation}

-- A workerResult that carries an error.
pub record Failed : Type 0 where
  pub worker : ℕ
  pub error : Err

pub record WorkerResult : Type 0 where
  pub worker : ℕ
  pub error : Option Err

has_invocation : Err → Bool
unfolding as_invocation
has_invocation e = elim (as_invocation e) [ none ↦ false | some _ ↦ true ]

unfoldable pub priority : Err → ℕ
unfolding has_invocation is_code
priority e =
    if has_invocation e
    then 3
    else if is_code ErrorCode.assume e
    then 2
    else if is_code ErrorCode.stop_test e
    then 1
    else 0

-- The comparison that sort.Slice is given.
unfoldable pub less : Failed → Failed → Bool
unfolding priority
less left right =
    if priority left.error == priority right.error
    then ltb left.worker right.worker
    else ltb (priority left.error) (priority right.error)

unfoldable pub insert : Failed → List Failed → List Failed
unfolding less
insert x [] = x ∷ []
insert x (y ∷ ys) = let rest = insert x ys in if less y x then y ∷ rest else x ∷ y ∷ ys

-- sort.Slice, whose result is determined when no two elements are equal in the comparison.
unfoldable pub sort : List Failed → List Failed
unfolding insert
sort [] = []
sort (x ∷ xs) = insert x (sort xs)

-- `if result.err != nil`
keep : ℕ → Option Err → List Failed → List Failed
keep w none rest = rest
keep w (some e) rest = record { worker = w; error = e } ∷ rest

unfoldable pub failed_of : List WorkerResult → List Failed
unfolding keep
failed_of [] = []
failed_of (r ∷ rs) = keep r.worker r.error (failed_of rs)

unfoldable pub to_worker_error : Failed → Err
to_worker_error x = Err.worker_error x.worker x.error

-- Wait, on the results in the order of their arrival.
unfoldable pub wait : List WorkerResult → List Err
unfolding sort failed_of to_worker_error
wait results = map to_worker_error (sort (failed_of results))
