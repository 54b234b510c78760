-- ===== src/TestCase.antt =====
-- runner.go: the per-test-case context `testCase`, its reporting and span methods, and the abort
-- boundary `invoke`. A method is an action on the record. `world` is the library's state, which all
-- handles of a run share; `scoped` is a non-nil abortFn, `aborted` the variable that this abortFn
-- sets, and `out` the root's final destination.
pub mod Laws
use hegel_go.Prelude.{
  ℕ, ◌<◌, String, Bool, true, false, Option, none, some, List, [], ◌∷◌, if◌then◌else◌,
}
use hegel_go.Prelude.Int.{ℤ, pos, inc, dec, ltb_ℤ}
use hegel_go.Errors.{
  Err, Cause, error_value, value, Message, user, fail_called, fail_now_called, nil_dereference,
  not_an_error, ErrorCode, failure_invocation_error, interesting_invocation_error, Frame,
}
use hegel_go.Flow.{Flow, Result, ok, err, returns, panics, exhausted}
use hegel_go.Flow.Exec.{Exec}
use hegel_go.Flow.Exec
use hegel_go.Flow.Fallible.{Fallible}
use hegel_go.Flow.Fallible
use hegel_go.Engine.{Engine, Handle}
use hegel_go.Native

pub data PanicPolicy : Type 0 where
  capture_user_panics propagate_user_panics : PanicPolicy

pub record TestCase ⦃eng : Engine⦄ : Type 0 where
  pub world : eng.World
  pub tc : Handle
  pub out : Option (List String)
  pub printer : Option Handle
  pub depth : ℤ
  pub panic_policy : PanicPolicy
  pub scoped : Bool
  pub aborted : Bool
  pub failure_origin : String

module _ ⦃eng : Engine⦄ where
  -- A call of the library through this test case.
  unfoldable pub native {ℓ} : {A : Type ℓ} → (Handle → Fallible eng.World A) → Fallible TestCase A
  native m s = let (r, w) = m s.tc s.world in (r, record s { world = w })

  -- The value of a pointer; nil panics.
  unfoldable pub dereference {ℓ} : {A : Type ℓ} → Option A → Exec TestCase A
  dereference none s = (panics (value nil_dereference) (eng.callers s.world), s)
  dereference (some a) s = (returns a, s)

  -- A panic that the package raises itself.
  unfoldable pub raise_panic {ℓ} : {A : Type ℓ} → Cause → Exec TestCase A
  raise_panic c s = (panics c (eng.callers s.world), s)

  unfoldable pub abort {ℓ} : {A : Type ℓ} → Err → Exec TestCase A
  abort e s = (
    panics (error_value e) (eng.callers s.world),
    if s.scoped then record s { aborted = true } else s,
  )

  -- `if err := m; err != nil { s.abort(err) }`
  unfoldable pub or_abort {ℓ} : {A : Type ℓ} → Result A → Exec TestCase A
  unfolding abort
  or_abort (ok a) s = (returns a, s)
  or_abort (err e) s = abort e s

  unfoldable pub must {ℓ} : {A : Type ℓ} → Fallible TestCase A → Exec TestCase A
  unfolding or_abort
  must m = Exec.◌>>=◌ m or_abort

  unfoldable pub assume_that : Bool → Exec TestCase (Unit {0})
  unfolding abort
  assume_that condition = if condition then Exec.pure tt else abort (Err.code ErrorCode.assume)

  unfoldable pub note : String → Exec TestCase (Unit {0})
  unfolding must native
  note text s = elim s.printer [
    | none ↦ (returns tt, s)
    | some _ ↦ must (native (λ h. Native.note h text)) s
  ]

  unfoldable pub event : String → Exec TestCase (Unit {0})
  unfolding must native
  event label = must (native (λ h. Native.event h label))

  unfoldable pub event_value : String → eng.Float → Exec TestCase (Unit {0})
  unfolding must native
  event_value label x = must (native (λ h. Native.event_value h x label))

  unfoldable pub target : eng.Float → String → Exec TestCase (Unit {0})
  unfolding must native
  target x label = must (native (λ h. Native.target h x label))

  unfoldable pub errorf : String → Exec TestCase (Unit {0})
  unfolding abort
  errorf text s = abort (failure_invocation_error (eng.callers s.world) (user text)) s

  unfoldable pub fail : Exec TestCase (Unit {0})
  unfolding abort
  fail s = abort (failure_invocation_error (eng.callers s.world) fail_called) s

  unfoldable pub fail_now : Exec TestCase (Unit {0})
  unfolding abort
  fail_now s = abort (failure_invocation_error (eng.callers s.world) fail_now_called) s

  count_up : Result (Unit {0}) → Fallible TestCase (Unit {0})
  count_up (ok _) s = (returns (ok tt), record s { depth = inc s.depth })
  count_up (err e) s = (returns (err e), s)

  unfoldable pub start_span : ℕ → Fallible TestCase (Unit {0})
  unfolding native count_up
  start_span label = Exec.◌>>=◌ (native (λ h. Native.start_span h label)) count_up

  count_down : Result (Unit {0}) → Fallible TestCase (Unit {0})
  count_down (ok _) s = (returns (ok tt), record s { depth = dec s.depth })
  count_down (err e) s = (returns (err e), s)

  unfoldable pub stop_span : Bool → Fallible TestCase (Unit {0})
  unfolding native count_down
  stop_span discard = Exec.◌>>=◌ (native (λ h. Native.stop_span h discard)) count_down

  unfoldable pub in_span : TestCase → Bool
  in_span s = ltb_ℤ (pos 0) s.depth

  -- testBody. A callback returns or panics; an abort is a panic that has set `aborted`, which the
  -- callback may recover like any other.
  abbrev pub TestBody : Type 0
  TestBody = Exec TestCase (Unit {0})

  -- `recovered.(error)` after an abort.
  unfoldable pub recover_abort : List Frame → Flow (Unit {0}) → Flow (Option Err)
  recover_abort here (returns _) = panics (value not_an_error) here
  recover_abort here (panics (error_value e) pcs) = returns (some e)
  recover_abort here (panics (value m) pcs) = panics (value not_an_error) here
  recover_abort here exhausted = exhausted

  unfoldable pub recover_panic : PanicPolicy → Flow (Unit {0}) → Flow (Option Err)
  recover_panic policy (returns _) = returns none
  recover_panic capture_user_panics (panics c pcs) =
      returns (some (interesting_invocation_error pcs c))
  recover_panic propagate_user_panics (panics c pcs) = panics c pcs
  recover_panic policy exhausted = exhausted

  -- `invoke` runs the body on a copy with its own abortFn: of what the body does, the library's
  -- state remains, and not the copy's depth and origin.
  unfoldable pub invoke : TestBody → Exec TestCase (Option Err)
  unfolding recover_abort recover_panic
  invoke fn s =
      let (r, s') = fn (record s { scoped = true; aborted = false }) in
      (
        if s'.aborted
            then recover_abort (eng.callers s'.world) r
            else recover_panic s.panic_policy r,
        record s { world = s'.world },
      )
