-- ===== src/Native/Run.antt =====
-- The calls of internal/libhegel/libhegel.go that configure a run, drive it and read its result.
pub mod Laws
use hegel_go.Prelude.{ℕ, zero, suc, String, Bool, Option, none, some}
use hegel_go.Flow.{Flow, Result, ok, err, returns}
use hegel_go.Flow.Exec.{Exec}
use hegel_go.Flow.Fallible.{Fallible}
use hegel_go.Engine.{Engine, Handle}
use hegel_go.Native.{invoke, allocate, no_out}

module _ ⦃eng : Engine⦄ where
  open eng use {World}

  unfoldable pub settings_new : Fallible World (Option Handle)
  unfolding allocate
  settings_new = allocate "hegel_settings_new" eng.settings_new

  unfoldable pub settings_new_for_profile : String → Fallible World (Option Handle)
  unfolding allocate
  settings_new_for_profile name =
      allocate "hegel_settings_new_for_profile" (eng.settings_new_for_profile name)

  unfoldable pub get_print_blob : Handle → Fallible World Bool
  unfolding invoke
  get_print_blob s = invoke "hegel_settings_get_print_blob" (eng.get_print_blob s)

  unfoldable pub run_start : Handle → Bool → Fallible World (Option Handle)
  unfolding allocate
  run_start s has_out = allocate "hegel_run_start" (eng.run_start s has_out)

  unfoldable pub test_case_from_blob : Handle → String → Bool → Fallible World (Option Handle)
  unfolding allocate
  test_case_from_blob s blob has_out =
      allocate "hegel_test_case_from_blob" (eng.test_case_from_blob s blob has_out)

  unfoldable pub next_test_case : Handle → Fallible World (Option Handle)
  unfolding allocate
  next_test_case run = allocate "hegel_next_test_case" (eng.next_test_case run)

  unfoldable pub should_capture : Handle → Fallible World Bool
  unfolding invoke
  should_capture tc = invoke "hegel_test_case_should_capture" (eng.should_capture tc)

  unfoldable pub test_case_printer : Handle → Fallible World (Option Handle)
  unfolding allocate
  test_case_printer tc = allocate "hegel_test_case_printer" (eng.test_case_printer tc)

  unfoldable pub printer_resolve : Handle → Fallible World (Unit {0})
  unfolding invoke
  printer_resolve p = invoke "hegel_printer_resolve" (no_out (eng.printer_resolve p))

  unfoldable pub printer_value : Handle → Fallible World String
  unfolding invoke
  printer_value p = invoke "hegel_printer_value" (eng.printer_value p)

  unfoldable pub run_result : Handle → Fallible World (Option Handle)
  unfolding allocate
  run_result run = allocate "hegel_run_result" (eng.run_result run)

  unfoldable pub failure : Handle → ℕ → Fallible World (Option Handle)
  unfolding allocate
  failure result i = allocate "hegel_run_result_failure" (eng.result_failure result i)

  -- libhegel.RunStatus, and any value that has no name there
  pub data RunStatus : Type 0 where
    run_passed run_failed run_error run_unnamed : RunStatus

  run_status_of : ℕ → RunStatus
  run_status_of zero = run_passed
  run_status_of (suc zero) = run_failed
  run_status_of (suc (suc zero)) = run_error
  run_status_of (suc (suc (suc n))) = run_unnamed

  -- An out-parameter that keeps its initial value when the call fails; the error is dropped.
  out_or {ℓ} : {A B : Type ℓ} → A → (B → A) → Flow (Result B) → Flow A
  out_or a f (returns (ok b)) = returns (f b)
  out_or a f (returns (err e)) = returns a
  out_or a f (Flow.panics c pcs) = Flow.panics c pcs
  out_or a f Flow.exhausted = Flow.exhausted

  ignoring {ℓ} : {A B : Type ℓ} → A → (B → A) → Fallible World B → Exec World A
  unfolding out_or
  ignoring a f m w = let (r, w') = m w in (out_or a f r, w')

  or_empty : Option String → String
  or_empty none = ""
  or_empty (some s) = s

  unfoldable pub status : Handle → Exec World RunStatus
  unfolding invoke ignoring run_status_of
  status result =
      ignoring run_error run_status_of (invoke "hegel_run_result_status" (eng.result_status result))

  unfoldable pub error_message : Handle → Exec World String
  unfolding invoke ignoring or_empty
  error_message result =
      ignoring "" or_empty (invoke "hegel_run_result_error" (eng.result_error result))

  unfoldable pub failure_count : Handle → Exec World ℕ
  unfolding invoke ignoring
  failure_count result =
      ignoring 0 (λ n. n)
        (invoke "hegel_run_result_failure_count" (eng.result_failure_count result))

  unfoldable pub origin : Handle → Exec World String
  unfolding invoke ignoring or_empty
  origin f = ignoring "" or_empty (invoke "hegel_failure_origin" (eng.failure_origin f))

  unfoldable pub reproduction_blob : Handle → Exec World String
  unfolding invoke ignoring or_empty
  reproduction_blob f =
      ignoring "" or_empty (invoke "hegel_failure_reproduction_blob" (eng.failure_blob f))

  unfoldable pub caveat : Handle → Exec World String
  unfolding invoke ignoring or_empty
  caveat f = ignoring "" or_empty (invoke "hegel_failure_caveat" (eng.failure_caveat f))
