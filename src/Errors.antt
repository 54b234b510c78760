-- ===== src/Errors.antt =====
-- The error values of the program: the codes of internal/libhegel/libhegel.go, the errors that
-- runner.go, recursive.go and stateful.go build and wrap, and how errors.Is and errors.As read them.
-- A formatted text stands as the constructor of its format with the formatted arguments.

use hegel_go.Prelude.{ℕ, String, Bool, false, ◌||◌, Option, none, some, List, ◌==◌}
use hegel_go.Prelude.Int.{ℤ}

-- libhegel.Error
pub data ErrorCode : Type 0 where
  ok stop_test assume backend invalid_handle invalid_arg already_complete not_complete : ErrorCode
  internal concurrent_use retry not_found : ErrorCode

-- The C value of a code, negated.
unfoldable pub code_value : ErrorCode → ℕ
code_value ErrorCode.ok = 0
code_value ErrorCode.stop_test = 1
code_value ErrorCode.assume = 2
code_value ErrorCode.backend = 3
code_value ErrorCode.invalid_handle = 4
code_value ErrorCode.invalid_arg = 5
code_value ErrorCode.already_complete = 6
code_value ErrorCode.not_complete = 7
code_value ErrorCode.internal = 8
code_value ErrorCode.concurrent_use = 9
code_value ErrorCode.retry = 10
code_value ErrorCode.not_found = 11

unfoldable pub code_eq : ErrorCode → ErrorCode → Bool
unfolding code_value
code_eq a b = code_value a == code_value b

-- libhegel.Status
pub data Status : Type 0 where
  valid invalid overrun interesting : Status

-- One resolved program counter, as runtime.CallersFrames reports it.
pub record Frame : Type 0 where
  pub function : String
  pub file : String
  pub line : ℕ
  pub pc : ℕ

-- The texts of fmt.Errorf, fmt.Sprintf and panic.
pub data Message : Type 0 where
  min_size_negative max_size_negative max_depth_negative max_leaves_negative : ℤ → Message
  max_below_min : ℤ → ℤ → Message
  non_comparable_key : Message
  alphabet_with_filters : Message
  surrogate_category : String → Message
  uuid_version : ℤ → Message
  date_year : ℤ → Message
  empty_one_of empty_sampled_from : Message
  bounds_reversed : ℤ → ℤ → Message
  duplicate_value_id unknown_value_id : ℤ → Message
  user : String → Message
  fail_called fail_now_called : Message
  unknown_health_check : String → Message
  nil_machine no_rules bad_concurrency bad_step_count : Message
  unprefixed_method bad_signature : String → Message
  unknown_invariant : String → List String → Message
  unknown_rule : String → List String → Message
  grouped_invariant : String → Message
  empty_group : ℕ → Message
  rule_in_two_groups : String → ℕ → ℕ → Message
  run_error : String → Message
  failures : ℕ → List String → Message
  not_an_error nil_dereference index_out_of_range : Message
  invalid_handle_misuse out_of_handles : Message
  writer_failed : Message
  length_mismatch : String → ℕ → ℕ → Message
  bad_channel_size : Message
  overflows_uint64 : Message
  recursive_type : ℕ → Message
  unexported_field : String → ℕ → Message
  unsupported_kind : ℕ → Message

-- A Go `error`, and a value that was given to `panic`.
mutual
  pub data Err : Type 0 where
    -- "op: %w: text", from Context.invoke
    native : String → ErrorCode → String → Err
    -- an ErrorCode used as an error itself
    code : ErrorCode → Err
    -- a text that wraps nothing
    message : Message → Err
    -- *invocationError: kind, status, cause, stack
    invocation : String → Status → Cause → List Frame → Err
    -- these two embed an error and have no Unwrap
    leaf_budget_retry finish_retry : Err → Err
    -- *workerError
    worker_error : ℕ → Err → Err
    -- errors.Join of two errors
    join : Err → Err → Err
    -- a text that wraps errPropTestFailed
    prop_test_failed : Message → Err

  pub data Cause : Type 0 where
    error_value : Err → Cause
    value : Message → Cause

-- errors.Is(err, code)
unfoldable mutual
  pub is_code : ErrorCode → Err → Bool
  is_code c (Err.native op e msg) = code_eq e c
  is_code c (Err.code e) = code_eq e c
  is_code c (Err.message m) = false
  is_code c (Err.invocation kind status cause pcs) = cause_is_code c cause
  is_code c (Err.leaf_budget_retry e) = false
  is_code c (Err.finish_retry e) = false
  is_code c (Err.worker_error w e) = is_code c e
  is_code c (Err.join a b) = is_code c a || is_code c b
  is_code c (Err.prop_test_failed m) = false

  pub cause_is_code : ErrorCode → Cause → Bool
  cause_is_code c (Cause.error_value e) = is_code c e
  cause_is_code c (Cause.value m) = false

-- What errors.As finds for a *invocationError.
pub record Invocation : Type 0 where
  pub kind : String
  pub status : Status
  pub cause : Cause
  pub pcs : List Frame

or_else : Option Invocation → Option Invocation → Option Invocation
or_else none b = b
or_else (some i) b = some i

unfoldable pub as_invocation : Err → Option Invocation
unfolding or_else
as_invocation (Err.native op e msg) = none
as_invocation (Err.code e) = none
as_invocation (Err.message m) = none
as_invocation (Err.invocation kind status cause pcs) =
    some (record { kind = kind; status = status; cause = cause; pcs = pcs })
as_invocation (Err.leaf_budget_retry e) = none
as_invocation (Err.finish_retry e) = none
as_invocation (Err.worker_error w e) = as_invocation e
as_invocation (Err.join a b) = or_else (as_invocation a) (as_invocation b)
as_invocation (Err.prop_test_failed m) = none

-- failureInvocationError and interestingInvocationError; `pcs` is the stack at the call
unfoldable pub failure_invocation_error : List Frame → Message → Err
failure_invocation_error pcs m = Err.invocation "failure" Status.interesting (Cause.value m) pcs

unfoldable pub interesting_invocation_error : List Frame → Cause → Err
interesting_invocation_error pcs cause = Err.invocation "panic" Status.interesting cause pcs
