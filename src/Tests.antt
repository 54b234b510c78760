-- ===== src/Tests.antt =====
-- A small library to run the model against, and the theorems at concrete inputs. `Tape` is its state:
-- the answers that it gives are read off two lists, and the statuses that it is told are kept. The
-- handle of a recursion scope is one more than its depth limit.
mod Witnesses
mod Runs
mod Machines
mod Trees
mod Rounds
mod Values
mod Derived
mod Flags
use hegel_go.Prelude.{
  ℕ, suc, String, Bool, true, false, Option, none, some, List, [], ◌∷◌, ◌++◌, leb, if◌then◌else◌,
}
use hegel_go.Prelude.Int.{ℤ, pos}
use hegel_go.Errors.{ErrorCode, Status, Frame, Cause}
use hegel_go.Engine.{Engine, Handle, Setting, Datetime}
use hegel_go.TestCase.{TestCase, PanicPolicy, capture_user_panics}

pub record Tape : Type 0 where
  pub bits : List Bool
  pub ints : List ℤ
  pub next_id : ℕ
  pub told : List Status
  pub settings : List Setting

abbrev pub ok {ℓ} : {A : Type ℓ} → A → ErrorCode × A
ok a = (ErrorCode.ok, a)

abbrev pub read_bit : Tape → ErrorCode × Bool × Tape
read_bit t = elim (t.bits) [
  | [] ↦ (ErrorCode.stop_test, false, t)
  | b ∷ bs ↦ (ErrorCode.ok, b, record t { bits = bs })
]

abbrev pub read_int : Tape → ErrorCode × ℤ × Tape
read_int t = elim (t.ints) [
  | [] ↦ (ErrorCode.stop_test, pos 0, t)
  | n ∷ ns ↦ (ErrorCode.ok, n, record t { ints = ns })
]

abbrev pub accept_setting : Setting → Tape → ErrorCode × Tape
accept_setting (Setting.test_cases n) t =
    (ErrorCode.invalid_arg, record t { settings = t.settings ++ Setting.test_cases n ∷ [] })
accept_setting setting t = ok (record t { settings = t.settings ++ setting ∷ [] })

-- It accepts every call but a number of test cases.
instance abbrev pub toy : Engine
toy = record {
  World = Tape;
  label_of_name = λ _. 1;
  label_of_type = λ typ. typ;
  Float = ℕ;
  to_width = λ _ x. x;
  half = 1;
  negative_infinity = 0;
  positive_infinity = 9;
  smallest_float64 = 1;
  smallest_float32 = 2;
  Time = Datetime;
  year = λ t. t.date.year;
  month = λ t. t.date.month;
  day = λ t. t.date.day;
  hour = λ t. t.time.hour;
  minute = λ t. t.time.minute;
  second = λ t. t.time.second;
  nanosecond = λ t. t.time.nanosecond;
  utc = λ t. t;
  callers = λ _. [];
  context_last_error = λ _. "";
  frame_origin = λ f. f.file;
  frame_trace = λ f. f.function;
  report_header = λ kind _ _. kind;
  blob_line = λ blob. blob;
  concurrency_line = λ _. "";
  round_line = λ _ name. name;
  dropped_line = λ kind _ _ _. kind;
  writer_accepts = λ _ _. true;
  settings_new = λ t. (ErrorCode.ok, 1, t);
  settings_new_for_profile = λ _ t. (ErrorCode.ok, 1, t);
  settings_apply = λ _ s t. accept_setting s t;
  get_print_blob = λ _ t. (ErrorCode.ok, false, t);
  run_start = λ _ _ t. (ErrorCode.ok, 1, t);
  test_case_from_blob = λ _ _ _ t. (ErrorCode.ok, 1, t);
  start_span = λ _ _ t. ok t;
  stop_span = λ _ _ t. ok t;
  generate_boolean = λ _ _ _ _ t. read_bit t;
  generate_integer = λ _ _ _ t. read_int t;
  generate_integer_big = λ _ lo _ t. (ErrorCode.ok, lo, t);
  generate_float = λ _ _ lo _ _ _ _ _ _ t. (ErrorCode.ok, lo, t);
  generate_bytes = λ _ _ _ t. (ErrorCode.ok, [], t);
  generate_string = λ _ _ t. (ErrorCode.ok, "text", t);
  generate_date = λ _ lo _ t. (ErrorCode.ok, lo, t);
  generate_time = λ _ lo _ t. (ErrorCode.ok, lo, t);
  generate_datetime = λ _ lo _ t. (ErrorCode.ok, lo, t);
  generate_uuid = λ _ version _ t. (ErrorCode.ok, version ∷ [], t);
  generate_ipv4 = λ _ t. (ErrorCode.ok, [], t);
  generate_ipv6 = λ _ t. (ErrorCode.ok, [], t);
  string_generator_text = λ _ _ _ _ _ _ _ _ _ t. (ErrorCode.ok, 1, t);
  string_generator_regex = λ _ _ _ t. (ErrorCode.ok, 1, t);
  string_generator_email = λ t. (ErrorCode.ok, 1, t);
  string_generator_url = λ t. (ErrorCode.ok, 1, t);
  string_generator_domain = λ _ t. (ErrorCode.ok, 1, t);
  new_collection = λ _ _ _ t. (ErrorCode.ok, 1, t);
  collection_more = λ _ _ t. read_bit t;
  collection_reject = λ _ _ _ t. ok t;
  new_recursion = λ _ limit _ t. (ErrorCode.ok, suc limit, t);
  recursion_branch =
      λ _ r depth t. if leb r (suc depth) then (ErrorCode.ok, false, t) else read_bit t;
  recursion_leaf = λ _ _ t. ok t;
  recursion_retry = λ _ _ t. ok t;
  recursion_finish = λ _ _ t. ok t;
  new_pool = λ _ t. (ErrorCode.ok, 1, t);
  pool_add = λ _ _ t. (ErrorCode.ok, pos t.next_id, record t { next_id = suc t.next_id });
  pool_generate = λ _ _ _ t. read_int t;
  note = λ _ _ t. ok t;
  event = λ _ _ t. ok t;
  event_value = λ _ _ _ t. ok t;
  target = λ _ _ _ t. ok t;
  mark_complete = λ _ status _ t. ok (record t { told = t.told ++ status ∷ [] });
  test_case_printer = λ _ t. (ErrorCode.ok, 1, t);
  printer_resolve = λ _ t. ok t;
  printer_value = λ _ t. (ErrorCode.ok, "report", t);
  should_capture = λ _ t. (ErrorCode.ok, false, t);
  clone = λ _ t. (ErrorCode.ok, 1, t);
  free = λ _ t. t;
  set_worker = λ _ _ t. ok t;
  next_test_case = λ _ t. elim (t.bits) [
    | [] ↦ (ErrorCode.ok, 0, t)
    | b ∷ bs ↦ (ErrorCode.ok, 1, record t { bits = bs })
  ];
  run_result = λ _ t. (ErrorCode.ok, 1, t);
  result_status = λ _ t. (ErrorCode.ok, 0, t);
  result_error = λ _ t. (ErrorCode.ok, none, t);
  result_failure_count = λ _ t. (ErrorCode.ok, 0, t);
  result_failure = λ _ _ t. (ErrorCode.ok, 1, t);
  failure_origin = λ _ t. (ErrorCode.ok, none, t);
  failure_blob = λ _ t. (ErrorCode.ok, none, t);
  failure_caveat = λ _ t. (ErrorCode.ok, none, t);
  new_state_machine = λ _ _ _ _ _ _ _ _ t. (ErrorCode.ok, 1, pos 1, t);
  next_group = λ _ _ t. read_int t;
  next_rule = λ _ _ _ t. read_int t;
  rule_rejected = λ _ _ _ t. ok t;
  should_check_invariant = λ _ _ _ t. read_bit t;
}

abbrev pub tape : List Bool → List ℤ → Tape
tape bits ints = record { bits = bits; ints = ints; next_id = 0; told = []; settings = [] }

abbrev pub case_on : Tape → TestCase ⦃eng = toy⦄
case_on t = record {
  world = t;
  tc = 1;
  out = none;
  printer = none;
  depth = pos 0;
  panic_policy = capture_user_panics;
  scoped = false;
  aborted = false;
  failure_origin = "";
}
