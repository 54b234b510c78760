-- ===== src/Engine.antt =====
-- The C library libhegel as the program sees it, one field for each symbol of
-- internal/libhegel/libhegel.go that the modelled code calls. The library is not part of the
-- repository: the fields are parameters, and a theorem names what it assumes of them.
-- A handle is the uintptr that stands for a native object; 0 is the null handle. A call takes the
-- library's state, and gives back a code, its out-parameters and the new state.
use hegel_go.Prelude.{ℕ, String, Bool, List, Option}
use hegel_go.Prelude.Int.{ℤ}
use hegel_go.Errors.{ErrorCode, Status, Frame, Cause}

abbrev pub Handle : Type 0
Handle = ℕ

-- The settings that the options of runner.go set, one constructor for each hegel_settings_* symbol.
pub data Setting : Type 0 where
  test_cases suppress_health_check phases backend verbosity : ℕ → Setting
  database database_key : String → Setting
  derandomize report_multiple_failures show_statistics print_blob : Bool → Setting
  seed : ℕ → Bool → Setting
  test_location : String → ℕ → String → String → Setting

-- Date, Time and Datetime of internal/libhegel/libhegel.go, whose padding is left out.
pub record Date : Type 0 where
  pub year : ℤ
  pub month : ℕ
  pub day : ℕ

pub record TimeOfDay : Type 0 where
  pub hour : ℕ
  pub minute : ℕ
  pub second : ℕ
  pub nanosecond : ℕ

pub record Datetime : Type 0 where
  pub date : Date
  pub time : TimeOfDay

pub record Engine : Type 1 where
  pub World : Type 0
  -- hash/maphash over a name, and over the reflect.Type of a generator
  pub label_of_name : String → ℕ
  pub label_of_type : ℕ → ℕ
  -- Go's float64, which the program only passes on
  pub Float : Type 0
  -- T(v) for the float type of this width, and the constants of package math
  pub to_width : ℕ → Float → Float
  pub half : Float
  pub negative_infinity : Float
  pub positive_infinity : Float
  pub smallest_float64 : Float
  pub smallest_float32 : Float
  -- package time: time.Time, the fields that the program reads of it, and time.Date in UTC
  pub Time : Type 0
  pub year : Time → ℤ
  pub month : Time → ℕ
  pub day : Time → ℕ
  pub hour : Time → ℕ
  pub minute : Time → ℕ
  pub second : Time → ℕ
  pub nanosecond : Time → ℕ
  pub utc : Datetime → Time
  -- runtime.Callers at a panic or a failure
  pub callers : World → List Frame
  pub context_last_error : World → String
  -- package fmt: "%s:%d (%#x)" of a frame, its line in a stack trace, and the header of a report
  -- with the worker's number
  pub frame_origin : Frame → String
  pub frame_trace : Frame → String
  pub report_header : String → Option ℕ → Cause → String
  pub blob_line : String → String
  -- the texts that a state machine's run logs: the level, a round's heading, a dropped failure
  pub concurrency_line : ℤ → String
  pub round_line : ℕ → String → String
  pub dropped_line : String → ℕ → String → Cause → String
  -- whether an io.Writer that holds these texts takes one more
  pub writer_accepts : List String → String → Bool
  pub settings_new : World → ErrorCode × Handle × World
  pub settings_new_for_profile : String → World → ErrorCode × Handle × World
  pub settings_apply : Handle → Setting → World → ErrorCode × World
  pub get_print_blob : Handle → World → ErrorCode × Bool × World
  pub run_start : Handle → Bool → World → ErrorCode × Handle × World
  pub test_case_from_blob : Handle → String → Bool → World → ErrorCode × Handle × World
  pub start_span : Handle → ℕ → World → ErrorCode × World
  pub stop_span : Handle → Bool → World → ErrorCode × World
  pub generate_boolean : Handle → Float → Bool → Bool → World → ErrorCode × Bool × World
  pub generate_integer : Handle → ℤ → ℤ → World → ErrorCode × ℤ × World
  pub generate_integer_big : Handle → List ℕ → List ℕ → World → ErrorCode × List ℕ × World
  pub generate_float :
      Handle
      → ℕ
      → Float
      → Float
      → Bool
      → Bool
      → Bool
      → Bool
      → Float
      → World
      → ErrorCode × Float × World
  pub generate_bytes : Handle → ℕ → ℕ → World → ErrorCode × List ℕ × World
  pub generate_string : Handle → Handle → World → ErrorCode × String × World
  pub generate_date : Handle → Date → Date → World → ErrorCode × Date × World
  pub generate_time : Handle → TimeOfDay → TimeOfDay → World → ErrorCode × TimeOfDay × World
  pub generate_datetime : Handle → Datetime → Datetime → World → ErrorCode × Datetime × World
  pub generate_uuid : Handle → ℕ → Bool → World → ErrorCode × List ℕ × World
  pub generate_ipv4 : Handle → World → ErrorCode × List ℕ × World
  pub generate_ipv6 : Handle → World → ErrorCode × List ℕ × World
  -- the category lists are nil or a list
  pub string_generator_text :
      ℕ
      → ℕ
      → String
      → ℕ
      → ℕ
      → Option (List String)
      → Option (List String)
      → String
      → String
      → World
      → ErrorCode × Handle × World
  pub string_generator_regex : String → Bool → Handle → World → ErrorCode × Handle × World
  pub string_generator_email : World → ErrorCode × Handle × World
  pub string_generator_url : World → ErrorCode × Handle × World
  pub string_generator_domain : ℕ → World → ErrorCode × Handle × World
  pub new_collection : Handle → ℕ → ℕ → World → ErrorCode × Handle × World
  pub collection_more : Handle → Handle → World → ErrorCode × Bool × World
  pub collection_reject : Handle → Handle → String → World → ErrorCode × World
  pub new_recursion : Handle → ℕ → ℕ → World → ErrorCode × Handle × World
  pub recursion_branch : Handle → Handle → ℕ → World → ErrorCode × Bool × World
  pub recursion_leaf : Handle → Handle → World → ErrorCode × World
  pub recursion_retry : Handle → Handle → World → ErrorCode × World
  pub recursion_finish : Handle → Handle → World → ErrorCode × World
  pub new_pool : Handle → World → ErrorCode × Handle × World
  pub pool_add : Handle → Handle → World → ErrorCode × ℤ × World
  pub pool_generate : Handle → Handle → Bool → World → ErrorCode × ℤ × World
  pub note : Handle → String → World → ErrorCode × World
  pub event : Handle → String → World → ErrorCode × World
  pub event_value : Handle → Float → String → World → ErrorCode × World
  pub target : Handle → Float → String → World → ErrorCode × World
  pub mark_complete : Handle → Status → String → World → ErrorCode × World
  pub test_case_printer : Handle → World → ErrorCode × Handle × World
  pub printer_resolve : Handle → World → ErrorCode × World
  pub printer_value : Handle → World → ErrorCode × String × World
  pub should_capture : Handle → World → ErrorCode × Bool × World
  pub clone : Handle → World → ErrorCode × Handle × World
  pub free : Handle → World → World
  pub set_worker : Handle → ℤ → World → ErrorCode × World
  pub next_test_case : Handle → World → ErrorCode × Handle × World
  pub run_result : Handle → World → ErrorCode × Handle × World
  pub result_status : Handle → World → ErrorCode × ℕ × World
  pub result_error : Handle → World → ErrorCode × Option String × World
  pub result_failure_count : Handle → World → ErrorCode × ℕ × World
  pub result_failure : Handle → ℕ → World → ErrorCode × Handle × World
  pub failure_origin : Handle → World → ErrorCode × Option String × World
  pub failure_blob : Handle → World → ErrorCode × Option String × World
  pub failure_caveat : Handle → World → ErrorCode × Option String × World
  pub new_state_machine :
      Handle
      → List String
      → List ℤ
      → List String
      → List Bool
      → ℤ
      → ℤ
      → ℤ
      → World
      → ErrorCode × Handle × ℤ × World
  pub next_group : Handle → Handle → World → ErrorCode × ℤ × World
  pub next_rule : Handle → Handle → ℤ → World → ErrorCode × ℤ × World
  pub rule_rejected : Handle → Handle → ℤ → World → ErrorCode × World
  pub should_check_invariant : Handle → Handle → ℤ → World → ErrorCode × Bool × World
