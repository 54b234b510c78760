-- ===== src/Workload.antt =====
-- workload.go: the command line of a standalone run. Package flag splits the arguments into calls of
-- Set, and strconv reads and writes numbers: both are parameters, and `wrap` is the error that package
-- flag makes of one that Set returns. The health checks of runner.go and their names in
-- internal/libhegel/libhegel_string.go.
pub mod Checks
use Prim.Native.String.{◌++◌ as cat}
use hegel_go.Prelude.{
  ℕ, ◌-◌, ◌^◌, String, Bool, true, false, Option, none, some, List, [], ◌∷◌, ◌++◌, ◌==◌, str_eq,
  if◌then◌else◌,
}
use hegel_go.Prelude.Int.{ℤ, pos}
use hegel_go.Errors.{Err, Message, unknown_health_check}
use hegel_go.Flow.{Result, ok, err}
use hegel_go.Settings.{
  RunOption, with_output, with_test_cases, with_derandomize, with_database, suppress_health_check,
}

-- FilterTooMuch, TooSlow, TestCasesTooLarge and LargeInitialTestCase
unfoldable pub all_health_checks : List ℕ
all_health_checks = 1 ∷ 2 ∷ 4 ∷ 8 ∷ []

-- math.MaxInt
abbrev pub max_int : ℤ
max_int = pos (2 ^ 63 - 1)

-- The calls of Set, in the order of the arguments.
pub data Assignment : Type 0 where
  test_cases derandomize database suppress : String → Assignment

-- The flags that were set, with their values.
pub record Flags : Type 0 where
  pub test_cases_flag : Option ℤ
  pub derandomize_flag : Option Bool
  pub database_flag : Option String
  pub suppressed : Option (List ℕ)

abbrev pub no_flags : Flags
no_flags = record {
  test_cases_flag = none;
  derandomize_flag = none;
  database_flag = none;
  suppressed = none;
}

-- How the arguments end: with nothing left, with --help, or with what package flag refuses.
pub data Ending : Type 0 where
  finished help : Ending
  malformed : Err → Ending

-- How a workload ends before it runs anything, or the options of its run.
pub data Start : Type 0 where
  usage : Start
  refused : Err → Start
  starts : List RunOption → Start

module _ (format_int : ℕ → String) where
  -- HealthCheck.String
  unfoldable pub health_check_string : ℕ → String
  health_check_string i =
      if i == 1
      then "filter_too_much"
      else if i == 2
      then "too_slow"
      else if i == 4
      then "test_cases_too_large"
      else if i == 8
      then "large_initial_test_case"
      else cat "HealthCheck(" (cat (format_int i) ")")

  unfoldable pub find_health_check : String → List ℕ → Result ℕ
  unfolding health_check_string
  find_health_check name [] = err (Err.message (unknown_health_check name))
  find_health_check name (hc ∷ hcs) =
      let rest = find_health_check name hcs in
      if str_eq (health_check_string hc) name then ok hc else rest

  -- parseHealthCheck
  unfoldable pub parse_health_check : String → Result ℕ
  unfolding find_health_check all_health_checks
  parse_health_check name = find_health_check name all_health_checks

  module _ (atoi : String → Result ℤ) (parse_bool : String → Result Bool)
      (wrap : Assignment → Err → Err) where
    checks_so_far : Option (List ℕ) → List ℕ
    checks_so_far none = []
    checks_so_far (some checks) = checks

    set_with {ℓ} : {A : Type ℓ} → Result A → (A → Flags) → Result Flags
    set_with (ok a) f = ok (f a)
    set_with (err e) f = err e

    -- The Set of each flag.
    unfoldable pub set_flag : Assignment → Flags → Result Flags
    unfolding set_with parse_health_check checks_so_far
    set_flag (test_cases text) f = set_with (atoi text) (λ n. record f { test_cases_flag = some n })
    set_flag (derandomize text) f =
        set_with (parse_bool text) (λ b. record f { derandomize_flag = some b })
    set_flag (database text) f = ok (record f { database_flag = some text })
    set_flag (suppress text) f =
        set_with (parse_health_check text)
          (λ hc. record f { suppressed = some (checks_so_far f.suppressed ++ hc ∷ []) })

    -- Parse: the first Set that fails ends it.
    unfoldable pub parse_flags : List Assignment → Flags → Result Flags
    unfolding set_flag
    parse_flags [] f = ok f
    parse_flags (a ∷ later) f = elim (set_flag a f) [
      | err e ↦ err (wrap a e)
      | ok f' ↦ parse_flags later f'
    ]

    option_of {ℓ} : {A : Type ℓ} → (A → RunOption) → Option A → List RunOption
    option_of option none = []
    option_of option (some a) = option a ∷ []

    -- Visit, which goes over the flags that were set in the order of their names.
    unfoldable pub flag_options : Flags → List RunOption
    unfolding option_of
    flag_options f =
        option_of with_database f.database_flag
        ++ option_of with_derandomize f.derandomize_flag
        ++ option_of suppress_health_check f.suppressed
        ++ option_of with_test_cases f.test_cases_flag

    unfoldable pub workload_options : Option (List String) → List RunOption → Flags → List RunOption
    unfolding flag_options
    workload_options stdout opts f =
        with_test_cases max_int ∷ (opts ++ flag_options f ++ with_output stdout ∷ [])

    -- workload, up to its call of run
    unfoldable pub workload :
        List Assignment → Ending → Option (List String) → List RunOption → Start
    unfolding parse_flags workload_options
    workload args ending stdout opts = elim (parse_flags args no_flags) [
      | err e ↦ refused e
      | ok f ↦ elim ending [
        | finished ↦ starts (workload_options stdout opts f)
        | help ↦ usage
        | malformed e ↦ refused e
      ]
    ]
