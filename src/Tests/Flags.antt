-- ===== src/Tests/Flags.antt =====
-- The health checks of a workload at a concrete name.
use hegel_go.Prelude.{ℕ, ◌≡◌, refl, String, Bool, true, none, [], ◌∷◌, ◌↔◌}
use hegel_go.Prelude.Int.{ℤ, pos}
use hegel_go.Errors.{Err, unknown_health_check}
use hegel_go.Flow.{Result, ok}
use hegel_go.Settings.{with_output, with_test_cases, with_derandomize, suppress_health_check}
use hegel_go.Workload.{
  Assignment, test_cases, derandomize, suppress, finished, starts, refused, max_int,
  health_check_string, find_health_check, parse_health_check, all_health_checks, set_flag,
  parse_flags, flag_options, workload_options, workload,
}
use hegel_go.Workload.Checks.{IsHealthCheck, parse_health_check_iff}

abbrev digits : ℕ → String
digits n = "n"

abbrev seven : String → Result ℤ
seven text = ok (pos 7)

abbrev truth : String → Result Bool
truth text = ok true

abbrev unchanged : Assignment → Err → Err
unchanged a e = e

parse_health_check_iff_example :
    (parse_health_check digits "too_slow" ≡ ok 2)
    ↔ (IsHealthCheck 2 × (health_check_string digits 2 ≡ "too_slow"))
parse_health_check_iff_example = parse_health_check_iff digits "too_slow" 2

-- The flags come after the given options, in the order of their names.
flags_after_options :
    workload digits seven truth unchanged
      (test_cases "7" ∷ suppress "too_slow" ∷ derandomize "true" ∷ suppress "filter_too_much" ∷ [])
      finished
      none
      (with_test_cases (pos 3) ∷ [])
    ≡ starts (
        with_test_cases max_int
        ∷ with_test_cases (pos 3)
        ∷ with_derandomize true
        ∷ suppress_health_check (2 ∷ 1 ∷ [])
        ∷ with_test_cases (pos 7)
        ∷ with_output none
        ∷ [])
unfolding workload parse_flags set_flag parse_health_check find_health_check all_health_checks
    health_check_string workload_options flag_options
flags_after_options = refl

unknown_check_refused :
    workload digits seven truth unchanged (suppress "slow" ∷ []) finished none []
    ≡ refused (Err.message (unknown_health_check "slow"))
unfolding workload parse_flags set_flag parse_health_check find_health_check all_health_checks
    health_check_string
unknown_check_refused = refl
