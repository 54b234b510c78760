-- ===== src/Settings.antt =====
-- runner.go: the options of a run. An option records a setting, and buildSettings applies what was
-- recorded to the library's settings object.
pub mod Applied
use hegel_go.Prelude.{
  ℕ, zero, suc, ◌+◌, ◌*◌, ◌/◌, ◌%◌, String, Bool, Option, none, some, List, [], ◌∷◌, ◌++◌,
  if◌then◌else◌, str_eq,
}
use hegel_go.Prelude.Int.{ℤ, to_uint64}
use hegel_go.Errors.{Err, ErrorCode, Cause, Message}
use hegel_go.Flow.{Flow, Result, ok, err, returns, panics, exhausted}
use hegel_go.Flow.Fallible.{Fallible, pure, fail, ◌>>=◌}
use hegel_go.Engine.{Engine, Handle, Setting}
use hegel_go.Native.Run.{settings_new, settings_new_for_profile}

pub record RunOptions : Type 0 where
  pub settings_appliers : List Setting
  pub profile : String
  pub output : Option (List String)

abbrev pub no_options : RunOptions
no_options = record { settings_appliers = []; profile = ""; output = none }

-- Option
abbrev pub RunOption : Type 0
RunOption = RunOptions → RunOptions

unfoldable pub add_setting : Setting → RunOption
add_setting apply o = record o { settings_appliers = o.settings_appliers ++ apply ∷ [] }

unfoldable pub with_profile : String → RunOption
with_profile name o = record o { profile = name }

unfoldable pub with_output : Option (List String) → RunOption
with_output w o = record o { output = w }

unfoldable pub with_test_cases : ℤ → RunOption
unfolding add_setting
with_test_cases n = add_setting (Setting.test_cases (to_uint64 n))

-- a | b on w-bit integers
unfoldable pub bit_or : ℕ → ℕ → ℕ → ℕ
bit_or zero a b = 0
bit_or (suc w) a b = (a % 2 + b % 2 + 1) / 2 + 2 * bit_or w (a / 2) (b / 2)

unfoldable pub mask : List ℕ → ℕ → ℕ
unfolding bit_or
mask [] acc = acc
mask (flag ∷ flags) acc = mask flags (bit_or 32 acc flag)

unfoldable pub suppress_health_check : List ℕ → RunOption
unfolding add_setting mask
suppress_health_check checks = add_setting (Setting.suppress_health_check (mask checks 0))

unfoldable pub with_phases : List ℕ → RunOption
unfolding add_setting mask
with_phases phases = add_setting (Setting.phases (mask phases 0))

unfoldable pub with_database : String → RunOption
unfolding add_setting
with_database path = add_setting (Setting.database path)

unfoldable pub with_database_key : String → RunOption
unfolding add_setting
with_database_key key = add_setting (Setting.database_key key)

unfoldable pub with_derandomize : Bool → RunOption
unfolding add_setting
with_derandomize derandomize = add_setting (Setting.derandomize derandomize)

unfoldable pub with_seed : ℤ → RunOption
unfolding add_setting
with_seed seed = add_setting (Setting.seed (to_uint64 seed) Bool.true)

unfoldable pub with_backend : ℕ → RunOption
unfolding add_setting
with_backend b = add_setting (Setting.backend b)

unfoldable pub with_verbosity : ℕ → RunOption
unfolding add_setting
with_verbosity v = add_setting (Setting.verbosity v)

unfoldable pub with_report_multiple_failures : Bool → RunOption
unfolding add_setting
with_report_multiple_failures report = add_setting (Setting.report_multiple_failures report)

unfoldable pub with_statistics : Bool → RunOption
unfolding add_setting
with_statistics show = add_setting (Setting.show_statistics show)

unfoldable pub with_reproduction_blob : Bool → RunOption
unfolding add_setting
with_reproduction_blob show = add_setting (Setting.print_blob show)

-- `for _, opt := range opts { opt(&o) }`
unfoldable pub apply_options : List RunOption → RunOptions → RunOptions
apply_options [] o = o
apply_options (opt ∷ opts) o = apply_options opts (opt o)

-- The options that Test passes to run.
unfoldable pub test_options : Bool → String → Option (List String) → List RunOption → List RunOption
unfolding with_database_key with_output with_test_cases
test_options short name out opts =
    let all = opts ++ with_database_key name ∷ with_output out ∷ [] in
    if short then all ++ with_test_cases (ℤ.pos 10) ∷ [] else all

module _ ⦃eng : Engine⦄ where
  open eng use {World}

  setting_op : Setting → String
  setting_op (Setting.test_cases n) = "hegel_settings_set_test_cases"
  setting_op (Setting.suppress_health_check n) = "hegel_settings_set_suppress_health_check"
  setting_op (Setting.phases n) = "hegel_settings_set_phases"
  setting_op (Setting.backend n) = "hegel_settings_set_backend"
  setting_op (Setting.verbosity n) = "hegel_settings_set_verbosity"
  setting_op (Setting.database path) = "hegel_settings_set_database"
  setting_op (Setting.database_key key) = "hegel_settings_set_database_key"
  setting_op (Setting.derandomize on) = "hegel_settings_set_derandomize"
  setting_op (Setting.report_multiple_failures on) = "hegel_settings_set_report_multiple_failures"
  setting_op (Setting.show_statistics on) = "hegel_settings_set_show_statistics"
  setting_op (Setting.print_blob on) = "hegel_settings_set_print_blob"
  setting_op (Setting.seed n has_seed) = "hegel_settings_set_seed"
  setting_op (Setting.test_location file line class function) = "hegel_settings_set_test_location"

  error_for : String → ErrorCode → World → Option Err
  error_for op ErrorCode.ok w = none
  error_for op c w = some (Err.native op c (eng.context_last_error w))

  -- One call of a settings symbol through Context.invoke: its error, or nil.
  unfoldable pub apply_setting : Handle → Setting → World → Option Err × World
  unfolding setting_op error_for
  apply_setting s setting w =
      let (c, w') = eng.settings_apply s setting w in (error_for (setting_op setting) c w', w')

  -- errors.Join, where nil errors are dropped
  unfoldable pub join : Option Err → Option Err → Option Err
  join none b = b
  join (some a) none = some a
  join (some a) (some b) = some (Err.join a b)

  unfoldable pub apply_settings : Handle → List Setting → World → Option Err × World
  unfolding apply_setting join
  apply_settings s [] w = (none, w)
  apply_settings s (setting ∷ rest) w =
      let (e, w1) = apply_setting s setting w in
      let (es, w2) = apply_settings s rest w1 in (join e es, w2)

  unfoldable pub initial_settings : RunOptions → Fallible World (Option Handle)
  unfolding settings_new settings_new_for_profile
  initial_settings o =
      if str_eq o.profile "" then settings_new else settings_new_for_profile o.profile

  built : Handle → Option Err → Flow (Result (Option Handle))
  built h none = returns (ok (some h))
  built h (some e) = returns (err e)

  apply_recorded : RunOptions → Option Handle → Fallible World (Option Handle)
  unfolding apply_settings built
  apply_recorded o none w = (panics (Cause.value Message.nil_dereference) (eng.callers w), w)
  apply_recorded o (some h) w =
      let (e, w') = apply_settings h o.settings_appliers w in (built h e, w')

  -- A null settings object without an error is a nil pointer, and the first option panics on it.
  unfoldable pub build_settings : RunOptions → Fallible World (Option Handle)
  unfolding ◌>>=◌ initial_settings apply_recorded
  build_settings o = initial_settings o >>= apply_recorded o
