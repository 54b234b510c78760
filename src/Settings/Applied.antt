-- ===== src/Settings/Applied.antt =====
-- runner.go: what buildSettings does with the recorded settings, and the order of Test's options.
use hegel_go.Prelude.{
  ◌≡◌, refl, String, Bool, true, false, ◌&&◌, Option, none, some, List, [], ◌∷◌, ◌++◌, append_assoc,
  if◌then◌else◌,
}
use hegel_go.Errors.{Err, ErrorCode, code_eq, code_value}
use hegel_go.Flow.{ok, returns, succeeds}
use hegel_go.Flow.Fallible.{◌>>=◌}
use hegel_go.Engine.{Engine, Handle, Setting}
use hegel_go.Settings.{
  RunOptions, RunOption, apply_setting, apply_settings, join, build_settings, built, apply_recorded,
  initial_settings, error_for, apply_options, test_options, with_database_key, with_output,
  with_test_cases, add_setting,
}

module _ ⦃eng : Engine⦄ where
  open eng use {World}

  -- The library's state after all settings, each applied to the state that the one before left.
  abbrev pub settled : Handle → List Setting → World → World
  settled s [] w = w
  settled s (setting ∷ rest) w = settled s rest (eng.settings_apply s setting w).1

  -- Whether the library accepts every setting.
  abbrev pub all_accepted : Handle → List Setting → World → Bool
  all_accepted s [] w = true
  all_accepted s (setting ∷ rest) w =
      code_eq (eng.settings_apply s setting w).0 ErrorCode.ok
      && all_accepted s rest (eng.settings_apply s setting w).1

  is_none : Option Err → Bool
  is_none none = true
  is_none (some e) = false

  join-is_none : (a b : Option Err) → is_none (join a b) ≡ (is_none a && is_none b)
  unfolding is_none join
  join-is_none none b = refl
  join-is_none (some a) none = refl
  join-is_none (some a) (some b) = refl

  error_for-is_none :
      (op : String) (c : ErrorCode) (w : World)
      → is_none (error_for op c w) ≡ code_eq c ErrorCode.ok
  unfolding is_none error_for code_eq code_value
  error_for-is_none op ErrorCode.ok w = refl
  error_for-is_none op ErrorCode.stop_test w = refl
  error_for-is_none op ErrorCode.assume w = refl
  error_for-is_none op ErrorCode.backend w = refl
  error_for-is_none op ErrorCode.invalid_handle w = refl
  error_for-is_none op ErrorCode.invalid_arg w = refl
  error_for-is_none op ErrorCode.already_complete w = refl
  error_for-is_none op ErrorCode.not_complete w = refl
  error_for-is_none op ErrorCode.internal w = refl
  error_for-is_none op ErrorCode.concurrent_use w = refl
  error_for-is_none op ErrorCode.retry w = refl
  error_for-is_none op ErrorCode.not_found w = refl

  apply_settings-world :
      (h : Handle) (xs : List Setting) (w : World) → (apply_settings h xs w).1 ≡ settled h xs w
  unfolding apply_settings apply_setting
  apply_settings-world h [] w = refl
  apply_settings-world h (x ∷ xs) w = apply_settings-world h xs (eng.settings_apply h x w).1

  apply_settings-error :
      (h : Handle) (xs : List Setting) (w : World)
      → is_none (apply_settings h xs w).0 ≡ all_accepted h xs w
  unfolding apply_settings apply_setting is_none
  apply_settings-error h [] w = refl
  apply_settings-error h (x ∷ xs) w =
      rw (join-is_none, error_for-is_none, apply_settings-error h xs (eng.settings_apply h x w).1)

  succeeds-built : (h : Handle) (e : Option Err) → succeeds (built h e) ≡ is_none e
  unfolding built is_none
  succeeds-built h none = refl
  succeeds-built h (some e) = refl

  -- When the library gives a settings object h, buildSettings applies every recorded setting to it
  -- in the recorded order, also after one that was rejected, and succeeds exactly when the library
  -- accepts all of them.
  pub build_settings_lem :
      (o : RunOptions) (h : Handle) (w w' : World)
      → initial_settings o w ≡ (returns (ok (some h)), w')
      → ((build_settings o w).1 ≡ settled h o.settings_appliers w')
        × (succeeds (build_settings o w).0 ≡ all_accepted h o.settings_appliers w')
  unfolding build_settings ◌>>=◌ apply_recorded
  build_settings_lem o h w w' e = (
    rw (e, apply_settings-world h o.settings_appliers w'),
    rw (e, succeeds-built, apply_settings-error h o.settings_appliers w'),
  )

apply_options-append :
    (xs ys : List RunOption) (o : RunOptions)
    → apply_options (xs ++ ys) o ≡ apply_options ys (apply_options xs o)
unfolding apply_options
apply_options-append [] ys o = refl
apply_options-append (x ∷ xs) ys o = apply_options-append xs ys (x o)

-- Test records its own settings after all of the caller's: the database key, and in short mode then
-- the ten test cases.
pub test_options_last :
    (short : Bool) (name : String) (out : Option (List String)) (opts : List RunOption)
    (o : RunOptions)
    → (apply_options (test_options short name out opts) o).settings_appliers
      ≡ (apply_options opts o).settings_appliers
        ++ (if short
            then Setting.database_key name ∷ Setting.test_cases 10 ∷ []
            else Setting.database_key name ∷ [])
unfolding test_options apply_options with_database_key with_output with_test_cases add_setting
test_options_last false name out opts o = rw apply_options-append
test_options_last true name out opts o =
    rw (apply_options-append, apply_options-append, append_assoc)
