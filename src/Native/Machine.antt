-- ===== src/Native/Machine.antt =====
-- The calls of internal/libhegel/libhegel.go that drive a state machine and its workers' handles.
use hegel_go.Prelude.{◌-◌, ◌^◌, String, Bool, Option, List, length, not, ◌==◌, if◌then◌else◌}
use hegel_go.Prelude.Int.{ℤ, negsuc}
use hegel_go.Errors.{Err, ErrorCode, length_mismatch}
use hegel_go.Flow.Fallible.{Fallible, pure, fail, ◌>>=◌}
use hegel_go.Engine.{Engine, Handle}
use hegel_go.Native.{invoke, allocate, no_out, to_pointer}

-- StateMachineDone, math.MinInt64
abbrev pub state_machine_done : ℤ
state_machine_done = negsuc (2 ^ 63 - 1)

module _ ⦃eng : Engine⦄ where
  open eng use {World}

  unfoldable pub clone : Handle → Fallible World (Option Handle)
  unfolding allocate
  clone tc = allocate "hegel_test_case_clone" (eng.clone tc)

  -- Free, of a handle that is not null and has not been freed.
  unfoldable pub free : Handle → World → World
  free tc w = eng.free tc w

  unfoldable pub set_worker : Handle → ℤ → Fallible World (Unit {0})
  unfolding invoke
  set_worker tc i = invoke "hegel_test_case_set_worker" (no_out (eng.set_worker tc i))

  -- The null handle with the concurrency level that the library drew.
  with_level : (World → ErrorCode × Handle × ℤ × World) → World → ErrorCode × (Handle × ℤ) × World
  with_level fn w = let (c, raw, level, w') = fn w in (c, (raw, level), w')

  -- The weights are nil, and the lists of flags and groups are never nil.
  unfoldable pub new_state_machine :
      Handle
      → List String
      → List ℤ
      → List String
      → List Bool
      → ℤ
      → ℤ
      → ℤ
      → Fallible World (Option Handle × ℤ)
  unfolding invoke to_pointer with_level
  new_state_machine tc rules groups invariants always least most steps =
      if not (length groups == length rules)
      then fail (Err.message (length_mismatch "rule groups" (length groups) (length rules)))
      else if not (length always == length invariants)
      then fail
          (Err.message (length_mismatch "always-check flags" (length always) (length invariants)))
      else (do
        made ←
            invoke "hegel_new_state_machine" (
              with_level (eng.new_state_machine tc rules groups invariants always least most steps))
        pure (to_pointer made.0, made.1))

  unfoldable pub next_group : Handle → Handle → Fallible World ℤ
  unfolding invoke
  next_group tc machine = invoke "hegel_state_machine_next_group" (eng.next_group tc machine)

  unfoldable pub next_rule : Handle → Handle → ℤ → Fallible World ℤ
  unfolding invoke
  next_rule tc machine i = invoke "hegel_state_machine_next_rule" (eng.next_rule tc machine i)

  unfoldable pub rule_rejected : Handle → Handle → ℤ → Fallible World (Unit {0})
  unfolding invoke
  rule_rejected tc machine i =
      invoke "hegel_state_machine_rule_rejected" (no_out (eng.rule_rejected tc machine i))

  unfoldable pub should_check_invariant : Handle → Handle → ℤ → Fallible World Bool
  unfolding invoke
  should_check_invariant tc machine i =
      invoke "hegel_state_machine_should_check_invariant" (eng.should_check_invariant tc machine i)
