-- ===== src/Native/Run/Laws.antt =====
-- internal/libhegel/libhegel.go: what the library has answered when a wrapper gives a value.
use hegel_go.Prelude.{◌≡◌, String, some, arith, Bool}
use hegel_go.Errors.{ErrorCode}
use hegel_go.Flow.{ok, returns}
use hegel_go.Flow.Fallible.{◌>>=◌, pure}
use hegel_go.Engine.{Engine, Handle}
use hegel_go.Native.{invoke, invoke_result, allocate, to_pointer}
use hegel_go.Native.Run.{run_passed, run_status_of, out_or, ignoring, status, run_start, run_result}

module _ ⦃eng : Engine⦄ where
  -- A call that succeeded with a handle.
  abbrev pub Gave : ErrorCode × Handle × eng.World → Handle → Type 0
  Gave r h = (r.0 ≡ ErrorCode.ok) × (r.1 ≡ h)

  allocate-Gave :
      (op : String) (f : eng.World → ErrorCode × Handle × eng.World) (w : eng.World) (h : Handle)
      → (allocate op f w).0 ≡ returns (ok (some h))
      → Gave (f w) h
  unfolding allocate invoke invoke_result to_pointer ◌>>=◌ pure
  allocate-Gave op f w h e = ground arith

  pub run_start-Gave :
      (s : Handle) (out : Bool) (w : eng.World) (h : Handle)
      → (run_start s out w).0 ≡ returns (ok (some h))
      → Gave (eng.run_start s out w) h
  unfolding run_start
  run_start-Gave s out w h = allocate-Gave _ (eng.run_start s out) w h

  pub run_result-Gave :
      (run : Handle) (w : eng.World) (h : Handle)
      → (run_result run w).0 ≡ returns (ok (some h))
      → Gave (eng.run_result run w) h
  unfolding run_result
  run_result-Gave run w h = allocate-Gave _ (eng.run_result run) w h

  pub run_result-world :
      (run : Handle) (w : eng.World) → (run_result run w).1 ≡ (eng.run_result run w).2
  unfolding run_result allocate invoke invoke_result to_pointer ◌>>=◌ pure
  run_result-world run w = ground arith

  -- The status is read as PASSED only when the call succeeded with 0, the value of PASSED.
  pub status-passed :
      (result : Handle) (w : eng.World)
      → (status result w).0 ≡ returns run_passed
      → ((eng.result_status result w).0 ≡ ErrorCode.ok)
        × ((eng.result_status result w).1 ≡ 0)
        × ((status result w).1 ≡ (eng.result_status result w).2)
  unfolding status ignoring out_or invoke invoke_result run_status_of
  status-passed result w e = ground arith
