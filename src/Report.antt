-- ===== src/Report.antt =====
-- runner.go: where a test case's report goes. The stack frames that name a failure's origin, the
-- destination's writer, and the printing of an outcome.
pub mod Frames
use hegel_go.Prelude.{
  ℕ, String, Bool, true, not, ◌&&◌, ◌||◌, Option, none, some, List, [], ◌∷◌, ◌++◌, if◌then◌else◌,
  str_eq, starts_with,
}
use hegel_go.Errors.{Err, Message, Frame, Cause, Invocation, as_invocation}
use hegel_go.Flow.{ok, err, returns}
use hegel_go.Flow.Exec.{Exec}
use hegel_go.Flow.Exec
use hegel_go.Flow.Fallible.{Fallible}
use hegel_go.Flow.Fallible
use hegel_go.Engine.{Engine}
use hegel_go.Native
use hegel_go.Native.Run
use hegel_go.TestCase.{TestCase, native, dereference}

-- "hegel.dev/go/hegel", then the end, a '.' or a '/'
unfoldable pub is_hegel_frame : String → Bool
is_hegel_frame fn =
    starts_with fn "hegel.dev/go/hegel"
    && (str_eq fn "hegel.dev/go/hegel"
        || (starts_with fn "hegel.dev/go/hegel." || starts_with fn "hegel.dev/go/hegel/"))

unfoldable pub is_not_hegel_frame : String → Bool
unfolding is_hegel_frame
is_not_hegel_frame fn = not (is_hegel_frame fn)

unfoldable pub any_frame : String → Bool
any_frame fn = true

-- An empty stack yields one empty frame, as runtime.Frames.Next does.
unfoldable pub find_caller_frame : List Frame → (String → Bool) → Option Frame
find_caller_frame [] filter =
    if filter "" then some (record { function = ""; file = ""; line = 0; pc = 0 }) else none
find_caller_frame (frame ∷ []) filter = if filter frame.function then some frame else none
find_caller_frame (frame ∷ more ∷ rest) filter =
    if filter frame.function then some frame else find_caller_frame (more ∷ rest) filter

module _ ⦃eng : Engine⦄ where
  pub origin_of : Option Frame → String
  origin_of none = "<unknown>:0 (0x0)"
  origin_of (some frame) = eng.frame_origin frame

  unfoldable pub find_caller : List Frame → (String → Bool) → String
  unfolding find_caller_frame origin_of
  find_caller pcs filter = origin_of (find_caller_frame pcs filter)

  -- io.WriteString to the destination
  unfoldable pub write : String → Fallible TestCase (Unit {0})
  unfolding Fallible.pure Fallible.fail
  write text s = elim s.out [
    | none ↦ (returns (ok tt), s)
    | some texts ↦
        if eng.writer_accepts texts text
        then (returns (ok tt), record s { out = some (texts ++ text ∷ []) })
        else (returns (err (Err.message Message.writer_failed)), s)
  ]

  -- The error of Resolve is dropped, that of Value is returned.
  unfoldable pub flush_native_output : Fallible TestCase (Unit {0})
  unfolding Fallible.◌>>=◌ native dereference write Native.Run.printer_resolve
      Native.Run.printer_value
  flush_native_output s = elim s.out [
    | none ↦ (returns (ok tt), s)
    | some _ ↦
        Exec.◌>>=◌ (dereference s.printer)
          (λ p.
            Exec.◌>>=◌ (native (λ _. Native.Run.printer_resolve p))
              (λ _. Fallible.◌>>=◌ (native (λ _. Native.Run.printer_value p)) write))
          s
  ]

  -- errors.AsType[*workerError]
  pub as_worker : Err → Option ℕ
  as_worker (Err.worker_error w e) = some w
  as_worker (Err.join a b) = elim (as_worker a) [ none ↦ as_worker b | some w ↦ some w ]
  as_worker (Err.invocation kind status (Cause.error_value e) pcs) = as_worker e
  as_worker _ = none

  -- fmt.Fprintf, whose error is dropped
  print : String → TestCase → TestCase
  unfolding write
  print text s = (write text s).1

  pub print_frames : List Frame → TestCase → TestCase
  unfolding print
  print_frames [] s =
      print (eng.frame_trace (record { function = ""; file = ""; line = 0; pc = 0 })) s
  print_frames (frame ∷ []) s = print (eng.frame_trace frame) s
  print_frames (frame ∷ more ∷ rest) s =
      print_frames (more ∷ rest) (print (eng.frame_trace frame) s)

  unfoldable pub print_outcome : Option ℕ → Option Invocation → TestCase → TestCase
  unfolding print_frames print
  print_outcome worker none s = s
  print_outcome worker (some i) s = elim s.out [
    | none ↦ s
    | some _ ↦ print_frames i.pcs (print (eng.report_header i.kind worker i.cause) s)
  ]

  unfoldable pub format_invocation_result : Option Err → TestCase → TestCase
  unfolding print_outcome as_worker
  format_invocation_result none s = s
  format_invocation_result (some e) s = print_outcome (as_worker e) (as_invocation e) s
