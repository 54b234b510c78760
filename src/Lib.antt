-- ===== src/Lib.antt =====
-- hegel-go, the Go front end of the libhegel property-testing library, modelled from its source.
-- The program asks the library for test cases, runs the user's body on each, draws values through the
-- library inside spans, turns the body's outcome into a status, and reports the failures of the run.
-- libhegel itself is not part of the repository: Engine holds one parameter for each of its symbols.
-- - Errors, Flow (Exec, Fallible, Loop): Go's errors, panics, `(A, error)` results and loops.
-- - Native (Run, Machine, Values): the wrappers of internal/libhegel/libhegel.go and printer.go.
-- - TestCase, Report, Runner: testCase of runner.go, its methods, `invoke`, `run` and their output.
-- - Settings, Session, Replay, Campaign: the options and runWithContext of runner.go with its replays.
-- - Generator, Balance: generators.go, composite.go, combinators.go, Just and SampledFrom.
-- - Collection, Lists: the collection protocol of runner.go and collections.go.
-- - Stateful, Workgroup: the configuration of stateful.go's machines, and what its workers report.
-- - Crew, Machine: stateMachine.Run and RunStateful, with the workers of a round.
-- - Recursive: recursive.go. Numbers, Text, Strings, Dates: primitives.go, the addresses of combinators.go
--   and uuid.go. Default (Shapes): the generators that default.go derives from a type.
-- - Workload: the flags of workload.go and the names of the health checks.
-- - BigInt: the two's-complement integers of internal/libhegel/libhegel.go. Pool: pool.go.
-- - Tests: a small library to run the model against, and the theorems at concrete inputs.
-- A method of *testCase acts on the record TestCase, whose `world` is the library's state; handles of
-- one run share it. A nil pointer is an Option, and reading it panics. A call of fmt is a parameter or
-- stands as a constructor of Message. The loops over a collection and over the test cases of a run end
-- when the library says so, and take fuel for that: enough is one round more than the library
-- grants. The byte loops of BigInt take nine rounds, which are enough for 64 bits. A mutex makes each
-- method of a Pool one step.
-- The goroutines of a round are interleaved between the rules that they run: a schedule, a list of
-- turns for each round, is an argument, and their results arrive in the order in which they end. The
-- rounds of a run take fuel, one more than the library grants. A recursive draw takes fuel for the
-- nesting of its subtrees, enough with one more than the depth limit, and for its attempts. A derived
-- generator takes fuel for the nesting of its type: as no type may contain itself, enough is one more
-- than the number of different types that it reaches.
-- Not modelled: draw-report names, the cache of Default and the checks of its options, the printer and
-- grammar bindings, and the loading of the library.
pub mod Prelude
pub mod Errors
pub mod Flow
pub mod Engine
pub mod Native
pub mod Settings
pub mod Report
pub mod Runner
pub mod Session
pub mod Replay
pub mod Campaign
pub mod TestCase
pub mod Generator
pub mod Collection
pub mod Lists
pub mod Balance
pub mod BigInt
pub mod Pool
pub mod Workgroup
pub mod Stateful
pub mod Recursive
pub mod Crew
pub mod Machine
pub mod Numbers
pub mod Text
pub mod Strings
pub mod Dates
pub mod Default
pub mod Workload
mod Tests
