-- ===== src/Tests/Witnesses.antt =====
-- The theorems on drawing, collections, integers and pools at concrete inputs.
use hegel_go.Prelude.{
  ℕ, ◌≡◌, ◌≤◌, ◌%◌, refl, arith, ◌↔◌, Bool, true, false, not, none, some, List, [], ◌∷◌, ◌==◌,
  length, All,
}
use hegel_go.Prelude.Int.{ℤ, pos, negsuc}
use hegel_go.Errors.{Err, Message, min_size_negative}
use hegel_go.Flow.{Flow, Result, ok, err, returns}
use hegel_go.Flow.Loop.{loop}
use hegel_go.Flow.Fallible.{◌>>=◌}
use hegel_go.Native
use hegel_go.TestCase.{
  TestCase, native, start_span, stop_span, dereference, must, or_abort, in_span,
}
use hegel_go.Generator.{Generator, draw, filtered, composite, draw_or_abort}
use hegel_go.Flow.Exec.{Exec}
use hegel_go.Flow.Exec
use hegel_go.Generator.Spans.{OnlyWorld}
use hegel_go.Generator.Filter.{
  rejected, accepted, Attempts, again, accept, filtered-satisfies, filtered-Attempts,
}
use hegel_go.Balance.{Built, Callback, draw_balanced}
use hegel_go.Lists.{Sizes, lists, unique_lists_by, maps, check_sizes, finish}
use hegel_go.Lists.Config.{IsValid, check_sizes_iff, invalid_sizes}
use hegel_go.Lists.Distinct.{Distinct, unique_lists_by-Distinct}
use hegel_go.Lists.{MapVars, map_round}
use hegel_go.Lists.Entries.{Extends, map_loop-Extends}
use hegel_go.Collection.{Collection, new_collection, more, reject, closed, collection_err}
use hegel_go.Collection.Laws.{more_answers, ask, refuse, calls, noes, more_final}
use hegel_go.BigInt.{signed_bytes, new_big_int_unsigned, new_big_int_signed, uint64, decode}
use hegel_go.BigInt.Unsigned.{big_int_round_trip}
use hegel_go.BigInt.Signed.{new_big_int_signed_exact}
use hegel_go.Pool.Store.{IsMap, same_id, find}
use hegel_go.Pool.{Pool, add, draw as draw_pool}
use hegel_go.Pool.Refinement.{Drawn, Added, draw-Drawn, add-Added}
use hegel_go.Prelude.{◌≢◌, ◌<◌}
use hegel_go.Errors.{ErrorCode}
use hegel_go.Flow.{exhausted}
use hegel_go.Lists.Termination.{Bounded, DrawEnds}
use hegel_go.Lists.Fuel.{draws_end}
use hegel_go.Tests.{Tape, read_bit, toy, tape, case_on}

abbrev digits : Generator ⦃eng = toy⦄ ℤ
digits = record { typ = 2; draw_value = native (λ h. Native.generate_integer h (pos 0) (pos 9)) }

abbrev is_even : ℤ → Bool
is_even (pos n) = n % 2 == 0
is_even (negsuc n) = false

-- The second attempt draws an even number.
attempts :
    Attempts ⦃eng = toy⦄ digits is_even 3
      (case_on (tape [] (pos 3 ∷ pos 4 ∷ [])))
      (ok (pos 4))
      (case_on (tape [] []))
unfolding draw start_span stop_span native Native.start_span Native.stop_span
    Native.generate_integer ◌>>=◌
attempts =
    again
      (rejected (record (case_on (tape [] (pos 3 ∷ pos 4 ∷ []))) { depth = pos 1 })
        (record (case_on (tape [] (pos 4 ∷ []))) { depth = pos 1 }) (pos 3) refl refl refl refl)
      (accept (pos 4) (
        accepted (record (case_on (tape [] (pos 4 ∷ []))) { depth = pos 1 })
          (record (case_on (tape [] [])) { depth = pos 1 }) refl refl refl refl))

filtered-Attempts_example :
    (filtered ⦃eng = toy⦄ 5 digits is_even).draw_value (case_on (tape [] (pos 3 ∷ pos 4 ∷ [])))
    ≡ (returns (ok (pos 4)), case_on (tape [] []))
filtered-Attempts_example = filtered-Attempts digits is_even 5 _ _ _ attempts

filtered-satisfies_example : is_even (pos 4) ≡ true
filtered-satisfies_example =
    filtered-satisfies digits is_even 5 (case_on (tape [] (pos 3 ∷ pos 4 ∷ [])))
      (case_on (tape [] [])) (pos 4) filtered-Attempts_example

abbrev sizes : ℕ → ℕ → Sizes
sizes lo hi = record { min_size = pos lo; max_size = pos hi; has_max = true }

abbrev three_digits : TestCase ⦃eng = toy⦄
three_digits = case_on (tape (true ∷ true ∷ true ∷ false ∷ []) (pos 3 ∷ pos 3 ∷ pos 5 ∷ []))

-- The second 3 is a duplicate.
unique_run :
    (unique_lists_by ⦃eng = toy⦄ digits (λ x. x) same_id (λ _. true) 5 6 (sizes 0 4)).draw_value
      three_digits
    ≡ (returns (ok (pos 3 ∷ pos 5 ∷ [])), case_on (tape [] []))
unfolding unique_lists_by loop check_sizes same_id draw ◌>>=◌ new_collection native
    Native.new_collection more dereference Native.collection_more start_span Native.start_span
    Native.generate_integer stop_span Native.stop_span reject Native.collection_reject finish
    collection_err
unique_run = refl

unique_lists_by-Distinct_example :
    Distinct same_id (pos 3 ∷ pos 5 ∷ []) × All (λ _. true ≡ true) (pos 3 ∷ pos 5 ∷ [])
unique_lists_by-Distinct_example =
    unique_lists_by-Distinct ⦃eng = toy⦄ digits (λ x. x) same_id (λ _. true) 5 6 (sizes 0 4)
      three_digits (case_on (tape [] [])) (pos 3 ∷ pos 5 ∷ []) unique_run

abbrev two_entries : TestCase ⦃eng = toy⦄
two_entries =
    case_on (tape (true ∷ true ∷ true ∷ false ∷ []) (pos 1 ∷ pos 7 ∷ pos 1 ∷ pos 2 ∷ pos 8 ∷ []))

abbrev entries : List (ℤ × ℤ)
entries = (pos 1, pos 7) ∷ (pos 2, pos 8) ∷ []

-- The second key 1 is a duplicate, and no value is drawn for it.
maps_run :
    (maps ⦃eng = toy⦄ digits digits same_id 5 6 (sizes 0 4)).draw_value two_entries
    ≡ (returns (ok entries), case_on (tape [] []))
unfolding maps loop check_sizes same_id draw ◌>>=◌ new_collection native Native.new_collection more
    dereference Native.collection_more start_span Native.start_span Native.generate_integer
    stop_span Native.stop_span reject Native.collection_reject finish collection_err
maps_run = refl

abbrev open_collection : Collection
open_collection = record { id = some 1; finished = false; error = none }

-- The loop from its second round on.
abbrev one_entry : MapVars ℤ ℤ
one_entry = record { coll = open_collection; result = (pos 1, pos 7) ∷ [] }

abbrev rest_of_entries : TestCase ⦃eng = toy⦄
rest_of_entries = case_on (tape (true ∷ true ∷ false ∷ []) (pos 1 ∷ pos 2 ∷ pos 8 ∷ []))

map_loop_run :
    loop (map_round ⦃eng = toy⦄ digits digits same_id) 5 one_entry rest_of_entries
    ≡ (returns (ok entries), case_on (tape [] []))
unfolding map_round loop same_id draw ◌>>=◌ native more dereference Native.collection_more
    start_span Native.start_span Native.generate_integer stop_span Native.stop_span reject
    Native.collection_reject finish collection_err
map_loop_run = refl

map_loop-Extends_example : Extends ((pos 1, pos 7) ∷ []) entries
map_loop-Extends_example =
    map_loop-Extends ⦃eng = toy⦄ digits digits same_id 5 one_entry rest_of_entries
      (case_on (tape [] [])) entries map_loop_run

-- The callback of a Composite that draws a digit.
abbrev halving : Exec (TestCase ⦃eng = toy⦄) Bool
halving = Exec.◌>>=◌ (draw_or_abort (λ n. "") digits) (λ n. Exec.pure (is_even n))

halved_run :
    draw (composite ⦃eng = toy⦄ 7 halving) (case_on (tape [] (pos 4 ∷ [])))
    ≡ (returns (ok true), case_on (tape [] []))
unfolding composite draw ◌>>=◌ start_span stop_span native Native.start_span Native.stop_span
    Native.generate_integer draw_or_abort must or_abort in_span
halved_run = refl

digits-Built : Built ⦃eng = toy⦄ ℤ digits
digits-Built = Built.primitive 2 (λ h. Native.generate_integer h (pos 0) (pos 9))

draw_balanced_example :
    OnlyWorld ⦃eng = toy⦄ (case_on (tape [] (pos 4 ∷ []))) (case_on (tape [] []))
draw_balanced_example =
    draw_balanced ⦃eng = toy⦄
      (Built.callback 7 (
        Callback.draws (λ n. "") (λ n. Exec.pure (is_even n)) digits-Built
          (λ n. Callback.gives (is_even n))))
      (case_on (tape [] (pos 4 ∷ []))) (case_on (tape [] [])) true halved_run

abbrev finished : Collection
finished = record { id = some 1; finished = true; error = none }

more_run :
    more ⦃eng = toy⦄ open_collection (case_on (tape (false ∷ []) []))
    ≡ (returns (false, finished), case_on (tape [] []))
unfolding more native dereference Native.collection_more
more_run = refl

more_final_example :
    calls ⦃eng = toy⦄ (ask ∷ refuse "late" ∷ ask ∷ []) finished (case_on (tape [] []))
    ≡ (returns (noes ⦃eng = toy⦄ (ask ∷ refuse "late" ∷ ask ∷ []), finished), case_on (tape [] []))
more_final_example =
    more_final ⦃eng = toy⦄ (ask ∷ refuse "late" ∷ ask ∷ []) open_collection finished
      (case_on (tape (false ∷ []) [])) (case_on (tape [] [])) more_run

more_answers_example : (closed finished ≡ not false) × (finished.id ≡ open_collection.id)
more_answers_example =
    more_answers ⦃eng = toy⦄ open_collection finished false (case_on (tape (false ∷ []) []))
      (case_on (tape [] [])) more_run

check_sizes_iff_example : (check_sizes (sizes 2 4) ≡ none) ↔ IsValid (sizes 2 4)
check_sizes_iff_example = check_sizes_iff (sizes 2 4)

abbrev negative : Sizes
negative = record { min_size = negsuc 0; max_size = pos 0; has_max = false }

negative_minimum : check_sizes negative ≡ some (min_size_negative (negsuc 0))
unfolding check_sizes
negative_minimum = refl

abbrev refused : {A : Type 0} → Flow (Result A)
refused = returns (err (Err.message (min_size_negative (negsuc 0))))

negative-invalid : ¬ (IsValid negative)
negative-invalid v = ground (arith, v.nonnegative)

invalid_sizes_example :
    (m : Message) × ((lists ⦃eng = toy⦄ digits 5 6 negative).draw_value three_digits
      ≡ (returns (err (Err.message m)), three_digits))
    × ((unique_lists_by ⦃eng = toy⦄ digits (λ x. x) same_id (λ _. true) 5 6 negative).draw_value
          three_digits
        ≡ (returns (err (Err.message m)), three_digits))
    × ((maps ⦃eng = toy⦄ digits digits same_id 5 6 negative).draw_value three_digits
        ≡ (returns (err (Err.message m)), three_digits))
invalid_sizes_example =
    invalid_sizes ⦃eng = toy⦄ digits digits same_id (λ _. true) 5 5 5 6 6 6 negative three_digits
      negative-invalid

big_int_round_trip_example :
    (decode (new_big_int_unsigned 200) ≡ pos 200)
    × (uint64 (new_big_int_unsigned 200) ≡ some 200)
    × (length (new_big_int_unsigned 200) ≤ 9)
big_int_round_trip_example = big_int_round_trip 200 (omega arith)

new_big_int_signed_exact_example :
    (signed_bytes 20 (negsuc 199) ≡ some (new_big_int_signed (negsuc 199)))
    × (decode (new_big_int_signed (negsuc 199)) ≡ negsuc 199)
    × (length (new_big_int_signed (negsuc 199)) ≤ 9)
new_big_int_signed_exact_example =
    new_big_int_signed_exact (negsuc 199) 20 (omega arith) (omega arith)

abbrev pool_of_two : Pool Bool
pool_of_two = record { handle = some 1; values = (pos 4, true) ∷ (pos 2, false) ∷ [] }

abbrev pool_of_one : Pool Bool
pool_of_one = record { handle = some 1; values = (pos 4, true) ∷ [] }

two-IsMap : IsMap pool_of_two.values
unfolding find
two-IsMap = (refl, (refl, tt))

consume_run :
    draw_pool ⦃eng = toy⦄ pool_of_two true (case_on (tape [] (pos 2 ∷ [])))
    ≡ (returns (ok (false, pool_of_one)), case_on (tape [] []))
unfolding draw_pool ◌>>=◌
consume_run = refl

draw-Drawn_example : Drawn ⦃eng = toy⦄ true pool_of_two false pool_of_one
draw-Drawn_example =
    draw-Drawn ⦃eng = toy⦄ pool_of_two pool_of_one true false (case_on (tape [] (pos 2 ∷ [])))
      (case_on (tape [] [])) two-IsMap consume_run

abbrev pool_of_three : Pool Bool
pool_of_three = record {
  handle = some 1;
  values = (pos 0, true) ∷ (pos 4, true) ∷ (pos 2, false) ∷ [];
}

add_run : add ⦃eng = toy⦄ pool_of_two true (case_on (tape [] [])) ≡ (
  returns pool_of_three,
  record (case_on (tape [] [])) { world = record (tape [] []) { next_id = 1 } },
)
unfolding add
add_run = refl

add-Added_example : Added ⦃eng = toy⦄ pool_of_two pool_of_three true
add-Added_example =
    add-Added ⦃eng = toy⦄ pool_of_two pool_of_three true (case_on (tape [] []))
      (record (case_on (tape [] [])) { world = record (tape [] []) { next_id = 1 } }) two-IsMap
      add_run

-- The tape's bits bound the requests.
abbrev bits_left : Tape → ℕ
bits_left t = length t.bits

bit_lowers :
    (bits : List Bool) (t : Tape)
    → t.bits ≡ bits
    → (read_bit t).0 ≡ ErrorCode.ok
    → bits_left (read_bit t).2 < bits_left t
bit_lowers [] t e answered = absurd (ground (arith, e, answered))
bit_lowers (b ∷ bits) t e answered = ground (arith, e)

tape-Bounded : Bounded ⦃eng = toy⦄ bits_left
tape-Bounded = record {
  new_keeps = λ tc lo hi t. omega arith;
  more_lowers = λ tc c t answered _. bit_lowers t.bits t refl answered;
  reject_keeps = λ tc c why t. omega arith;
}

digits_end : DrawEnds ⦃eng = toy⦄ bits_left digits
unfolding draw start_span stop_span native Native.start_span Native.stop_span
    Native.generate_integer ◌>>=◌
digits_end s = record { at = ground arith }

draws_end_example :
    (((lists ⦃eng = toy⦄ digits 5 6 (sizes 0 4)).draw_value three_digits).0 ≢ exhausted)
    × (((unique_lists_by ⦃eng = toy⦄ digits (λ x. x) same_id (λ _. true) 5 6 (sizes 0 4)).draw_value
          three_digits).0
        ≢ exhausted)
    × (((maps ⦃eng = toy⦄ digits digits same_id 5 6 (sizes 0 4)).draw_value three_digits).0
        ≢ exhausted)
draws_end_example =
    draws_end ⦃eng = toy⦄ bits_left tape-Bounded digits digits_end digits digits_end same_id
      (λ x. x) same_id (λ _. true) 5 6 (sizes 0 4) three_digits (omega arith)
