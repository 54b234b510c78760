-- ===== src/Tests/Values.antt =====
-- The theorems on integers, texts, dates and UUIDs at concrete inputs.
use hegel_go.Prelude.{◌^◌, ◌-◌, ◌≡◌, ◌↔◌, refl, arith, true, false, none, some, [], ◌∷◌}
use hegel_go.Prelude.Int.{pos, negsuc, ◌≤ℤ◌}
use hegel_go.Errors.{ErrorCode}
use hegel_go.Flow.{ok, returns}
use hegel_go.Flow.Fallible.{◌>>=◌, pure}
use hegel_go.Engine.{Engine, Date, Datetime}
use hegel_go.Native
use hegel_go.Native.Values as Calls
use hegel_go.TestCase.{TestCase, native, capture_user_panics}
use hegel_go.BigInt.{new_big_int_unsigned, uint64 as read_uint64_bytes}
use hegel_go.Numbers.{uint64, draw_integer, convert, fits_int64, new_big_int}
use hegel_go.Numbers.Range.{DrawsBetween, Between, draw_integer-Between}
use hegel_go.Text.{
  CharacterFields, TextArgs, no_filter, text, text_args, without_surrogates, contains, check_text,
}
use hegel_go.Text.Surrogates.{NoSurrogates, text_args-NoSurrogates}
use hegel_go.Text.Config.{IsAccepted, configured, codec, min_size, alphabet, check_text_iff}
use hegel_go.Strings.{UuidGenerator, draw_uuid}
use hegel_go.Strings.Uuid.{Versioned, draw_uuid_version}
use hegel_go.Dates.{midnight, date_from_time}
use hegel_go.Dates.Years.{date_from_time_year}
use hegel_go.Tests.{toy, tape, case_on}

-- A library that always draws the least value.
abbrev least : Engine
least = record toy { generate_integer = λ _ lo _ t. (ErrorCode.ok, lo, t) }

least-DrawsBetween : DrawsBetween ⦃eng = least⦄
least-DrawsBetween = record {
  small = λ tc lo hi w le. (omega arith, le);
  big = λ tc lo hi w le. (lo, refl, omega arith, le);
}

abbrev least_case : TestCase ⦃eng = least⦄
least_case = record {
  world = tape [] [];
  tc = 1;
  out = none;
  printer = none;
  depth = pos 0;
  panic_policy = capture_user_panics;
  scoped = false;
  aborted = false;
  failure_origin = "";
}

least_drawn :
    draw_integer ⦃eng = least⦄ uint64 (pos (2 ^ 63)) (pos (2 ^ 64 - 1)) least_case
    ≡ (returns (ok (pos (2 ^ 63))), least_case)
unfolding draw_integer fits_int64 convert new_big_int new_big_int_unsigned native
    Native.generate_integer_big ◌>>=◌ read_uint64_bytes pure
least_drawn = refl

draw_integer-Between_example :
    Between ⦃eng = least⦄ (pos (2 ^ 63)) (pos (2 ^ 64 - 1)) (pos (2 ^ 63)) least_case
draw_integer-Between_example =
    draw_integer-Between ⦃eng = least⦄ least-DrawsBetween uint64 (pos (2 ^ 63)) (pos (2 ^ 64 - 1))
      (pos (2 ^ 63)) least_case least_case (omega arith) (omega arith) (omega arith) least_drawn

-- Everything but control characters.
abbrev printable : CharacterFields
printable = record no_filter { exclude_categories = "Cc" ∷ [] }

abbrev printable_args : TextArgs
printable_args = record {
  codec = "utf-8";
  min_cp = 0;
  max_cp = 2 ^ 32 - 1;
  categories = none;
  exclude_categories = some ("Cc" ∷ "Cs" ∷ []);
}

printable_gives : text_args printable ≡ ok printable_args
unfolding text_args without_surrogates contains
printable_gives = refl

text_args-NoSurrogates_example : NoSurrogates printable_args
text_args-NoSurrogates_example = text_args-NoSurrogates printable printable_args printable_gives

check_text_iff_example :
    (check_text (configured (codec "ascii" ∷ min_size (pos 2) ∷ alphabet "ab" ∷ []) text) ≡ none)
    ↔ IsAccepted (codec "ascii" ∷ min_size (pos 2) ∷ alphabet "ab" ∷ [])
check_text_iff_example = check_text_iff (codec "ascii" ∷ min_size (pos 2) ∷ alphabet "ab" ∷ [])

abbrev random_uuid : UuidGenerator
random_uuid = record { version = pos 4; has_version = true }

uuid_drawn :
    draw_uuid ⦃eng = toy⦄ random_uuid (case_on (tape [] []))
    ≡ (returns (ok (4 ∷ [])), case_on (tape [] []))
unfolding draw_uuid native Calls.generate_uuid
uuid_drawn = refl

draw_uuid_version_example : Versioned ⦃eng = toy⦄ random_uuid (case_on (tape [] [])) (4 ∷ [])
draw_uuid_version_example =
    draw_uuid_version random_uuid (4 ∷ []) (case_on (tape [] [])) (case_on (tape [] [])) refl
      uuid_drawn

abbrev ides : Date
ides = record { year = negsuc 43; month = 3; day = 15 }

abbrev ides_time : Datetime
ides_time = record { date = ides; time = midnight }

ides_given : date_from_time ⦃eng = toy⦄ ides_time ≡ ok ides
unfolding date_from_time
ides_given = refl

date_from_time_year_example :
    (ides.year ≡ ides_time.date.year) × (negsuc 999998 ≤ℤ ides.year) × (ides.year ≤ℤ pos 999999)
date_from_time_year_example = date_from_time_year ⦃eng = toy⦄ ides_time ides ides_given
