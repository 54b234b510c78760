-- ===== src/Dates.antt =====
-- primitives.go and internal/libhegel/libhegel.go: the generators of dates and datetimes, and the
-- conversions between time.Time and the dates that cross to the library.
pub mod Years
use hegel_go.Prelude.{ℕ, ◌%◌, ◌^◌, Bool, ◌||◌, Option, none, some, if◌then◌else◌}
use hegel_go.Prelude.Int.{ℤ, pos, negsuc, ltb_ℤ, to_int32}
use hegel_go.Errors.{Err, date_year}
use hegel_go.Flow.{Result, ok, err, returns}
use hegel_go.Flow.Fallible.{Fallible, pure, ◌>>=◌}
use hegel_go.Engine.{Engine, Date, TimeOfDay, Datetime}
use hegel_go.Native.Values
use hegel_go.TestCase.{TestCase, native}

abbrev pub full_date_min : Date
full_date_min = record { year = pos 1; month = 1; day = 1 }

abbrev pub full_date_max : Date
full_date_max = record { year = pos 9999; month = 12; day = 31 }

abbrev pub midnight : TimeOfDay
midnight = record { hour = 0; minute = 0; second = 0; nanosecond = 0 }

abbrev pub full_time_max : TimeOfDay
full_time_max = record { hour = 23; minute = 59; second = 59; nanosecond = 999999999 }

module _ ⦃eng : Engine⦄ where
  -- DateGenerator and DatetimeGenerator
  pub record Bounds : Type 0 where
    pub min_val : Option eng.Time
    pub max_val : Option eng.Time

  -- Dates and Datetimes
  unfoldable pub unbounded : Bounds
  unbounded = record { min_val = none; max_val = none }

  unfoldable pub date_min : eng.Time → Bounds → Bounds
  date_min v g = record g { min_val = some v }

  unfoldable pub date_max : eng.Time → Bounds → Bounds
  date_max v g = record g { max_val = some v }

  -- dateFromTime, with the conversions to int32 and uint8
  unfoldable pub date_from_time : eng.Time → Result Date
  date_from_time v =
      if ltb_ℤ (eng.year v) (negsuc 999998) || ltb_ℤ (pos 999999) (eng.year v)
      then err (Err.message (date_year (eng.year v)))
      else ok (record {
        year = to_int32 (eng.year v);
        month = eng.month v % 2 ^ 8;
        day = eng.day v % 2 ^ 8;
      })

  time_of : eng.Time → TimeOfDay
  time_of v = record {
    hour = eng.hour v % 2 ^ 8;
    minute = eng.minute v % 2 ^ 8;
    second = eng.second v % 2 ^ 8;
    nanosecond = eng.nanosecond v % 2 ^ 32;
  }

  with_time : eng.Time → Result Date → Result Datetime
  unfolding time_of
  with_time v (err e) = err e
  with_time v (ok date) = ok (record { date = date; time = time_of v })

  -- datetimeFromTime
  unfoldable pub datetime_from_time : eng.Time → Result Datetime
  unfolding date_from_time with_time
  datetime_from_time v = with_time v (date_from_time v)

  -- Date.ToTime and Datetime.ToTime
  unfoldable pub date_to_time : Date → eng.Time
  date_to_time d = eng.utc (record { date = d; time = midnight })

  unfoldable pub datetime_to_time : Datetime → eng.Time
  datetime_to_time dt = eng.utc dt

  bound_or : {A : Type 0} → (eng.Time → Result A) → A → Option eng.Time → Fallible TestCase A
  bound_or convert default none s = (returns (ok default), s)
  bound_or convert default (some v) s = (returns (convert v), s)

  -- DateGenerator.draw
  unfoldable pub draw_date : Bounds → Fallible TestCase eng.Time
  unfolding bound_or date_from_time date_to_time
  draw_date g = do
    lo ← bound_or date_from_time full_date_min g.min_val
    hi ← bound_or date_from_time full_date_max g.max_val
    d ← native (λ h. Values.generate_date h lo hi)
    pure (date_to_time d)

  -- DatetimeGenerator.draw
  unfoldable pub draw_datetime : Bounds → Fallible TestCase eng.Time
  unfolding bound_or datetime_from_time datetime_to_time
  draw_datetime g = do
    lo ← bound_or datetime_from_time (record { date = full_date_min; time = midnight }) g.min_val
    hi ←
        bound_or datetime_from_time (record { date = full_date_max; time = full_time_max })
          g.max_val
    dt ← native (λ h. Values.generate_datetime h lo hi)
    pure (datetime_to_time dt)
