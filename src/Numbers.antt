-- ===== src/Numbers.antt =====
-- primitives.go: the generators of integers, floats and Booleans; a value of an integer type is the ℤ
-- that it stands for, and a conversion to a type wraps. Go's int and uint have 64 bits.
pub mod Range
use hegel_go.Prelude.{
  ℕ, ◌+◌, ◌-◌, ◌%◌, ◌^◌, Bool, true, false, not, ◌&&◌, ◌||◌, Option, none, some, ltb, leb, ◌==◌,
  if◌then◌else◌, List,
}
use hegel_go.Prelude.Int.{ℤ, pos, negsuc, ltb_ℤ, to_uint64}
use hegel_go.Errors.{value, bounds_reversed, overflows_uint64}
use hegel_go.Flow.Exec.{Exec}
use hegel_go.Flow.Exec
use hegel_go.Flow.Fallible.{Fallible, pure, ◌>>=◌}
use hegel_go.Engine.{Engine}
use hegel_go.Native
use hegel_go.Native.Values
use hegel_go.TestCase.{TestCase, native, raise_panic}
use hegel_go.Generator.{Generator}
use hegel_go.BigInt.{new_big_int_unsigned, new_big_int_signed, uint64 as read_uint64_bytes}

-- The types that satisfy `integer`, by their width in bits.
pub data IntType : Type 0 where
  int8 int16 int32 int64 uint8 uint16 uint32 uint64 : IntType

abbrev pub is_unsigned : IntType → Bool
is_unsigned uint8 = true
is_unsigned uint16 = true
is_unsigned uint32 = true
is_unsigned uint64 = true
is_unsigned _ = false

-- 2 to the width
abbrev pub modulus : IntType → ℕ
modulus int8 = 2 ^ 8
modulus int16 = 2 ^ 16
modulus int32 = 2 ^ 32
modulus int64 = 2 ^ 64
modulus uint8 = 2 ^ 8
modulus uint16 = 2 ^ 16
modulus uint32 = 2 ^ 32
modulus uint64 = 2 ^ 64

abbrev residue : ℕ → ℤ → ℕ
residue m (pos n) = n % m
residue m (negsuc n) = m - 1 - n % m

abbrev signed_residue : ℕ → ℕ → ℤ
signed_residue m u = if ltb (u + u) m then pos u else negsuc (m - 1 - u)

-- `T(v)`
unfoldable pub convert : IntType → ℤ → ℤ
convert T v =
    if is_unsigned T
    then pos (residue (modulus T) v)
    else signed_residue (modulus T) (residue (modulus T) v)

-- fitsInt64; `^zero > zero` holds of the unsigned types.
unfoldable pub fits_int64 : IntType → ℤ → Bool
fits_int64 T v = if is_unsigned T then leb (to_uint64 v) (2 ^ 63 - 1) else true

-- NewBigInt at type T.
unfoldable pub new_big_int : IntType → ℤ → List ℕ
new_big_int T v = if is_unsigned T then new_big_int_unsigned (to_uint64 v) else new_big_int_signed v

module _ ⦃eng : Engine⦄ where
  read_uint64 : IntType → Option ℕ → Fallible TestCase ℤ
  unfolding convert
  read_uint64 T none = raise_panic (value overflows_uint64)
  read_uint64 T (some n) = pure (convert T (pos n))

  -- The draw of Integers.
  unfoldable pub draw_integer : IntType → ℤ → ℤ → Fallible TestCase ℤ
  unfolding convert fits_int64 new_big_int read_uint64
  draw_integer T lo hi =
      if fits_int64 T lo && fits_int64 T hi
      then (do
        v ← native (λ h. Native.generate_integer h (convert int64 lo) (convert int64 hi))
        pure (convert T v))
      else (do
        raw ← native (λ h. Native.generate_integer_big h (new_big_int T lo) (new_big_int T hi))
        read_uint64 T (read_uint64_bytes raw))

  -- Integers
  unfoldable pub integers : ℕ → IntType → ℤ → ℤ → Exec TestCase (Generator ℤ)
  unfolding draw_integer
  integers typ T lo hi =
      if ltb_ℤ hi lo
      then raise_panic (value (bounds_reversed hi lo))
      else Exec.pure (record { typ = typ; draw_value = draw_integer T lo hi })

  pub record FloatGenerator : Type 0 where
    pub min_val : Option eng.Float
    pub max_val : Option eng.Float
    pub allow_nan : Option Bool
    pub allow_inf : Option Bool
    pub exclude_min : Bool
    pub exclude_max : Bool

  unfoldable pub floats : FloatGenerator
  floats = record {
    min_val = none;
    max_val = none;
    allow_nan = none;
    allow_inf = none;
    exclude_min = false;
    exclude_max = false;
  }

  -- Min and Max, of which float64(v) changes no value.
  unfoldable pub with_min : eng.Float → FloatGenerator → FloatGenerator
  with_min v g = record g { min_val = some v }

  unfoldable pub with_max : eng.Float → FloatGenerator → FloatGenerator
  with_max v g = record g { max_val = some v }

  unfoldable pub with_nan : Bool → FloatGenerator → FloatGenerator
  with_nan v g = record g { allow_nan = some v }

  unfoldable pub with_infinity : Bool → FloatGenerator → FloatGenerator
  with_infinity v g = record g { allow_inf = some v }

  unfoldable pub without_min : FloatGenerator → FloatGenerator
  without_min g = record g { exclude_min = true }

  unfoldable pub without_max : FloatGenerator → FloatGenerator
  without_max g = record g { exclude_max = true }

  or_default {ℓ} : {A : Type ℓ} → A → Option A → A
  or_default d none = d
  or_default d (some a) = a

  is_set : Option eng.Float → Bool
  is_set none = false
  is_set (some x) = true

  unfoldable pub nan_allowed : FloatGenerator → Bool
  unfolding or_default is_set
  nan_allowed g = or_default (not (is_set g.min_val) && not (is_set g.max_val)) g.allow_nan

  unfoldable pub inf_allowed : FloatGenerator → Bool
  unfolding or_default is_set
  inf_allowed g = or_default (not (is_set g.min_val) || not (is_set g.max_val)) g.allow_inf

  -- FloatGenerator.draw for the type with `width` bits.
  unfoldable pub draw_float : ℕ → FloatGenerator → Fallible TestCase eng.Float
  unfolding nan_allowed inf_allowed or_default
  draw_float width g = do
    v ← native (λ h.
        Values.generate_float h width (or_default eng.negative_infinity g.min_val)
          (or_default eng.positive_infinity g.max_val) (nan_allowed g) (inf_allowed g) g.exclude_min
          g.exclude_max (if width == 32 then eng.smallest_float32 else eng.smallest_float64))
    pure (eng.to_width width v)

  unfoldable pub weighted_booleans : ℕ → eng.Float → Generator Bool
  weighted_booleans typ p = record {
    typ = typ;
    draw_value = native (λ h. Native.generate_boolean h p false false);
  }

  unfoldable pub booleans : ℕ → Generator Bool
  unfolding weighted_booleans
  booleans typ = weighted_booleans typ eng.half
