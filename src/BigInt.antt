-- ===== src/BigInt.antt =====
-- internal/libhegel/libhegel.go: BigInt, the two's-complement little-endian bytes of an integer that
-- cross to the library; and fitsInt64 with Integers of primitives.go. A machine integer is its value:
-- a ℤ for a signed type, a ℕ for an unsigned one. The loops run on fuel, nine rounds for 64 bits.
pub mod Unsigned
pub mod Signed
use hegel_go.Prelude.{
  ℕ, zero, suc, ◌+◌, ◌-◌, ◌*◌, ◌/◌, ◌%◌, ◌^◌, Bool, true, false, ◌&&◌, ◌||◌, Option, none, some,
  List, [], ◌∷◌, ltb, leb, ◌==◌, if◌then◌else◌,
}
use hegel_go.Prelude.Int.{ℤ, pos, negsuc}

-- `b & 0x80 == 0`
abbrev pub top_bit_clear : ℕ → Bool
top_bit_clear b = ltb b 128

-- The unsigned loop of NewBigInt: byte(x), x >>= 8.
unfoldable pub unsigned_bytes : ℕ → ℕ → List ℕ
unsigned_bytes zero x = []
unsigned_bytes (suc n) x =
    let rest = unsigned_bytes n (x / 256) in
    if x / 256 == 0 && top_bit_clear (x % 256) then x % 256 ∷ [] else (x % 256) ∷ rest

-- byte(x) and the arithmetic shift of an int64.
abbrev pub low_byte : ℤ → ℕ
low_byte (pos n) = n % 256
low_byte (negsuc n) = 255 - n % 256

abbrev pub shift_byte : ℤ → ℤ
shift_byte (pos n) = pos (n / 256)
shift_byte (negsuc n) = negsuc (n / 256)

-- The loop's test for pure sign extension.
abbrev pub sign_settled : ℤ → ℕ → Bool
sign_settled (pos n) b = n == 0 && top_bit_clear b
sign_settled (negsuc n) b = n == 0 && leb 128 b

unfoldable pub prepend : ℕ → Option (List ℕ) → Option (List ℕ)
prepend b none = none
prepend b (some bs) = some (b ∷ bs)

-- The signed loop of NewBigInt; `none` when it has not stopped after so many rounds.
unfoldable pub signed_bytes : ℕ → ℤ → Option (List ℕ)
unfolding prepend
signed_bytes zero x = none
signed_bytes (suc n) x =
    let rest = signed_bytes n (shift_byte x) in
    if sign_settled (shift_byte x) (low_byte x)
    then some (low_byte x ∷ [])
    else prepend (low_byte x) rest

bytes_of : Option (List ℕ) → List ℕ
bytes_of none = []
bytes_of (some bs) = bs

-- Eight magnitude bytes and a sign byte.
abbrev pub rounds : ℕ
rounds = 9

unfoldable pub new_big_int_unsigned : ℕ → List ℕ
unfolding unsigned_bytes
new_big_int_unsigned v = unsigned_bytes rounds v

unfoldable pub new_big_int_signed : ℤ → List ℕ
unfolding signed_bytes bytes_of
new_big_int_signed v = bytes_of (signed_bytes rounds v)

-- The loop of Uint64 from byte i with the bits v so far; `none` is its panic.
unfoldable pub uint64_from : ℕ → ℕ → List ℕ → Option ℕ
uint64_from i v [] = some v
uint64_from i v (b ∷ bs) =
    let high = uint64_from (i + 1) v bs in
    let low = uint64_from (i + 1) (v + b * 256 ^ i) bs in
    if leb 8 i then (if b == 0 then high else none) else low

unfoldable pub uint64 : List ℕ → Option ℕ
unfolding uint64_from
uint64 b = uint64_from 0 0 b

-- The integer that two's-complement little-endian bytes stand for.
unfoldable pub decode : List ℕ → ℤ
decode [] = pos 0
decode (b ∷ []) = if top_bit_clear b then pos b else negsuc (255 - b)
decode (b ∷ c ∷ bs) = elim (decode (c ∷ bs)) [
  | pos n ↦ pos (n * 256 + b)
  | negsuc n ↦ negsuc (n * 256 + (255 - b))
]
