-- ===== src/BigInt/Unsigned.antt =====
-- internal/libhegel/libhegel.go: the bytes of an unsigned value read back as the value.
use native.Mathlib.Nat.{pow-suc}
use native.Mathlib.Numerals.{add-one}
use hegel_go.Prelude.{
  ℕ, zero, suc, ◌+◌, ◌*◌, ◌/◌, ◌%◌, ◌^◌, ◌<◌, ◌≤◌, ◌≡◌, ◌≢◌, refl, ap, ◌∙◌, some, List, [], ◌∷◌,
  length, arith, ◌==◌, Bool-cases, inl, inr, ◌&&◌,
}
use hegel_go.Prelude.Int.{pos}
use hegel_go.BigInt.{
  top_bit_clear, unsigned_bytes, uint64_from, uint64, decode, new_big_int_unsigned,
}

-- The values that n + 1 bytes hold with a clear sign bit: below 128 * 256 ^ n.
abbrev limit : ℕ → ℕ
limit zero = 128
limit (suc n) = 256 * limit n

pub decode-cons :
    (b n : ℕ) (l : List ℕ) → l ≢ [] → decode l ≡ pos n → decode (b ∷ l) ≡ pos (n * 256 + b)
unfolding decode
decode-cons b n [] ne h = absurd (ne refl)
decode-cons b n (c ∷ l) ne h = rw h

unsigned_bytes-ne-nil : (n x : ℕ) → unsigned_bytes (suc n) x ≢ []
unfolding unsigned_bytes
unsigned_bytes-ne-nil n x = ground arith

unsigned_bytes-decode : (n x : ℕ) → x < limit n → decode (unsigned_bytes (suc n) x) ≡ pos x
unfolding unsigned_bytes
unsigned_bytes-decode zero x h = unfold decode in ground arith
unsigned_bytes-decode (suc n) x h = elim (Bool-cases (x / 256 == 0 && top_bit_clear (x % 256))) [
  | inl e ↦ rw e (unfold decode in ground arith)
  | inr e ↦ rw e (
      decode-cons (x % 256) (x / 256) (unsigned_bytes (suc n) (x / 256))
        (unsigned_bytes-ne-nil n (x / 256)) (unsigned_bytes-decode n (x / 256) (omega arith))
      ∙ ap pos (omega arith))
]

low_byte_step :
    (i v b : ℕ) (bs : List ℕ)
    → i < 8
    → uint64_from i v (b ∷ bs) ≡ uint64_from (i + 1) (v + b * 256 ^ i) bs
unfolding uint64_from
low_byte_step i v b bs h = ground arith

-- v + (x % 256) * P + (x / 256) * (256 * P) = v + x * P
regroup : (v x p : ℕ) → v + x % 256 * p + x / 256 * (p * 256) ≡ v + x * p
regroup v x p = omega (arith, ap (λ (t : ℕ). t * p) (split x))
  where
    split : (y : ℕ) → y ≡ y / 256 * 256 + y % 256
    split y = omega arith

length-unsigned_bytes : (n x : ℕ) → length (unsigned_bytes n x) ≤ n
unfolding unsigned_bytes
length-unsigned_bytes zero x = omega arith
length-unsigned_bytes (suc n) x = ground (arith, length-unsigned_bytes n (x / 256))

-- From byte i on, with fuel for the 8 - i bytes that are left.
uint64_from-bytes :
    (k n i v x : ℕ)
    → i + k ≡ 8
    → k ≤ n
    → x < 256 ^ k
    → uint64_from i v (unsigned_bytes (suc n) x) ≡ some (v + x * 256 ^ i)
uint64_from-bytes zero n i v x e f h =
    let i8 : i ≡ 8 = omega arith in
    let x0 : x ≡ 0 = omega arith in
    rw (i8, x0) (unfold uint64_from unsigned_bytes in ap some (omega arith))
uint64_from-bytes (suc k) zero i v x e f h = absurd (omega arith)
uint64_from-bytes (suc k) (suc n) i v x e f h =
    elim (Bool-cases (x / 256 == 0 && top_bit_clear (x % 256))) [
      | inl t ↦
          let single : unsigned_bytes (suc (suc n)) x ≡ x % 256 ∷ [] =
            unfold unsigned_bytes in rw t in
          rw single (
            low_byte_step i v (x % 256) [] (omega arith)
            ∙ unfold uint64_from in ap some (one_byte v x (256 ^ i) (ground arith)))
      | inr t ↦
          let more : unsigned_bytes (suc (suc n)) x ≡ x % 256 ∷ unsigned_bytes (suc n) (x / 256) =
            unfold unsigned_bytes in rw t in
          rw more (
            low_byte_step i v (x % 256) (unsigned_bytes (suc n) (x / 256)) (omega arith)
            ∙ uint64_from-bytes k n (i + 1) (v + x % 256 * 256 ^ i) (x / 256) (omega arith)
                (omega arith) (below k x h)
            ∙ ap some (
                ap (λ (t' : ℕ). v + x % 256 * 256 ^ i + x / 256 * t') (next_power i)
                ∙ regroup v x (256 ^ i)))
    ]
  where
    one_byte : (w y p : ℕ) → y / 256 ≡ 0 → w + y % 256 * p ≡ w + y * p
    one_byte w y p z = let q : y % 256 ≡ y = omega arith in rw q

    below : (j y : ℕ) → y < 256 ^ suc j → y / 256 < 256 ^ j
    below j y l = let q : 256 ^ suc j ≡ 256 ^ j * 256 = pow-suc 256 j in omega (arith, q)

    next_power : (j : ℕ) → 256 ^ (j + 1) ≡ 256 ^ j * 256
    next_power j = rw add-one (pow-suc 256 j)

-- An unsigned 64-bit value survives NewBigInt and Uint64: the bytes are at most nine, they stand for
-- the value in two's complement, and Uint64 reads it back without its overflow panic.
pub big_int_round_trip :
    (v : ℕ)
    → v < 2 ^ 64
    → (decode (new_big_int_unsigned v) ≡ pos v)
      × (uint64 (new_big_int_unsigned v) ≡ some v)
      × (length (new_big_int_unsigned v) ≤ 9)
unfolding new_big_int_unsigned uint64
big_int_round_trip v h = (
  unsigned_bytes-decode 8 v (omega arith),
  uint64_from-bytes 8 8 0 0 v refl (omega arith) h ∙ ap some (omega arith),
  length-unsigned_bytes 9 v,
)
