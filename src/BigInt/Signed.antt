-- ===== src/BigInt/Signed.antt =====
-- internal/libhegel/libhegel.go: the bytes of a signed value stand for the value.
use hegel_go.Prelude.{
  ℕ, zero, suc, ◌+◌, ◌-◌, ◌*◌, ◌/◌, ◌%◌, ◌^◌, ◌<◌, ◌≤◌, ◌≡◌, ◌≢◌, refl, sym, ap, ◌∙◌, Option, some,
  List, [], ◌∷◌, length, arith, Bool-cases, inl, inr,
}
use hegel_go.Prelude.Int.{ℤ, pos, negsuc}
use hegel_go.BigInt.{signed_bytes, bytes_of, sign_settled, decode, new_big_int_signed}
use hegel_go.BigInt.Unsigned.{decode-cons}

-- The integers that n + 1 bytes hold: from -limit n to limit n - 1.
abbrev limit : ℕ → ℕ
limit zero = 128
limit (suc n) = 256 * limit n

abbrev InRange : ℕ → ℤ → Type 0
InRange n (pos m) = m < limit n
InRange n (negsuc m) = m < limit n

decode-cons_negative :
    (b n : ℕ) (l : List ℕ)
    → l ≢ []
    → decode l ≡ negsuc n
    → decode (b ∷ l) ≡ negsuc (n * 256 + (255 - b))
unfolding decode
decode-cons_negative b n [] ne h = absurd (ne refl)
decode-cons_negative b n (c ∷ l) ne h = rw h

-- Bytes that stand for x in two's complement, at most n of them.
record Stand (n : ℕ) (x : ℤ) (o : Option (List ℕ)) : Type 0 where
  bytes : List ℕ
  stops : o ≡ some bytes
  value : decode bytes ≡ x
  filled : bytes ≢ []
  short : length bytes ≤ n

signed_bytes-Stand : (n : ℕ) (x : ℤ) → InRange n x → Stand (suc n) x (signed_bytes (suc n) x)
unfolding signed_bytes
signed_bytes-Stand zero (pos m) h = record {
  bytes = m % 256 ∷ [];
  stops = ground arith;
  value = unfold decode in ground arith;
  filled = λ e. cc;
  short = omega arith;
}
signed_bytes-Stand zero (negsuc m) h = record {
  bytes = (255 - m % 256) ∷ [];
  stops = ground arith;
  value = unfold decode in ground arith;
  filled = λ e. cc;
  short = omega arith;
}
signed_bytes-Stand (suc n) (pos m) h = elim (Bool-cases (sign_settled (pos (m / 256)) (m % 256))) [
  | inl e ↦ record {
    bytes = m % 256 ∷ [];
    stops = rw e refl;
    value = unfold decode in ground arith;
    filled = λ e'. cc;
    short = omega arith;
  }
  | inr e ↦
      let rest = signed_bytes-Stand n (pos (m / 256)) (omega arith) in
      record {
        bytes = m % 256 ∷ rest.bytes;
        stops = rw (e, rest.stops) refl;
        value =
            decode-cons (m % 256) (m / 256) rest.bytes rest.filled rest.value
            ∙ ap pos (omega arith);
        filled = λ e'. cc;
        short = omega (arith, rest.short);
      }
]
signed_bytes-Stand (suc n) (negsuc m) h =
    elim (Bool-cases (sign_settled (negsuc (m / 256)) (255 - m % 256))) [
      | inl e ↦ record {
        bytes = (255 - m % 256) ∷ [];
        stops = rw e refl;
        value = unfold decode in ground arith;
        filled = λ e'. cc;
        short = omega arith;
      }
      | inr e ↦
          let rest = signed_bytes-Stand n (negsuc (m / 256)) (omega arith) in
          record {
            bytes = (255 - m % 256) ∷ rest.bytes;
            stops = rw (e, rest.stops) refl;
            value =
                decode-cons_negative (255 - m % 256) (m / 256) rest.bytes rest.filled rest.value
                ∙ ap negsuc (omega arith);
            filled = λ e'. cc;
            short = omega (arith, rest.short);
          }
    ]

-- From the rounds that a value needs, more rounds change nothing.
signed_bytes_enough :
    (n m : ℕ) (x : ℤ) → InRange n x → n < m → signed_bytes m x ≡ signed_bytes (suc n) x
unfolding signed_bytes
signed_bytes_enough n zero x h lt = absurd (omega arith)
signed_bytes_enough zero (suc m) (pos k) h lt = ground arith
signed_bytes_enough zero (suc m) (negsuc k) h lt = ground arith
signed_bytes_enough (suc n) (suc m) (pos k) h lt =
    rw (signed_bytes_enough n m (pos (k / 256)) (omega arith) (omega arith)) refl
signed_bytes_enough (suc n) (suc m) (negsuc k) h lt =
    rw (signed_bytes_enough n m (negsuc (k / 256)) (omega arith) (omega arith)) refl

-- The values of Go's int64.
abbrev pub IsInt64 : ℤ → Type 0
IsInt64 (pos n) = n < 2 ^ 63
IsInt64 (negsuc n) = n < 2 ^ 63

-- The loop of NewBigInt stops on every signed 64-bit value within nine rounds, and gives the same
-- bytes for any bound on the rounds from nine on: at most nine, which stand for the value in two's
-- complement.
pub new_big_int_signed_exact :
    (v : ℤ) (fuel : ℕ)
    → IsInt64 v
    → 9 ≤ fuel
    → (signed_bytes fuel v ≡ some (new_big_int_signed v))
      × (decode (new_big_int_signed v) ≡ v)
      × (length (new_big_int_signed v) ≤ 9)
new_big_int_signed_exact v fuel h le = exact (signed_bytes-Stand 8 v (in_range v h))
  where
    in_range : (x : ℤ) → IsInt64 x → InRange 8 x
    in_range (pos n) k = omega arith
    in_range (negsuc n) k = omega arith

    exact :
        Stand 9 v (signed_bytes 9 v)
        → (signed_bytes fuel v ≡ some (new_big_int_signed v))
          × (decode (new_big_int_signed v) ≡ v)
          × (length (new_big_int_signed v) ≤ 9)
    exact stand =
        let is : new_big_int_signed v ≡ stand.bytes =
          unfold new_big_int_signed bytes_of in rw (stand.stops) refl in
        (
          signed_bytes_enough 8 fuel v (in_range v h) (omega (arith, le))
              ∙ stand.stops
              ∙ ap some (sym is),
          ap decode is ∙ stand.value,
          rw is stand.short,
        )
