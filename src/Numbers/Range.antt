-- ===== src/Numbers/Range.antt =====
-- primitives.go: the integers that Integers draws lie between its bounds.
use hegel_go.Prelude.{
  ℕ, ◌+◌, ◌^◌, ◌≤◌, ◌<◌, ◌≡◌, refl, sym, subst, ap, ◌∙◌, arith, Bool, true, false, ◌&&◌, some, List,
  Bool-cases, inl, inr,
}
use hegel_go.Prelude.Int.{ℤ, pos, negsuc, ◌≤ℤ◌}
use hegel_go.Flow.{returns, ok}
use hegel_go.Flow.Fallible.{pure, ◌>>=◌}
use hegel_go.Flow.Fallible.Laws.{Wp, Wp-pure, Wp-bind, Wp-mono, Wp-if, Wp-returns}
use hegel_go.Engine.{Engine}
use hegel_go.Native
use hegel_go.TestCase.{TestCase, native}
use hegel_go.BigInt.{new_big_int_unsigned, uint64 as read_uint64_bytes}
use hegel_go.BigInt.Unsigned.{big_int_round_trip}
use hegel_go.Numbers.{
  IntType, int8, int16, int32, int64, uint8, uint16, uint32, uint64, is_unsigned, modulus, convert,
  fits_int64, new_big_int, read_uint64, draw_integer,
}

-- Of the types with this modulus, unsigned or not.
abbrev pub Fits : Bool → ℕ → ℤ → Type 0
Fits true m (pos n) = n < m
Fits true m (negsuc n) = ⊥
Fits false m (pos n) = n + n < m
Fits false m (negsuc n) = n + n < m

-- v is a value of type T.
abbrev pub IsValue : IntType → ℤ → Type 0
IsValue T v = Fits (is_unsigned T) (modulus T) v

-- A conversion to the type that a value has keeps it.
pub convert_value : (T : IntType) (v : ℤ) → IsValue T v → convert T v ≡ v
unfolding convert
convert_value int8 (pos n) h = ground arith
convert_value int8 (negsuc n) h = ground arith
convert_value int16 (pos n) h = ground arith
convert_value int16 (negsuc n) h = ground arith
convert_value int32 (pos n) h = ground arith
convert_value int32 (negsuc n) h = ground arith
convert_value int64 (pos n) h = ground arith
convert_value int64 (negsuc n) h = ground arith
convert_value uint8 (pos n) h = ground arith
convert_value uint8 (negsuc n) h = absurd h
convert_value uint16 (pos n) h = ground arith
convert_value uint16 (negsuc n) h = absurd h
convert_value uint32 (pos n) h = ground arith
convert_value uint32 (negsuc n) h = absurd h
convert_value uint64 (pos n) h = ground arith
convert_value uint64 (negsuc n) h = absurd h

pub Fits-between :
    (u : Bool) (m : ℕ) (lo v hi : ℤ) → Fits u m lo → Fits u m hi → lo ≤ℤ v → v ≤ℤ hi → Fits u m v
Fits-between true m (pos a) (pos b) (pos c) l h p q = omega (arith, l, h, p, q)
Fits-between true m (pos a) v (negsuc c) l h p q = absurd h
Fits-between true m (pos a) (negsuc b) (pos c) l h p q = absurd (omega (arith, p))
Fits-between true m (negsuc a) v hi l h p q = absurd l
Fits-between false m (pos a) (pos b) (pos c) l h p q = omega (arith, l, h, p, q)
Fits-between false m (pos a) (pos b) (negsuc c) l h p q = omega (arith, l, h, p, q)
Fits-between false m (pos a) (negsuc b) (pos c) l h p q = omega (arith, l, h, p, q)
Fits-between false m (pos a) (negsuc b) (negsuc c) l h p q = omega (arith, l, h, p, q)
Fits-between false m (negsuc a) (pos b) (pos c) l h p q = omega (arith, l, h, p, q)
Fits-between false m (negsuc a) (pos b) (negsuc c) l h p q = omega (arith, l, h, p, q)
Fits-between false m (negsuc a) (negsuc b) (pos c) l h p q = omega (arith, l, h, p, q)
Fits-between false m (negsuc a) (negsuc b) (negsuc c) l h p q = omega (arith, l, h, p, q)

-- A value that fitsInt64 accepts is an int64.
fits_int64-IsValue : (T : IntType) (v : ℤ) → IsValue T v → fits_int64 T v ≡ true → IsValue int64 v
unfolding fits_int64
fits_int64-IsValue int8 (pos n) h f = ground arith
fits_int64-IsValue int8 (negsuc n) h f = ground arith
fits_int64-IsValue int16 (pos n) h f = ground arith
fits_int64-IsValue int16 (negsuc n) h f = ground arith
fits_int64-IsValue int32 (pos n) h f = ground arith
fits_int64-IsValue int32 (negsuc n) h f = ground arith
fits_int64-IsValue int64 (pos n) h f = ground arith
fits_int64-IsValue int64 (negsuc n) h f = ground arith
fits_int64-IsValue uint8 (pos n) h f = ground arith
fits_int64-IsValue uint8 (negsuc n) h f = absurd h
fits_int64-IsValue uint16 (pos n) h f = ground arith
fits_int64-IsValue uint16 (negsuc n) h f = absurd h
fits_int64-IsValue uint32 (pos n) h f = ground arith
fits_int64-IsValue uint32 (negsuc n) h f = absurd h
fits_int64-IsValue uint64 (pos n) h f = ground arith
fits_int64-IsValue uint64 (negsuc n) h f = absurd h

fits_signed : (T : IntType) (v : ℤ) → fits_int64 T v ≡ false → is_unsigned T ≡ true
unfolding fits_int64
fits_signed int8 v h = absurd (cc)
fits_signed int16 v h = absurd (cc)
fits_signed int32 v h = absurd (cc)
fits_signed int64 v h = absurd (cc)
fits_signed uint8 v h = refl
fits_signed uint16 v h = refl
fits_signed uint32 v h = refl
fits_signed uint64 v h = refl

modulus_le : (T : IntType) → modulus T ≤ 2 ^ 64
modulus_le int8 = omega arith
modulus_le int16 = omega arith
modulus_le int32 = omega arith
modulus_le int64 = omega arith
modulus_le uint8 = omega arith
modulus_le uint16 = omega arith
modulus_le uint32 = omega arith
modulus_le uint64 = omega arith

unsigned_big_int :
    (T : IntType) (n : ℕ)
    → is_unsigned T ≡ true
    → IsValue T (pos n)
    → new_big_int T (pos n) ≡ new_big_int_unsigned n
unfolding new_big_int
unsigned_big_int T n u h =
    let fits : n < modulus T = subst (λ x. Fits x (modulus T) (pos n)) u h in
    rw u (ap new_big_int_unsigned (omega (arith, fits, modulus_le T)))

module _ ⦃eng : Engine⦄ where
  -- The library draws between the bounds that it is given; it gives a big integer as the bytes that
  -- NewBigInt would make.
  pub record DrawsBetween : Type 0 where
    pub small :
        (tc : ℕ) (lo hi : ℤ) (w : eng.World)
        → lo ≤ℤ hi
        → (lo ≤ℤ (eng.generate_integer tc lo hi w).1) × ((eng.generate_integer tc lo hi w).1 ≤ℤ hi)
    pub big :
        (tc lo hi : ℕ) (w : eng.World)
        → lo ≤ hi
        → (n : ℕ) × ((eng.generate_integer_big tc
              (new_big_int_unsigned lo)
              (new_big_int_unsigned hi)
              w).1
            ≡ new_big_int_unsigned n)
          × (lo ≤ n)
          × (n ≤ hi)

  small-Wp :
      (lo hi : ℤ) (s : TestCase)
      → Wp
          (native (λ h. Native.generate_integer h lo hi))
          s
          (λ v _. v ≡ (eng.generate_integer s.tc lo hi s.world).1)
  unfolding native Native.generate_integer
  small-Wp lo hi s = record { at = ground arith }

  big-Wp :
      (lo hi : List ℕ) (s : TestCase)
      → Wp
          (native (λ h. Native.generate_integer_big h lo hi))
          s
          (λ v _. v ≡ (eng.generate_integer_big s.tc lo hi s.world).1)
  unfolding native Native.generate_integer_big
  big-Wp lo hi s = record { at = ground arith }

  abbrev pub Between : ℤ → ℤ → ℤ → TestCase → Type 0
  Between lo hi v s = (lo ≤ℤ v) × (v ≤ℤ hi)

  module _ (draws : DrawsBetween) (T : IntType) where
    small-Between :
        (lo hi : ℤ) (s : TestCase)
        → IsValue T lo
        → IsValue T hi
        → lo ≤ℤ hi
        → fits_int64 T lo ≡ true
        → fits_int64 T hi ≡ true
        → Wp
            (do
              v ← native (λ h. Native.generate_integer h (convert int64 lo) (convert int64 hi))
              pure (convert T v))
            s
            (Between lo hi)
    small-Between lo hi s l h le fl fh =
        Wp-bind (native (λ t. Native.generate_integer t (convert int64 lo) (convert int64 hi))) _ s
          _
          (Wp-mono _ s _ _ (small-Wp (convert int64 lo) (convert int64 hi) s) (λ v t e.
            let (above, below) = draws.small s.tc lo hi s.world le in
            let same : v ≡ (eng.generate_integer s.tc lo hi s.world).1 = e ∙ (λ i.
              (eng.generate_integer s.tc (convert_value int64 lo (fits_int64-IsValue T lo l fl) i)
                (convert_value int64 hi (fits_int64-IsValue T hi h fh) i) s.world).1) in
            let kept : convert T v ≡ (eng.generate_integer s.tc lo hi s.world).1 =
              ap (convert T) same
              ∙ convert_value T _
                  (Fits-between (is_unsigned T) (modulus T) lo _ hi l h above below) in
            Wp-pure (convert T v) t _ (subst (λ x. Between lo hi x t) (sym kept) (above, below))))

    read-Between :
        (a b n : ℕ) (raw : List ℕ) (s : TestCase)
        → is_unsigned T ≡ true
        → IsValue T (pos b)
        → a ≤ n
        → n ≤ b
        → raw ≡ new_big_int_unsigned n
        → Wp (read_uint64 T (read_uint64_bytes raw)) s (Between (pos a) (pos b))
    unfolding read_uint64
    read-Between a b n raw s u h p q e =
        let fits : n < modulus T = omega (arith, subst (λ x. Fits x (modulus T) (pos b)) u h, q) in
        let read : read_uint64_bytes raw ≡ some n =
          ap read_uint64_bytes e ∙ (big_int_round_trip n (omega (arith, fits, modulus_le T))).1 in
        subst (λ o. Wp (read_uint64 T o) s (Between (pos a) (pos b))) (sym read)
          (Wp-pure (convert T (pos n)) s _ (
            subst (λ x. Between (pos a) (pos b) x s)
              (sym (convert_value T (pos n) (subst (λ x. Fits x (modulus T) (pos n)) (sym u) fits)))
              (omega (arith, p), omega (arith, q))))

    big-Between :
        (lo hi : ℤ) (s : TestCase)
        → is_unsigned T ≡ true
        → IsValue T lo
        → IsValue T hi
        → lo ≤ℤ hi
        → Wp
            (do
              raw ←
                  native (λ h. Native.generate_integer_big h (new_big_int T lo) (new_big_int T hi))
              read_uint64 T (read_uint64_bytes raw))
            s
            (Between lo hi)
    big-Between (negsuc a) hi s u l h le = absurd (subst (λ x. Fits x (modulus T) (negsuc a)) u l)
    big-Between (pos a) (negsuc b) s u l h le =
        absurd (subst (λ x. Fits x (modulus T) (negsuc b)) u h)
    big-Between (pos a) (pos b) s u l h le =
        Wp-bind
          (native
            (λ t. Native.generate_integer_big t (new_big_int T (pos a)) (new_big_int T (pos b))))
          _ s _
          (Wp-mono _ s _ _ (big-Wp (new_big_int T (pos a)) (new_big_int T (pos b)) s) (λ raw t e.
            let (n, is_n, above, below) = draws.big s.tc a b s.world (omega (arith, le)) in
            read-Between a b n raw t u h above below (
              e
              ∙ (λ i.
                  (eng.generate_integer_big s.tc (unsigned_big_int T a u l i)
                    (unsigned_big_int T b u h i) s.world).1)
              ∙ is_n)))

    -- The value that Integers draws lies between its bounds, for every integer type and all bounds of
    -- that type, also unsigned ones above the int64 range, which cross as big integers.
    pub draw_integer-Between :
        (lo hi v : ℤ) (s s' : TestCase)
        → IsValue T lo
        → IsValue T hi
        → lo ≤ℤ hi
        → draw_integer T lo hi s ≡ (returns (ok v), s')
        → Between lo hi v s'
    unfolding draw_integer
    draw_integer-Between lo hi v s s' l h le = Wp-returns _ s (Between lo hi) v s' (
        Wp-if (fits_int64 T lo && fits_int64 T hi) _ _ s _
          (λ both. small-Between lo hi s l h le (ground (arith, both)) (ground (arith, both)))
          (λ wide. big-Between lo hi s (wide_unsigned wide) l h le))
      where
        wide_unsigned : (fits_int64 T lo && fits_int64 T hi) ≡ false → is_unsigned T ≡ true
        wide_unsigned wide = elim (Bool-cases (fits_int64 T lo)) [
          | inr f ↦ fits_signed T lo f
          | inl t ↦ fits_signed T hi (ground (arith, t, wide))
        ]
