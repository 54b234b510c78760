-- ===== src/Strings/Uuid.antt =====
-- uuid.go: the versions that a UUID generator asks for.
use hegel_go.Prelude.{ℕ, ◌≤◌, ◌≡◌, refl, ◌∙◌, arith, Bool, true, false, ◌&&◌, ◌||◌, List}
use hegel_go.Prelude.Int.{ℤ, pos, negsuc, ltb_ℤ, to_uint8}
use hegel_go.Flow.{ok, returns}
use hegel_go.Flow.Fallible.Laws.{Wp, Wp-fail, Wp-if, Wp-mono, Wp-returns}
use hegel_go.Engine.{Engine}
use hegel_go.Native.Values
use hegel_go.TestCase.{TestCase, native}
use hegel_go.Strings.{UuidGenerator, draw_uuid}

module _ ⦃eng : Engine⦄ where
  generate_uuid-Wp :
      (n : ℕ) (b : Bool) (s : TestCase)
      → Wp
          (native (λ h. Values.generate_uuid h n b))
          s
          (λ bytes _. bytes ≡ (eng.generate_uuid s.tc n b s.world).1)
  unfolding native Values.generate_uuid
  generate_uuid-Wp n b s = record { at = ground arith }

  -- The bytes were asked of the library with the generator's version, a number from 1 to 5.
  abbrev pub Versioned : UuidGenerator → TestCase → List ℕ → Type 0
  Versioned g s bytes =
      (n : ℕ) × (g.version ≡ pos n)
      × (1 ≤ n)
      × (n ≤ 5)
      × (bytes ≡ (eng.generate_uuid s.tc n true s.world).1)

  in_range :
      (v : ℤ)
      → (ltb_ℤ v (pos 1) || ltb_ℤ (pos 5) v) ≡ false
      → (n : ℕ) × (v ≡ pos n) × (1 ≤ n) × (n ≤ 5)
  in_range (pos n) h = (n, refl, ground arith, ground arith)
  in_range (negsuc n) h = absurd (ground arith)

  -- A UUID that is drawn with a version was asked of the library with that version, which is one of
  -- 1 to 5 and so is not changed by its conversion to a uint8.
  pub draw_uuid_version :
      (g : UuidGenerator) (bytes : List ℕ) (s s' : TestCase)
      → g.has_version ≡ true
      → draw_uuid g s ≡ (returns (ok bytes), s')
      → Versioned g s bytes
  unfolding draw_uuid
  draw_uuid_version g bytes s s' set =
      Wp-returns _ s (λ b _. Versioned g s b) bytes s'
        (Wp-if (g.has_version && (ltb_ℤ g.version (pos 1) || ltb_ℤ (pos 5) g.version)) _ _ s _
          (λ bad. Wp-fail _ s _)
          (λ good.
            let (n, is_n, low, high) = in_range g.version (ground (arith, good, set)) in
            Wp-mono _ s _ _ (generate_uuid-Wp (to_uint8 g.version) g.has_version s) (λ b t e. (
              n,
              is_n,
              low,
              high,
              e ∙ (λ i.
                  (eng.generate_uuid s.tc (version_kept n low high is_n i) (set i) s.world).1),
            ))))
    where
      version_kept : (n : ℕ) → 1 ≤ n → n ≤ 5 → g.version ≡ pos n → to_uint8 g.version ≡ n
      version_kept n low high is_n = rw is_n (omega arith)
