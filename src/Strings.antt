-- ===== src/Strings.antt =====
-- primitives.go, combinators.go and uuid.go: the generators of byte strings, of texts in a format, of
-- IP addresses and of UUIDs. An address or a UUID is its bytes.
pub mod Uuid
use hegel_go.Prelude.{
  ℕ, ◌-◌, ◌^◌, String, Bool, true, false, ◌&&◌, ◌||◌, Option, none, some, List, ◌==◌, if◌then◌else◌,
}
use hegel_go.Prelude.Int.{ℤ, pos, eq_ℤ, ltb_ℤ, is_negative, to_uint8, to_uint64}
use hegel_go.Errors.{Err, min_size_negative, uuid_version}
use hegel_go.Flow.Fallible.{Fallible, pure, fail, ◌>>=◌}
use hegel_go.Engine.{Engine}
use hegel_go.Native
use hegel_go.Native.Values
use hegel_go.TestCase.{TestCase, native}
use hegel_go.Generator.{Generator}
use hegel_go.Text.{draw_string}

pub record DomainGenerator : Type 0 where
  pub max_length : ℤ
  pub has_max : Bool

unfoldable pub domains : DomainGenerator
domains = record { max_length = pos 0; has_max = false }

unfoldable pub domain_max_length : ℤ → DomainGenerator → DomainGenerator
domain_max_length n g = record g { max_length = n; has_max = true }

-- IPAddressGenerator: its version, where 0 is unset.
unfoldable pub ip_addresses : ℕ
ip_addresses = 0

unfoldable pub ipv4_only : ℕ → ℕ
ipv4_only g = 4

unfoldable pub ipv6_only : ℕ → ℕ
ipv6_only g = 6

pub record UuidGenerator : Type 0 where
  pub version : ℤ
  pub has_version : Bool

unfoldable pub uuids : UuidGenerator
uuids = record { version = pos 0; has_version = false }

unfoldable pub uuid_with_version : ℤ → UuidGenerator → UuidGenerator
uuid_with_version v g = record g { version = v; has_version = true }

module _ ⦃eng : Engine⦄ where
  -- A negative maximum is none.
  unfoldable pub binary : ℕ → ℤ → ℤ → Generator (List ℕ)
  binary typ lo hi = record {
    typ = typ;
    draw_value =
        let maximum = if is_negative hi then 2 ^ 64 - 1 else to_uint64 hi in
        if is_negative lo
        then fail (Err.message (min_size_negative lo))
        else native (λ h. Values.generate_bytes h (to_uint64 lo) maximum);
  }

  unfoldable pub emails : ℕ → Generator String
  unfolding draw_string
  emails typ = record {
    typ = typ;
    draw_value = (do sg ← native (λ _. Values.string_generator_email); draw_string sg);
  }

  unfoldable pub urls : ℕ → Generator String
  unfolding draw_string
  urls typ = record {
    typ = typ;
    draw_value = (do sg ← native (λ _. Values.string_generator_url); draw_string sg);
  }

  -- DomainGenerator.build and draw
  unfoldable pub draw_domain : DomainGenerator → Fallible TestCase String
  unfolding draw_string
  draw_domain g = do
    sg ← native (λ _.
        Values.string_generator_domain (to_uint64 (if g.has_max then g.max_length else pos 255)))
    draw_string sg

  unfoldable pub from_regex : ℕ → String → Bool → Generator String
  unfolding draw_string
  from_regex typ pattern fullmatch = record {
    typ = typ;
    draw_value = (do
      sg ← native (λ _. Values.string_generator_regex pattern fullmatch none)
      draw_string sg);
  }

  unfoldable pub draw_v4 : Fallible TestCase (List ℕ)
  draw_v4 = native Values.generate_ipv4

  unfoldable pub draw_v6 : Fallible TestCase (List ℕ)
  draw_v6 = native Values.generate_ipv6

  -- IPAddressGenerator.draw
  unfoldable pub draw_ip : ℕ → Fallible TestCase (List ℕ)
  unfolding draw_v4 draw_v6
  draw_ip version = if version == 4 then draw_v4 else if version == 6 then draw_v6 else (do
    idx ← native (λ h. Native.generate_integer h (pos 0) (pos 1))
    if eq_ℤ idx (pos 0) then draw_v4 else draw_v6)

  -- UUIDGenerator.draw
  unfoldable pub draw_uuid : UuidGenerator → Fallible TestCase (List ℕ)
  draw_uuid g =
      if g.has_version && (ltb_ℤ g.version (pos 1) || ltb_ℤ (pos 5) g.version)
      then fail (Err.message (uuid_version g.version))
      else native (λ h. Values.generate_uuid h (to_uint8 g.version) g.has_version)
