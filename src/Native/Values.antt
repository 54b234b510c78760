-- ===== src/Native/Values.antt =====
-- The calls of internal/libhegel/libhegel.go that draw floats, bytes, texts, dates, UUIDs and
-- addresses, and that build string generators. The copy out of a native buffer, and its release, are
-- not modelled: a drawn value is the buffer's content.
use hegel_go.Prelude.{ℕ, String, Bool, Option, none, some, List}
use hegel_go.Flow.Fallible.{Fallible}
use hegel_go.Engine.{Engine, Handle, Date, TimeOfDay, Datetime}
use hegel_go.Native.{invoke, allocate}

module _ ⦃eng : Engine⦄ where
  open eng use {World, Float}

  unfoldable pub generate_float :
      Handle → ℕ → Float → Float → Bool → Bool → Bool → Bool → Float → Fallible World Float
  unfolding invoke
  generate_float tc width lo hi nan inf exclude_lo exclude_hi smallest =
      invoke "hegel_generate_float"
        (eng.generate_float tc width lo hi nan inf exclude_lo exclude_hi smallest)

  unfoldable pub generate_bytes : Handle → ℕ → ℕ → Fallible World (List ℕ)
  unfolding invoke
  generate_bytes tc lo hi = invoke "hegel_generate_bytes" (eng.generate_bytes tc lo hi)

  unfoldable pub generate_string : Handle → Handle → Fallible World String
  unfolding invoke
  generate_string tc gen = invoke "hegel_generate_string" (eng.generate_string tc gen)

  unfoldable pub generate_date : Handle → Date → Date → Fallible World Date
  unfolding invoke
  generate_date tc lo hi = invoke "hegel_generate_date" (eng.generate_date tc lo hi)

  unfoldable pub generate_time : Handle → TimeOfDay → TimeOfDay → Fallible World TimeOfDay
  unfolding invoke
  generate_time tc lo hi = invoke "hegel_generate_time" (eng.generate_time tc lo hi)

  unfoldable pub generate_datetime : Handle → Datetime → Datetime → Fallible World Datetime
  unfolding invoke
  generate_datetime tc lo hi = invoke "hegel_generate_datetime" (eng.generate_datetime tc lo hi)

  unfoldable pub generate_uuid : Handle → ℕ → Bool → Fallible World (List ℕ)
  unfolding invoke
  generate_uuid tc version has_version =
      invoke "hegel_generate_uuid" (eng.generate_uuid tc version has_version)

  unfoldable pub generate_ipv4 : Handle → Fallible World (List ℕ)
  unfolding invoke
  generate_ipv4 tc = invoke "hegel_generate_ipv4" (eng.generate_ipv4 tc)

  unfoldable pub generate_ipv6 : Handle → Fallible World (List ℕ)
  unfolding invoke
  generate_ipv6 tc = invoke "hegel_generate_ipv6" (eng.generate_ipv6 tc)

  unfoldable pub string_generator_text :
      ℕ
      → ℕ
      → String
      → ℕ
      → ℕ
      → Option (List String)
      → Option (List String)
      → String
      → String
      → Fallible World (Option Handle)
  unfolding allocate
  string_generator_text lo hi codec min_cp max_cp categories excluded include exclude =
      allocate "hegel_string_generator_text"
        (eng.string_generator_text lo hi codec min_cp max_cp categories excluded include exclude)

  alphabet_raw : Option Handle → Handle
  alphabet_raw none = 0
  alphabet_raw (some h) = h

  unfoldable pub string_generator_regex :
      String → Bool → Option Handle → Fallible World (Option Handle)
  unfolding allocate alphabet_raw
  string_generator_regex pattern fullmatch alphabet =
      allocate "hegel_string_generator_regex"
        (eng.string_generator_regex pattern fullmatch (alphabet_raw alphabet))

  unfoldable pub string_generator_email : Fallible World (Option Handle)
  unfolding allocate
  string_generator_email = allocate "hegel_string_generator_email" eng.string_generator_email

  unfoldable pub string_generator_url : Fallible World (Option Handle)
  unfolding allocate
  string_generator_url = allocate "hegel_string_generator_url" eng.string_generator_url

  unfoldable pub string_generator_domain : ℕ → Fallible World (Option Handle)
  unfolding allocate
  string_generator_domain max_length =
      allocate "hegel_string_generator_domain" (eng.string_generator_domain max_length)
