-- ===== src/Text.antt =====
-- primitives.go: the character filters, and the generators of texts and single characters.
pub mod Surrogates
pub mod Config
use hegel_go.Prelude.{
  ℕ, ◌-◌, ◌^◌, String, Bool, true, false, ◌&&◌, Option, none, some, List, [], ◌∷◌, ◌++◌, str_eq,
  if◌then◌else◌,
}
use hegel_go.Prelude.Int.{ℤ, pos, is_negative, to_uint32, to_uint64}
use hegel_go.Errors.{
  Err, Message, min_size_negative, max_size_negative, alphabet_with_filters, surrogate_category,
}
use hegel_go.Flow.{Result, ok, err}
use hegel_go.Flow.Fallible.{Fallible, pure, fail, from_exec, ◌>>=◌}
use hegel_go.Engine.{Engine, Handle}
use hegel_go.Native.Values
use hegel_go.TestCase.{TestCase, native, dereference}

abbrev pub surrogate_categories : List String
surrogate_categories = "Cs" ∷ "C" ∷ []

-- slices.Contains
unfoldable pub contains : String → List String → Bool
contains x [] = false
contains x (y ∷ ys) = let rest = contains x ys in if str_eq y x then true else rest

-- A rune is an int32.
pub record CharacterFields : Type 0 where
  pub codec : Option String
  pub min_codepoint : Option ℤ
  pub max_codepoint : Option ℤ
  pub categories : List String
  pub exclude_categories : List String
  pub include_characters : Option String
  pub exclude_characters : Option String
  pub has_categories_set : Bool

abbrev pub no_filter : CharacterFields
no_filter = record {
  codec = none;
  min_codepoint = none;
  max_codepoint = none;
  categories = [];
  exclude_categories = [];
  include_characters = none;
  exclude_characters = none;
  has_categories_set = false;
}

pub record TextArgs : Type 0 where
  pub codec : String
  pub min_cp : ℕ
  pub max_cp : ℕ
  pub categories : Option (List String)
  pub exclude_categories : Option (List String)

-- optionalStringValue
unfoldable pub optional_string_value : Option String → String
optional_string_value none = ""
optional_string_value (some text) = text

codepoint : ℕ → Option ℤ → ℕ
codepoint default none = default
codepoint default (some cp) = to_uint32 cp

codec_name : Option String → String
codec_name none = "utf-8"
codec_name (some codec) = codec

-- The loop over the requested categories: the first that has surrogates.
unfoldable pub first_surrogate : List String → Option String
unfolding contains
first_surrogate [] = none
first_surrogate (cat ∷ cats) =
    let rest = first_surrogate cats in if contains cat surrogate_categories then some cat else rest

-- The exclusions with "Cs" added unless it is there.
unfoldable pub without_surrogates : List String → List String
unfolding contains
without_surrogates excluded = if contains "Cs" excluded then excluded else excluded ++ "Cs" ∷ []

args_with : CharacterFields → Option (List String) → Option (List String) → TextArgs
unfolding codepoint codec_name
args_with cf categories excluded = record {
  codec = codec_name cf.codec;
  min_cp = codepoint 0 cf.min_codepoint;
  max_cp = codepoint (2 ^ 32 - 1) cf.max_codepoint;
  categories = categories;
  exclude_categories = excluded;
}

-- textArgs
unfoldable pub text_args : CharacterFields → Result TextArgs
unfolding first_surrogate without_surrogates args_with
text_args cf =
    if cf.has_categories_set
    then elim (first_surrogate cf.categories) [
      | some cat ↦ err (Err.message (surrogate_category cat))
      | none ↦ ok (args_with cf (some cf.categories) none)
    ]
    else ok (args_with cf none (some (without_surrogates cf.exclude_categories)))

pub record TextGenerator : Type 0 where
  pub min_size : ℤ
  pub max_size : ℤ
  pub has_max : Bool
  pub char_fields : CharacterFields
  pub alphabet_called : Bool
  pub char_param_called : Bool

-- Text
unfoldable pub text : TextGenerator
text = record {
  min_size = pos 0;
  max_size = pos 0;
  has_max = false;
  char_fields = no_filter;
  alphabet_called = false;
  char_param_called = false;
}

unfoldable pub text_min_size : ℤ → TextGenerator → TextGenerator
text_min_size n g = record g { min_size = n }

unfoldable pub text_max_size : ℤ → TextGenerator → TextGenerator
text_max_size n g = record g { max_size = n; has_max = true }

unfoldable pub text_codec : String → TextGenerator → TextGenerator
text_codec x g = record g {
  char_param_called = true;
  char_fields = record (g.char_fields) { codec = some x };
}

unfoldable pub text_min_codepoint : ℤ → TextGenerator → TextGenerator
text_min_codepoint x g = record g {
  char_param_called = true;
  char_fields = record (g.char_fields) { min_codepoint = some x };
}

unfoldable pub text_max_codepoint : ℤ → TextGenerator → TextGenerator
text_max_codepoint x g = record g {
  char_param_called = true;
  char_fields = record (g.char_fields) { max_codepoint = some x };
}

unfoldable pub text_exclude_categories : List String → TextGenerator → TextGenerator
text_exclude_categories x g = record g {
  char_param_called = true;
  char_fields = record (g.char_fields) { exclude_categories = x };
}

unfoldable pub text_include_characters : String → TextGenerator → TextGenerator
text_include_characters x g = record g {
  char_param_called = true;
  char_fields = record (g.char_fields) { include_characters = some x };
}

unfoldable pub text_exclude_characters : String → TextGenerator → TextGenerator
text_exclude_characters x g = record g {
  char_param_called = true;
  char_fields = record (g.char_fields) { exclude_characters = some x };
}

unfoldable pub text_categories : List String → TextGenerator → TextGenerator
text_categories cats g = record g {
  char_param_called = true;
  char_fields = record (g.char_fields) { has_categories_set = true; categories = cats };
}

-- Alphabet, which replaces the character filters
unfoldable pub text_alphabet : String → TextGenerator → TextGenerator
text_alphabet chars g = record g {
  alphabet_called = true;
  char_fields = record no_filter { has_categories_set = true; include_characters = some chars };
}

-- CharactersGenerator is its character filters.
unfoldable pub characters_codec : String → CharacterFields → CharacterFields
characters_codec x cf = record cf { codec = some x }

unfoldable pub characters_min_codepoint : ℤ → CharacterFields → CharacterFields
characters_min_codepoint x cf = record cf { min_codepoint = some x }

unfoldable pub characters_max_codepoint : ℤ → CharacterFields → CharacterFields
characters_max_codepoint x cf = record cf { max_codepoint = some x }

unfoldable pub characters_exclude_categories : List String → CharacterFields → CharacterFields
characters_exclude_categories x cf = record cf { exclude_categories = x }

unfoldable pub characters_include_characters : String → CharacterFields → CharacterFields
characters_include_characters x cf = record cf { include_characters = some x }

unfoldable pub characters_exclude_characters : String → CharacterFields → CharacterFields
characters_exclude_characters x cf = record cf { exclude_characters = some x }

unfoldable pub characters_categories : List String → CharacterFields → CharacterFields
characters_categories cats cf = record cf { has_categories_set = true; categories = cats }

-- The checks of TextGenerator.draw before textArgs; the maximum that it then passes.
unfoldable pub check_text : TextGenerator → Option Message
check_text g =
    if is_negative g.min_size
    then some (min_size_negative g.min_size)
    else if g.has_max && is_negative g.max_size
    then some (max_size_negative g.max_size)
    else if g.alphabet_called && g.char_param_called
    then some alphabet_with_filters
    else none

text_maximum : TextGenerator → ℕ
text_maximum g = if g.has_max then to_uint64 g.max_size else 2 ^ 64 - 1

module _ ⦃eng : Engine⦄ where
  -- StringGeneratorText and GenerateString, for lengths from lo to hi.
  unfoldable pub draw_string : Option Handle → Fallible TestCase String
  draw_string gen = do sg ← from_exec (dereference gen); native (λ h. Values.generate_string h sg)

  draw_with : CharacterFields → ℕ → ℕ → Result TextArgs → Fallible TestCase String
  unfolding draw_string optional_string_value
  draw_with cf lo hi (err e) = fail e
  draw_with cf lo hi (ok args) = do
    sg ← native (λ _.
        Values.string_generator_text lo hi args.codec args.min_cp args.max_cp args.categories
          args.exclude_categories (optional_string_value cf.include_characters)
          (optional_string_value cf.exclude_characters))
    draw_string sg

  -- TextGenerator.draw
  unfoldable pub draw_text : TextGenerator → Fallible TestCase String
  unfolding check_text text_maximum draw_with text_args
  draw_text g = elim (check_text g) [
    | some m ↦ fail (Err.message m)
    | none ↦
        draw_with g.char_fields (to_uint64 g.min_size) (text_maximum g) (text_args g.char_fields)
  ]

  -- CharactersGenerator.draw
  unfoldable pub draw_character : CharacterFields → Fallible TestCase String
  unfolding draw_with text_args
  draw_character cf = draw_with cf 1 1 (text_args cf)
