-- ===== src/Text/Config.antt =====
-- primitives.go: which configurations of a text generator are refused.
use hegel_go.Prelude.{
  ◌≡◌, ◌↔◌, refl, sym, subst, Bool-cases, inl, inr, String, Bool, true, false, ◌&&◌, ◌||◌, Option,
  none, some, List, [], ◌∷◌, arith, if◌then◌else◌,
}
use hegel_go.Prelude.Int.{ℤ, pos, ◌≤ℤ◌, is_negative}
use hegel_go.Text.{
  TextGenerator, check_text, text, text_min_size, text_max_size, text_codec, text_min_codepoint,
  text_max_codepoint, text_exclude_categories, text_include_characters, text_exclude_characters,
  text_categories, text_alphabet,
}

-- The methods of a text generator.
pub data TextOption : Type 0 where
  min_size max_size min_codepoint max_codepoint : ℤ → TextOption
  codec include_characters exclude_characters alphabet : String → TextOption
  categories exclude_categories : List String → TextOption

abbrev apply : TextOption → TextGenerator → TextGenerator
apply (min_size n) = text_min_size n
apply (max_size n) = text_max_size n
apply (min_codepoint n) = text_min_codepoint n
apply (max_codepoint n) = text_max_codepoint n
apply (codec x) = text_codec x
apply (include_characters x) = text_include_characters x
apply (exclude_characters x) = text_exclude_characters x
apply (alphabet x) = text_alphabet x
apply (categories cats) = text_categories cats
apply (exclude_categories cats) = text_exclude_categories cats

-- A chain of calls on g, in the order of the calls.
abbrev pub configured : List TextOption → TextGenerator → TextGenerator
configured [] g = g
configured (o ∷ os) g = configured os (apply o g)

-- What the calls so far have set: the last of the sizes, and which kinds of calls there were.
abbrev last_min : ℤ → List TextOption → ℤ
last_min n [] = n
last_min n (min_size m ∷ os) = last_min m os
last_min n (_ ∷ os) = last_min n os

abbrev last_max : Option ℤ → List TextOption → Option ℤ
last_max n [] = n
last_max n (max_size m ∷ os) = last_max (some m) os
last_max n (_ ∷ os) = last_max n os

abbrev any_alphabet : List TextOption → Bool
any_alphabet [] = false
any_alphabet (alphabet x ∷ os) = true
any_alphabet (_ ∷ os) = any_alphabet os

abbrev any_filter : List TextOption → Bool
any_filter [] = false
any_filter (min_size n ∷ os) = any_filter os
any_filter (max_size n ∷ os) = any_filter os
any_filter (alphabet x ∷ os) = any_filter os
any_filter (_ ∷ os) = true

abbrev Nonnegative : Option ℤ → Type 0
Nonnegative none = Unit
Nonnegative (some n) = pos 0 ≤ℤ n

-- Accepted calls: the last minimum and the last maximum are not negative, and there is no call of
-- Alphabet together with one that filters characters, in whatever order.
abbrev pub IsAccepted : List TextOption → Type 0
IsAccepted os =
    (pos 0 ≤ℤ last_min (pos 0) os)
    × Nonnegative (last_max none os)
    × ((any_alphabet os && any_filter os) ≡ false)

abbrev maximum : TextGenerator → Option ℤ
maximum g = if g.has_max then some g.max_size else none

-- What the calls leave in the generator.
record Leaves (g : TextGenerator) (os : List TextOption) : Type 0 where
  minimum : (configured os g).min_size ≡ last_min g.min_size os
  most : maximum (configured os g) ≡ last_max (maximum g) os
  alphabets : (configured os g).alphabet_called ≡ (g.alphabet_called || any_alphabet os)
  filters : (configured os g).char_param_called ≡ (g.char_param_called || any_filter os)

configured-Leaves : (os : List TextOption) (g : TextGenerator) → Leaves g os
unfolding text_min_size text_max_size text_codec text_min_codepoint text_max_codepoint
    text_exclude_categories text_include_characters text_exclude_characters text_categories
    text_alphabet
configured-Leaves [] g = record {
  minimum = refl;
  most = refl;
  alphabets = ground arith;
  filters = ground arith;
}
configured-Leaves (min_size n ∷ os) g =
    let h = configured-Leaves os (text_min_size n g) in
    record { minimum = h.minimum; most = h.most; alphabets = h.alphabets; filters = h.filters }
configured-Leaves (max_size n ∷ os) g =
    let h = configured-Leaves os (text_max_size n g) in
    record { minimum = h.minimum; most = h.most; alphabets = h.alphabets; filters = h.filters }
configured-Leaves (min_codepoint n ∷ os) g =
    let h = configured-Leaves os (text_min_codepoint n g) in
    record {
      minimum = h.minimum;
      most = h.most;
      alphabets = h.alphabets;
      filters = ground (arith, h.filters);
    }
configured-Leaves (max_codepoint n ∷ os) g =
    let h = configured-Leaves os (text_max_codepoint n g) in
    record {
      minimum = h.minimum;
      most = h.most;
      alphabets = h.alphabets;
      filters = ground (arith, h.filters);
    }
configured-Leaves (codec x ∷ os) g =
    let h = configured-Leaves os (text_codec x g) in
    record {
      minimum = h.minimum;
      most = h.most;
      alphabets = h.alphabets;
      filters = ground (arith, h.filters);
    }
configured-Leaves (include_characters x ∷ os) g =
    let h = configured-Leaves os (text_include_characters x g) in
    record {
      minimum = h.minimum;
      most = h.most;
      alphabets = h.alphabets;
      filters = ground (arith, h.filters);
    }
configured-Leaves (exclude_characters x ∷ os) g =
    let h = configured-Leaves os (text_exclude_characters x g) in
    record {
      minimum = h.minimum;
      most = h.most;
      alphabets = h.alphabets;
      filters = ground (arith, h.filters);
    }
configured-Leaves (alphabet x ∷ os) g =
    let h = configured-Leaves os (text_alphabet x g) in
    record {
      minimum = h.minimum;
      most = h.most;
      alphabets = ground (arith, h.alphabets);
      filters = h.filters;
    }
configured-Leaves (categories cats ∷ os) g =
    let h = configured-Leaves os (text_categories cats g) in
    record {
      minimum = h.minimum;
      most = h.most;
      alphabets = h.alphabets;
      filters = ground (arith, h.filters);
    }
configured-Leaves (exclude_categories cats ∷ os) g =
    let h = configured-Leaves os (text_exclude_categories cats g) in
    record {
      minimum = h.minimum;
      most = h.most;
      alphabets = h.alphabets;
      filters = ground (arith, h.filters);
    }

-- The checks, read as conditions on the integers.
abbrev Valid : ℤ → Option ℤ → Bool → Type 0
Valid lo hi mixed = (pos 0 ≤ℤ lo) × Nonnegative hi × (mixed ≡ false)

nonnegative :
    (g : TextGenerator) → (g.has_max && is_negative g.max_size) ≡ false → Nonnegative (maximum g)
nonnegative g e = elim (Bool-cases g.has_max) [
  | inl bounded ↦
      subst (λ b. Nonnegative (if b then some g.max_size else none)) (sym bounded)
        (ground (arith, bounded, e))
  | inr free ↦ subst (λ b. Nonnegative (if b then some g.max_size else none)) (sym free) tt
]

not_negative :
    (g : TextGenerator) → Nonnegative (maximum g) → (g.has_max && is_negative g.max_size) ≡ false
not_negative g h = elim (Bool-cases g.has_max) [
  | inl bounded ↦
      let le = subst (λ b. Nonnegative (if b then some g.max_size else none)) bounded h in
      ground (arith, bounded, le)
  | inr free ↦ ground (arith, free)
]

check_text-Valid :
    (g : TextGenerator)
    → (check_text g ≡ none)
      ↔ Valid g.min_size (maximum g) (g.alphabet_called && g.char_param_called)
unfolding check_text
check_text-Valid g = (
  (λ e. (ground arith, nonnegative g (ground arith), ground arith)),
  (λ v. let h = not_negative g v.1 in ground (arith, h)),
)

configured-Valid :
    (os : List TextOption)
    → Valid
        (configured os text).min_size
        (maximum (configured os text))
        ((configured os text).alphabet_called && (configured os text).char_param_called)
      ≡ IsAccepted os
unfolding text
configured-Valid os =
    let h = configured-Leaves os text in rw (h.minimum, h.most, h.alphabets, h.filters) refl

-- The checks of a text generator pass exactly when the calls that configured it are accepted: the last
-- minimum and the last maximum are not negative, and Alphabet and a character filter were not both
-- called, in whatever order.
pub check_text_iff :
    (os : List TextOption) → (check_text (configured os text) ≡ none) ↔ IsAccepted os
check_text_iff os =
    subst (λ X. (check_text (configured os text) ≡ none) ↔ X) (configured-Valid os)
      (check_text-Valid (configured os text))
