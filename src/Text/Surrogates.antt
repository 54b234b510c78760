-- ===== src/Text/Surrogates.antt =====
-- primitives.go: texts never contain surrogates, which Go strings cannot hold.
use hegel_go.Prelude.{
  arith, ◌≡◌, ◌≢◌, subst, false≢true, refl, sym, ap, ◌∙◌, ◌⊎◌, inl, inr, true, false, none, some,
  List, [], ◌∷◌, ◌++◌, All, Bool-cases, Option-cases, String, str_eq,
}
use hegel_go.Errors.{Err, surrogate_category}
use hegel_go.Flow.{ok, err}
use hegel_go.Text.{
  CharacterFields, TextArgs, contains, surrogate_categories, first_surrogate, without_surrogates,
  args_with, text_args,
}

-- Unicode has surrogates in the category Cs, which is a part of C, and in no other.
abbrev pub SurrogateFree : List String → Type 0
SurrogateFree cats = All (λ cat. (cat ≢ "Cs") × (cat ≢ "C")) cats

not_surrogates :
    (cat : String) → contains cat surrogate_categories ≡ false → (cat ≢ "Cs") × (cat ≢ "C")
unfolding contains
not_surrogates cat h = (
  (λ e. false≢true (sym h ∙ subst (λ x. contains x surrogate_categories ≡ true) (sym e) refl)),
  (λ e. false≢true (sym h ∙ subst (λ x. contains x surrogate_categories ≡ true) (sym e) refl)),
)

-- The library is asked for a set of categories without surrogates, or to leave them out.
abbrev pub NoSurrogates : TextArgs → Type 0
NoSurrogates args =
    ((cats : List String) × (args.categories ≡ some cats) × SurrogateFree cats)
    ⊎ ((excluded : List String) × (args.exclude_categories ≡ some excluded)
        × (contains "Cs" excluded ≡ true))

first_surrogate-none : (cats : List String) → first_surrogate cats ≡ none → SurrogateFree cats
unfolding first_surrogate
first_surrogate-none [] h = tt
first_surrogate-none (cat ∷ cats) h = elim (Bool-cases (contains cat surrogate_categories)) [
  | inl bad ↦ ground (arith, bad, h)
  | inr good ↦ (not_surrogates cat good, first_surrogate-none cats (ground (arith, good, h)))
]

contains-append : (xs : List String) → contains "Cs" (xs ++ "Cs" ∷ []) ≡ true
unfolding contains
contains-append [] = refl
contains-append (x ∷ xs) = elim (Bool-cases (str_eq x "Cs")) [
  | inl e ↦ rw e refl
  | inr e ↦ rw e (contains-append xs)
]

without_surrogates-contains : (xs : List String) → contains "Cs" (without_surrogates xs) ≡ true
unfolding without_surrogates
without_surrogates-contains xs = elim (Bool-cases (contains "Cs" xs)) [
  | inl e ↦ rw e e
  | inr e ↦ rw e (contains-append xs)
]

ok-injective : {a b : TextArgs} → ok a ≡ ok b → a ≡ b
ok-injective e = cc

refused : {x : Err} {a : TextArgs} → err x ≡ ok a → ⊥
refused e = cc

excluding :
    (cf : CharacterFields)
    → cf.has_categories_set ≡ false
    → text_args cf ≡ ok (args_with cf none (some (without_surrogates cf.exclude_categories)))
unfolding text_args
excluding cf unset = rw unset refl

refusing :
    (cf : CharacterFields) (cat : String)
    → cf.has_categories_set ≡ true
    → first_surrogate cf.categories ≡ some cat
    → text_args cf ≡ err (Err.message (surrogate_category cat))
unfolding text_args
refusing cf cat set bad = rw (set, bad) refl

requesting :
    (cf : CharacterFields)
    → cf.has_categories_set ≡ true
    → first_surrogate cf.categories ≡ none
    → text_args cf ≡ ok (args_with cf (some cf.categories) none)
unfolding text_args
requesting cf set good = rw (set, good) refl

-- The arguments that textArgs gives, for any combination of filters, exclude surrogates: a requested
-- set of categories has none with surrogates, and without one "Cs" is excluded.
pub text_args-NoSurrogates :
    (cf : CharacterFields) (args : TextArgs) → text_args cf ≡ ok args → NoSurrogates args
unfolding args_with
text_args-NoSurrogates cf args e = elim (Bool-cases cf.has_categories_set) [
  | inr unset ↦ inr (
    without_surrogates cf.exclude_categories,
    ap (λ (a : TextArgs). a.exclude_categories) (sym (ok-injective (sym (excluding cf unset) ∙ e))),
    without_surrogates-contains cf.exclude_categories,
  )
  | inl set ↦ elim (Option-cases (first_surrogate cf.categories)) [
    | inr (cat, bad) ↦ absurd (refused (sym (refusing cf cat set bad) ∙ e))
    | inl good ↦ inl (
      cf.categories,
      ap (λ (a : TextArgs). a.categories) (sym (ok-injective (sym (requesting cf set good) ∙ e))),
      first_surrogate-none cf.categories good,
    )
  ]
]
