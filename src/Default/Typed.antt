-- ===== src/Default/Typed.antt =====
-- default.go: the values that a derived generator draws have the type that it was derived from.
pub mod Kinds
pub mod Accepted
pub mod Compiled
use hegel_go.Prelude.{ℕ, zero, suc, ◌≡◌, Bool, String, Option, none, some, List, [], ◌∷◌}
use hegel_go.Prelude.Int.{ℤ}
use hegel_go.Flow.Fallible.Laws.{Wp}
use hegel_go.Engine.{Engine}
use hegel_go.TestCase.{TestCase}
use hegel_go.Numbers.{IntType}
use hegel_go.Numbers.Range.{IsValue}
use hegel_go.Default.{
  Field, Kind, bool_kind, string_kind, int_kind, float_kind, pointer_kind, slice_kind, array_kind,
  map_kind, struct_kind, Value, Values, Entries, boolean, string, integer, float, nil, pointer,
  slice, array, structure, mapping, opaque, no_values, add, no_entries, entry, Draw,
}

module _ ⦃eng : Engine⦄ (kind_of : ℕ → Kind) (given : ℕ → Value → Type 0) where
  -- v is a value of type t: `given` tells which values an override or a known type may draw.
  mutual
    pub data HasType : ℕ → Value → Type 0 where
      is_given : (t : ℕ) (v : Value) → given t v → HasType t v
      is_boolean : (t : ℕ) (b : Bool) → kind_of t ≡ bool_kind → HasType t (boolean b)
      is_string : (t : ℕ) (s : String) → kind_of t ≡ string_kind → HasType t (string s)
      is_integer :
          (t : ℕ) (T : IntType) (n : ℤ)
          → kind_of t ≡ int_kind T
          → IsValue T n
          → HasType t (integer n)
      is_float : (t width : ℕ) (x : eng.Float) → kind_of t ≡ float_kind width → HasType t (float x)
      is_nil : (t e : ℕ) → kind_of t ≡ pointer_kind e → HasType t nil
      is_pointer :
          (t e : ℕ) (v : Value) → kind_of t ≡ pointer_kind e → HasType e v → HasType t (pointer v)
      is_slice :
          (t e : ℕ) (vs : Values) → kind_of t ≡ slice_kind e → Elements e vs → HasType t (slice vs)
      is_array :
          (t e n : ℕ) (vs : Values)
          → kind_of t ≡ array_kind n e
          → Counted e n vs
          → HasType t (array vs)
      is_mapping :
          (t k e : ℕ) (es : Entries)
          → kind_of t ≡ map_kind k e
          → Mapped k e es
          → HasType t (mapping es)
      is_structure :
          (t : ℕ) (fs : List Field) (vs : Values)
          → kind_of t ≡ struct_kind fs
          → Filled fs vs
          → HasType t (structure vs)

    pub data Elements : ℕ → Values → Type 0 where
      no_elements : (e : ℕ) → Elements e no_values
      an_element :
          (e : ℕ) (v : Value) (vs : Values) → HasType e v → Elements e vs → Elements e (add v vs)

    -- Exactly this many.
    pub data Counted : ℕ → ℕ → Values → Type 0 where
      none_counted : (e : ℕ) → Counted e zero no_values
      one_counted :
          (e n : ℕ) (v : Value) (vs : Values)
          → HasType e v
          → Counted e n vs
          → Counted e (suc n) (add v vs)

    pub data Mapped : ℕ → ℕ → Entries → Type 0 where
      none_mapped : (k e : ℕ) → Mapped k e no_entries
      one_mapped :
          (k e : ℕ) (x v : Value) (es : Entries)
          → HasType k x
          → HasType e v
          → Mapped k e es
          → Mapped k e (entry x v es)

    -- Each field has a value of its type.
    pub data Filled : List Field → Values → Type 0 where
      none_filled : Filled [] no_values
      one_filled :
          (f : Field) (fs : List Field) (v : Value) (vs : Values)
          → HasType f.typ v
          → Filled fs vs
          → Filled (f ∷ fs) (add v vs)

  -- Every value that is drawn has the type.
  pub record Draws (t : ℕ) (d : Draw) : Type 0 where
    pub at : (s : TestCase) → Wp d s (λ v _. HasType t v)
