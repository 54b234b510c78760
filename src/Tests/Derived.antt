-- ===== src/Tests/Derived.antt =====
-- A derived generator at a concrete struct type.
use hegel_go.Prelude.{
  ℕ, ◌<◌, ◌⊎◌, zero, suc, ◌≡◌, refl, arith, Bool, true, false, Option, none, some, List, [], ◌∷◌,
  All,
}
use hegel_go.Prelude.Int.{pos}
use hegel_go.Errors.{ErrorCode}
use hegel_go.Flow.{returns, ok}
use hegel_go.Flow.Fallible.{◌>>=◌, pure, from_exec}
use hegel_go.Engine.{Engine}
use hegel_go.Native
use hegel_go.TestCase.{TestCase, native, start_span, stop_span, capture_user_panics}
use hegel_go.Generator.{draw}
use hegel_go.Numbers.{uint8, draw_integer, fits_int64, convert}
use hegel_go.Numbers.Range.{DrawsBetween}
use hegel_go.Default.{
  Field, Kind, struct_kind, int_kind, pointer_kind, other_kind, Value, integer, pointer, structure,
  no_values, add, Draw, from_generator, call, draw_fields, draw_pointer, draw_kind, make_draw,
}
use hegel_go.Default.Shapes.{
  Overrides, Nodes, built, shaped, no_shapes, add_shape, no_shape, a_shape, is_active, node_of,
  then_build, record_node, field_override, build_fields, build_elem, build_kind, build_new,
  build_default, Shape, compile, new_default_generator,
}
use hegel_go.Default.Typed.{HasType, Draws}
use hegel_go.Default.Depth.{KindBelow, new_default_generator_total}
use hegel_go.Errors.{Message}
use hegel_go.Default.Shapes.{refused}
use hegel_go.Default.Typed.Accepted.{Sound}
use hegel_go.Default.Typed.Compiled.{default_draw-HasType}
use hegel_go.Tests.{Tape, toy, tape}

-- struct { Age uint8; Next *uint8 } is type 0.
abbrev kind : ℕ → Kind
kind zero = struct_kind (
    record { name = "Age"; typ = 1; exported = true }
    ∷ record { name = "Next"; typ = 2; exported = true }
    ∷ [])
kind (suc zero) = int_kind uint8
kind (suc (suc zero)) = pointer_kind 1
kind (suc (suc (suc n))) = other_kind

abbrev least : Engine
least = record toy { generate_integer = λ _ lo _ t. (ErrorCode.ok, lo, t) }

least-DrawsBetween : DrawsBetween ⦃eng = least⦄
least-DrawsBetween = record {
  small = λ tc lo hi w le. (omega arith, le);
  big = λ tc lo hi w le. (lo, refl, omega arith, le);
}

abbrev start : Tape → TestCase ⦃eng = least⦄
start t = record {
  world = t;
  tc = 1;
  out = none;
  printer = none;
  depth = pos 0;
  panic_policy = capture_user_panics;
  scoped = false;
  aborted = false;
  failure_origin = "";
}

abbrev nothing_known : ℕ → Option (Draw ⦃eng = least⦄)
nothing_known t = none

abbrev no_overrides : Overrides ⦃eng = least⦄
no_overrides = record { whole = λ t. none; field = λ t name. none }

abbrev NothingGiven : ℕ → Value ⦃eng = least⦄ → Type 0
NothingGiven t v = ⊥

abbrev same : Value ⦃eng = least⦄ → Value ⦃eng = least⦄ → Bool
same a b = false

abbrev age_shape : Shape ⦃eng = least⦄
age_shape = shaped 1 no_shapes no_shape no_shape

abbrev next_shape : Shape ⦃eng = least⦄
next_shape = shaped 2 no_shapes (a_shape age_shape) no_shape

abbrev person_shape : Shape ⦃eng = least⦄
person_shape = shaped 0 (add_shape age_shape (add_shape next_shape no_shapes)) no_shape no_shape

abbrev person_nodes : Nodes ⦃eng = least⦄
person_nodes = (0, person_shape) ∷ (2, next_shape) ∷ (1, age_shape) ∷ []

abbrev person_draw : Draw ⦃eng = least⦄
person_draw = compile ⦃eng = least⦄ kind nothing_known 1 same 5 person_shape

abbrev person : Value ⦃eng = least⦄
person = structure (add (integer (pos 0)) (add (pointer (integer (pos 0))) no_values))

person_accepted :
    new_default_generator ⦃eng = least⦄ kind nothing_known 1 same 5 no_overrides 4 0
    ≡ built person_draw person_nodes
unfolding new_default_generator build_default is_active node_of build_new build_kind build_fields
    build_elem field_override then_build record_node
person_accepted = refl

person_drawn : person_draw (start (tape (true ∷ []) [])) ≡ (returns (ok person), start (tape [] []))
unfolding compile make_draw draw_kind draw_fields from_generator draw start_span stop_span native
    Native.start_span Native.stop_span Native.generate_integer Native.generate_boolean draw_integer
    fits_int64 convert ◌>>=◌ pure from_exec call draw_pointer
person_drawn = refl

nothing-Sound : Sound ⦃eng = least⦄ kind NothingGiven nothing_known no_overrides
nothing-Sound = record {
  known_draws = λ t d e. absurd (cc);
  whole_draws = λ t d e. absurd (cc);
  field_draws = λ t fs e. no_field fs;
}
  where
    no_field :
        (fs : List Field)
        → All
            (λ f.
              (d : Draw ⦃eng = least⦄)
              → none ≡ some d
              → Draws ⦃eng = least⦄ kind NothingGiven f.typ d)
            fs
    no_field [] = tt
    no_field (f ∷ fs) = ((λ d e. absurd (cc)), no_field fs)

default_draw-HasType_example : HasType ⦃eng = least⦄ kind NothingGiven 0 person
default_draw-HasType_example =
    default_draw-HasType ⦃eng = least⦄ kind NothingGiven nothing_known no_overrides
      least-DrawsBetween nothing-Sound 1 same 5 4 0 person_draw person_nodes
      (start (tape (true ∷ []) [])) (start (tape [] [])) person person_accepted person_drawn

kind-Below : (t : ℕ) → t < 3 → KindBelow 3 (kind t)
unfolding KindBelow
kind-Below zero below = (omega arith, (omega arith, tt))
kind-Below (suc zero) below = tt
kind-Below (suc (suc zero)) below = omega arith
kind-Below (suc (suc (suc t))) below = absurd (omega arith)

new_default_generator_total_example :
    ((d : Draw ⦃eng = least⦄) × (nodes : Nodes ⦃eng = least⦄) × (new_default_generator ⦃eng = least⦄
          kind nothing_known 1 same 5 no_overrides 4 0
        ≡ built d nodes))
    ⊎ ((m : Message) × (new_default_generator ⦃eng = least⦄ kind nothing_known 1 same 5 no_overrides
            4 0
          ≡ refused m))
new_default_generator_total_example =
    new_default_generator_total ⦃eng = least⦄ kind nothing_known no_overrides 3 kind-Below 1 same 5
      4 0 (omega arith) (omega arith)
