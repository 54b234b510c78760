-- ===== src/Default/Shapes.antt =====
-- default.go: buildDefault, which checks a type and finds what its generator needs, and
-- compileDefault. The map of active types refuses recursive types; `depth` bounds the recursion.
use hegel_go.Prelude.{
  ℕ, zero, suc, String, Bool, true, false, Option, none, some, List, [], ◌∷◌, ◌==◌, if◌then◌else◌,
}
use hegel_go.Errors.{Message, recursive_type, unexported_field, unsupported_kind}
use hegel_go.Engine.{Engine}
use hegel_go.Default.{
  Field, Kind, pointer_kind, slice_kind, array_kind, map_kind, struct_kind, other_kind, Value, Draw,
  make_draw,
}

unfoldable pub is_active : ℕ → List ℕ → Bool
is_active t [] = false
is_active t (u ∷ us) = let rest = is_active t us in if t == u then true else rest

module _ ⦃eng : Engine⦄ where
  -- The overrides of Default's options, for a type and for a field of a struct type.
  pub record Overrides : Type 0 where
    pub whole : ℕ → Option Draw
    pub field : ℕ → String → Option Draw

  -- defaultShape: with a draw of its own, or with the shapes that its kind needs.
  mutual
    pub data Shape : Type 0 where
      drawn : ℕ → Draw → Shape
      shaped : ℕ → Shapes → MaybeShape → MaybeShape → Shape

    pub data Shapes : Type 0 where
      no_shapes : Shapes
      add_shape : Shape → Shapes → Shapes

    pub data MaybeShape : Type 0 where
      no_shape : MaybeShape
      a_shape : Shape → MaybeShape

  -- The map `nodes`.
  abbrev pub Nodes : Type 0
  Nodes = List (ℕ × Shape)

  unfoldable pub node_of : ℕ → Nodes → Option Shape
  node_of t [] = none
  node_of t ((u, s) ∷ rest) = let later = node_of t rest in if t == u then some s else later

  -- `too_deep` marks a recursion that ran out of the model's depth.
  pub data Built (A : Type 0) : Type 0 where
    built : A → Nodes → Built A
    refused : Message → Built A
    too_deep : Built A

  unfoldable pub then_build : {A B : Type 0} → Built A → (A → Nodes → Built B) → Built B
  then_build (built a nodes) f = f a nodes
  then_build (refused m) f = refused m
  then_build too_deep f = too_deep

  -- `nodes[t] = n`
  unfoldable pub record_node : ℕ → Shape → Nodes → Built Shape
  record_node t s nodes = built s ((t, s) ∷ nodes)

  abbrev pub bare : ℕ → Shape
  bare t = shaped t no_shapes no_shape no_shape

  -- `overrides[t, field] != nil && overrides[field.Type] == nil`
  unfoldable pub field_override : Overrides → ℕ → Field → Option Draw
  field_override over t f = elim (over.whole f.typ) [ some _ ↦ none | none ↦ over.field t f.name ]

  module _ (kind_of : ℕ → Kind) (known : ℕ → Option Draw) (over : Overrides) where
    -- The loop over the fields of struct type t; `build` builds a field's type.
    unfoldable pub build_fields : (ℕ → Nodes → Built Shape) → ℕ → List Field → Nodes → Built Shapes
    unfolding then_build field_override
    build_fields build t [] nodes = built no_shapes nodes
    build_fields build t (f ∷ fs) nodes =
        if f.exported
        then elim (field_override over t f) [
          | some d ↦
              then_build (build_fields build t fs nodes)
                (λ rest nodes'. built (add_shape (drawn f.typ d) rest) nodes')
          | none ↦ then_build (build f.typ nodes) (λ s nodes'.
              then_build (build_fields build t fs nodes')
                (λ rest nodes''. built (add_shape s rest) nodes''))
        ]
        else refused (unexported_field f.name t)

    -- The shape of an element type.
    unfoldable pub build_elem : (ℕ → Nodes → Built Shape) → ℕ → ℕ → Nodes → Built Shape
    unfolding then_build record_node
    build_elem build t e nodes =
        then_build (build e nodes)
          (λ s nodes'. record_node t (shaped t no_shapes (a_shape s) no_shape) nodes')

    -- The switch over the kind.
    unfoldable pub build_kind : (ℕ → Nodes → Built Shape) → ℕ → Kind → Nodes → Built Shape
    unfolding then_build record_node build_elem build_fields
    build_kind build t (pointer_kind e) nodes = build_elem build t e nodes
    build_kind build t (slice_kind e) nodes = build_elem build t e nodes
    build_kind build t (array_kind zero e) nodes = record_node t (bare t) nodes
    build_kind build t (array_kind (suc n) e) nodes = build_elem build t e nodes
    build_kind build t (map_kind k e) nodes = then_build (build k nodes) (λ key nodes'.
        then_build (build e nodes')
          (λ s nodes''. record_node t (shaped t no_shapes (a_shape s) (a_shape key)) nodes''))
    build_kind build t (struct_kind fs) nodes =
        then_build (build_fields build t fs nodes)
          (λ fields nodes'. record_node t (shaped t fields no_shape no_shape) nodes')
    build_kind build t other_kind nodes = refused (unsupported_kind t)
    build_kind build t _ nodes = record_node t (bare t) nodes

    -- buildDefault for a type that is neither active nor in `nodes`.
    unfoldable pub build_new : (ℕ → Nodes → Built Shape) → ℕ → Nodes → Built Shape
    unfolding build_kind record_node
    build_new build t nodes = elim (over.whole t) [
      | some d ↦ record_node t (drawn t d) nodes
      | none ↦ elim (known t) [
        | some _ ↦ record_node t (bare t) nodes
        | none ↦ build_kind build t (kind_of t) nodes
      ]
    ]

    -- buildDefault
    unfoldable pub build_default : ℕ → List ℕ → ℕ → Nodes → Built Shape
    unfolding build_new is_active node_of
    build_default zero active t nodes = too_deep
    build_default (suc depth) active t nodes =
        if is_active t active then refused (recursive_type t) else elim (node_of t nodes) [
          | some s ↦ built s nodes
          | none ↦ build_new (build_default depth (t ∷ active)) t nodes
        ]

  module _ (kind_of : ℕ → Kind) (known : ℕ → Option Draw) (rounds : ℕ) (eq : Value → Value → Bool)
      (label : ℕ) where
    -- compileDefault
    unfoldable mutual
      unfolding make_draw

      pub compile : Shape → Draw
      compile (drawn t d) = d
      compile (shaped t fields elem key) =
          make_draw kind_of known rounds eq label t (compile_fields fields) (compile_maybe elem)
            (compile_maybe key)

      pub compile_fields : Shapes → List Draw
      compile_fields no_shapes = []
      compile_fields (add_shape s ss) = compile s ∷ compile_fields ss

      pub compile_maybe : MaybeShape → Option Draw
      compile_maybe no_shape = none
      compile_maybe (a_shape s) = some (compile s)

    -- newDefaultGenerator: the error, or the generator's draw.
    unfoldable pub new_default_generator : Overrides → ℕ → ℕ → Built Draw
    unfolding build_default compile then_build
    new_default_generator over depth t =
        then_build (build_default kind_of known over depth [] t [])
          (λ s nodes. built (compile s) nodes)
