-- ===== src/Default/Typed/Accepted.antt =====
-- default.go: buildDefault of a new type, with compileDefault of its shape.
use hegel_go.Prelude.{
  ℕ, zero, suc, ◌≡◌, refl, sym, subst, Bool, true, false, Option, none, some, List, [], ◌∷◌, All,
  Option-cases, inl, inr, if◌then◌else◌,
}
use hegel_go.Errors.{unexported_field}
use hegel_go.Engine.{Engine}
use hegel_go.Numbers.Range.{DrawsBetween}
use hegel_go.Default.{
  Field, Kind, bool_kind, string_kind, int_kind, float_kind, pointer_kind, slice_kind, array_kind,
  map_kind, struct_kind, other_kind, Value, Draw, draw_kind, make_draw,
}
use hegel_go.Default.Shapes.{
  Overrides, Shape, Shapes, drawn, shaped, no_shapes, add_shape, no_shape, a_shape, Nodes, Built,
  built, refused, too_deep, then_build, record_node, bare, field_override, build_fields, build_elem,
  build_kind, build_new, compile, compile_fields,
}
use hegel_go.Default.Typed.{Draws}
use hegel_go.Default.Typed.Kinds.{DrawsAll, Parts, draw_kind-Draws}

module _ ⦃eng : Engine⦄ (kind_of : ℕ → Kind) (given : ℕ → Value → Type 0) (known : ℕ → Option Draw)
    (over : Overrides) where
  -- The overrides and the known types draw values of their types; a field's override has the type of
  -- the field, as WithFieldGenerator checks.
  pub record Sound : Type 0 where
    pub known_draws : (t : ℕ) (d : Draw) → known t ≡ some d → Draws kind_of given t d
    pub whole_draws : (t : ℕ) (d : Draw) → over.whole t ≡ some d → Draws kind_of given t d
    pub field_draws :
        (t : ℕ) (fs : List Field)
        → kind_of t ≡ struct_kind fs
        → All (λ f. (d : Draw) → over.field t f.name ≡ some d → Draws kind_of given f.typ d) fs

  module _ (between : DrawsBetween) (sound : Sound) (rounds : ℕ) (eq : Value → Value → Bool)
      (label : ℕ) where
    abbrev pub NodesDraw : Nodes → Type 0
    NodesDraw nodes =
        All (λ x. Draws kind_of given x.0 (compile kind_of known rounds eq label x.1)) nodes

    -- A shape that was built for t compiles to a draw of t.
    abbrev pub Good : ℕ → Built Shape → Type 0
    Good t (built s nodes) =
        Draws kind_of given t (compile kind_of known rounds eq label s) × NodesDraw nodes
    Good t (refused m) = Unit
    Good t too_deep = Unit

    abbrev FieldsGood : List Field → Built Shapes → Type 0
    FieldsGood fs (built ss nodes) =
        DrawsAll kind_of given fs (compile_fields kind_of known rounds eq label ss)
        × NodesDraw nodes
    FieldsGood fs (refused m) = Unit
    FieldsGood fs too_deep = Unit

    make_draw-known :
        (t : ℕ) (d : Draw) (fields : List Draw) (elem key : Option Draw)
        → known t ≡ some d
        → Draws kind_of given t (make_draw kind_of known rounds eq label t fields elem key)
    unfolding make_draw
    make_draw-known t d fields elem key is_known =
        subst
          (λ o. Draws kind_of given t (elim o [
            | some x ↦ x
            | none ↦ draw_kind kind_of known rounds eq label (kind_of t) fields elem key
          ]))
          (sym is_known) (sound.known_draws t d is_known)

    make_draw-kind :
        (t : ℕ) (K : Kind) (fields : List Draw) (elem key : Option Draw)
        → known t ≡ none
        → kind_of t ≡ K
        → Parts kind_of given K fields elem key
        → Draws kind_of given t (make_draw kind_of known rounds eq label t fields elem key)
    unfolding make_draw
    make_draw-kind t K fields elem key unknown kind parts =
        subst
          (λ o. Draws kind_of given t (elim o [
            | some x ↦ x
            | none ↦ draw_kind kind_of known rounds eq label (kind_of t) fields elem key
          ]))
          (sym unknown)
          (subst
            (λ k. Draws kind_of given t (draw_kind kind_of known rounds eq label k fields elem key))
            (sym kind)
            (draw_kind-Draws kind_of given between known rounds eq label t K fields elem key kind
              parts))

    module _ (build : ℕ → Nodes → Built Shape)
        (below : (t : ℕ) (nodes : Nodes) → NodesDraw nodes → Good t (build t nodes)) where
      build_elem-Good :
          (t e : ℕ) (K : Kind) (nodes : Nodes)
          → known t ≡ none
          → kind_of t ≡ K
          → NodesDraw nodes
          → ((s : Shape)
              → Draws kind_of given e (compile kind_of known rounds eq label s)
              → Parts kind_of given K [] (some (compile kind_of known rounds eq label s)) none)
          → Good t (build_elem kind_of known over build t e nodes)
      unfolding build_elem then_build record_node compile
      build_elem-Good t e K nodes unknown kind good parts = go (build e nodes) (below e nodes good)
        where
          go :
              (r : Built Shape)
              → Good e r
              → Good t (
                  then_build r
                    (λ s nodes'. record_node t (shaped t no_shapes (a_shape s) no_shape) nodes'))
          go (built s nodes') (h, hs) =
              let mine =
                make_draw-kind t K [] (some (compile kind_of known rounds eq label s)) none unknown
                  kind (parts s h) in
              (mine, (mine, hs))
          go (refused m) h = tt
          go too_deep h = tt

      -- The rest of the fields, after one whose draw has its type.
      join-FieldsGood :
          (f : Field) (fs : List Field) (s : Shape) (r : Built Shapes)
          → Draws kind_of given f.typ (compile kind_of known rounds eq label s)
          → FieldsGood fs r
          → FieldsGood (f ∷ fs) (then_build r (λ rest nodes. built (add_shape s rest) nodes))
      unfolding then_build compile
      join-FieldsGood f fs s (built ss nodes) h (hs, good) = ((h, hs), good)
      join-FieldsGood f fs s (refused m) h good = tt
      join-FieldsGood f fs s too_deep h good = tt

      field_override-Draws :
          (t : ℕ) (f : Field) (d : Draw)
          → ((x : Draw) → over.field t f.name ≡ some x → Draws kind_of given f.typ x)
          → field_override over t f ≡ some d
          → Draws kind_of given f.typ d
      unfolding field_override
      field_override-Draws t f d typed e = elim (Option-cases (over.whole f.typ)) [
        | inl free ↦
            typed d
              (subst (λ o. (elim o [ some _ ↦ none | none ↦ over.field t f.name ]) ≡ some d) free e)
        | inr (x, taken) ↦ absurd (
            none_some (
              subst (λ o. (elim o [ some _ ↦ none | none ↦ over.field t f.name ]) ≡ some d) taken
                e))
      ]
        where
          none_some : none ≡ some d → ⊥
          none_some h = cc

      build_fields-Good :
          (t : ℕ) (fs : List Field) (nodes : Nodes)
          → All (λ f. (d : Draw) → over.field t f.name ≡ some d → Draws kind_of given f.typ d) fs
          → NodesDraw nodes
          → FieldsGood fs (build_fields kind_of known over build t fs nodes)
      unfolding build_fields compile
      build_fields-Good t [] nodes typed good = (tt, good)
      build_fields-Good t (f ∷ fs) nodes typed good =
          step f.exported (field_override over t f) refl (below f.typ nodes good)
            (build_fields-Good t fs nodes typed.1 good)
            (λ nodes' g. build_fields-Good t fs nodes' typed.1 g)
        where
          built_field :
              (r : Built Shape)
              → Good f.typ r
              → ((nodes' : Nodes)
                  → NodesDraw nodes'
                  → FieldsGood fs (build_fields kind_of known over build t fs nodes'))
              → FieldsGood (f ∷ fs) (
                  then_build r (λ s nodes'.
                    then_build
                      (build_fields kind_of known over build t fs nodes')
                      (λ rest nodes''. built (add_shape s rest) nodes'')))
          built_field (built s nodes') (h, hs) later = join-FieldsGood f fs s _ h (later nodes' hs)
          built_field (refused m) h later = tt
          built_field too_deep h later = tt

          step :
              (exported : Bool) (o : Option Draw)
              → field_override over t f ≡ o
              → Good f.typ (build f.typ nodes)
              → FieldsGood fs (build_fields kind_of known over build t fs nodes)
              → ((nodes' : Nodes)
                  → NodesDraw nodes'
                  → FieldsGood fs (build_fields kind_of known over build t fs nodes'))
              → FieldsGood (f ∷ fs) (
                  if exported
                  then elim o [
                    | some d ↦
                        then_build
                          (build_fields kind_of known over build t fs nodes)
                          (λ rest nodes'. built (add_shape (drawn f.typ d) rest) nodes')
                    | none ↦ then_build (build f.typ nodes) (λ s nodes'.
                        then_build
                          (build_fields kind_of known over build t fs nodes')
                          (λ rest nodes''. built (add_shape s rest) nodes''))
                  ]
                  else refused (unexported_field f.name t))
          step false o e h rest later = tt
          step true (some d) e h rest later =
              join-FieldsGood f fs (drawn f.typ d) _ (field_override-Draws t f d typed.0 e) rest
          step true none e h rest later = built_field (build f.typ nodes) h later

      bare-Good :
          (t : ℕ) (K : Kind) (nodes : Nodes)
          → known t ≡ none
          → kind_of t ≡ K
          → NodesDraw nodes
          → Parts kind_of given K [] none none
          → Good t (record_node t (bare t) nodes)
      unfolding record_node compile
      bare-Good t K nodes unknown kind good parts =
          let mine = make_draw-kind t K [] none none unknown kind parts in (mine, (mine, good))

      struct-Good :
          (t : ℕ) (fs : List Field) (r : Built Shapes)
          → known t ≡ none
          → kind_of t ≡ struct_kind fs
          → FieldsGood fs r
          → Good t (
              then_build r
                (λ fields nodes. record_node t (shaped t fields no_shape no_shape) nodes))
      unfolding then_build record_node compile
      struct-Good t fs (built ss nodes) unknown kind (hs, good) =
          let mine =
            make_draw-kind t (struct_kind fs) (compile_fields kind_of known rounds eq label ss) none
              none unknown kind hs in
          (mine, (mine, good))
      struct-Good t fs (refused m) unknown kind h = tt
      struct-Good t fs too_deep unknown kind h = tt

      map_values-Good :
          (t k e : ℕ) (key : Shape) (r : Built Shape)
          → known t ≡ none
          → kind_of t ≡ map_kind k e
          → Draws kind_of given k (compile kind_of known rounds eq label key)
          → Good e r
          → Good t (
              then_build r
                (λ s nodes. record_node t (shaped t no_shapes (a_shape s) (a_shape key)) nodes))
      unfolding then_build record_node compile
      map_values-Good t k e key (built s nodes) unknown kind hk (h, good) =
          let mine =
            make_draw-kind t (map_kind k e) [] (some (compile kind_of known rounds eq label s))
              (some (compile kind_of known rounds eq label key)) unknown kind (hk, h) in
          (mine, (mine, good))
      map_values-Good t k e key (refused m) unknown kind hk h = tt
      map_values-Good t k e key too_deep unknown kind hk h = tt

      map-Good :
          (t k e : ℕ) (r : Built Shape)
          → known t ≡ none
          → kind_of t ≡ map_kind k e
          → Good k r
          → Good t (
              then_build r (λ key nodes'. then_build (build e nodes') (λ s nodes''.
                record_node t (shaped t no_shapes (a_shape s) (a_shape key)) nodes'')))
      unfolding then_build
      map-Good t k e (built key nodes) unknown kind (hk, good) =
          map_values-Good t k e key (build e nodes) unknown kind hk (below e nodes good)
      map-Good t k e (refused m) unknown kind h = tt
      map-Good t k e too_deep unknown kind h = tt

      build_kind-Good :
          (t : ℕ) (K : Kind) (nodes : Nodes)
          → known t ≡ none
          → kind_of t ≡ K
          → NodesDraw nodes
          → Good t (build_kind kind_of known over build t K nodes)
      unfolding build_kind
      build_kind-Good t bool_kind nodes u k g = bare-Good t bool_kind nodes u k g tt
      build_kind-Good t string_kind nodes u k g = bare-Good t string_kind nodes u k g tt
      build_kind-Good t (int_kind T) nodes u k g = bare-Good t (int_kind T) nodes u k g tt
      build_kind-Good t (float_kind w) nodes u k g = bare-Good t (float_kind w) nodes u k g tt
      build_kind-Good t (pointer_kind e) nodes u k g =
          build_elem-Good t e (pointer_kind e) nodes u k g (λ s h. h)
      build_kind-Good t (slice_kind e) nodes u k g =
          build_elem-Good t e (slice_kind e) nodes u k g (λ s h. h)
      build_kind-Good t (array_kind zero e) nodes u k g =
          bare-Good t (array_kind zero e) nodes u k g tt
      build_kind-Good t (array_kind (suc n) e) nodes u k g =
          build_elem-Good t e (array_kind (suc n) e) nodes u k g (λ s h. h)
      build_kind-Good t (map_kind k' e) nodes u k g =
          map-Good t k' e (build k' nodes) u k (below k' nodes g)
      build_kind-Good t (struct_kind fs) nodes u k g =
          struct-Good t fs (build_fields kind_of known over build t fs nodes) u k
            (build_fields-Good t fs nodes (sound.field_draws t fs k) g)
      build_kind-Good t other_kind nodes u k g = tt

      pub build_new-Good :
          (t : ℕ) (nodes : Nodes)
          → NodesDraw nodes
          → Good t (build_new kind_of known over build t nodes)
      unfolding build_new record_node compile
      build_new-Good t nodes good = overridden (over.whole t) refl (known t) refl
        where
          overridden :
              (o : Option Draw)
              → over.whole t ≡ o
              → (p : Option Draw) → known t ≡ p
              → Good t (elim o [
                | some d ↦ record_node t (drawn t d) nodes
                | none ↦ elim p [
                  | some _ ↦ record_node t (bare t) nodes
                  | none ↦ build_kind kind_of known over build t (kind_of t) nodes
                ]
              ])
          overridden (some d) e p e' = let mine = sound.whole_draws t d e in (mine, (mine, good))
          overridden none e (some d) e' =
              let mine = make_draw-known t d [] none none e' in (mine, (mine, good))
          overridden none e none e' = build_kind-Good t (kind_of t) nodes e' refl good
