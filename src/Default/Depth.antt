-- ===== src/Default/Depth.antt =====
-- default.go: the recursion of buildDefault. Types are numbers below a bound, and `inactive` counts those that are
-- not active.
use hegel_go.Prelude.{
  ℕ, zero, suc, ◌≡◌, ◌<◌, ◌≤◌, arith, refl, Bool, true, false, Option, none, some, List, [], ◌∷◌,
  ◌==◌, All, Bool-cases, inl, inr, ◌⊎◌, if◌then◌else◌, ==_iff, sym, subst, ◌≢◌, ◌∙◌, false≢true,
}
use hegel_go.Errors.{Message}
use hegel_go.Engine.{Engine}
use hegel_go.Default.{
  Field, Kind, bool_kind, string_kind, int_kind, float_kind, pointer_kind, slice_kind, array_kind,
  map_kind, struct_kind, other_kind, Draw, Value,
}
use hegel_go.Default.Shapes.{
  is_active, Overrides, Shape, Nodes, node_of, Built, built, refused, too_deep, then_build,
  record_node, field_override, build_fields, build_elem, build_kind, build_new, build_default,
  compile, new_default_generator,
}

-- The types that a kind names are below the bound.
unfoldable pub KindBelow : ℕ → Kind → Type 0
KindBelow bound (pointer_kind e) = e < bound
KindBelow bound (slice_kind e) = e < bound
KindBelow bound (array_kind n e) = e < bound
KindBelow bound (map_kind k e) = (k < bound) × (e < bound)
KindBelow bound (struct_kind fs) = All (λ f. f.typ < bound) fs
KindBelow bound _ = Unit

-- The number of types below the bound that are not active.
inactive : ℕ → List ℕ → ℕ
inactive zero active = 0
inactive (suc n) active =
    let rest = inactive n active in if is_active n active then rest else suc rest

inactive_mono : (n t : ℕ) (active : List ℕ) → inactive n (t ∷ active) ≤ inactive n active
unfolding inactive is_active
inactive_mono zero t active = omega arith
inactive_mono (suc n) t active = let h = inactive_mono n t active in ground (arith, h)

inactive_less :
    (n t : ℕ) (active : List ℕ)
    → t < n
    → is_active t active ≡ false
    → inactive n (t ∷ active) < inactive n active
unfolding inactive is_active
inactive_less zero t active below e = absurd (omega arith)
inactive_less (suc n) t active below e = elim (Bool-cases (n == t)) [
  | inl same ↦
      let same_type : n ≡ t = (==_iff n t).0 same in
      let h = inactive_mono n t active in
      let free : is_active n active ≡ false =
        subst (λ u. is_active u active ≡ false) (sym same_type) e in
      rw (same, free) (omega (arith, h))
  | inr other ↦
      let differ : n ≢ t = (λ same. false≢true (sym other ∙ (==_iff n t).1 same)) in
      let h = inactive_less n t active (omega (arith, differ)) e in ground (arith, h, other)
]

module _ ⦃eng : Engine⦄ where
  Ends : {A : Type 0} → Built A → Type 0
  Ends (built a nodes) = Unit
  Ends (refused m) = Unit
  Ends too_deep = ⊥

  then_build-Ends :
      {A B : Type 0} (b : Built A) (f : A → Nodes → Built B)
      → Ends b
      → ((a : A) (nodes : Nodes) → Ends (f a nodes))
      → Ends (then_build b f)
  unfolding then_build Ends
  then_build-Ends (built a nodes) f h g = g a nodes
  then_build-Ends (refused m) f h g = tt
  then_build-Ends too_deep f h g = h

  if-Ends :
      {A : Type 0} (b : Bool) (x y : Built A)
      → (b ≡ true → Ends x)
      → (b ≡ false → Ends y)
      → Ends (if b then x else y)
  if-Ends true x y f g = f refl
  if-Ends false x y f g = g refl

  option-Ends :
      {A B : Type 0} (o : Option B) (x : Built A) (f : B → Built A)
      → Ends x
      → ((b : B) → Ends (f b))
      → Ends (elim o [ none ↦ x | some b ↦ f b ])
  option-Ends none x f h g = h
  option-Ends (some b) x f h g = g b

  module _ (kind_of : ℕ → Kind) (known : ℕ → Option Draw) (over : Overrides) (bound : ℕ)
      (closed : (t : ℕ) → t < bound → KindBelow bound (kind_of t)) where
    BuildEnds : (ℕ → Nodes → Built Shape) → Type 0
    BuildEnds build = (t : ℕ) (nodes : Nodes) → t < bound → Ends (build t nodes)

    build_fields-Ends :
        (build : ℕ → Nodes → Built Shape) (t : ℕ) (fs : List Field) (nodes : Nodes)
        → BuildEnds build
        → All (λ f. f.typ < bound) fs
        → Ends (build_fields kind_of known over build t fs nodes)
    unfolding build_fields Ends BuildEnds
    build_fields-Ends build t [] nodes ends below = tt
    build_fields-Ends build t (f ∷ fs) nodes ends below =
        if-Ends f.exported _ _
          (λ _.
            option-Ends (field_override over t f) _ _
              (then_build-Ends (build f.typ nodes) _ (ends f.typ nodes below.0) (λ s nodes'.
                then_build-Ends (build_fields kind_of known over build t fs nodes') _
                  (build_fields-Ends build t fs nodes' ends below.1) (λ rest nodes''. tt)))
              (λ d.
                then_build-Ends (build_fields kind_of known over build t fs nodes) _
                  (build_fields-Ends build t fs nodes ends below.1) (λ rest nodes'. tt)))
          (λ _. tt)

    build_elem-Ends :
        (build : ℕ → Nodes → Built Shape) (t e : ℕ) (nodes : Nodes)
        → BuildEnds build
        → e < bound
        → Ends (build_elem kind_of known over build t e nodes)
    unfolding build_elem record_node Ends BuildEnds
    build_elem-Ends build t e nodes ends below =
        then_build-Ends (build e nodes) _ (ends e nodes below) (λ s nodes'. tt)

    build_kind-Ends :
        (build : ℕ → Nodes → Built Shape) (t : ℕ) (k : Kind) (nodes : Nodes)
        → BuildEnds build
        → KindBelow bound k
        → Ends (build_kind kind_of known over build t k nodes)
    unfolding build_kind record_node Ends BuildEnds KindBelow
    build_kind-Ends build t bool_kind nodes ends below = tt
    build_kind-Ends build t string_kind nodes ends below = tt
    build_kind-Ends build t (int_kind T) nodes ends below = tt
    build_kind-Ends build t (float_kind w) nodes ends below = tt
    build_kind-Ends build t (pointer_kind e) nodes ends below =
        build_elem-Ends build t e nodes ends below
    build_kind-Ends build t (slice_kind e) nodes ends below =
        build_elem-Ends build t e nodes ends below
    build_kind-Ends build t (array_kind zero e) nodes ends below = tt
    build_kind-Ends build t (array_kind (suc n) e) nodes ends below =
        build_elem-Ends build t e nodes ends below
    build_kind-Ends build t (map_kind k e) nodes ends below =
        then_build-Ends (build k nodes) _ (ends k nodes below.0) (λ key nodes'.
          then_build-Ends (build e nodes') _ (ends e nodes' below.1) (λ s nodes''. tt))
    build_kind-Ends build t (struct_kind fs) nodes ends below =
        then_build-Ends (build_fields kind_of known over build t fs nodes) _
          (build_fields-Ends build t fs nodes ends below) (λ fields nodes'. tt)
    build_kind-Ends build t other_kind nodes ends below = tt

    build_new-Ends :
        (build : ℕ → Nodes → Built Shape) (t : ℕ) (nodes : Nodes)
        → BuildEnds build
        → t < bound
        → Ends (build_new kind_of known over build t nodes)
    unfolding build_new record_node Ends
    build_new-Ends build t nodes ends below =
        option-Ends (over.whole t) _ _
          (option-Ends (known t) _ _
            (build_kind-Ends build t (kind_of t) nodes ends (closed t below)) (λ d. tt))
          (λ d. tt)

    build_default-Ends :
        (depth : ℕ) (active : List ℕ) (t : ℕ) (nodes : Nodes)
        → inactive bound active < depth
        → t < bound
        → Ends (build_default kind_of known over depth active t nodes)
    unfolding build_default Ends BuildEnds
    build_default-Ends zero active t nodes enough below = absurd (omega arith)
    build_default-Ends (suc depth) active t nodes enough below =
        if-Ends (is_active t active) _ _ (λ _. tt)
          (λ free.
            option-Ends (node_of t nodes) _ _
              (build_new-Ends (build_default kind_of known over depth (t ∷ active)) t nodes
                (λ t' nodes' below'.
                  build_default-Ends depth (t ∷ active) t' nodes'
                    (let h = inactive_less bound t active below free in omega (arith, h, enough))
                    below')
                below)
              (λ s. tt))

    inactive_bound : (n : ℕ) (active : List ℕ) → inactive n active ≤ n
    unfolding inactive
    inactive_bound zero active = omega arith
    inactive_bound (suc n) active = let h = inactive_bound n active in ground (arith, h)

    module _ (rounds : ℕ) (eq : Value → Value → Bool) (label : ℕ) where
      -- When a type below a bound names only types below it, more levels than the bound let
      -- newDefaultGenerator end for each of them, with a generator's draw or with an error, also for types
      -- that contain themselves.
      pub new_default_generator_total :
          (depth t : ℕ)
          → t < bound
          → bound < depth
          → ((d : Draw) × (nodes : Nodes) × (new_default_generator kind_of known rounds eq label
                  over depth t
                ≡ built d nodes))
            ⊎ ((m : Message) × (new_default_generator kind_of known rounds eq label over depth t
                  ≡ refused m))
      unfolding new_default_generator then_build Ends
      new_default_generator_total depth t below enough =
          go (build_default kind_of known over depth [] t []) (
            build_default-Ends depth [] t []
              (let h = inactive_bound bound [] in omega (arith, h, enough)) below)
        where
          go :
              (b : Built Shape)
              → Ends b
              → ((d : Draw) × (nodes : Nodes) × (then_build b
                      (λ s nodes'. built (compile kind_of known rounds eq label s) nodes')
                    ≡ built d nodes))
                ⊎ ((m : Message) × (then_build b
                        (λ s nodes'. built (compile kind_of known rounds eq label s) nodes')
                      ≡ refused m))
          go (built s nodes) h = inl (_, nodes, refl)
          go (refused m) h = inr (m, refl)
          go too_deep h = absurd h
