-- ===== src/Default/Typed/Compiled.antt =====
-- default.go: newDefaultGenerator, with the types of what its generator draws.
use hegel_go.Prelude.{
  ℕ, zero, suc, ◌≡◌, refl, sym, subst, Bool, true, false, Option, none, some, List, [], ◌∷◌, ◌==◌,
  ==_iff, Bool-cases, inl, inr, if◌then◌else◌,
}
use hegel_go.Errors.{recursive_type}
use hegel_go.Flow.{returns, ok}
use hegel_go.Flow.Fallible.Laws.{Wp-returns}
use hegel_go.Engine.{Engine}
use hegel_go.TestCase.{TestCase}
use hegel_go.Numbers.Range.{DrawsBetween}
use hegel_go.Default.{Kind, Value, Draw}
use hegel_go.Default.Shapes.{
  Overrides, Shape, Nodes, node_of, Built, built, refused, too_deep, then_build, build_new,
  build_default, is_active, compile, new_default_generator,
}
use hegel_go.Default.Typed.Accepted.{Sound, NodesDraw, Good, build_new-Good}
use hegel_go.Default.Typed.{HasType, Draws}

module _ ⦃eng : Engine⦄ (kind_of : ℕ → Kind) (given : ℕ → Value → Type 0) (known : ℕ → Option Draw)
    (over : Overrides) where
  module _ (between : DrawsBetween) (sound : Sound kind_of given known over) (rounds : ℕ)
      (eq : Value → Value → Bool) (label : ℕ) where
    abbrev DrawsAt : Nodes → Type 0
    DrawsAt = NodesDraw kind_of given known over between sound rounds eq label

    abbrev Accepted : ℕ → Built Shape → Type 0
    Accepted = Good kind_of given known over between sound rounds eq label

    node_of-Draws :
        (t : ℕ) (nodes : Nodes) (s : Shape)
        → DrawsAt nodes
        → node_of t nodes ≡ some s
        → Draws kind_of given t (compile kind_of known rounds eq label s)
    unfolding node_of
    node_of-Draws t [] s good e = absurd (cc)
    node_of-Draws t ((u, s') ∷ rest) s good e = elim (Bool-cases (t == u)) [
      | inl same ↦
          subst (λ x. Draws kind_of given x (compile kind_of known rounds eq label s))
            (sym ((==_iff t u).0 same))
            (subst (λ x. Draws kind_of given u (compile kind_of known rounds eq label x))
              (some_injective
                (subst (λ b. (if b then some s' else node_of t rest) ≡ some s) same e))
              good.0)
      | inr other ↦
          node_of-Draws t rest s good.1
            (subst (λ b. (if b then some s' else node_of t rest) ≡ some s) other e)
    ]
      where
        some_injective : {x y : Shape} → some x ≡ some y → x ≡ y
        some_injective h = cc

    build_default-Good :
        (depth : ℕ) (active : List ℕ) (t : ℕ) (nodes : Nodes)
        → DrawsAt nodes
        → Accepted t (build_default kind_of known over depth active t nodes)
    unfolding build_default
    build_default-Good zero active t nodes good = tt
    build_default-Good (suc depth) active t nodes good =
        step (is_active t active) (node_of t nodes) refl (
          build_new-Good kind_of given known over between sound rounds eq label
            (build_default kind_of known over depth (t ∷ active))
            (build_default-Good depth (t ∷ active)) t nodes good)
      where
        step :
            (b : Bool) (o : Option Shape)
            → node_of t nodes ≡ o
            → Accepted t (
                build_new kind_of known over
                  (build_default kind_of known over depth (t ∷ active))
                  t
                  nodes)
            → Accepted t (
                if b then refused (recursive_type t) else elim o [
                  | some s ↦ built s nodes
                  | none ↦
                      build_new kind_of known over
                        (build_default kind_of known over depth (t ∷ active))
                        t
                        nodes
                ])
        step true o e new = tt
        step false (some s) e new = (node_of-Draws t nodes s good e, good)
        step false none e new = new

    DrawGood : ℕ → Built Draw → Type 0
    DrawGood t (built d nodes) = Draws kind_of given t d
    DrawGood t (refused m) = Unit
    DrawGood t too_deep = Unit

    new_default_generator-Good :
        (depth t : ℕ)
        → DrawGood t (new_default_generator kind_of known rounds eq label over depth t)
    unfolding new_default_generator then_build DrawGood
    new_default_generator-Good depth t =
        go (build_default kind_of known over depth [] t []) (build_default-Good depth [] t [] tt)
      where
        go :
            (r : Built Shape)
            → Accepted t r
            → DrawGood t
                (then_build r (λ s nodes. built (compile kind_of known rounds eq label s) nodes))
        go (built s nodes) (h, good) = h
        go (refused m) h = tt
        go too_deep h = tt

    -- When Default accepts a type, every value that its generator draws is a value of that type: of its
    -- kind, with integers in the range of their type, arrays of their length, and elements, keys and
    -- fields of theirs, if the library draws between its bounds and the overrides and known types draw
    -- values of their types.
    pub default_draw-HasType :
        (depth t : ℕ) (d : Draw) (nodes : Nodes) (s s' : TestCase) (v : Value)
        → new_default_generator kind_of known rounds eq label over depth t ≡ built d nodes
        → d s ≡ (returns (ok v), s')
        → HasType kind_of given t v
    unfolding DrawGood
    default_draw-HasType depth t d nodes s s' v e =
        let h : Draws kind_of given t d =
          subst (DrawGood t) e (new_default_generator-Good depth t) in
        Wp-returns d s (λ x _. HasType kind_of given t x) v s' (h.at s)
