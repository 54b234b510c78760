-- ===== src/Default/Typed/Kinds.antt =====
-- default.go: makeDefaultDraw draws values of its type when its parts do.
use hegel_go.Prelude.{ℕ, zero, suc, ◌≡◌, arith, Bool, false, Option, none, some, List, [], ◌∷◌}
use hegel_go.Prelude.Int.{pos, ◌≤ℤ◌}
use hegel_go.Flow.Fallible.{Fallible, from_exec}
use hegel_go.Flow.Fallible.Laws.{Wp, Wp-pure, Wp-if, Wp-bind, Wp-skip, Wp-mono, Wp-any, Wp-self}
use hegel_go.Flow.Loop.Laws.{Wp-loop}
use hegel_go.Engine.{Engine}
use hegel_go.Native
use hegel_go.TestCase.{TestCase, native}
use hegel_go.Collection.{new_collection, more, reject}
use hegel_go.Lists.{finish}
use hegel_go.Lists.Loop.{Wp-finish}
use hegel_go.Numbers.{
  IntType, int8, int16, int32, int64, uint8, uint16, uint32, uint64, is_unsigned, modulus,
  draw_integer,
}
use hegel_go.Numbers.Range.{DrawsBetween, IsValue, Fits-between, draw_integer-Between}
use hegel_go.Generator.{draw}
use hegel_go.Default.{
  Field, Kind, Value, Values, boolean, string, integer, float, nil, pointer, slice, mapping,
  no_values, add, no_entries, append, has_key, Draw, from_generator, call, draw_fields, draw_array,
  draw_pointer, slice_round, draw_slice, new_entry, map_round, draw_map, least_int, largest_int,
  draw_kind, bool_kind, string_kind, int_kind, float_kind, pointer_kind, slice_kind, array_kind,
  map_kind, struct_kind, other_kind,
}
use hegel_go.Default.Typed.{
  HasType, Elements, Counted, Mapped, Filled, is_boolean, is_string, is_integer, is_float, is_nil,
  is_pointer, is_slice, is_array, is_mapping, is_structure, no_elements, an_element, none_counted,
  one_counted, none_mapped, one_mapped, none_filled, one_filled, Draws,
}

least_int-IsValue : (T : IntType) → IsValue T (least_int T)
least_int-IsValue int8 = omega arith
least_int-IsValue int16 = omega arith
least_int-IsValue int32 = omega arith
least_int-IsValue int64 = omega arith
least_int-IsValue uint8 = omega arith
least_int-IsValue uint16 = omega arith
least_int-IsValue uint32 = omega arith
least_int-IsValue uint64 = omega arith

largest_int-IsValue : (T : IntType) → IsValue T (largest_int T)
largest_int-IsValue int8 = omega arith
largest_int-IsValue int16 = omega arith
largest_int-IsValue int32 = omega arith
largest_int-IsValue int64 = omega arith
largest_int-IsValue uint8 = omega arith
largest_int-IsValue uint16 = omega arith
largest_int-IsValue uint32 = omega arith
largest_int-IsValue uint64 = omega arith

least-largest : (T : IntType) → least_int T ≤ℤ largest_int T
least-largest int8 = omega arith
least-largest int16 = omega arith
least-largest int32 = omega arith
least-largest int64 = omega arith
least-largest uint8 = omega arith
least-largest uint16 = omega arith
least-largest uint32 = omega arith
least-largest uint64 = omega arith

module _ ⦃eng : Engine⦄ (kind_of : ℕ → Kind) (given : ℕ → Value → Type 0) where
  append-Elements :
      (e : ℕ) (vs : Values) (v : Value)
      → Elements kind_of given e vs
      → HasType kind_of given e v
      → Elements kind_of given e (append vs v)
  unfolding append
  append-Elements e no_values v h hv = an_element e v no_values hv h
  append-Elements e (add w ws) v (an_element _ _ _ hw hs) hv =
      an_element e w (append ws v) hw (append-Elements e ws v hs hv)

  from_generator-Wp :
      {A : Type 0} (wrap : A → Value) (label t : ℕ) (body : Fallible TestCase A) (s : TestCase)
      → ((u : TestCase) → Wp body u (λ a _. HasType kind_of given t (wrap a)))
      → Wp (from_generator wrap label body) s (λ v _. HasType kind_of given t v)
  unfolding from_generator draw
  from_generator-Wp wrap label t body s h =
      Wp-bind (draw (record { typ = label; draw_value = body })) _ s _ (
        Wp-skip _ _ s _ (λ _ u. Wp-bind body _ u _ (
          Wp-mono body u _ _ (h u)
            (λ a x p. Wp-skip _ _ x _ (λ _ y. Wp-pure a y _ (Wp-pure (wrap a) y _ p))))))

  draw_array-Counted :
      (e : ℕ) (d : Draw) (n : ℕ) (s : TestCase)
      → Draws kind_of given e d
      → Wp (draw_array d n) s (λ vs _. Counted kind_of given e n vs)
  unfolding draw_array
  draw_array-Counted e d zero s h = Wp-pure no_values s _ (none_counted e)
  draw_array-Counted e d (suc n) s h = Wp-bind d _ s _ (
      Wp-mono d s _ _ (h.at s) (λ v t p. Wp-bind (draw_array d n) _ t _ (
        Wp-mono _ t _ _ (draw_array-Counted e d n t h)
          (λ vs u ps. Wp-pure (add v vs) u _ (one_counted e n v vs p ps)))))

  -- Each field has its draw.
  abbrev pub DrawsAll : List Field → List Draw → Type 0
  DrawsAll [] [] = Unit
  DrawsAll [] (d ∷ ds) = ⊥
  DrawsAll (f ∷ fs) [] = ⊥
  DrawsAll (f ∷ fs) (d ∷ ds) = Draws kind_of given f.typ d × DrawsAll fs ds

  draw_fields-Filled :
      (fs : List Field) (ds : List Draw) (s : TestCase)
      → DrawsAll fs ds
      → Wp (draw_fields ds) s (λ vs _. Filled kind_of given fs vs)
  unfolding draw_fields
  draw_fields-Filled [] [] s h = Wp-pure no_values s _ none_filled
  draw_fields-Filled [] (d ∷ ds) s h = absurd h
  draw_fields-Filled (f ∷ fs) [] s h = absurd h
  draw_fields-Filled (f ∷ fs) (d ∷ ds) s h = Wp-bind d _ s _ (
      Wp-mono d s _ _ (h.0.at s) (λ v t p. Wp-bind (draw_fields ds) _ t _ (
        Wp-mono _ t _ _ (draw_fields-Filled fs ds t h.1)
          (λ vs u ps. Wp-pure (add v vs) u _ (one_filled f fs v vs p ps)))))

  draw_slice-Elements :
      (t e : ℕ) (d : Draw) (rounds : ℕ) (s : TestCase)
      → kind_of t ≡ slice_kind e
      → Draws kind_of given e d
      → Wp (draw_slice rounds d) s (λ v _. HasType kind_of given t v)
  unfolding draw_slice slice_round
  draw_slice-Elements t e d rounds s kind h = Wp-skip (new_collection (pos 0) none) _ s _ (λ coll u.
      Wp-loop (slice_round d) (λ x _. Elements kind_of given e x.1)
        (λ v _. HasType kind_of given t v)
        (λ (c, vs) x p. Wp-skip (from_exec (more c)) _ x _ (λ answer y.
          Wp-if (answer.0) _ _ y _
            (λ _.
              Wp-bind d _ y _
                (Wp-mono d y _ _ (h.at y) (λ v z q. Wp-pure _ z _ (append-Elements e vs v p q))))
            (λ _.
              Wp-bind (finish answer.1 (slice vs)) _ y _
                (Wp-finish answer.1 (slice vs) y _ (Wp-pure _ y _ (is_slice t e vs kind p))))))
        rounds (coll, no_values) u (no_elements e))

  draw_map-Mapped :
      (t k e : ℕ) (eq : Value → Value → Bool) (dk de : Draw) (rounds : ℕ) (s : TestCase)
      → kind_of t ≡ map_kind k e
      → Draws kind_of given k dk
      → Draws kind_of given e de
      → Wp (draw_map rounds eq dk de) s (λ v _. HasType kind_of given t v)
  unfolding draw_map map_round new_entry
  draw_map-Mapped t k e eq dk de rounds s kind hk he =
      Wp-skip (new_collection (pos 0) none) _ s _ (λ coll u.
        Wp-loop (map_round eq dk de) (λ x _. Mapped kind_of given k e x.1)
          (λ v _. HasType kind_of given t v)
          (λ (c, es) x p. Wp-skip (from_exec (more c)) _ x _ (λ answer y.
            Wp-if (answer.0) _ _ y _
              (λ _. Wp-bind dk _ y _ (
                Wp-mono dk y _ _ (hk.at y) (λ key z q.
                  Wp-if (has_key eq key es) _ _ z _
                    (λ _.
                      Wp-skip (from_exec (reject "duplicate key" answer.1)) _ z _
                        (λ _ z'. Wp-pure _ z' _ p))
                    (λ _. Wp-bind de _ z _ (
                      Wp-mono de z _ _ (he.at z)
                        (λ v z' r. Wp-pure _ z' _ (one_mapped k e key v es q r p)))))))
              (λ _. Wp-bind (finish answer.1 (mapping es)) _ y _ (
                Wp-finish answer.1 (mapping es) y _ (Wp-pure _ y _ (is_mapping t k e es kind p))))))
          rounds (coll, no_entries) u (none_mapped k e))

  abbrev pub PartOf : ℕ → Option Draw → Type 0
  PartOf e none = ⊥
  PartOf e (some d) = Draws kind_of given e d

  -- The draws that a kind needs, each of its type.
  abbrev pub Parts : Kind → List Draw → Option Draw → Option Draw → Type 0
  Parts (pointer_kind e) fields elem key = PartOf e elem
  Parts (slice_kind e) fields elem key = PartOf e elem
  Parts (array_kind zero e) fields elem key = Unit
  Parts (array_kind (suc n) e) fields elem key = PartOf e elem
  Parts (map_kind k e) fields elem key = PartOf k key × PartOf e elem
  Parts (struct_kind fs) fields elem key = DrawsAll fs fields
  Parts other_kind fields elem key = ⊥
  Parts _ fields elem key = Unit

  draw_pointer-HasType :
      (t e : ℕ) (d : Draw) (s : TestCase)
      → kind_of t ≡ pointer_kind e
      → Draws kind_of given e d
      → Wp (draw_pointer d) s (λ v _. HasType kind_of given t v)
  unfolding draw_pointer
  draw_pointer-HasType t e d s kind h =
      Wp-skip (native (λ x. Native.generate_boolean x eng.half false false)) _ s _ (λ present u.
        Wp-if present _ _ u _
          (λ _.
            Wp-bind d _ u _ (
              Wp-mono d u _ _ (h.at u)
                (λ v x p. Wp-pure (pointer v) x _ (is_pointer t e v kind p))))
          (λ _. Wp-pure nil u _ (is_nil t e kind)))

  draw_int-HasType :
      (t : ℕ) (T : IntType) (s : TestCase)
      → DrawsBetween
      → kind_of t ≡ int_kind T
      → Wp
          (draw_integer T (least_int T) (largest_int T))
          s
          (λ n _. HasType kind_of given t (integer n))
  draw_int-HasType t T s between kind = Wp-self _ s _ (λ n e. is_integer t T n kind (
      let (low, high) =
        draw_integer-Between between T (least_int T) (largest_int T) n s _ (least_int-IsValue T)
          (largest_int-IsValue T) (least-largest T)
          (λ i. (e i, (draw_integer T (least_int T) (largest_int T) s).1)) in
      Fits-between (is_unsigned T) (modulus T) (least_int T) n (largest_int T) (least_int-IsValue T)
        (largest_int-IsValue T) low high))

  module _ (between : DrawsBetween) (known : ℕ → Option Draw) (rounds : ℕ)
      (eq : Value → Value → Bool) (label : ℕ) where
    -- A draw by the kind has the type, when the parts that the kind needs do.
    pub draw_kind-Draws :
        (t : ℕ) (K : Kind) (fields : List Draw) (elem key : Option Draw)
        → kind_of t ≡ K
        → Parts K fields elem key
        → Draws kind_of given t (draw_kind kind_of known rounds eq label K fields elem key)
    unfolding draw_kind call
    draw_kind-Draws t bool_kind fields elem key kind parts = record {
      at = λ s.
          from_generator-Wp boolean label t _ s (λ u. Wp-any _ u _ (λ b _. is_boolean t b kind));
    }
    draw_kind-Draws t string_kind fields elem key kind parts = record {
      at =
          λ s. from_generator-Wp string label t _ s (λ u. Wp-any _ u _ (λ b _. is_string t b kind));
    }
    draw_kind-Draws t (int_kind T) fields elem key kind parts = record {
      at = λ s. from_generator-Wp integer label t _ s (λ u. draw_int-HasType t T u between kind);
    }
    draw_kind-Draws t (float_kind w) fields elem key kind parts = record {
      at =
          λ s. from_generator-Wp float label t _ s (λ u. Wp-any _ u _ (λ x _. is_float t w x kind));
    }
    draw_kind-Draws t (pointer_kind e) fields none key kind parts = absurd parts
    draw_kind-Draws t (pointer_kind e) fields (some d) key kind parts = record {
      at = λ s. draw_pointer-HasType t e d s kind parts;
    }
    draw_kind-Draws t (slice_kind e) fields none key kind parts = absurd parts
    draw_kind-Draws t (slice_kind e) fields (some d) key kind parts = record {
      at = λ s. draw_slice-Elements t e d rounds s kind parts;
    }
    draw_kind-Draws t (array_kind zero e) fields elem key kind parts = record {
      at = λ s. Wp-bind _ _ s _ (
          Wp-pure no_values s _
            (Wp-pure _ s _ (is_array t e zero no_values kind (none_counted e))));
    }
    draw_kind-Draws t (array_kind (suc n) e) fields none key kind parts = absurd parts
    draw_kind-Draws t (array_kind (suc n) e) fields (some d) key kind parts = record {
      at = λ s. Wp-bind (draw_array d (suc n)) _ s _ (
          Wp-mono _ s _ _ (draw_array-Counted e d (suc n) s parts)
            (λ vs u p. Wp-pure _ u _ (is_array t e (suc n) vs kind p)));
    }
    draw_kind-Draws t (map_kind k e) fields none key kind parts = absurd parts.1
    draw_kind-Draws t (map_kind k e) fields (some d) none kind parts = absurd parts.0
    draw_kind-Draws t (map_kind k e) fields (some d) (some dk) kind parts = record {
      at = λ s. draw_map-Mapped t k e eq dk d rounds s kind parts.0 parts.1;
    }
    draw_kind-Draws t (struct_kind fs) fields elem key kind parts = record {
      at = λ s. Wp-bind (draw_fields fields) _ s _ (
          Wp-mono _ s _ _ (draw_fields-Filled fs fields s parts)
            (λ vs u p. Wp-pure _ u _ (is_structure t fs vs kind p)));
    }
    draw_kind-Draws t other_kind fields elem key kind parts = absurd parts
