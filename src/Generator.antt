-- ===== src/Generator.antt =====
-- generators.go: the Generator interface with `draw`, `Draw` and `withSpan`, the generators of Map,
-- Filter, FlatMap and Composite (composite.go), and those of combinators.go. `typ` is the identity of
-- the generator's reflect.Type, of which labels.go takes a hash.
pub mod Spans
pub mod Callbacks
pub mod Filter
use hegel_go.Prelude.{
  ℕ, zero, suc, String, Bool, true, false, Option, none, some, List, [], ◌∷◌, get_elem?, length,
  if◌then◌else◌,
}
use hegel_go.Prelude.Int.{ℤ, pos, negsuc, dec}
use hegel_go.Errors.{Err, ErrorCode, value, empty_one_of, empty_sampled_from, index_out_of_range}
use hegel_go.Flow.{Result, ok, err, returns}
use hegel_go.Flow.Exec.{Exec}
use hegel_go.Flow.Exec
use hegel_go.Flow.Fallible.{Fallible, pure, fail, from_exec, ◌>>=◌, ◌>>◌}
use hegel_go.Engine.{Engine}
use hegel_go.Native
use hegel_go.TestCase.{TestCase, native, must, note, raise_panic, start_span, stop_span, in_span}

module _ ⦃eng : Engine⦄ where
  pub record Generator (A : Type 0) : Type 0 where
    pub typ : ℕ
    pub draw_value : Fallible TestCase A

  -- On an error the span is left open.
  unfoldable pub with_span : {A : Type 0} → ℕ → Fallible TestCase A → Fallible TestCase A
  with_span label body = do start_span label; v ← body; stop_span false; pure v

  unfoldable pub draw : {A : Type 0} → Generator A → Fallible TestCase A
  unfolding with_span
  draw g = with_span (eng.label_of_type g.typ) g.draw_value

  -- `show` is the text of formatDrawReport.
  report_draw : {A : Type 0} → (A → String) → A → Exec TestCase (Unit {0})
  report_draw show v s = elim s.printer [ none ↦ (returns tt, s) | some _ ↦ note (show v) s ]

  report_unless_nested : {A : Type 0} → (A → String) → A → Exec TestCase A
  report_unless_nested show v s =
      if in_span s then (returns v, s) else Exec.◌>>=◌ (report_draw show v) (λ _. Exec.pure v) s

  -- `Draw`: an error aborts; only a draw outside every span is reported.
  unfoldable pub draw_or_abort : {A : Type 0} → (A → String) → Generator A → Exec TestCase A
  unfolding report_unless_nested report_draw
  draw_or_abort show g = Exec.◌>>=◌ (must (draw g)) (report_unless_nested show)

  unfoldable pub mapped : {A B : Type 0} → ℕ → Generator A → (A → B) → Generator B
  mapped typ inner fn = record { typ = typ; draw_value = (do v ← draw inner; pure (fn v)) }

  abbrev pub max_filter_attempts : ℕ
  max_filter_attempts = 3

  -- The loop of filteredGenerator.draw with `n` attempts left.
  unfoldable pub filter_attempts : {A : Type 0} → Generator A → (A → Bool) → ℕ → Fallible TestCase A
  filter_attempts source predicate zero = fail (Err.code ErrorCode.assume)
  filter_attempts source predicate (suc n) =
      let rest = filter_attempts source predicate n in
      (do
        start_span (eng.label_of_name "filter")
        v ← draw source
        if predicate v then (do stop_span false; pure v) else (do stop_span true; rest))

  unfoldable pub filtered : {A : Type 0} → ℕ → Generator A → (A → Bool) → Generator A
  filtered typ source predicate = record {
    typ = typ;
    draw_value = filter_attempts source predicate max_filter_attempts;
  }

  unfoldable pub flat_mapped : {A B : Type 0} → ℕ → Generator A → (A → Generator B) → Generator B
  flat_mapped typ source f = record {
    typ = typ;
    draw_value = (do first ← draw source; draw (f first));
  }

  -- Composite: the callback reports errors only by aborting.
  unfoldable pub composite : {A : Type 0} → ℕ → Exec TestCase A → Generator A
  composite typ fn = record { typ = typ; draw_value = from_exec fn }

  -- `generators[idx]`
  index : {B : Type 0} → List B → ℤ → Fallible TestCase B
  index xs (negsuc i) = raise_panic (value index_out_of_range)
  index xs (pos i) = elim (get_elem? xs i) [
    | none ↦ raise_panic (value index_out_of_range)
    | some x ↦ pure x
  ]

  -- oneOfGenerator.draw
  unfoldable pub one_of_generator : {A : Type 0} → ℕ → List (Generator A) → Generator A
  unfolding index
  one_of_generator typ generators = record {
    typ = typ;
    draw_value = (do
      idx ← native (λ h. Native.generate_integer h (pos 0) (dec (pos (length generators))))
      g ← index generators idx
      draw g);
  }

  -- OneOf panics when it is given nothing to choose from.
  unfoldable pub one_of : {A : Type 0} → ℕ → List (Generator A) → Exec TestCase (Generator A)
  unfolding one_of_generator
  one_of typ [] = raise_panic (value empty_one_of)
  one_of typ (g ∷ gs) = Exec.pure (one_of_generator typ (g ∷ gs))

  choose_optional : {A : Type 0} → Generator A → ℤ → Fallible TestCase (Option A)
  choose_optional inner (pos zero) = pure none
  choose_optional inner _ = do v ← draw inner; pure (some v)

  -- optionalGenerator.draw
  unfoldable pub optional : {A : Type 0} → ℕ → Generator A → Generator (Option A)
  unfolding choose_optional
  optional typ inner = record {
    typ = typ;
    draw_value = (do
      idx ← native (λ h. Native.generate_integer h (pos 0) (pos 1))
      choose_optional inner idx);
  }

  -- SampledFrom of primitives.go
  unfoldable pub sampled_from : {A : Type 0} → ℕ → List A → Exec TestCase (Generator A)
  unfolding index
  sampled_from typ [] = raise_panic (value empty_sampled_from)
  sampled_from typ (v ∷ vs) = Exec.pure (record {
    typ = typ;
    draw_value = (do
      idx ← native (λ h. Native.generate_integer h (pos 0) (dec (pos (length (v ∷ vs)))))
      index (v ∷ vs) idx);
  })

  -- Just of primitives.go
  unfoldable pub just : {A : Type 0} → ℕ → A → Generator A
  just typ v = record { typ = typ; draw_value = pure v }
