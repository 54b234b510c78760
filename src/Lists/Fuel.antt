-- ===== src/Lists/Fuel.antt =====
-- collections.go: drawing a list, a unique list or a map ends, given more fuel than the bound on the
-- library's requests.
use hegel_go.Prelude.{
  ℕ, ◌<◌, ◌≢◌, Option-cases, inl, inr, arith, Bool, not, Option, none, some, List, [],
  if◌then◌else◌,
}
use hegel_go.Errors.{Err, Message}
use hegel_go.Flow.{exhausted}
use hegel_go.Flow.Fallible.{Fallible, pure, fail, from_exec, ◌>>=◌}
use hegel_go.Flow.Fallible.Total.{
  Ends, Ends-pure, Ends-fail, Ends-if, Ends-mono, Ends-bind, Ends-not_exhausted,
}
use hegel_go.Flow.Loop.{Step, done, loop}
use hegel_go.Engine.{Engine}
use hegel_go.TestCase.{TestCase}
use hegel_go.Collection.{collection_err, Collection, more, reject, new_collection}
use hegel_go.Generator.{Generator, draw}
use hegel_go.Lists.Termination.{
  Bounded, DrawEnds, Lowered, more_lowers_total, reject_total, new_total, loop_Ends,
}
use hegel_go.Lists.{
  any, Sizes, checked, finish, list_round, lists, unique_element, unique_round, unique_lists_by,
  map_entry, map_round, maps, max_pointer, check_sizes, UniqueVars, MapVars,
}

module _ ⦃eng : Engine⦄ (remaining : eng.World → ℕ) where
  module _ (bounded : Bounded remaining) where
    checked_ends :
        {A : Type 0} (o : Option Message) (body : Fallible TestCase A) (s : TestCase)
        → Ends body s (λ _ _. Unit)
        → (checked o body s).0 ≢ exhausted
    unfolding checked
    checked_ends none body s e = Ends-not_exhausted body s _ e
    checked_ends (some m) body s e =
        Ends-not_exhausted (fail (Err.message m)) s _ (Ends-fail _ s (λ _ _. Unit))

    finish_Ends :
        {A B : Type 0} (c : Collection) (r : B) (s t : TestCase)
        → Ends (finish c r >>= λ r'. pure {A = Step A B} (done r')) t (Lowered remaining s)
    unfolding finish Lowered collection_err pure
    finish_Ends {A = A} {B = B} c r s t =
        Ends-bind (finish c r) _ t _ (elim (Option-cases (collection_err c)) [
          | inl none_e ↦ rw none_e (Ends-pure r t _ (Ends-pure {A = Step A B} (done r) t _ tt))
          | inr (e, some_e) ↦ rw some_e (Ends-fail e t _)
        ])

    -- The head of every round.
    round_Ends :
        {A B : Type 0} (c : Collection) (s : TestCase)
        (go : Collection → Fallible TestCase (Step A B)) (r : B)
        → ((c' : Collection) (t : TestCase)
            → remaining t.world < remaining s.world
            → Ends (go c') t (Lowered remaining s))
        → Ends
            (from_exec (more c) >>= λ answer.
              if answer.0 then go answer.1 else (finish answer.1 r >>= λ r'. pure (done r')))
            s
            (Lowered remaining s)
    round_Ends c s go r k = Ends-bind (from_exec (more c)) _ s _ (
        Ends-mono (from_exec (more c)) s _ _
          (record { at = more_lowers_total remaining bounded c s })
          (λ answer t low.
            Ends-if answer.0 (go answer.1) _ t _ (λ yes_more. k answer.1 t (low yes_more))
              (λ _. finish_Ends answer.1 r s t)))

    module _ {A : Type 0} (elements : Generator A) (draw_ends : DrawEnds remaining elements) where
      list_round_Ends :
          (x : Collection × List A) (s : TestCase)
          → Ends (list_round elements x) s (Lowered remaining s)
      unfolding list_round Lowered
      list_round_Ends (c, xs) s = round_Ends c s _ xs (λ c' t low. Ends-bind (draw elements) _ t _ (
          Ends-mono (draw elements) t _ _ (draw_ends t)
            (λ v u le. Ends-pure _ u _ (omega (arith, low, le)))))

      lists_body :
          (fuel : ℕ) (g : Sizes) (s : TestCase)
          → remaining s.world < fuel
          → Ends
              (new_collection g.min_size (max_pointer g) >>= λ coll.
                loop (list_round elements) fuel (coll, []))
              s
              (λ _ _. Unit)
      lists_body fuel g s lt = Ends-bind (new_collection g.min_size (max_pointer g)) _ s _ (
          Ends-mono _ s _ _
            (record { at = new_total remaining bounded g.min_size (max_pointer g) s })
            (λ coll t le.
              loop_Ends remaining bounded (list_round elements) list_round_Ends fuel (coll, []) t
                (omega (arith, lt, le))))

      module _ {K : Type 0} (key : A → K) (key_eq : K → K → Bool) (is_comparable : K → Bool) where
        unique_element_Ends :
            (x : UniqueVars A K) (v : A) (s t : TestCase)
            → remaining t.world < remaining s.world
            → Ends (unique_element elements key key_eq is_comparable x v) t (Lowered remaining s)
        unfolding unique_element Lowered
        unique_element_Ends x v s t low =
            Ends-if (not (is_comparable (key v))) _ _ t _ (λ _. Ends-fail _ t _)
              (λ _.
                Ends-if (any (key_eq (key v)) x.seen) _ _ t _
                  (λ _. Ends-bind (from_exec (reject "duplicate element" x.coll)) _ t _ (
                    Ends-mono _ t _ _
                      (record { at = reject_total remaining bounded "duplicate element" x.coll t })
                      (λ c u le. Ends-pure _ u _ (omega (arith, low, le)))))
                  (λ _. Ends-pure _ t _ low))

        unique_round_Ends :
            (x : UniqueVars A K) (s : TestCase)
            → Ends (unique_round elements key key_eq is_comparable x) s (Lowered remaining s)
        unfolding unique_round
        unique_round_Ends x s = round_Ends x.coll s _ x.result (λ c t low.
            Ends-bind (draw elements) _ t _ (
              Ends-mono (draw elements) t _ _ (draw_ends t)
                (λ v u le. unique_element_Ends _ v s u (omega (arith, low, le)))))

        unique_lists_body :
            (fuel : ℕ) (g : Sizes) (s : TestCase)
            → remaining s.world < fuel
            → Ends
                (new_collection g.min_size (max_pointer g) >>= λ coll.
                  loop
                    (unique_round elements key key_eq is_comparable)
                    fuel
                    (record { coll = coll; seen = []; result = [] }))
                s
                (λ _ _. Unit)
        unique_lists_body fuel g s lt =
            Ends-bind (new_collection g.min_size (max_pointer g)) _ s _ (
              Ends-mono _ s _ _
                (record { at = new_total remaining bounded g.min_size (max_pointer g) s })
                (λ coll t le.
                  loop_Ends remaining bounded (unique_round elements key key_eq is_comparable)
                    unique_round_Ends fuel _ t (omega (arith, lt, le))))

      module _ {V : Type 0} (values : Generator V) (value_ends : DrawEnds remaining values)
          (key_eq : A → A → Bool) where
        map_entry_Ends :
            (x : MapVars A V) (k : A) (s t : TestCase)
            → remaining t.world < remaining s.world
            → Ends (map_entry elements values key_eq x k) t (Lowered remaining s)
        unfolding map_entry Lowered
        map_entry_Ends x k s t low =
            Ends-if (any (λ e. key_eq k e.0) x.result) _ _ t _
              (λ _. Ends-bind (from_exec (reject "duplicate key" x.coll)) _ t _ (
                Ends-mono _ t _ _
                  (record { at = reject_total remaining bounded "duplicate key" x.coll t })
                  (λ c u le. Ends-pure _ u _ (omega (arith, low, le)))))
              (λ _. Ends-bind (draw values) _ t _ (
                Ends-mono (draw values) t _ _ (value_ends t)
                  (λ v u le. Ends-pure _ u _ (omega (arith, low, le)))))

        map_round_Ends :
            (x : MapVars A V) (s : TestCase)
            → Ends (map_round elements values key_eq x) s (Lowered remaining s)
        unfolding map_round
        map_round_Ends x s = round_Ends x.coll s _ x.result (λ c t low.
            Ends-bind (draw elements) _ t _ (
              Ends-mono (draw elements) t _ _ (draw_ends t)
                (λ k u le. map_entry_Ends _ k s u (omega (arith, low, le)))))

        maps_body :
            (fuel : ℕ) (g : Sizes) (s : TestCase)
            → remaining s.world < fuel
            → Ends
                (new_collection g.min_size (max_pointer g) >>= λ coll.
                  loop
                    (map_round elements values key_eq)
                    fuel
                    (record { coll = coll; result = [] }))
                s
                (λ _ _. Unit)
        maps_body fuel g s lt = Ends-bind (new_collection g.min_size (max_pointer g)) _ s _ (
            Ends-mono _ s _ _
              (record { at = new_total remaining bounded g.min_size (max_pointer g) s })
              (λ coll t le.
                loop_Ends remaining bounded (map_round elements values key_eq) map_round_Ends fuel _
                  t (omega (arith, lt, le))))

        module _ {K : Type 0} (key : A → K) (same : K → K → Bool) (is_comparable : K → Bool) where
          -- When the library asks for boundedly many elements, and drawing an element, key or value
          -- ends without raising that bound, more fuel than the bound lets the draws of Lists,
          -- UniqueLists and Maps end with a result, an error or a panic.
          pub draws_end :
              (fuel typ : ℕ) (g : Sizes) (s : TestCase)
              → remaining s.world < fuel
              → (((lists elements fuel typ g).draw_value s).0 ≢ exhausted)
                × (((unique_lists_by elements key same is_comparable fuel typ g).draw_value s).0
                    ≢ exhausted)
                × (((maps elements values key_eq fuel typ g).draw_value s).0 ≢ exhausted)
          unfolding lists unique_lists_by maps
          draws_end fuel typ g s lt = (
            checked_ends (check_sizes g) _ s (lists_body fuel g s lt),
            checked_ends (check_sizes g) _ s (unique_lists_body key same is_comparable fuel g s lt),
            checked_ends (check_sizes g) _ s (maps_body fuel g s lt),
          )
