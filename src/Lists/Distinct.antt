-- ===== src/Lists/Distinct.antt =====
-- collections.go: the keys of a unique list.
use hegel_go.Prelude.{ℕ, ◌≡◌, Bool, true, false, not, List, [], ◌∷◌, ◌++◌, All, All-append, arith}
use hegel_go.Flow.{ok, returns}
use hegel_go.Flow.Fallible.{pure}
use hegel_go.Flow.Fallible.Laws.{
  Wp, Wp-pure, Wp-fail, Wp-bind, Wp-if, Wp-returns, Wp-from_exec, Wp-any,
}
use hegel_go.Flow.Loop.Laws.{After, Wp-loop}
use hegel_go.Engine.{Engine}
use hegel_go.TestCase.{TestCase}
use hegel_go.Generator.{Generator, draw}
use hegel_go.Collection.{new_collection, more}
use hegel_go.Lists.Loop.{Wp-finish, Wp-checked}
use hegel_go.Lists.{
  Sizes, check_sizes, max_pointer, finish, any, UniqueVars, unique_element, unique_round,
  unique_lists_by,
}

pub any-eq-false {ℓ} :
    {A : Type ℓ} (p : A → Bool) (xs : List A) → any p xs ≡ false → All (λ x. p x ≡ false) xs
unfolding any
any-eq-false p [] h = tt
any-eq-false p (x ∷ xs) h = (ground arith, any-eq-false p xs (ground arith))

-- No later key equals an earlier one. `differs y x` says so of the later y and the earlier x.
module _ {ℓ} {A : Type ℓ} (same : A → A → Bool) where
  abbrev pub Distinct : List A → Type 0
  Distinct [] = Unit
  Distinct (x ∷ xs) = All (λ y. same y x ≡ false) xs × Distinct xs

  pub Distinct-append :
      (xs : List A) (v : A) → Distinct xs → All (λ x. same v x ≡ false) xs → Distinct (xs ++ v ∷ [])
  Distinct-append [] v h k = (tt, tt)
  Distinct-append (x ∷ xs) v h k =
      (All-append (λ y. same y x ≡ false) xs (v ∷ []) h.0 (k.0, tt), Distinct-append xs v h.1 k.1)

module _ ⦃eng : Engine⦄ {A K : Type 0} (elements : Generator A) (key : A → K)
    (key_eq : K → K → Bool) (is_comparable : K → Bool) where
  abbrev pub same_key : A → A → Bool
  same_key y x = key_eq (key y) (key x)

  -- What is not in `seen` differs from all of the result.
  record Inv (x : UniqueVars A K) : Type 0 where
    distinct : Distinct same_key x.result
    comparable : All (λ y. is_comparable (key y) ≡ true) x.result
    covered : (k : K) → any (key_eq k) x.seen ≡ false → All (λ y. key_eq k (key y) ≡ false) x.result

  -- What the theorem says of the result.
  abbrev pub Good : List A → Type 0
  Good r = Distinct same_key r × All (λ y. is_comparable (key y) ≡ true) r

  element-Inv :
      (x : UniqueVars A K) (v : A) (s : TestCase)
      → Inv x
      → Wp
          (unique_element elements key key_eq is_comparable x v)
          s
          (After (λ y _. Inv y) (λ r _. Good r))
  unfolding unique_element any pure
  element-Inv x v s h =
      Wp-if (not (is_comparable (key v))) _ _ s _ (λ _. Wp-fail _ s _)
        (λ ok_key.
          Wp-if (any (key_eq (key v)) x.seen) _ _ s _
            (λ _. Wp-bind _ _ s _ (
              Wp-from_exec _ s _ (λ c _. record {
                at = record {
                  distinct = h.distinct;
                  comparable = h.comparable;
                  covered = h.covered;
                };
              })))
            (λ fresh. Wp-pure _ s _ (record {
              distinct = Distinct-append same_key x.result v h.distinct (h.covered (key v) fresh);
              comparable = All-append _ x.result (v ∷ []) h.comparable (ground arith, tt);
              covered = λ k e.
                  All-append _ x.result (v ∷ []) (h.covered k (ground arith)) (ground arith, tt);
            })))

  round-Inv :
      (x : UniqueVars A K) (s : TestCase)
      → Inv x
      → Wp
          (unique_round elements key key_eq is_comparable x)
          s
          (After (λ y _. Inv y) (λ r _. Good r))
  unfolding unique_round finish
  round-Inv x s h = Wp-bind _ _ s _ (
      Wp-from_exec (more x.coll) s _ (λ answer _.
        Wp-if answer.0 _ _ _ _
          (λ _. Wp-bind (draw elements) _ _ _ (
            Wp-any (draw elements) _ _ (λ v t.
              element-Inv _ v t (record {
                distinct = h.distinct;
                comparable = h.comparable;
                covered = h.covered;
              }))))
          (λ _.
            Wp-bind (finish answer.1 x.result) _ _ _
              (Wp-finish answer.1 x.result _ _ (Wp-pure _ _ _ (h.distinct, h.comparable))))))

  -- A unique list that is drawn has pairwise different keys, every one of them comparable, whatever
  -- the fuel, the sizes and the library's answers.
  pub unique_lists_by-Distinct :
      (fuel typ : ℕ) (g : Sizes) (s s' : TestCase) (xs : List A)
      → (unique_lists_by elements key key_eq is_comparable fuel typ g).draw_value s
        ≡ (returns (ok xs), s')
      → Distinct same_key xs × All (λ y. is_comparable (key y) ≡ true) xs
  unfolding unique_lists_by
  unique_lists_by-Distinct fuel typ g s s' xs =
      Wp-returns _ s (λ r _. Good r) xs s'
        (Wp-checked (check_sizes g) _ s _ (
          Wp-bind _ _ s _ (
            Wp-any (new_collection g.min_size (max_pointer g)) s _ (λ c t.
              Wp-loop _ (λ x _. Inv x) (λ r _. Good r) round-Inv fuel _ t
                (record { distinct = tt; comparable = tt; covered = λ k e. tt })))))
