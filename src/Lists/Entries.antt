-- ===== src/Lists/Entries.antt =====
-- collections.go: the entries of a map while it is drawn.
use hegel_go.Prelude.{ℕ, ◌≡◌, refl, ap, ◌∙◌, Bool, false, List, [], ◌∷◌, ◌++◌, append_assoc, All}
use hegel_go.Flow.{ok, returns}
use hegel_go.Flow.Fallible.Laws.{Wp, Wp-pure, Wp-bind, Wp-if, Wp-returns, Wp-from_exec, Wp-any}
use hegel_go.Flow.Loop.{loop}
use hegel_go.Flow.Loop.Laws.{After, Wp-loop}
use hegel_go.Engine.{Engine}
use hegel_go.TestCase.{TestCase}
use hegel_go.Generator.{Generator, draw}
use hegel_go.Collection.{more, reject}
use hegel_go.Lists.Loop.{Wp-finish}
use hegel_go.Lists.Distinct.{any-eq-false}
use hegel_go.Lists.{finish, any, put, MapVars, map_entry, map_round}

-- Writing at a key that no entry has adds an entry at the end.
put-fresh :
    {K V : Type 0} (key_eq : K → K → Bool) (k : K) (v : V) (es : List (K × V))
    → All (λ e. key_eq k e.0 ≡ false) es
    → put key_eq k v es ≡ es ++ (k, v) ∷ []
unfolding put
put-fresh key_eq k v [] h = refl
put-fresh key_eq k v (e ∷ es) h = rw (h.0, put-fresh key_eq k v es h.1) refl

module _ {A : Type 0} where
  -- The second list is the first with more at its end.
  abbrev pub Extends : List A → List A → Type 0
  Extends xs ys = (rest : List A) × (ys ≡ xs ++ rest)

  append_nil : (xs : List A) → xs ≡ xs ++ []
  append_nil [] = refl
  append_nil (x ∷ xs) = ap (λ l. x ∷ l) (append_nil xs)

  Extends-append : (xs ys zs : List A) → Extends xs ys → Extends xs (ys ++ zs)
  Extends-append xs ys zs (rest, e) = (rest ++ zs, ap (λ l. l ++ zs) e ∙ append_assoc xs rest zs)

module _ ⦃eng : Engine⦄ {K V : Type 0} (keys : Generator K) (values : Generator V)
    (key_eq : K → K → Bool) where
  -- The entries only grow.
  abbrev Grown : List (K × V) → MapVars K V → TestCase → Type 0
  Grown es x s = Extends es x.result

  entry-Grown :
      (es : List (K × V)) (x : MapVars K V) (k : K) (s : TestCase)
      → Extends es x.result
      → Wp (map_entry keys values key_eq x k) s (After (Grown es) (λ r _. Extends es r))
  unfolding map_entry
  entry-Grown es x k s h =
      Wp-if (any (λ e. key_eq k e.0) x.result) _ _ s _
        (λ _.
          Wp-bind _ _ s _
            (Wp-from_exec (reject "duplicate key" x.coll) s _ (λ c _. Wp-pure _ _ _ h)))
        (λ fresh. Wp-bind (draw values) _ s _ (
          Wp-any (draw values) s _ (λ v t.
            let added = put-fresh key_eq k v x.result (any-eq-false _ x.result fresh) in
            let (rest, e) = Extends-append es x.result ((k, v) ∷ []) h in
            Wp-pure _ t _ (rest, added ∙ e))))

  round-Grown :
      (es : List (K × V)) (x : MapVars K V) (s : TestCase)
      → Extends es x.result
      → Wp (map_round keys values key_eq x) s (After (Grown es) (λ r _. Extends es r))
  unfolding map_round
  round-Grown es x s h = Wp-bind _ _ s _ (
      Wp-from_exec (more x.coll) s _ (λ answer _.
        Wp-if answer.0 _ _ _ _
          (λ _. Wp-bind (draw keys) _ _ _ (Wp-any (draw keys) _ _ (λ k t. entry-Grown es _ k t h)))
          (λ _.
            Wp-bind (finish answer.1 x.result) _ _ _
              (Wp-finish answer.1 x.result _ _ (Wp-pure _ _ _ h)))))

  -- MapGenerator's loop never overwrites an entry: from whatever entries it goes on with, the map that
  -- it returns has all of them, with their keys, values and order unchanged, before the ones that it
  -- has added. A key that is drawn again is rejected instead.
  pub map_loop-Extends :
      (fuel : ℕ) (x : MapVars K V) (s s' : TestCase) (r : List (K × V))
      → loop (map_round keys values key_eq) fuel x s ≡ (returns (ok r), s')
      → Extends x.result r
  map_loop-Extends fuel x s s' r =
      Wp-returns _ s (λ r' _. Extends x.result r') r s'
        (Wp-loop _ (Grown x.result) (λ r' _. Extends x.result r') (round-Grown x.result) fuel x s
          ([], append_nil x.result))
