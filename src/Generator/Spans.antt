-- ===== src/Generator/Spans.antt =====
-- Drawing is balanced: a draw that returns a value has closed every span that it opened, and has
-- changed nothing of the test case but the library's state.
use hegel_go.Prelude.{
  ℕ, zero, suc, ◌≡◌, refl, ap, ◌∙◌, Bool, true, false, none, some, List, [], ◌∷◌, arith, All,
  All-map, if◌then◌else◌,
}
use hegel_go.Prelude.Int.{ℤ, pos, negsuc, dec-inc}
use hegel_go.Errors.{Err}
use hegel_go.Flow.{Flow, Result, ok, err, returns, panics, exhausted}
use hegel_go.Flow.Fallible.{Fallible, pure, fail, ◌>>=◌, ◌>>◌}
use hegel_go.Flow.Fallible.Laws.{Wp, Wp-bind, Wp-mono, Holds}
use hegel_go.Engine.{Engine, Handle}
use hegel_go.TestCase.{TestCase, native, raise_panic, start_span, stop_span}
use hegel_go.TestCase.Laws.{Opened, Closed, Wp-start_span, Wp-stop_span}
use hegel_go.Generator.{
  Generator, draw, mapped, filter_attempts, filtered, flat_mapped, one_of_generator, optional,
  choose_optional, index,
}

module _ ⦃eng : Engine⦄ where
  -- Only the library's state differs.
  abbrev pub OnlyWorld : TestCase → TestCase → Type 0
  OnlyWorld s s' = s' ≡ record s { world = s'.world }

  -- An action that keeps the test case whenever it returns a value.
  pub record Settles {A : Type 0} (m : Fallible TestCase A) : Type 0 where
    pub at : (s : TestCase) → Wp m s (λ _. OnlyWorld s)

  pub OnlyWorld-trans : (s t u : TestCase) → OnlyWorld s t → OnlyWorld t u → OnlyWorld s u
  OnlyWorld-trans s t u p q = q ∙ ap (λ (x : TestCase). record x { world = u.world }) p

  pub pure-Settles : {A : Type 0} (a : A) → Settles (pure a)
  unfolding pure
  pure-Settles a = record { at = λ s. record { at = refl } }

  pub fail-Settles : {A : Type 0} (e : Err) → Settles (fail {A = A} e)
  unfolding fail
  fail-Settles e = record { at = λ s. record { at = tt } }

  Holds-native :
      {A : Type 0} (r : Flow (Result A)) (s : TestCase) (w : eng.World)
      → Holds (λ _. OnlyWorld s) r (record s { world = w })
  Holds-native (returns (ok a)) s w = refl
  Holds-native (returns (err e)) s w = tt
  Holds-native (panics c pcs) s w = tt
  Holds-native exhausted s w = tt

  pub native-Settles : {A : Type 0} (m : Handle → Fallible eng.World A) → Settles (native m)
  unfolding native
  native-Settles m = record {
    at = λ s. record { at = Holds-native (m s.tc s.world).0 s (m s.tc s.world).1 };
  }

  pub bind-Settles :
      {A B : Type 0} (m : Fallible TestCase A) (f : A → Fallible TestCase B)
      → Settles m
      → ((a : A) → Settles (f a))
      → Settles (m >>= f)
  bind-Settles m f hm hf = record {
    at = λ s. Wp-bind m f s _ (
        Wp-mono m s _ _ (hm.at s)
          (λ a t p. Wp-mono (f a) t _ _ ((hf a).at t) (λ b u. OnlyWorld-trans s t u p)));
  }

  pub if-Settles :
      {A : Type 0} (b : Bool) (m n : Fallible TestCase A)
      → Settles m
      → Settles n
      → Settles (if b then m else n)
  if-Settles true m n hm hn = hm
  if-Settles false m n hm hn = hn

  -- An action that closes one span whenever it returns a value.
  pub record Closes {A : Type 0} (m : Fallible TestCase A) : Type 0 where
    pub at : (s : TestCase) → Wp m s (λ _. Closed s)

  stop_span-Closes :
      {A : Type 0} (b : Bool) (k : Fallible TestCase A) → Settles k → Closes (stop_span b >> k)
  stop_span-Closes b k hk = record {
    at = λ s. Wp-bind (stop_span b) _ s _ (
        Wp-mono (stop_span b) s _ _ (Wp-stop_span b s)
          (λ _ t p. Wp-mono k t _ _ (hk.at t) (λ _ u q. ground arith)));
  }

  if-Closes :
      {A : Type 0} (b : Bool) (m n : Fallible TestCase A)
      → Closes m
      → Closes n
      → Closes (if b then m else n)
  if-Closes true m n hm hn = hm
  if-Closes false m n hm hn = hn

  -- A span round a settled body.
  span-Settles :
      {A B : Type 0} (l : ℕ) (m : Fallible TestCase A) (k : A → Fallible TestCase B)
      → Settles m
      → ((a : A) → Closes (k a))
      → Settles (do start_span l; a ← m; k a)
  span-Settles l m k hm hk = record {
    at = λ s. Wp-bind (start_span l) _ s _ (
        Wp-mono (start_span l) s _ _ (Wp-start_span l s) (λ _ t opened. Wp-bind m k t _ (
          Wp-mono m t _ _ (hm.at t) (λ a t' same.
            Wp-mono (k a) t' _ _ ((hk a).at t')
              (λ x u closed. balance s t t' u opened same closed)))));
  }
    where
      balance : (s t t' u : TestCase) → Opened s t → OnlyWorld t t' → Closed t' u → OnlyWorld s u
      balance s t t' u p q r = ground (arith, dec-inc s.depth)

  pub draw-Settles : {A : Type 0} (g : Generator A) → Settles g.draw_value → Settles (draw g)
  unfolding draw
  draw-Settles g h =
      span-Settles _ g.draw_value _ h (λ a. stop_span-Closes false (pure a) (pure-Settles a))

  pub mapped-Settles :
      {A B : Type 0} (typ : ℕ) (g : Generator A) (fn : A → B)
      → Settles g.draw_value
      → Settles (mapped typ g fn).draw_value
  unfolding mapped
  mapped-Settles typ g fn h = bind-Settles (draw g) _ (draw-Settles g h) (λ a. pure-Settles (fn a))

  filter_attempts-Settles :
      {A : Type 0} (g : Generator A) (p : A → Bool) (n : ℕ)
      → Settles g.draw_value
      → Settles (filter_attempts g p n)
  unfolding filter_attempts
  filter_attempts-Settles g p zero h = fail-Settles _
  filter_attempts-Settles g p (suc n) h = span-Settles _ (draw g) _ (draw-Settles g h) (λ v.
      if-Closes (p v) _ _ (stop_span-Closes false (pure v) (pure-Settles v))
        (stop_span-Closes true _ (filter_attempts-Settles g p n h)))

  pub filtered-Settles :
      {A : Type 0} (typ : ℕ) (g : Generator A) (p : A → Bool)
      → Settles g.draw_value
      → Settles (filtered typ g p).draw_value
  unfolding filtered
  filtered-Settles typ g p h = filter_attempts-Settles g p 3 h

  pub flat_mapped-Settles :
      {A B : Type 0} (typ : ℕ) (g : Generator A) (f : A → Generator B)
      → Settles g.draw_value
      → ((a : A) → Settles (f a).draw_value)
      → Settles (flat_mapped typ g f).draw_value
  unfolding flat_mapped
  flat_mapped-Settles typ g f h hf =
      bind-Settles (draw g) _ (draw-Settles g h) (λ a. draw-Settles (f a) (hf a))

  choose_optional-Settles :
      {A : Type 0} (g : Generator A) (i : ℤ) → Settles g.draw_value → Settles (choose_optional g i)
  unfolding choose_optional
  choose_optional-Settles g (pos zero) h = pure-Settles none
  choose_optional-Settles g (pos (suc n)) h =
      bind-Settles (draw g) _ (draw-Settles g h) (λ a. pure-Settles (some a))
  choose_optional-Settles g (negsuc n) h =
      bind-Settles (draw g) _ (draw-Settles g h) (λ a. pure-Settles (some a))

  pub optional-Settles :
      {A : Type 0} (typ : ℕ) (g : Generator A)
      → Settles g.draw_value
      → Settles (optional typ g).draw_value
  unfolding optional
  optional-Settles typ g h =
      bind-Settles _ _ (native-Settles _) (λ i. choose_optional-Settles g i h)

  -- An action that returns a value only of which `P` holds, and keeps the test case.
  index-Settles :
      {A B : Type 0} (xs : List A) (i : ℕ) (k : A → Fallible TestCase B)
      → All (λ x. Settles (k x)) xs
      → Settles (index xs (pos i) >>= k)
  unfolding index raise_panic ◌>>=◌
  index-Settles [] i k h = record { at = λ s. record { at = tt } }
  index-Settles (x ∷ xs) zero k h = h.0
  index-Settles (x ∷ xs) (suc i) k h = index-Settles xs i k h.1

  pub one_of_generator-Settles :
      {A : Type 0} (typ : ℕ) (gs : List (Generator A))
      → All (λ g. Settles g.draw_value) gs
      → Settles (one_of_generator typ gs).draw_value
  unfolding one_of_generator raise_panic ◌>>=◌
  one_of_generator-Settles typ gs h = bind-Settles _ _ (native-Settles _) (λ i. pick i)
    where
      pick : (i : ℤ) → Settles (index gs i >>= draw)
      pick (pos i) = index-Settles gs i draw (All-map _ _ gs draw-Settles h)
      pick (negsuc i) = record { at = λ s. record { at = tt } }
