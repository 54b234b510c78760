-- ===== src/Balance.antt =====
-- The span discipline of generators.go and collections.go as one statement, over every generator that
-- the combinators build from what is listed at Built.
use hegel_go.Prelude.{ℕ, suc, String, ◌≡◌, refl, Bool, List, [], ◌∷◌, Option, some, All, get_elem?}
use hegel_go.Flow.{ok, returns}
use hegel_go.Flow.Exec.{Exec}
use hegel_go.Flow.Exec
use hegel_go.Flow.Fallible.Laws.{Wp-returns}
use hegel_go.Engine.{Engine, Handle}
use hegel_go.Flow.Fallible.{Fallible}
use hegel_go.TestCase.{TestCase, native, note, assume_that}
use hegel_go.Generator.Callbacks.{
  Keeps, pure-Keeps, bind-Keeps, draw-Keeps, note-Keeps, assume-Keeps,
}
use hegel_go.Generator.{
  Generator, draw, mapped, filtered, flat_mapped, composite, optional, just, one_of_generator,
  draw_or_abort,
}
use hegel_go.Generator.Spans.{
  OnlyWorld, Settles, pure-Settles, native-Settles, draw-Settles, mapped-Settles, filtered-Settles,
  flat_mapped-Settles, optional-Settles, one_of_generator-Settles,
}
use hegel_go.Lists.{Sizes, lists, unique_lists_by, maps}
use hegel_go.Lists.Balance.{lists-Settles, unique_lists_by-Settles, maps-Settles}

module _ ⦃eng : Engine⦄ where
  -- The generators that the combinators build from constants, from single calls of the library, and
  -- from callbacks of Composite that draw from such generators with Draw, assume and note in any
  -- order, each step depending on the values before it, and give a value in the end. (A callback that
  -- recovers the panic of a Draw is not among them: it may leave that draw's span open.)
  mutual
    pub data Built : (A : Type 0) → Generator A → Type 1 where
      constant : {A : Type 0} (typ : ℕ) (v : A) → Built A (just typ v)
      primitive :
          {A : Type 0} (typ : ℕ) (m : Handle → Fallible eng.World A)
          → Built A (record { typ = typ; draw_value = native m })
      callback :
          {A : Type 0} (typ : ℕ) {fn : Exec TestCase A} → Callback A fn → Built A (composite typ fn)
      map :
          {A B : Type 0} (typ : ℕ) {g : Generator A} (fn : A → B)
          → Built A g
          → Built B (mapped typ g fn)
      filter :
          {A : Type 0} (typ : ℕ) {g : Generator A} (p : A → Bool)
          → Built A g
          → Built A (filtered typ g p)
      flat_map :
          {A B : Type 0} (typ : ℕ) {g : Generator A} (f : A → Generator B)
          → Built A g
          → ((a : A) → Built B (f a))
          → Built B (flat_mapped typ g f)
      optionally :
          {A : Type 0} (typ : ℕ) {g : Generator A} → Built A g → Built (Option A) (optional typ g)
      choice :
          {A : Type 0} (typ : ℕ) (gs : List (Generator A))
          → ((i : ℕ) (g : Generator A) → get_elem? gs i ≡ some g → Built A g)
          → Built A (one_of_generator typ gs)
      list :
          {A : Type 0} (fuel typ : ℕ) (sizes : Sizes) {g : Generator A}
          → Built A g
          → Built (List A) (lists g fuel typ sizes)
      unique_list :
          {A K : Type 0} (fuel typ : ℕ) (sizes : Sizes) {g : Generator A} (key : A → K)
          (key_eq : K → K → Bool) (is_comparable : K → Bool)
          → Built A g
          → Built (List A) (unique_lists_by g key key_eq is_comparable fuel typ sizes)
      dictionary :
          {K V : Type 0} (fuel typ : ℕ) (sizes : Sizes) {g : Generator K} {h : Generator V}
          (key_eq : K → K → Bool)
          → Built K g
          → Built V h
          → Built (List (K × V)) (maps g h key_eq fuel typ sizes)

    pub data Callback : (A : Type 0) → Exec TestCase A → Type 1 where
      gives : {A : Type 0} (v : A) → Callback A (Exec.pure v)
      draws :
          {A B : Type 0} (show : A → String) {g : Generator A} (k : A → Exec TestCase B)
          → Built A g
          → ((a : A) → Callback B (k a))
          → Callback B (Exec.◌>>=◌ (draw_or_abort show g) k)
      assumes :
          {B : Type 0} (condition : Bool) {m : Exec TestCase B}
          → Callback B m
          → Callback B (Exec.◌>>◌ (assume_that condition) m)
      notes :
          {B : Type 0} (text : String) {m : Exec TestCase B}
          → Callback B m
          → Callback B (Exec.◌>>◌ (note text) m)

  All-of_get_elem? :
      {A : Type 0} (gs : List (Generator A))
      → ((i : ℕ) (g : Generator A) → get_elem? gs i ≡ some g → Settles g.draw_value)
      → All (λ g. Settles g.draw_value) gs
  All-of_get_elem? [] h = tt
  All-of_get_elem? (g ∷ gs) h = (h 0 g refl, All-of_get_elem? gs (λ i x e. h (suc i) x e))

  mutual
    unfolding just composite

    Built-Settles : {A : Type 0} {g : Generator A} → Built A g → Settles g.draw_value
    Built-Settles (constant typ v) = pure-Settles v
    Built-Settles (primitive typ m) = native-Settles m
    Built-Settles (callback typ c) = Callback-Keeps c
    Built-Settles (map typ fn b) = mapped-Settles typ _ fn (Built-Settles b)
    Built-Settles (filter typ p b) = filtered-Settles typ _ p (Built-Settles b)
    Built-Settles (flat_map typ f b k) =
        flat_mapped-Settles typ _ f (Built-Settles b) (λ a. Built-Settles (k a))
    Built-Settles (optionally typ b) = optional-Settles typ _ (Built-Settles b)
    Built-Settles (choice typ gs b) =
        one_of_generator-Settles typ gs (All-of_get_elem? gs (λ i g e. Built-Settles (b i g e)))
    Built-Settles (list fuel typ sizes b) = lists-Settles _ fuel typ sizes (Built-Settles b)
    Built-Settles (unique_list fuel typ sizes key key_eq is_comparable b) =
        unique_lists_by-Settles _ key key_eq is_comparable (Built-Settles b) fuel typ sizes
    Built-Settles (dictionary fuel typ sizes key_eq b c) =
        maps-Settles _ _ key_eq (Built-Settles b) (Built-Settles c) fuel typ sizes

    Callback-Keeps : {A : Type 0} {fn : Exec TestCase A} → Callback A fn → Keeps fn
    Callback-Keeps (gives v) = pure-Keeps v
    Callback-Keeps (draws show {g = g} k b c) =
        bind-Keeps (draw_or_abort show g) k (draw-Keeps show g (Built-Settles b))
          (λ a. Callback-Keeps (c a))
    Callback-Keeps (assumes condition {m = m} c) =
        bind-Keeps (assume_that condition) (λ _. m) (assume-Keeps condition) (λ _. Callback-Keeps c)
    Callback-Keeps (notes text {m = m} c) =
        bind-Keeps (note text) (λ _. m) (note-Keeps text) (λ _. Callback-Keeps c)

  -- A draw that returns a value leaves the test case as it was, its span depth included, but for the
  -- library's state: every span that the draw opened is closed, whatever the library answers. This
  -- holds for every generator that the combinators build from constants, calls of the library and
  -- callbacks that draw, assume and note without recovering a panic.
  pub draw_balanced :
      {A : Type 0} {g : Generator A} (b : Built A g) (s s' : TestCase) (v : A)
      → draw g s ≡ (returns (ok v), s')
      → OnlyWorld s s'
  draw_balanced {g = g} b s s' v =
      Wp-returns (draw g) s (λ _. OnlyWorld s) v s' ((draw-Settles g (Built-Settles b)).at s)
