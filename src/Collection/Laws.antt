-- ===== src/Collection/Laws.antt =====
-- runner.go: laws of the collection protocol. Errors and the end of a collection are sticky, and the
-- methods change nothing of the test case but the library's state.
use hegel_go.Prelude.{String, ◌≡◌, refl, Bool, true, false, not, arith, List, [], ◌∷◌}
use hegel_go.Flow.{returns}
use hegel_go.Flow.Exec.{Exec, pure, ◌>>=◌}
use hegel_go.Flow.Fallible.{from_exec}
use hegel_go.Flow.Fallible.Laws.{Wp-from_exec}
use hegel_go.Engine.{Engine}
use hegel_go.TestCase.{TestCase, native, dereference}
use hegel_go.Generator.Spans.{OnlyWorld, Settles}
use hegel_go.Collection.{Collection, closed, more, reject}

module _ ⦃eng : Engine⦄ where
  pub more-OnlyWorld : (c : Collection) (s : TestCase) → OnlyWorld s (more c s).1
  unfolding more native dereference
  more-OnlyWorld c s = ground arith

  pub reject-OnlyWorld :
      (why : String) (c : Collection) (s : TestCase) → OnlyWorld s (reject why c s).1
  unfolding reject native dereference
  reject-OnlyWorld why c s = ground arith

  pub more-Settles : (c : Collection) → Settles (from_exec (more c))
  more-Settles c = record {
    at = λ s. Wp-from_exec (more c) s (λ _. OnlyWorld s) (λ a h. more-OnlyWorld c s);
  }

  pub reject-Settles : (why : String) (c : Collection) → Settles (from_exec (reject why c))
  reject-Settles why c = record {
    at = λ s. Wp-from_exec (reject why c) s (λ _. OnlyWorld s) (λ a h. reject-OnlyWorld why c s);
  }

  closed_stays :
      (why : String) (c : Collection) (s : TestCase)
      → closed c ≡ true
      → (more c s ≡ (returns (false, c), s)) × (reject why c s ≡ (returns c, s))
  unfolding more reject
  closed_stays why c s h = (rw h, rw h)

  -- More answers true only while the collection is open and stays so; when it answers false, the
  -- collection is closed from then on, by its end or by the error of the call.
  pub more_answers :
      (c c' : Collection) (b : Bool) (s s' : TestCase)
      → more c s ≡ (returns (b, c'), s')
      → (closed c' ≡ not b) × (c'.id ≡ c.id)
  unfolding more native dereference
  more_answers c c' b s s' h = ground arith

  -- The calls that a loop may still make on a collection.
  pub data Call : Type 0 where
    ask : Call
    refuse : String → Call

  -- Makes the calls in turn; the answers of More, in their order, and the collection afterwards.
  unfoldable pub calls : List Call → Collection → Exec TestCase (List Bool × Collection)
  calls [] c = pure ([], c)
  calls (ask ∷ cs) c = more c >>= (λ (b, d). calls cs d >>= (λ (bs, e). pure (b ∷ bs, e)))
  calls (refuse why ∷ cs) c = reject why c >>= calls cs

  pub noes : List Call → List Bool
  noes [] = []
  noes (ask ∷ cs) = false ∷ noes cs
  noes (refuse why ∷ cs) = noes cs

  calls-closed :
      (cs : List Call) (c : Collection) (s : TestCase)
      → closed c ≡ true
      → calls cs c s ≡ (returns (noes cs, c), s)
  unfolding calls noes
  calls-closed [] c s h = refl
  calls-closed (ask ∷ cs) c s h = rw ((closed_stays "" c s h).0, calls-closed cs c s h) refl
  calls-closed (refuse why ∷ cs) c s h = rw ((closed_stays why c s h).1, calls-closed cs c s h) refl

  -- Once More has answered false, by the end of the collection or by an error, every later sequence of
  -- calls of More and Reject answers false throughout, keeps the collection, its error included, and
  -- leaves the test case and the library as they are.
  pub more_final :
      (cs : List Call) (c c' : Collection) (s s' : TestCase)
      → more c s ≡ (returns (false, c'), s')
      → calls cs c' s' ≡ (returns (noes cs, c'), s')
  more_final cs c c' s s' e = calls-closed cs c' s' (more_answers c c' false s s' e).0
