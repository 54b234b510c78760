-- ===== src/Recursive/Laws.antt =====
-- recursive.go: what an attempt and the retry loop leave behind.
use hegel_go.Prelude.{ℕ, ◌≡◌, refl, subst, Option, none, some}
use hegel_go.Errors.{Err}
use hegel_go.Flow.{Flow, Result, ok, err, returns, panics, exhausted}
use hegel_go.Flow.Exec.{Exec}
use hegel_go.Flow.Exec
use hegel_go.Flow.Fallible.{pure, from_exec}
use hegel_go.Flow.Fallible.Laws.{Wp, Holds, Wp-pure, Wp-fail, Wp-if, Wp-bind, Wp-mono, Wp-from_exec}
use hegel_go.Flow.Loop.{loop}
use hegel_go.Flow.Loop.Laws.{After, Wp-loop}
use hegel_go.Engine.{Engine, Handle}
use hegel_go.Native
use hegel_go.TestCase.{TestCase, native, dereference, must, or_abort, abort, invoke}
use hegel_go.Generator.{Generator, draw}
use hegel_go.Generator.Spans.{OnlyWorld, OnlyWorld-trans, Settles, native-Settles}
use hegel_go.Recursive.{
  is_retry, leaf_budget, finish, attempted, scope, attempt, after_attempt, attempt_round,
}

module _ ⦃eng : Engine⦄ where
  pub dereference-Settles : (o : Option Handle) → Settles (from_exec (dereference o))
  unfolding dereference
  dereference-Settles none = record { at = λ u. Wp-from_exec _ u _ (λ r e. absurd (cc)) }
  dereference-Settles (some r) = record { at = λ u. Wp-from_exec _ u _ (λ r e. refl) }

  module _ {A : Type 0} where
    Holds-attempted :
        (r : Flow A) (x : Flow (Option Err)) (s : TestCase) (Q : A → TestCase → Type 0)
        → ((v : A) → r ≡ returns v → Q v s)
        → Holds Q (attempted r x) s
    unfolding attempted
    Holds-attempted (returns a) (returns none) s Q k = k a refl
    Holds-attempted (panics c pcs) (returns none) s Q k = tt
    Holds-attempted exhausted (returns none) s Q k = tt
    Holds-attempted (returns a) (returns (some e)) s Q k = tt
    Holds-attempted (panics c pcs) (returns (some e)) s Q k = tt
    Holds-attempted exhausted (returns (some e)) s Q k = tt
    Holds-attempted (returns a) (panics c pcs) s Q k = tt
    Holds-attempted (panics c' qcs) (panics c pcs) s Q k = tt
    Holds-attempted exhausted (panics c pcs) s Q k = tt
    Holds-attempted (returns a) exhausted s Q k = tt
    Holds-attempted (panics c pcs) exhausted s Q k = tt
    Holds-attempted exhausted exhausted s Q k = tt

    -- The callback ends in the state in which its draw has ended.
    discarded_world :
        (r : Flow (Result A)) (t : TestCase) (v : A) (Q : A → eng.World → Type 0)
        → Holds (λ a u. Q a u.world) r t
        → (Exec.continue r or_abort t).0 ≡ returns v
        → Q v
            (Exec.continue
              (Exec.continue r or_abort t).0
              (λ _. Exec.pure {A = Unit {0}} tt)
              (Exec.continue r or_abort t).1).1.world
    unfolding or_abort abort
    discarded_world (returns (ok a)) t v Q h e = subst (λ x. Q x t.world) (cc) h
    discarded_world (returns (err x)) t v Q h e = absurd (cc)
    discarded_world (panics c pcs) t v Q h e = absurd (cc)
    discarded_world exhausted t v Q h e = absurd (cc)

    -- An attempt that gives a value is the draw of it in a scope of its own, of which only the
    -- library's state remains.
    pub Wp-attempt :
        (g : Generator A) (s : TestCase) (Q : A → eng.World → Type 0)
        → Wp (draw g) (scope s) (λ v t. Q v t.world)
        → Wp (attempt g) s (λ v t. Q v t.world × OnlyWorld s t)
    unfolding attempt must invoke scope
    Wp-attempt g s Q w = record {
      at =
          Holds-attempted _ _ _ (λ v t. Q v t.world × OnlyWorld s t)
            (λ v e. (discarded_world (draw g (scope s)).0 (draw g (scope s)).1 v Q w.at e, refl));
    }

    attempt-OnlyWorld : (g : Generator A) (s : TestCase) → OnlyWorld s (attempt g s).1
    unfolding attempt invoke
    attempt-OnlyWorld g s = refl

    -- The loop over the attempts, from s: what holds of every attempt holds of the value.
    module _ (recursion : Option Handle) (root : Generator A) (s : TestCase)
        (R : A → eng.World → Type 0)
        (each : (t : TestCase)
          → OnlyWorld s t
          → Wp (draw root) (scope t) (λ v u. R v u.world)) where
      abbrev Same : Unit {0} → TestCase → Type 0
      Same _ t = OnlyWorld s t

      abbrev Given : A → TestCase → Type 0
      Given v t = R v t.world × OnlyWorld s t

      after_attempt-Wp :
          (e : Err) (t : TestCase)
          → OnlyWorld s t
          → Wp (after_attempt recursion (err e)) t (After Same Given)
      unfolding after_attempt
      after_attempt-Wp e t h =
          Wp-if (is_retry leaf_budget e) _ _ t _
            (λ _. Wp-bind (from_exec (dereference recursion)) _ t _ (
              Wp-mono _ t _ _ ((dereference-Settles recursion).at t) (λ r u p.
                Wp-bind (native (Native.recursion_retry r)) _ u _ (
                  Wp-mono _ u _ _ ((native-Settles (Native.recursion_retry r)).at u) (λ _ v q.
                    Wp-pure _ v _ (OnlyWorld-trans s t v h (OnlyWorld-trans t u v p q)))))))
            (λ _. Wp-if (is_retry finish e) _ _ t _ (λ _. Wp-pure _ t _ h) (λ _. Wp-fail e t _))

      after_attempt-Holds :
          (r : Flow (Result A)) (t : TestCase)
          → OnlyWorld s t
          → Holds (λ v u. R v u.world) r t
          → Holds
              (After Same Given)
              (Exec.continue r (after_attempt recursion) t).0
              (Exec.continue r (after_attempt recursion) t).1
      unfolding after_attempt pure
      after_attempt-Holds (returns (ok v)) t h w = (w, h)
      after_attempt-Holds (returns (err e)) t h w = (after_attempt-Wp e t h).at
      after_attempt-Holds (panics c pcs) t h w = tt
      after_attempt-Holds exhausted t h w = tt

      round-Wp :
          (a : Unit {0}) (t : TestCase)
          → OnlyWorld s t
          → Wp (attempt_round recursion root a) t (After Same Given)
      unfolding attempt_round
      round-Wp _ t h = record {
        at =
            after_attempt-Holds _ _ (OnlyWorld-trans s t _ h (attempt-OnlyWorld root t))
              (Wp-mono _ t _ _ (Wp-attempt root t R (each t h)) (λ v u p. p.0)).at;
      }

      pub Wp-attempts :
          (rounds : ℕ)
          → Wp
              (loop (attempt_round recursion root) rounds tt)
              s
              (λ v t. R v t.world × OnlyWorld s t)
      Wp-attempts rounds =
          Wp-loop (attempt_round recursion root) Same Given round-Wp rounds tt s refl
