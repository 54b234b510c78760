-- ===== src/Pool/Refinement.antt =====
-- pool.go: what Add and a draw do to the pool, against a finite map from ids to values.
use hegel_go.Prelude.{
  suc, ◌≡◌, ◌≢◌, refl, arith, subst, if◌then◌else◌, Bool, true, false, Option, none, some,
}
use hegel_go.Prelude.Int.{ℤ}
use hegel_go.Flow.{ok, returns}
use hegel_go.Flow.Exec.{bind_returns}
use hegel_go.Flow.Fallible.{from_exec}
use hegel_go.Flow.Fallible.Laws.{Wp, Wp-returns, Wp-skip, Wp-pure, Wp-fail}
use hegel_go.Engine.{Engine}
use hegel_go.Native
use hegel_go.TestCase.{TestCase, native, dereference, must, abort}
use hegel_go.Pool.Store.{
  IsMap, find, insert, delete, find-insert, find-insert_other, find-delete, find-delete_other,
  length-delete, delete-IsMap,
}
use hegel_go.Pool.{Pool, add, len, draw, take, store}

module _ ⦃eng : Engine⦄ {T : Type 0} where
  -- A reusable draw of v from p.
  pub record Reused (p p' : Pool T) (v : T) : Type 0 where
    pub id : ℤ
    pub present : find id p.values ≡ some v
    pub unchanged : p' ≡ p

  -- A consuming draw of v from p: one entry is gone, and no other.
  pub record Consumed (p p' : Pool T) (v : T) : Type 0 where
    pub id : ℤ
    pub present : find id p.values ≡ some v
    pub gone : find id p'.values ≡ none
    pub others : (j : ℤ) → id ≢ j → find j p'.values ≡ find j p.values
    pub smaller : suc (len p') ≡ len p
    pub still_map : IsMap p'.values

  abbrev pub Drawn : Bool → Pool T → T → Pool T → Type 0
  Drawn false p v p' = Reused p p' v
  Drawn true p v p' = Consumed p p' v

  taken :
      (p : Pool T) (consume : Bool) (id : ℤ) (v : T)
      → IsMap p.values
      → find id p.values ≡ some v
      → Drawn consume p v (if consume then record p { values = delete id p.values } else p)
  unfolding len
  taken p false id v is_map held = record { id = id; present = held; unchanged = refl }
  taken p true id v is_map held = record {
    id = id;
    present = held;
    gone = find-delete id p.values;
    others = λ j. find-delete_other id j p.values;
    smaller = length-delete id v p.values is_map held;
    still_map = delete-IsMap id p.values is_map;
  }

  take-Drawn :
      (p : Pool T) (consume : Bool) (id : ℤ) (o : Option T) (s : TestCase)
      → IsMap p.values
      → find id p.values ≡ o
      → Wp (take p consume id o) s (λ r _. Drawn consume p r.0 r.1)
  unfolding take
  take-Drawn p consume id none s is_map held = Wp-fail _ s _
  take-Drawn p consume id (some v) s is_map held = Wp-pure _ s _ (taken p consume id v is_map held)

  -- A draw from a pool whose ids are distinct returns a value that the pool holds under some id; a
  -- reusable draw leaves the pool as it is, and a consuming one removes exactly that entry.
  pub draw-Drawn :
      (p p' : Pool T) (consume : Bool) (v : T) (s s' : TestCase)
      → IsMap p.values
      → draw p consume s ≡ (returns (ok (v, p')), s')
      → Drawn consume p v p'
  unfolding draw
  draw-Drawn p p' consume v s s' is_map =
      Wp-returns _ s (λ r _. Drawn consume p r.0 r.1) (v, p') s'
        (Wp-skip (from_exec (dereference p.handle)) _ s _ (λ h t.
          Wp-skip (native (λ tc. Native.pool_generate h tc consume)) _ t _
            (λ id u. take-Drawn p consume id _ u is_map refl)))

  -- Add of v to p.
  pub record Added (p p' : Pool T) (v : T) : Type 0 where
    pub id : ℤ
    pub fresh : find id p.values ≡ none
    pub stored : find id p'.values ≡ some v
    pub others : (j : ℤ) → id ≢ j → find j p'.values ≡ find j p.values
    pub larger : len p' ≡ suc (len p)
    pub still_map : IsMap p'.values

  store-Added :
      (p p' : Pool T) (v : T) (id : ℤ) (o : Option T) (s s' : TestCase)
      → IsMap p.values
      → find id p.values ≡ o
      → store p v id o s ≡ (returns p', s')
      → Added p p' v
  unfolding store len insert abort
  store-Added p p' v id none s s' is_map missing e =
      let same : record p { values = insert id v p.values } ≡ p' = cc in
      subst (λ q. Added p q v) same
        (record {
          id = id;
          fresh = missing;
          stored = find-insert id v p.values;
          others = λ j. find-insert_other id j v p.values;
          larger = refl;
          still_map = (missing, is_map);
        })
  store-Added p p' v id (some w) s s' is_map held e = absurd (ground arith)

  -- An Add that returns has stored the value under an id that was free, and changed nothing else; the
  -- ids stay distinct.
  pub add-Added :
      (p p' : Pool T) (v : T) (s s' : TestCase)
      → IsMap p.values
      → add p v s ≡ (returns p', s')
      → Added p p' v
  unfolding add
  add-Added p p' v s s' is_map e =
      let (h, rest) = bind_returns (dereference p.handle) _ s s' p' e in
      let (id, end) = bind_returns (must (native (Native.pool_add h))) _ _ s' p' rest in
      store-Added p p' v id (find id p.values) _ s' is_map refl end
