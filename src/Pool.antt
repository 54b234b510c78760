-- ===== src/Pool.antt =====
-- pool.go: Pool, the values of a stateful test that the library names by ids. The mutex makes every
-- method one step; a method gets the pool and the calling rule's test case, and gives back both.
pub mod Store
pub mod Refinement
use hegel_go.Prelude.{
  ℕ, Bool, true, false, Option, none, some, List, [], ◌∷◌, length, if◌then◌else◌, ◌==◌,
}
use hegel_go.Prelude.Int.{ℤ}
use hegel_go.Errors.{Err, Message}
use hegel_go.Flow.{Flow, Result, ok, err, returns}
use hegel_go.Flow.Exec.{Exec}
use hegel_go.Flow.Exec
use hegel_go.Flow.Fallible.{Fallible, pure, fail, from_exec, ◌>>=◌, ◌>>◌}
use hegel_go.Engine.{Engine, Handle}
use hegel_go.Native
use hegel_go.TestCase.{TestCase, native, dereference, must, abort}
use hegel_go.Pool.Store.{Values, find, insert, delete}

pub record Pool (T : Type 0) : Type 0 where
  pub handle : Option Handle
  pub values : Values T

module _ ⦃eng : Engine⦄ {T : Type 0} where
  unfoldable pub new_pool : Exec TestCase (Pool T)
  unfolding must native Native.new_pool
  new_pool =
      Exec.◌>>=◌ (must (native Native.new_pool))
        (λ handle. Exec.pure (record { handle = handle; values = [] }))

  store : Pool T → T → ℤ → Option T → Exec TestCase (Pool T)
  unfolding abort insert
  store p v id none = Exec.pure (record p { values = insert id v p.values })
  store p v id (some _) = abort (Err.message (Message.duplicate_value_id id))

  -- Add
  unfoldable pub add : Pool T → T → Exec TestCase (Pool T)
  unfolding dereference must native store find Native.pool_add
  add p v =
      Exec.◌>>=◌ (dereference p.handle) (λ h.
        Exec.◌>>=◌ (must (native (Native.pool_add h))) (λ id. store p v id (find id p.values)))

  unfoldable pub len : Pool T → ℕ
  len p = length p.values

  unfoldable pub is_empty : Pool T → Bool
  unfolding len
  is_empty p = len p == 0

  take : Pool T → Bool → ℤ → Option T → Fallible TestCase (T × Pool T)
  unfolding delete
  take p consume id none = fail (Err.message (Message.unknown_value_id id))
  take p consume id (some v) =
      pure (v, if consume then record p { values = delete id p.values } else p)

  -- poolGenerator.draw
  unfoldable pub draw : Pool T → Bool → Fallible TestCase (T × Pool T)
  unfolding dereference native take find Native.pool_generate
  draw p consume = from_exec (dereference p.handle) >>= λ h.
      native (λ tc. Native.pool_generate h tc consume) >>= λ id.
      take p consume id (find id p.values)
