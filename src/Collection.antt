-- ===== src/Collection.antt =====
-- runner.go: newCollection and the collection protocol, `collection` with More, Reject and Err. The
-- record is a local variable of its user, so a method gives back the new record.
pub mod Laws
use hegel_go.Prelude.{
  ℕ, ◌-◌, ◌^◌, String, Bool, true, false, not, Option, none, some, if◌then◌else◌,
}
use hegel_go.Prelude.Int.{ℤ, to_uint64}
use hegel_go.Errors.{Err}
use hegel_go.Flow.{Result, ok, err}
use hegel_go.Flow.Exec.{Exec, pure, ◌>>=◌}
use hegel_go.Flow.Fallible.{Fallible}
use hegel_go.Flow.Fallible
use hegel_go.Engine.{Engine, Handle}
use hegel_go.Native
use hegel_go.TestCase.{TestCase, native, dereference}

pub record Collection : Type 0 where
  pub id : Option Handle
  pub finished : Bool
  pub error : Option Err

-- math.MaxUint64
abbrev pub max_uint64 : ℕ
max_uint64 = 2 ^ 64 - 1

-- A nil maximum is no maximum.
abbrev pub max_value : Option ℤ → ℕ
max_value none = max_uint64
max_value (some n) = to_uint64 n

-- The guard `c.finished || c.err != nil`.
abbrev pub closed : Collection → Bool
closed c = if c.finished then true else elim c.error [ none ↦ false | some _ ↦ true ]

module _ ⦃eng : Engine⦄ where
  unfoldable pub new_collection : ℤ → Option ℤ → Fallible TestCase Collection
  new_collection lo hi =
      Fallible.◌>>=◌ (native (λ h. Native.new_collection h (to_uint64 lo) (max_value hi)))
        (λ id. Fallible.pure (record { id = id; finished = false; error = none }))

  -- Err
  unfoldable pub collection_err : Collection → Option Err
  collection_err c = c.error

  record_more : Collection → Result Bool → Exec TestCase (Bool × Collection)
  record_more c (ok true) = pure (true, c)
  record_more c (ok false) = pure (false, record c { finished = true })
  record_more c (err e) = pure (false, record c { error = some e })

  unfoldable pub more : Collection → Exec TestCase (Bool × Collection)
  unfolding record_more
  more c = if closed c then pure (false, c) else (do
    id ← dereference c.id
    answer ← native (λ h. Native.collection_more h id)
    record_more c answer)

  record_reject : Collection → Result (Unit {0}) → Exec TestCase Collection
  record_reject c (ok _) = pure c
  record_reject c (err e) = pure (record c { error = some e })

  unfoldable pub reject : String → Collection → Exec TestCase Collection
  unfolding record_reject
  reject reason c = if closed c then pure c else (do
    id ← dereference c.id
    answer ← native (λ h. Native.collection_reject h id reason)
    record_reject c answer)
