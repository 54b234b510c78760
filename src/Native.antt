-- ===== src/Native.antt =====
-- The calls of internal/libhegel/libhegel.go that draw values and drive a test case: each wraps one
-- symbol of the library in Context.invoke. A handle that Go holds as a pointer is an Option: `none`
-- is the nil that `allocate` gives for a null handle without an error.
pub mod Run
pub mod Machine
pub mod Values
use hegel_go.Prelude.{ℕ, zero, suc, String, Bool, Option, none, some, List}
use hegel_go.Prelude.Int.{ℤ}
use hegel_go.Errors.{Err, ErrorCode, Status}
use hegel_go.Flow.{Result, ok, err, returns}
use hegel_go.Flow.Fallible.{Fallible, pure, ◌>>=◌}
use hegel_go.Engine.{Engine, Handle}

module _ ⦃eng : Engine⦄ where
  open eng use {World, Float}

  -- Every code but OK becomes an error that wraps it, with the context's last error.
  invoke_result {ℓ} : {A : Type ℓ} → String → ErrorCode → A → World → Result A
  invoke_result op ErrorCode.ok a w = ok a
  invoke_result op c a w = err (Err.native op c (eng.context_last_error w))

  pub invoke {ℓ} : {A : Type ℓ} → String → (World → ErrorCode × A × World) → Fallible World A
  unfolding invoke_result
  invoke op fn w = let (c, a, w') = fn w in (returns (invoke_result op c a w'), w')

  -- A symbol without an out-parameter.
  abbrev no_out : (World → ErrorCode × World) → World → ErrorCode × Unit {0} × World
  no_out fn w = let (c, w') = fn w in (c, tt, w')

  -- A null handle is the nil pointer.
  to_pointer : Handle → Option Handle
  to_pointer zero = none
  to_pointer (suc h) = some (suc h)

  pub allocate : String → (World → ErrorCode × Handle × World) → Fallible World (Option Handle)
  unfolding invoke to_pointer
  allocate op new_handle = do raw ← invoke op new_handle; pure (to_pointer raw)

  unfoldable pub start_span : Handle → ℕ → Fallible World (Unit {0})
  unfolding invoke
  start_span tc label = invoke "hegel_start_span" (no_out (eng.start_span tc label))

  unfoldable pub stop_span : Handle → Bool → Fallible World (Unit {0})
  unfolding invoke
  stop_span tc discard = invoke "hegel_stop_span" (no_out (eng.stop_span tc discard))

  unfoldable pub generate_boolean : Handle → Float → Bool → Bool → Fallible World Bool
  unfolding invoke
  generate_boolean tc p forced has_forced =
      invoke "hegel_generate_boolean" (eng.generate_boolean tc p forced has_forced)

  unfoldable pub generate_integer : Handle → ℤ → ℤ → Fallible World ℤ
  unfolding invoke
  generate_integer tc lo hi = invoke "hegel_generate_integer" (eng.generate_integer tc lo hi)

  unfoldable pub generate_integer_big : Handle → List ℕ → List ℕ → Fallible World (List ℕ)
  unfolding invoke
  generate_integer_big tc lo hi =
      invoke "hegel_generate_integer_big" (eng.generate_integer_big tc lo hi)

  unfoldable pub new_collection : Handle → ℕ → ℕ → Fallible World (Option Handle)
  unfolding allocate
  new_collection tc lo hi = allocate "hegel_new_collection" (eng.new_collection tc lo hi)

  unfoldable pub collection_more : Handle → Handle → Fallible World Bool
  unfolding invoke
  collection_more tc coll = invoke "hegel_collection_more" (eng.collection_more tc coll)

  unfoldable pub collection_reject : Handle → Handle → String → Fallible World (Unit {0})
  unfolding invoke
  collection_reject tc coll why =
      invoke "hegel_collection_reject" (no_out (eng.collection_reject tc coll why))

  unfoldable pub new_recursion : Handle → ℕ → ℕ → Fallible World (Option Handle)
  unfolding allocate
  new_recursion tc depth leaves = allocate "hegel_new_recursion" (eng.new_recursion tc depth leaves)

  unfoldable pub recursion_branch : Handle → Handle → ℕ → Fallible World Bool
  unfolding invoke
  recursion_branch r tc depth = invoke "hegel_recursion_branch" (eng.recursion_branch tc r depth)

  unfoldable pub recursion_leaf : Handle → Handle → Fallible World (Unit {0})
  unfolding invoke
  recursion_leaf r tc = invoke "hegel_recursion_leaf" (no_out (eng.recursion_leaf tc r))

  unfoldable pub recursion_retry : Handle → Handle → Fallible World (Unit {0})
  unfolding invoke
  recursion_retry r tc = invoke "hegel_recursion_retry" (no_out (eng.recursion_retry tc r))

  unfoldable pub recursion_finish : Handle → Handle → Fallible World (Unit {0})
  unfolding invoke
  recursion_finish r tc = invoke "hegel_recursion_finish" (no_out (eng.recursion_finish tc r))

  unfoldable pub new_pool : Handle → Fallible World (Option Handle)
  unfolding allocate
  new_pool tc = allocate "hegel_new_pool" (eng.new_pool tc)

  unfoldable pub pool_add : Handle → Handle → Fallible World ℤ
  unfolding invoke
  pool_add pool tc = invoke "hegel_pool_add" (eng.pool_add tc pool)

  unfoldable pub pool_generate : Handle → Handle → Bool → Fallible World ℤ
  unfolding invoke
  pool_generate pool tc consume = invoke "hegel_pool_generate" (eng.pool_generate tc pool consume)

  unfoldable pub note : Handle → String → Fallible World (Unit {0})
  unfolding invoke
  note tc text = invoke "hegel_note" (no_out (eng.note tc text))

  unfoldable pub event : Handle → String → Fallible World (Unit {0})
  unfolding invoke
  event tc label = invoke "hegel_event" (no_out (eng.event tc label))

  unfoldable pub event_value : Handle → Float → String → Fallible World (Unit {0})
  unfolding invoke
  event_value tc value label = invoke "hegel_event_value" (no_out (eng.event_value tc value label))

  unfoldable pub target : Handle → Float → String → Fallible World (Unit {0})
  unfolding invoke
  target tc value label = invoke "hegel_target" (no_out (eng.target tc value label))

  unfoldable pub mark_complete : Handle → Status → String → Fallible World (Unit {0})
  unfolding invoke
  mark_complete tc status origin =
      invoke "hegel_mark_complete" (no_out (eng.mark_complete tc status origin))
