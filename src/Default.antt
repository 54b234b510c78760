-- ===== src/Default.antt =====
-- default.go: the draws that Default derives from a type. Package reflect is a parameter: a type is a
-- number, and `kind_of` gives its kind. `known` is the table of known types, which uuid.go extends, and
-- `rounds` bounds the loops over a collection.
pub mod Shapes
pub mod Depth
pub mod Typed
use hegel_go.Prelude.{
  ℕ, zero, suc, ◌-◌, ◌^◌, String, Bool, true, false, Option, none, some, List, [], ◌∷◌,
  if◌then◌else◌,
}
use hegel_go.Prelude.Int.{ℤ, pos, negsuc}
use hegel_go.Errors.{Cause, value, nil_dereference}
use hegel_go.Flow.Fallible.{Fallible, pure, from_exec, ◌>>=◌}
use hegel_go.Flow.Loop.{Step, again, done, loop}
use hegel_go.Engine.{Engine}
use hegel_go.Native
use hegel_go.TestCase.{TestCase, native, raise_panic}
use hegel_go.Generator.{Generator, draw}
use hegel_go.Collection.{Collection, new_collection, more, reject}
use hegel_go.Lists.{finish}
use hegel_go.Numbers.{
  IntType, int8, int16, int32, int64, uint8, uint16, uint32, uint64, is_unsigned, draw_integer,
  draw_float, floats, booleans,
}
use hegel_go.Text.{draw_text, text}

-- A field of a struct type, in the order of declaration.
pub record Field : Type 0 where
  pub name : String
  pub typ : ℕ
  pub exported : Bool

-- reflect.Kind with the element, key and length of the type.
pub data Kind : Type 0 where
  bool_kind string_kind : Kind
  int_kind : IntType → Kind
  float_kind : ℕ → Kind
  pointer_kind slice_kind : ℕ → Kind
  array_kind : ℕ → ℕ → Kind
  map_kind : ℕ → ℕ → Kind
  struct_kind : List Field → Kind
  other_kind : Kind

-- The least and the largest value of an integer type.
abbrev pub least_int : IntType → ℤ
least_int int8 = negsuc (2 ^ 7 - 1)
least_int int16 = negsuc (2 ^ 15 - 1)
least_int int32 = negsuc (2 ^ 31 - 1)
least_int int64 = negsuc (2 ^ 63 - 1)
least_int _ = pos 0

abbrev pub largest_int : IntType → ℤ
largest_int int8 = pos (2 ^ 7 - 1)
largest_int int16 = pos (2 ^ 15 - 1)
largest_int int32 = pos (2 ^ 31 - 1)
largest_int int64 = pos (2 ^ 63 - 1)
largest_int uint8 = pos (2 ^ 8 - 1)
largest_int uint16 = pos (2 ^ 16 - 1)
largest_int uint32 = pos (2 ^ 32 - 1)
largest_int uint64 = pos (2 ^ 64 - 1)

module _ ⦃eng : Engine⦄ where
  -- reflect.Value; `opaque` is a value of a type that an override or the table of known types draws.
  mutual
    pub data Value : Type 0 where
      boolean : Bool → Value
      string : String → Value
      integer : ℤ → Value
      float : eng.Float → Value
      nil : Value
      pointer : Value → Value
      slice array structure : Values → Value
      mapping : Entries → Value
      opaque : ℕ → Value

    pub data Values : Type 0 where
      no_values : Values
      add : Value → Values → Values

    -- The last entry is the first here.
    pub data Entries : Type 0 where
      no_entries : Entries
      entry : Value → Value → Entries → Entries

  -- reflect.Append
  unfoldable pub append : Values → Value → Values
  append no_values v = add v no_values
  append (add w ws) v = add w (append ws v)

  -- `v.MapIndex(key).IsValid()` with Go's equality of keys
  unfoldable pub has_key : (Value → Value → Bool) → Value → Entries → Bool
  has_key eq k no_entries = false
  has_key eq k (entry k' v rest) = let later = has_key eq k rest in if eq k' k then true else later

  -- defaultDraw
  abbrev pub Draw : Type 0
  Draw = Fallible TestCase Value

  -- defaultFromGenerator of a generator whose draws are read as reflect values.
  unfoldable pub from_generator : {A : Type 0} → (A → Value) → ℕ → Fallible TestCase A → Draw
  from_generator wrap typ body = do
    v ← draw (record { typ = typ; draw_value = body })
    pure (wrap v)

  -- A call of a nil func panics.
  unfoldable pub call : Option Draw → Draw
  call none = from_exec (raise_panic (value nil_dereference))
  call (some d) = d

  unfoldable pub draw_fields : List Draw → Fallible TestCase Values
  draw_fields [] = pure no_values
  draw_fields (d ∷ ds) = do v ← d; vs ← draw_fields ds; pure (add v vs)

  unfoldable pub draw_array : Draw → ℕ → Fallible TestCase Values
  draw_array elem zero = pure no_values
  draw_array elem (suc n) = do v ← elem; vs ← draw_array elem n; pure (add v vs)

  unfoldable pub draw_pointer : Draw → Draw
  draw_pointer elem = do
    present ← native (λ h. Native.generate_boolean h eng.half false false)
    if present then (do v ← elem; pure (pointer v)) else pure nil

  unfoldable pub slice_round :
      Draw → Collection × Values → Fallible TestCase (Step (Collection × Values) Value)
  unfolding append
  slice_round elem (coll, vs) = do
    answer ← from_exec (more coll)
    if answer.0
        then (do v ← elem; pure (again (answer.1, append vs v)))
        else (do r ← finish answer.1 (slice vs); pure (done r))

  unfoldable pub draw_slice : ℕ → Draw → Draw
  unfolding slice_round
  draw_slice rounds elem = do
    coll ← new_collection (pos 0) none
    loop (slice_round elem) rounds (coll, no_values)

  unfoldable pub new_entry :
      (Value → Value → Bool)
      → Draw
      → Collection
      → Entries
      → Value
      → Fallible TestCase (Step (Collection × Entries) Value)
  unfolding has_key
  new_entry eq elem coll es k =
      if has_key eq k es
      then (do coll' ← from_exec (reject "duplicate key" coll); pure (again (coll', es)))
      else (do v ← elem; pure (again (coll, entry k v es)))

  unfoldable pub map_round :
      (Value → Value → Bool)
      → Draw
      → Draw
      → Collection × Entries
      → Fallible TestCase (Step (Collection × Entries) Value)
  unfolding new_entry
  map_round eq key elem (coll, es) = do
    answer ← from_exec (more coll)
    if answer.0
        then (do k ← key; new_entry eq elem answer.1 es k)
        else (do r ← finish answer.1 (mapping es); pure (done r))

  unfoldable pub draw_map : ℕ → (Value → Value → Bool) → Draw → Draw → Draw
  unfolding map_round
  draw_map rounds eq key elem = do
    coll ← new_collection (pos 0) none
    loop (map_round eq key elem) rounds (coll, no_entries)

  module _ (kind_of : ℕ → Kind) (known : ℕ → Option Draw) (rounds : ℕ) (eq : Value → Value → Bool)
      (label : ℕ) where
    -- makeDefaultDraw by the kind, defaultPrimitive included; `label` is the type of genFunc.
    unfoldable pub draw_kind : Kind → List Draw → Option Draw → Option Draw → Draw
    unfolding from_generator call draw_fields draw_array draw_pointer draw_slice draw_map
    draw_kind bool_kind fields elem key = from_generator boolean label (booleans label).draw_value
    draw_kind string_kind fields elem key = from_generator string label (draw_text text)
    draw_kind (int_kind T) fields elem key =
        from_generator integer label (draw_integer T (least_int T) (largest_int T))
    draw_kind (float_kind width) fields elem key =
        from_generator float label (draw_float width floats)
    draw_kind (pointer_kind e) fields elem key = draw_pointer (call elem)
    draw_kind (slice_kind e) fields elem key = draw_slice rounds (call elem)
    draw_kind (array_kind n e) fields elem key = do vs ← draw_array (call elem) n; pure (array vs)
    draw_kind (map_kind k e) fields elem key = draw_map rounds eq (call key) (call elem)
    draw_kind (struct_kind fs) fields elem key = do vs ← draw_fields fields; pure (structure vs)
    draw_kind other_kind fields elem key = from_exec (raise_panic (value nil_dereference))

    -- makeDefaultDraw
    unfoldable pub make_draw : ℕ → List Draw → Option Draw → Option Draw → Draw
    unfolding draw_kind
    make_draw t fields elem key = elim (known t) [
      | some d ↦ d
      | none ↦ draw_kind (kind_of t) fields elem key
    ]
