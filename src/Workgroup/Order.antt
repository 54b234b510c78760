-- ===== src/Workgroup/Order.antt =====
-- stateful.go: what Wait returns does not depend on the order in which the workers finish.
use hegel_go.Prelude.{
  ℕ, ◌≡◌, ◌≢◌, refl, sym, ap, ◌∙◌, arith, true, false, Option, none, some, List, [], ◌∷◌, map, All,
  Bool-cases, inl, inr,
}
use hegel_go.Errors.{Err}
use hegel_go.Workgroup.{
  Failed, WorkerResult, less, keep, insert, sort, failed_of, to_worker_error, wait,
}

-- Two different workers are comparable, one way only.
less-total : (x y : Failed) → x.worker ≢ y.worker → less x y ≡ false → less y x ≡ true
unfolding less
less-total x y ne h = ground arith

less-asym : (x y : Failed) → less x y ≡ true → less y x ≡ false
unfolding less
less-asym x y h = ground arith

less_before : (x y z : Failed) → less z y ≡ false → less z x ≡ true → less y x ≡ true
unfolding less
less_before x y z h k = ground arith

insert-insert :
    (x y : Failed) (l : List Failed)
    → x.worker ≢ y.worker
    → insert x (insert y l) ≡ insert y (insert x l)
unfolding insert
insert-insert x y [] ne = elim (Bool-cases (less x y)) [
  | inl lt ↦ rw (lt, less-asym x y lt)
  | inr ge ↦ rw (ge, less-total x y ne ge)
]
insert-insert x y (z ∷ l) ne = elim (Bool-cases (less z x)) [
  | inl zx ↦ elim (Bool-cases (less z y)) [
    | inl zy ↦ rw (zx, zy, zx, insert-insert x y l ne)
    | inr yz ↦ rw (zx, yz, less_before x y z yz zx, zx)
  ]
  | inr xz ↦ elim (Bool-cases (less z y)) [
    | inl zy ↦ rw (xz, zy, less_before y x z xz zy, xz)
    | inr yz ↦ elim (Bool-cases (less x y)) [
      | inl lt ↦ rw (xz, yz, lt, less-asym x y lt)
      | inr ge ↦ rw (xz, yz, ge, less-total x y ne ge, xz)
    ]
  ]
]

-- Another order of arrival.
pub data Reordered : List WorkerResult → List WorkerResult → Type 0 where
  same : {rs : List WorkerResult} → Reordered rs rs
  swapped : (x y : WorkerResult) {rs : List WorkerResult} → Reordered (x ∷ y ∷ rs) (y ∷ x ∷ rs)
  later :
      (x : WorkerResult) {rs ss : List WorkerResult} → Reordered rs ss → Reordered (x ∷ rs) (x ∷ ss)
  chained : {rs ss ts : List WorkerResult} → Reordered rs ss → Reordered ss ts → Reordered rs ts

abbrev pub From : ℕ → WorkerResult → Type 0
From w r = r.worker ≢ w

-- Every worker has sent at most one result.
abbrev pub OneEach : List WorkerResult → Type 0
OneEach [] = Unit
OneEach (r ∷ rs) = All (From r.worker) rs × OneEach rs

Reordered-All :
    {rs ss : List WorkerResult} (w : ℕ) → Reordered rs ss → All (From w) rs → All (From w) ss
Reordered-All w same h = h
Reordered-All w (swapped x y) h = (h.1.0, (h.0, h.1.1))
Reordered-All w (later x p) h = (h.0, Reordered-All w p h.1)
Reordered-All w (chained p q) h = Reordered-All w q (Reordered-All w p h)

Reordered-OneEach : {rs ss : List WorkerResult} → Reordered rs ss → OneEach rs → OneEach ss
Reordered-OneEach same h = h
Reordered-OneEach (swapped x y) h = (((λ e. h.0.0 (sym e)), h.1.0), (h.0.1, h.1.1))
Reordered-OneEach (later x p) h = (Reordered-All x.worker p h.0, Reordered-OneEach p h.1)
Reordered-OneEach (chained p q) h = Reordered-OneEach q (Reordered-OneEach p h)

sort-keep :
    (w : ℕ) (e : Option Err) (l l' : List Failed)
    → sort l ≡ sort l'
    → sort (keep w e l) ≡ sort (keep w e l')
unfolding sort keep
sort-keep w none l l' h = h
sort-keep w (some e) l l' h = ap (insert (record { worker = w; error = e })) h

sort-keep-keep :
    (v w : ℕ) (d e : Option Err) (l : List Failed)
    → v ≢ w
    → sort (keep v d (keep w e l)) ≡ sort (keep w e (keep v d l))
unfolding sort keep
sort-keep-keep v w none e l ne = refl
sort-keep-keep v w (some d) none l ne = refl
sort-keep-keep v w (some d) (some e) l ne =
    insert-insert (record { worker = v; error = d }) (record { worker = w; error = e }) (sort l) ne

sort-Reordered :
    {rs ss : List WorkerResult}
    → OneEach rs
    → Reordered rs ss
    → sort (failed_of rs) ≡ sort (failed_of ss)
unfolding failed_of
sort-Reordered h same = refl
sort-Reordered h (swapped x y {rs}) =
    sort-keep-keep x.worker y.worker x.error y.error (failed_of rs) (λ e. h.0.0 (sym e))
sort-Reordered h (later x p) = sort-keep x.worker x.error _ _ (sort-Reordered h.1 p)
sort-Reordered h (chained p q) = sort-Reordered h p ∙ sort-Reordered (Reordered-OneEach p h) q

-- When every worker sends one result, the errors that Wait gives do not depend on the order in which
-- the results arrive.
pub wait-Reordered : {rs ss : List WorkerResult} → OneEach rs → Reordered rs ss → wait rs ≡ wait ss
unfolding wait
wait-Reordered h p = ap (map to_worker_error) (sort-Reordered h p)

-- No worker of these ended with an error.
abbrev pub AllSucceeded : List WorkerResult → Type 0
AllSucceeded results = All (λ r. r.error ≡ none) results

insert-nonempty : (x : Failed) (xs : List Failed) → insert x xs ≢ []
unfolding insert
insert-nonempty x [] e = cc
insert-nonempty x (y ∷ ys) e = elim (Bool-cases (less y x)) [
  | inl h ↦ ground arith
  | inr h ↦ ground arith
]

-- Wait gives no errors only when there are none.
pub sort-AllSucceeded :
    (results : List WorkerResult) → sort (failed_of results) ≡ [] → AllSucceeded results
unfolding sort failed_of
sort-AllSucceeded [] h = tt
sort-AllSucceeded (r ∷ rs) h = go r.error refl h (sort-AllSucceeded rs)
  where
    go :
        (o : Option Err)
        → r.error ≡ o
        → sort (keep r.worker o (failed_of rs)) ≡ []
        → (sort (failed_of rs) ≡ [] → AllSucceeded rs)
        → AllSucceeded (r ∷ rs)
    go none e h' k = (e, k h')
    go (some x) e h' k =
        absurd (insert-nonempty (record { worker = r.worker; error = x }) (sort (failed_of rs)) h')
