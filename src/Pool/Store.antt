-- ===== src/Pool/Store.antt =====
-- pool.go: the map from ids to values, as a list of entries.
use hegel_go.Prelude.{
  suc, ◌≡◌, ◌≢◌, refl, subst, false≢true, sym, ◌∙◌, ap, Bool, true, false, Option, none, some, List,
  [], ◌∷◌, length, if◌then◌else◌, ◌==◌, ==_iff, arith, Bool-cases, inl, inr,
}
use hegel_go.Prelude.Int.{ℤ, pos, negsuc}

unfoldable pub same_id : ℤ → ℤ → Bool
same_id (pos m) (pos n) = m == n
same_id (negsuc m) (negsuc n) = m == n
same_id (pos m) (negsuc n) = false
same_id (negsuc m) (pos n) = false

abbrev pub Values : Type 0 → Type 0
Values T = List (ℤ × T)

pub same_id_refl : (i : ℤ) → same_id i i ≡ true
unfolding same_id
same_id_refl (pos n) = (==_iff n n).1 refl
same_id_refl (negsuc n) = (==_iff n n).1 refl

pub same_id-eq : (i j : ℤ) → same_id i j ≡ true → i ≡ j
unfolding same_id
same_id-eq (pos m) (pos n) h = ap pos ((==_iff m n).0 h)
same_id-eq (negsuc m) (negsuc n) h = ap negsuc ((==_iff m n).0 h)
same_id-eq (pos m) (negsuc n) h = absurd (cc)
same_id-eq (negsuc m) (pos n) h = absurd (cc)

same_id-other : (k i j : ℤ) → k ≡ i → i ≢ j → same_id k j ≡ false
same_id-other k i j e ne = elim (Bool-cases (same_id k j)) [
  | inl same ↦ absurd (ne (sym e ∙ same_id-eq k j same))
  | inr other ↦ other
]

same_id-differs : (k i : ℤ) → same_id k i ≡ false → i ≢ k
same_id-differs k i h e =
    false≢true (sym h ∙ subst (λ x. same_id k x ≡ true) (sym e) (same_id_refl k))

module _ {T : Type 0} where
  unfoldable pub find : ℤ → Values T → Option T
  unfolding same_id
  find id [] = none
  find id ((key, v) ∷ rest) = if same_id key id then some v else find id rest

  -- A write of a new key.
  unfoldable pub insert : ℤ → T → Values T → Values T
  insert id v values = (id, v) ∷ values

  unfoldable pub delete : ℤ → Values T → Values T
  unfolding same_id
  delete id [] = []
  delete id ((key, v) ∷ rest) =
      let others = delete id rest in if same_id key id then others else (key, v) ∷ others

  -- No id has two entries.
  abbrev pub IsMap : Values T → Type 0
  IsMap [] = Unit
  IsMap ((key, v) ∷ rest) = (find key rest ≡ none) × IsMap rest

  pub find-insert : (i : ℤ) (v : T) (m : Values T) → find i (insert i v m) ≡ some v
  unfolding find insert
  find-insert i v m = rw (same_id_refl i)

  pub find-insert_other :
      (i j : ℤ) (v : T) (m : Values T) → i ≢ j → find j (insert i v m) ≡ find j m
  unfolding find insert
  find-insert_other i j v m ne = elim (Bool-cases (same_id i j)) [
    | inl same ↦ absurd (ne (same_id-eq i j same))
    | inr other ↦ rw other
  ]

  pub find-delete : (i : ℤ) (m : Values T) → find i (delete i m) ≡ none
  unfolding find delete
  find-delete i [] = refl
  find-delete i ((k, v) ∷ m) = elim (Bool-cases (same_id k i)) [
    | inl same ↦ rw (same, find-delete i m)
    | inr other ↦ rw (other, other, find-delete i m)
  ]

  pub find-delete_other : (i j : ℤ) (m : Values T) → i ≢ j → find j (delete i m) ≡ find j m
  unfolding find delete
  find-delete_other i j [] ne = refl
  find-delete_other i j ((k, v) ∷ m) ne = elim (Bool-cases (same_id k i)) [
    | inl same ↦
        let differs : same_id k j ≡ false = same_id-other k i j (same_id-eq k i same) ne in
        rw (same, differs, find-delete_other i j m ne)
    | inr other ↦ rw (other, find-delete_other i j m ne)
  ]

  length-delete_absent : (i : ℤ) (m : Values T) → find i m ≡ none → length (delete i m) ≡ length m
  unfolding find delete
  length-delete_absent i [] h = refl
  length-delete_absent i ((k, v) ∷ m) h = elim (Bool-cases (same_id k i)) [
    | inl same ↦ absurd (ground arith)
    | inr other ↦ rw (other, length-delete_absent i m (ground arith))
  ]

  pub length-delete :
      (i : ℤ) (v : T) (m : Values T)
      → IsMap m
      → find i m ≡ some v
      → suc (length (delete i m)) ≡ length m
  unfolding find delete
  length-delete i v [] ok h = absurd (ground arith)
  length-delete i v ((k, w) ∷ m) ok h = elim (Bool-cases (same_id k i)) [
    | inl same ↦ rw same (
        ap suc (length-delete_absent i m (subst (λ x. find x m ≡ none) (same_id-eq k i same) ok.0)))
    | inr other ↦ rw other (ap suc (length-delete i v m ok.1 (ground arith)))
  ]

  pub delete-IsMap : (i : ℤ) (m : Values T) → IsMap m → IsMap (delete i m)
  unfolding find delete
  delete-IsMap i [] ok = tt
  delete-IsMap i ((k, w) ∷ m) ok = elim (Bool-cases (same_id k i)) [
    | inl same ↦ rw same (delete-IsMap i m ok.1)
    | inr other ↦
        rw other (find-delete_other i k m (same_id-differs k i other) ∙ ok.0, delete-IsMap i m ok.1)
  ]
