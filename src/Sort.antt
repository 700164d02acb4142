-- ===== src/Sort.antt =====
-- `slices.SortFunc` and `slices.SortStableFunc`, as an insertion sort over a strict comparison.
-- `less` stands for a comparison function that returns a negative number.
use mathlib.Core.List.{Perm}
use mathlib.Core.List.Perm
use nezha_diff.Base.{
  ℕ, ◌≡◌, Bool, true, false, List, [], ◌∷◌, arith, if◌then◌else◌, Bool-cases, All, inl, inr, ltb,
}

module _ {ℓ} {A : Type ℓ} (less : A → A → Bool) where
  unfoldable pub insert_sorted : A → List A → List A
  insert_sorted x [] = x ∷ []
  insert_sorted x (y ∷ ys) = if less y x then y ∷ insert_sorted x ys else x ∷ y ∷ ys

  unfoldable pub sort_func : List A → List A
  unfolding insert_sorted
  sort_func [] = []
  sort_func (x ∷ xs) = insert_sorted x (sort_func xs)

  -- No later entry comes strictly before an earlier one.
  abbrev pub IsSorted : List A → Type 0
  IsSorted [] = Unit
  IsSorted (x ∷ xs) = All (λ y. less y x ≡ false) xs × IsSorted xs

  insert_sorted-perm : (x : A) (ys : List A) → Perm (insert_sorted x ys) (x ∷ ys)
  unfolding insert_sorted
  insert_sorted-perm x [] = Perm.refl (x ∷ [])
  insert_sorted-perm x (y ∷ ys) = elim (Bool-cases (less y x)) [
    | inl e ↦
        rw (e, if◌then◌else◌)
          (Perm.trans (Perm.cons y (insert_sorted-perm x ys)) (Perm.swap x y ys))
    | inr e ↦ rw (e, if◌then◌else◌) (Perm.refl (x ∷ y ∷ ys))
  ]

  pub sort_func-perm : (xs : List A) → Perm (sort_func xs) xs
  unfolding sort_func
  sort_func-perm [] = Perm.refl []
  sort_func-perm (x ∷ xs) =
      Perm.trans (insert_sorted-perm x (sort_func xs)) (Perm.cons x (sort_func-perm xs))

-- What the comparison has to satisfy.
pub record IsOrder {ℓ} {A : Type ℓ} (less : A → A → Bool) : Type ℓ where
  pub asym : (x y : A) → less x y ≡ true → less y x ≡ false
  pub trans : (x y z : A) → less z y ≡ false → less y x ≡ false → less z x ≡ false

module _ {ℓ} {A : Type ℓ} {less : A → A → Bool} (o : IsOrder less) where
  All-after :
      (x y : A) (ys : List A)
      → less y x ≡ false
      → All (λ z. less z y ≡ false) ys
      → All (λ z. less z x ≡ false) ys
  All-after x y [] h a = tt
  All-after x y (z ∷ zs) h a = (o.trans x y z a.0 h, All-after x y zs h a.1)

  All-insert :
      (P : A → Type 0) (x : A) (ys : List A) → P x → All P ys → All P (insert_sorted less x ys)
  unfolding insert_sorted
  All-insert P x [] px a = (px, tt)
  All-insert P x (y ∷ ys) px a = elim (Bool-cases (less y x)) [
    | inl e ↦ rw (e, if◌then◌else◌) (a.0, All-insert P x ys px a.1)
    | inr e ↦ rw (e, if◌then◌else◌) (px, a)
  ]

  insert_sorted-IsSorted :
      (x : A) (ys : List A) → IsSorted less ys → IsSorted less (insert_sorted less x ys)
  unfolding insert_sorted
  insert_sorted-IsSorted x [] s = (tt, tt)
  insert_sorted-IsSorted x (y ∷ ys) s = elim (Bool-cases (less y x)) [
    | inl e ↦
        rw (e, if◌then◌else◌)
          (
            All-insert (λ z. less z y ≡ false) x ys (o.asym y x e) s.0,
            insert_sorted-IsSorted x ys s.1,
          )
    | inr e ↦ rw (e, if◌then◌else◌) ((e, All-after x y ys e s.0), s)
  ]

  -- The result is sorted.
  pub sort_func-IsSorted : (xs : List A) → IsSorted less (sort_func less xs)
  unfolding sort_func
  sort_func-IsSorted [] = tt
  sort_func-IsSorted (x ∷ xs) = insert_sorted-IsSorted x (sort_func less xs) (sort_func-IsSorted xs)

-- `cmp.Compare(a.ID, b.ID)`
abbrev pub by_key {ℓ} : {A : Type ℓ} → (A → ℕ) → A → A → Bool
by_key key a b = ltb (key a) (key b)

pub by_key-IsOrder {ℓ} : {A : Type ℓ} (key : A → ℕ) → IsOrder (by_key key)
by_key-IsOrder key = record { asym = λ x y h. ground arith; trans = λ x y z h k. ground arith }
