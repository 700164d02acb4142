-- ===== src/GoMap.antt =====
-- Go's built-in maps, as association lists in insertion order: `m[k]`, `m[k] = v`, `delete(m, k)`
-- and the values that `maps.Values` yields. Go leaves the order of iteration open; statements
-- about the program's maps read them through `lookup`, which does not see the order.
use nezha_diff.Base.{
  ◌≡◌, refl, Bool, true, false, ◌||◌, Option, none, some, List, [], ◌∷◌, map, arith, Key, ◌==◌,
  if◌then◌else◌, Option-cases, Bool-cases, inl, inr, subst,
}

abbrev pub GoMap {ℓ κ} : Type ℓ → Type κ → Type (ℓ ⊔ κ)
GoMap K V = List (K × V)

module _ {ℓ} {K : Type ℓ} ⦃e : Key K⦄ where
  unfoldable pub contains : List K → K → Bool
  contains [] k = false
  contains (j ∷ js) k = j == k || contains js k

module _ {ℓ κ} {K : Type ℓ} {V : Type κ} ⦃e : Key K⦄ where
  unfoldable pub lookup : K → GoMap K V → Option V
  lookup key [] = none
  lookup key ((own, value) ∷ rest) = if own == key then some value else lookup key rest

  -- A key that is there keeps its place.
  unfoldable pub insert : K → V → GoMap K V → GoMap K V
  insert key new [] = (key, new) ∷ []
  insert key new ((own, value) ∷ rest) =
      if own == key then (own, new) ∷ rest else (own, value) ∷ insert key new rest

  unfoldable pub remove : K → GoMap K V → GoMap K V
  remove k [] = []
  remove k ((j, v) ∷ m) = let rest = remove k m in if j == k then rest else (j, v) ∷ rest

  unfoldable pub remove_all : List K → GoMap K V → GoMap K V
  remove_all [] m = m
  remove_all (k ∷ ks) m = remove_all ks (remove k m)

  pub lookup-insert :
      (key other : K) (new : V) (m : GoMap K V)
      → lookup other (insert key new m) ≡ (if key == other then some new else lookup other m)
  unfolding lookup insert
  lookup-insert key other new [] = refl
  lookup-insert key other new ((own, value) ∷ rest) = ground (
    arith,
    e.equal_iff own other,
    e.equal_iff own key,
    e.equal_iff key other,
    lookup-insert key other new rest,
  )

  pub lookup-remove :
      (k j : K) (m : GoMap K V) → lookup j (remove k m) ≡ (if k == j then none else lookup j m)
  unfolding lookup remove
  lookup-remove k j [] = ground arith
  lookup-remove k j ((i, w) ∷ m) =
      ground (arith, e.equal_iff k j, e.equal_iff i k, e.equal_iff i j, lookup-remove k j m)

  pub lookup-remove_all :
      (ks : List K) (j : K) (m : GoMap K V)
      → lookup j (remove_all ks m) ≡ (if contains ks j then none else lookup j m)
  unfolding remove_all contains
  lookup-remove_all [] j m = refl
  lookup-remove_all (k ∷ ks) j m =
      ground (arith, lookup-remove_all ks j (remove k m), lookup-remove k j m)

  -- No key stands twice.
  abbrev pub Distinct : GoMap K V → Type κ
  Distinct [] = Unit
  Distinct ((k, v) ∷ m) = (lookup k m ≡ none) × Distinct m

  pub insert-Distinct : (k : K) (v : V) (m : GoMap K V) → Distinct m → Distinct (insert k v m)
  unfolding insert lookup
  insert-Distinct k v [] d = (refl, tt)
  insert-Distinct k v ((i, w) ∷ m) d =
      ground
        (arith, insert-Distinct k v m d.1, lookup-insert k i v m, e.equal_iff i k, e.equal_iff k i)

  pub remove-Distinct : (k : K) (m : GoMap K V) → Distinct m → Distinct (remove k m)
  unfolding remove lookup
  remove-Distinct k [] d = tt
  remove-Distinct k ((i, w) ∷ m) d =
      ground (arith, e.equal_iff k i, e.equal_iff i k, remove-Distinct k m d.1, lookup-remove k i m)

-- `utils.MapValuesToSlice`
abbrev pub values {ℓ κ} : {K : Type ℓ} {V : Type κ} → GoMap K V → List V
values = map (λ p. p.1)

abbrev pub keys {ℓ κ} : {K : Type ℓ} {V : Type κ} → GoMap K V → List K
keys = map (λ p. p.0)

module _ {ℓ κ} {K : Type ℓ} {V : Type κ} ⦃e : Key K⦄ where
  -- `_, ok := m[k]`
  abbrev pub has : K → GoMap K V → Bool
  has k m = elim (lookup k m) [ none ↦ false | some _ ↦ true ]

  pub contains-keys : (k : K) (m : GoMap K V) → contains (keys m) k ≡ has k m
  unfolding contains lookup
  contains-keys k [] = refl
  contains-keys k ((j, v) ∷ m) = ground (arith, contains-keys k m)

  pub has-some : (k : K) (m : GoMap K V) → has k m ≡ true → (v : V) × (lookup k m ≡ some v)
  has-some k m h = elim (Option-cases (lookup k m)) [
    | inl p ↦ absurd (ground (arith, h, p))
    | inr p ↦ p
  ]

  pub has-insert :
      (k j : K) (v w : V) (m : GoMap K V) → lookup k m ≡ some w → has j (insert k v m) ≡ has j m
  has-insert k j v w m h = ground (arith, lookup-insert k j v m, h, e.equal_iff k j)

  -- What holds of every other entry goes on holding of all when an entry with it is written.
  pub every_other-insert {μ} :
      (P : K → V → Type μ) (key : K) (new : V) (m : GoMap K V)
      → ((k : K) (v : V) → (key == k) ≡ false → lookup k m ≡ some v → P k v)
      → P key new
      → (k : K) (v : V) → lookup k (insert key new m) ≡ some v
      → P k v
  every_other-insert P key new m h p k v l = elim (Bool-cases (key == k)) [
    | inl t ↦
        let same : new ≡ v = ground (arith, l, t, lookup-insert key k new m) in
        subst (λ x. P x v) ((e.equal_iff key k).0 t) (subst (P key) same p)
    | inr f ↦ h k v f (ground (arith, l, f, lookup-insert key k new m))
  ]

  pub every-insert {μ} :
      (P : K → V → Type μ) (key : K) (new : V) (m : GoMap K V)
      → ((k : K) (v : V) → lookup k m ≡ some v → P k v)
      → P key new
      → (k : K) (v : V) → lookup k (insert key new m) ≡ some v
      → P k v
  every-insert P key new m h = every_other-insert P key new m (λ k v _. h k v)
