-- ===== src/Outcome.antt =====
-- What a Go statement leaves: a value, or a panic (a nil dereference, a write into a nil map, an
-- index out of range, a division by zero).
use nezha_diff.Base.{◌≡◌, refl, Bool, true, false}

pub data Outcome {ℓ} (A : Type ℓ) : Type ℓ where
  ok : A → Outcome A
  panic : Outcome A

infixl 5 ◌>>=◌
abbrev pub ◌>>=◌ {ℓ κ} : {A : Type ℓ} {B : Type κ} → Outcome A → (A → Outcome B) → Outcome B
ok a >>= f = f a
panic >>= f = panic

pub ok-injective {ℓ} : {A : Type ℓ} {a b : A} → ok a ≡ ok b → a ≡ b
ok-injective h = cc

-- Whether a statement returns.
abbrev pub is_ok {ℓ} : {A : Type ℓ} → Outcome A → Bool
is_ok (ok a) = true
is_ok panic = false

pub is_ok-value {ℓ} : {A : Type ℓ} (m : Outcome A) → is_ok m ≡ true → (a : A) × (m ≡ ok a)
is_ok-value (ok a) h = (a, refl)
is_ok-value panic h = cc

pub is_ok->>= {ℓ κ} :
    {A : Type ℓ} {B : Type κ} (m : Outcome A) (f : A → Outcome B)
    → is_ok m ≡ true
    → ((a : A) → is_ok (f a) ≡ true)
    → is_ok (m >>= f) ≡ true
is_ok->>= (ok a) f h k = k a
is_ok->>= panic f h k = cc

-- A chain returns only where its first statement does.
pub ok-of->>= {ℓ κ} :
    {A : Type ℓ} {B : Type κ} {value : B} (first : Outcome A) (next : A → Outcome B)
    → (first >>= next) ≡ ok value
    → (a : A) × (next a ≡ ok value) × (first ≡ ok a)
ok-of->>= panic next h = cc
ok-of->>= (ok a) next h = (a, h, refl)
