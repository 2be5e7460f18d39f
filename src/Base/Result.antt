-- ===== src/Base/Result.antt =====
-- Go's pair (value, error) as a sum, with its monad.
use mathlib.Core.Path.{◌≡◌, refl}
use mathlib.Core.Logic.{◌⊎◌, inl, inr}

pub data Result {ℓ κ} (E : Type κ) (A : Type ℓ) : Type (ℓ ⊔ κ) where
  ok : A → Result E A
  err : E → Result E A

infixl 5 ◌>>=◌ ◌>>◌
-- The second call runs on the value of the first; the first error ends both.
abbrev pub ◌>>=◌ {ℓ ℓ' κ} :
    {A : Type ℓ} {B : Type ℓ'} {E : Type κ} → Result E A → (A → Result E B) → Result E B
err e >>= next = err e
ok a >>= next = next a

abbrev pub ◌>>◌ {ℓ κ} : {B : Type ℓ} {E : Type κ} → Result E (Unit {0}) → Result E B → Result E B
err e >> next = err e
ok _ >> next = next

-- What a chain that succeeds passed on.
pub bound_value {ℓ ℓ' κ} :
    {E : Type κ} {A : Type ℓ} {B : Type ℓ'} {next : A → Result E B} {b : B} (r : Result E A)
    → (r >>= next) ≡ ok b
    → (a : A) × (r ≡ ok a) × (next a ≡ ok b)
bound_value (err e) q = cc
bound_value (ok a) q = (a, refl, q)

pub Result-cases {ℓ κ} :
    {E : Type κ} {A : Type ℓ} (r : Result E A) → ((a : A) × (r ≡ ok a)) ⊎ ((e : E) × (r ≡ err e))
Result-cases (ok a) = inl (a, refl)
Result-cases (err e) = inr (e, refl)

pub ok-eq {ℓ κ} : {E : Type κ} {A : Type ℓ} {x y : A} → ◌≡◌ {A = Result E A} (ok x) (ok y) → x ≡ y
ok-eq e = cc
