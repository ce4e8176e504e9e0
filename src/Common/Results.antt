-- ===== src/Common/Results.antt =====
-- The result of a function that returns an error, with its chain for `do` blocks.
use mathlib.Core.Path.{◌≡◌, refl}
use mathlib.Core.Bool.{Bool, true, false}

pub data Result {ℓ κ} (E : Type ℓ) (A : Type κ) : Type (ℓ ⊔ κ) where
  ok : A → Result E A
  err : E → Result E A

-- The chain of a `do` block: the first error ends it.
infixl 5 ◌>>=◌ ◌>>◌
abbrev pub ◌>>=◌ {ℓ κ μ} :
    {E : Type ℓ} {A : Type κ} {B : Type μ} → Result E A → (A → Result E B) → Result E B
ok value >>= next = next value
err reason >>= next = err reason

abbrev pub ◌>>◌ {ℓ κ} : {E : Type ℓ} {B : Type κ} → Result E (Unit {0}) → Result E B → Result E B
m >> k = m >>= λ _. k

-- `if bad { return err }`
abbrev pub refuse_if {ℓ} : {E : Type ℓ} → Bool → E → Result E (Unit {0})
refuse_if true e = err e
refuse_if false e = ok tt

-- Inversion of a successful chain.
pub >>=-eq-ok {ℓ κ μ} :
    {E : Type ℓ} {A : Type κ} {B : Type μ} (first : Result E A) (next : A → Result E B) {last : B}
    → (first >>= next) ≡ ok last
    → (value : A) × (first ≡ ok value) × (next value ≡ ok last)
>>=-eq-ok (ok value) next passed = (value, refl, passed)
>>=-eq-ok (err reason) next passed = cc
