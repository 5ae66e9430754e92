-- ===== src/Base/Result.antt =====
-- Python code that returns or raises. The exception's class, with its text where that matters.
use mathlib.Core.Path.{◌≡◌, refl}
use mathlib.Core.Bool.{Bool, true, false}

pub data Result {ℓ κ} (E : Type κ) (A : Type ℓ) : Type (ℓ ⊔ κ) where
  ok : A → Result E A
  raised : E → Result E A

infixl 5 ◌>>=◌ ◌>>◌
abbrev pub ◌>>=◌ {ℓ κ μ} :
    {E : Type μ} {A : Type ℓ} {B : Type κ} → Result E A → (A → Result E B) → Result E B
ok a >>= f = f a
raised e >>= f = raised e

abbrev pub ◌>>◌ {κ ν} :
    {Fault : Type κ} {B : Type ν} → Result Fault (Unit {0}) → Result Fault B → Result Fault B
first >> later = first >>= λ done. later

-- What is known of the first step when the two together return.
pub >>=-eq-ok {ℓ κ μ} :
    {Fault : Type μ} {A : Type ℓ} {B : Type κ} (first : Result Fault A) (later : A → Result Fault B)
    {result : B}
    → (first >>= later) ≡ ok result
    → (value : A) × (first ≡ ok value) × (later value ≡ ok result)
>>=-eq-ok (raised fault) later returned = cc
>>=-eq-ok (ok value) later returned = (value, refl, returned)

pub ok-injective {ℓ μ} :
    {E : Type μ} {A : Type ℓ} {a b : A} → ◌≡◌ {A = Result E A} (ok a) (ok b) → a ≡ b
ok-injective h = cc

-- `if not b: raise e`
abbrev pub require {μ} : {E : Type μ} → Bool → E → Result E (Unit {0})
require true e = ok tt
require false e = raised e
