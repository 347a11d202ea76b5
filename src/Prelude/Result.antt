-- ===== src/Prelude/Result.antt =====
-- Python's exceptions and error return values: `err e` is what was raised or returned as an error.
use mathlib.Core.Path.{◌≡◌, refl}

pub data Result {ℓ κ} (E : Type ℓ) (A : Type κ) : Type (ℓ ⊔ κ) where
  ok : A → Result E A
  err : E → Result E A

infixl 5 ◌>>=◌ ◌>>◌
abbrev pub ◌>>=◌ {ℓ κ μ} :
    {E : Type ℓ} {A : Type κ} {B : Type μ} → Result E A → (A → Result E B) → Result E B
ok a >>= f = f a
err e >>= f = err e

abbrev pub ◌>>◌ {ℓ μ} : {E : Type ℓ} {B : Type μ} → Result E (Unit {0}) → Result E B → Result E B
m >> k = m >>= λ _. k

pub ok-injective {ℓ κ} :
    {E : Type ℓ} {A : Type κ} {x y : A} {r : Result E A} → r ≡ ok x → r ≡ ok y → x ≡ y
ok-injective p q = cc

-- A chain that succeeds has a first step that succeeds.
pub >>=-ok {ℓ κ μ} :
    {E : Type ℓ} {A : Type κ} {B : Type μ} (first : Result E A) (next : A → Result E B)
    → {last : B} → (first >>= next) ≡ ok last
    → (mid : A) × (next mid ≡ ok last) × (first ≡ ok mid)
>>=-ok (err e) next success = cc
>>=-ok (ok mid) next success = (mid, success, refl)

-- To conclude from equations between results.
pub err-ne-ok {ℓ κ μ} :
    {E : Type ℓ} {A : Type κ} {B : Type μ} {e : E} {x : A} → Path (Result E A) (err e) (ok x) → B
err-ne-ok h = cc

pub ok_inj {ℓ κ} : {E : Type ℓ} {A : Type κ} {x y : A} → Path (Result E A) (ok x) (ok y) → x ≡ y
ok_inj h = cc
