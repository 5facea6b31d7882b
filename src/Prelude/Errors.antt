-- ===== src/Prelude/Errors.antt =====
-- A Go call that returns a value and an error: the error when it is not nil, else the value.
use mathlib.Core.Path.{◌≡◌, refl, ap, ◌∙◌}
use mathlib.Core.Logic.{◌↔◌}
use mathlib.Core.Bool.{Bool, true, false}

pub data Result {ℓ κ} (E : Type ℓ) (A : Type κ) : Type (ℓ ⊔ κ) where
  ok : A → Result E A
  err : E → Result E A

infixl 5 ◌>>=◌ ◌>>◌
abbrev pub ◌>>=◌ {ℓ κ μ} :
    {E : Type ℓ} {A : Type κ} {B : Type μ} → Result E A → (A → Result E B) → Result E B
ok a >>= f = f a
err e >>= f = err e

abbrev pub ◌>>◌ {ℓ κ} : {E : Type ℓ} {B : Type κ} → Result E (Unit {0}) → Result E B → Result E B
m >> k = m >>= λ _. k

-- `if b { return e }`
abbrev pub fail_if {ℓ} : {E : Type ℓ} → Bool → E → Result E (Unit {0})
fail_if true e = err e
fail_if false e = ok tt

pub ok_inj {ℓ κ} : {E : Type ℓ} {A : Type κ} {a b : A} → ◌≡◌ {A = Result E A} (ok a) (ok b) → a ≡ b
ok_inj e = cc

-- What a chain returned without an error came from a first call that returned without one.
pub >>=-eq-ok {ℓ κ μ} :
    {E : Type ℓ} {A : Type κ} {B : Type μ} {b : B} (call : Result E A) (next : A → Result E B)
    → (call >>= next) ≡ ok b
    → (value : A) × (call ≡ ok value) × (next value ≡ ok b)
>>=-eq-ok (err e) next returned = cc
>>=-eq-ok (ok value) next returned = (value, refl, returned)

-- A guard that passes found its condition false.
pub fail_if-ok {ℓ} : {E : Type ℓ} (b : Bool) (e : E) → fail_if b e ≡ ok tt → b ≡ false
fail_if-ok true e h = cc
fail_if-ok false e h = refl

-- A Go call that returns only an error.
abbrev pub Checked {ℓ} : Type ℓ → Type ℓ
Checked E = Result E (Unit {0})

-- Two checks in a row pass exactly when both do.
pub >>-eq-ok_iff {ℓ κ} :
    {E : Type ℓ} {B : Type κ} (m : Checked E) (k : Result E B) {b : B}
    → ((m >> k) ≡ ok b) ↔ ((m ≡ ok tt) × (k ≡ ok b))
>>-eq-ok_iff (ok u) k = (λ h. (refl, h), λ h. h.1)
>>-eq-ok_iff (err e) k = (λ h. cc, λ h. cc (h.0))

-- A chain returns a value when its first call does and the rest does with that.
pub >>=-returns {ℓ κ μ} :
    {E : Type ℓ} {A : Type κ} {B : Type μ} (call : Result E A) (next : A → Result E B) {value : A}
    → call ≡ ok value
    → (b : B) × (next value ≡ ok b)
    → (b : B) × ((call >>= next) ≡ ok b)
>>=-returns call next returned (b, rest) = (b, ap (λ r. r >>= next) returned ∙ rest)
