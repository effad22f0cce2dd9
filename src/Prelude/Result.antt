-- ===== src/Prelude/Result.antt =====
-- A value or an error: a Go function that returns `(T, error)`.
use mathlib.Core.Path.{◌≡◌, refl, sym, subst}
use mathlib.Core.Logic.{◌↔◌}
use mathlib.Core.Bool.{Bool, true, false}

pub data Result {ℓ κ} (E : Type ℓ) (A : Type κ) : Type (ℓ ⊔ κ) where
  ok : A → Result E A
  err : E → Result E A

infixl 5 ◌>>=◌
-- `if err != nil { return …, err }`
abbrev pub ◌>>=◌ {ℓ κ κ'} :
    {E : Type ℓ} {A : Type κ} {B : Type κ'} → Result E A → (A → Result E B) → Result E B
ok x >>= next = next x
err why >>= next = err why

pub >>=-eq-ok {ℓ κ κ'} :
    {E : Type ℓ} {A : Type κ} {B : Type κ'} (first : Result E A) (next : A → Result E B) {b : B}
    → (first >>= next) ≡ ok b
    → (a : A) × (first ≡ ok a) × (next a ≡ ok b)
>>=-eq-ok (ok x) next h = (x, refl, h)
>>=-eq-ok (err why) next h = cc

-- A result is a value with a property.
abbrev pub OkThen {ℓ κ μ} : {E : Type ℓ} {A : Type κ} → Result E A → (A → Type μ) → Type (ℓ ⊔ κ ⊔ μ)
OkThen {A = A} r P = (x : A) × ((r ≡ ok x) × P x)

-- A test of a result that fails on errors.
pub OkThen_iff {ℓ κ μ} :
    {E : Type ℓ} {A : Type κ} {P : A → Type μ} (t : Result E A → Bool) (r : Result E A)
    → ((e : E) → t (err e) ≡ false)
    → ((x : A) → (t (ok x) ≡ true) ↔ P x)
    → (t r ≡ true) ↔ OkThen r P
OkThen_iff t (ok x) on_err on_ok = (
  λ h. (x, (refl, (on_ok x).0 h)),
  λ (y, (e, p)). subst (λ r. t r ≡ true) (sym e) ((on_ok y).1 p),
)
OkThen_iff t (err e) on_err on_ok = (λ h. cc (on_err e), λ (y, (h, p)). cc)
