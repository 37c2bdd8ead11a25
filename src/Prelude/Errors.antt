-- ===== src/Prelude/Errors.antt =====
-- Go's (value, error) pairs: a value or an error of the component's own type.
use mathlib.Core.Path.{◌≡◌, refl}
use mathlib.Core.Bool.{Bool, true, false}
use mathlib.Core.Logic.{◌≢◌, ◌⊎◌, inl, inr}

pub data Result {ℓ κ} (E : Type ℓ) (A : Type κ) : Type (ℓ ⊔ κ) where
  ok : A → Result E A
  err : E → Result E A

module _ {ℓ κ μ} {E : Type ℓ} {A : Type κ} {B : Type μ} where
  infixl 5 ◌>>=◌
  -- `if err != nil { return err }`
  abbrev pub ◌>>=◌ : Result E A → (A → Result E B) → Result E B
  err e >>= next = err e
  ok x >>= next = next x

  -- A chain that succeeds went through its first step.
  pub >>=-eq-ok :
      (first : Result E A) (next : A → Result E B) {y : B}
      → (first >>= next) ≡ ok y
      → (x : A) × (first ≡ ok x) × (next x ≡ ok y)
  >>=-eq-ok (err e) next done = cc
  >>=-eq-ok (ok x) next done = (x, refl, done)

module _ {ℓ κ} {E : Type ℓ} {A : Type κ} where
  infixl 5 ◌>>◌
  abbrev pub ◌>>◌ : Result E (Unit {0}) → Result E A → Result E A
  m >> n = m >>= λ _. n

module _ {ℓ} {E : Type ℓ} where
  -- `if bad { return e }`
  abbrev pub fail_if : Bool → E → Result E (Unit {0})
  fail_if true e = err e
  fail_if false e = ok tt

module _ {ℓ κ μ} {E : Type ℓ} {F : Type κ} {A : Type μ} where
  -- `fmt.Errorf("%w", err)`: an error of a callee becomes one of the caller.
  abbrev pub wrap : (E → F) → Result E A → Result F A
  wrap f (ok a) = ok a
  wrap f (err e) = err (f e)

  pub wrap_inv : (f : E → F) (r : Result E A) {a : A} → wrap f r ≡ ok a → r ≡ ok a
  wrap_inv f (ok a) h = cc
  wrap_inv f (err e) h = cc

module _ {ℓ κ} {E : Type ℓ} {A : Type κ} where
  pub ok-injective : {a b : A} → ◌≡◌ {A = Result E A} (ok a) (ok b) → a ≡ b
  ok-injective h = cc

  -- Past a guard its test has failed.
  pub fail_if_inv :
      (c : Bool) (e : E) (m : Result E A) {a : A}
      → (fail_if c e >> m) ≡ ok a
      → (c ≡ false) × (m ≡ ok a)
  fail_if_inv true e m h = cc
  fail_if_inv false e m h = (refl, h)

  pub err-injective : {a b : E} → ◌≡◌ {A = Result E A} (err a) (err b) → a ≡ b
  err-injective h = cc

  pub fail_if_ne :
      (c : Bool) (e x : E) (m : Result E A) → e ≢ x → m ≢ err x → (fail_if c e >> m) ≢ err x
  fail_if_ne true e x m h k p = h (err-injective p)
  fail_if_ne false e x m h k p = k p

  pub Result-cases : (r : Result E A) → ((a : A) × (r ≡ ok a)) ⊎ ((e : E) × (r ≡ err e))
  Result-cases (ok a) = inl (a, refl)
  Result-cases (err e) = inr (e, refl)
