-- ===== src/Prelude/Run.antt =====
-- How a call of a C function ends: with a value, in undefined behaviour (an access outside an
-- array, a signed overflow), or by the model's fuel running out.
use mathlib.Core.Path.{◌≡◌, refl}
use mathlib.Core.Bool.{Bool, true, false}
use rubsd.Prelude.Tests.{if◌then◌else◌}

pub data Run {ℓ} (A : Type ℓ) : Type ℓ where
  ok : A → Run A
  fault : Run A
  out_of_fuel : Run A

infixl 5 ◌>>=◌ ◌>>◌
abbrev pub ◌>>=◌ {ℓ κ} : {A : Type ℓ} {B : Type κ} → Run A → (A → Run B) → Run B
ok a >>= f = f a
fault >>= f = fault
out_of_fuel >>= f = out_of_fuel

abbrev pub ◌>>◌ {ℓ κ} : {A : Type ℓ} {B : Type κ} → Run A → Run B → Run B
m >> k = m >>= λ _. k

-- The call comes back, and its value has the property: total correctness.
pub data Yields {ℓ κ} {A : Type ℓ} (P : A → Type κ) : Run A → Type (ℓ ⊔ κ) where
  value : {a : A} → P a → Yields P (ok a)

module _ {ℓ κ} {A : Type ℓ} {P : A → Type κ} where
  pub Yields-bind {ℓ' κ'} :
      {B : Type ℓ'} {Q : B → Type κ'} {m : Run A} {f : A → Run B}
      → Yields P m
      → ((a : A) → P a → Yields Q (f a))
      → Yields Q (m >>= f)
  Yields-bind (value p) k = k _ p

  pub Yields-weaken {κ'} :
      {Q : A → Type κ'} {m : Run A} → Yields P m → ((a : A) → P a → Q a) → Yields Q m
  Yields-weaken (value p) k = value (k _ p)

  -- Both branches, each with the answer of its test.
  pub Yields-test :
      (b : Bool) {x y : Run A}
      → (b ≡ true → Yields P x)
      → (b ≡ false → Yields P y)
      → Yields P (if b then x else y)
  Yields-test true p q = p refl
  Yields-test false p q = q refl

  pub Yields-value : {m : Run A} → Yields P m → (a : A) × (m ≡ ok a) × P a
  Yields-value (value p) = (_, refl, p)

  pub Yields-both {κ'} :
      {Q : A → Type κ'} {m : Run A} → Yields P m → Yields Q m → Yields (λ a. P a × Q a) m
  Yields-both {m = ok a} (value p) (value q) = value (p, q)
  Yields-both {m = fault} p q = elim p [ ]
  Yields-both {m = out_of_fuel} p q = elim p [ ]
