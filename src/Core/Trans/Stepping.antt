-- ===== src/Core/Trans/Stepping.antt =====
-- A step that may fault, and what follows it.
use rubsd.Prelude.{◌≡◌, refl, ◌⊎◌, inl, inr}
use rubsd.Prelude.Run.{Run, ok, fault, out_of_fuel}
use rubsd.Base.Env.{M}
use rubsd.Core.Trans.{after}

Run-cases : {A : Type 0} (x : Run A) → ((a : A) × (x ≡ ok a)) ⊎ (x ≡ fault) ⊎ (x ≡ out_of_fuel)
Run-cases (ok a) = inl (a, refl)
Run-cases fault = inr (inl refl)
Run-cases out_of_fuel = inr (inr refl)

module _ {Os A B : Type 0} (m : M Os (Run A)) (f : A → M Os (Run B)) (s : Os) where
  pub after-ok : (a : A) → (m s).1 ≡ ok a → after m f s ≡ f a (m s).0
  unfolding after
  after-ok a e = rw (after, e) refl

  -- What follows runs on the value of the step, or the step's fault is the end.
  pub after-cases :
      ((a : A) × ((m s).1 ≡ ok a) × (after m f s ≡ f a (m s).0))
      ⊎ (((after m f s).0 ≡ (m s).0) × ((b : B) → (after m f s).1 ≡ ok b → ⊥))
  unfolding after
  after-cases = elim (Run-cases (m s).1) [
    | inl (a, e) ↦ inl (a, e, after-ok a e)
    | inr (inl e) ↦ inr (rw (after, e) (refl, λ b z. absurd cc))
    | inr (inr e) ↦ inr (rw (after, e) (refl, λ b z. absurd cc))
  ]
