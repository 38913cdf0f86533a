-- ===== src/Da/Sorting.antt =====
-- The order of the items of da_bsort: exchanges of neighbours, and how many pairs are out of order.
use mathlib.Core.List.{Perm}
use mathlib.Core.List.Perm
use rubsd.Prelude.{
  ℕ, zero, suc, ◌+◌, ◌*◌, ◌≤◌, ◌<◌, ◌≡◌, refl, ap, arith, List, [], ◌∷◌, length, set, if◌then◌else◌,
}
use rubsd.Prelude.Int.{ℤ, pos, eq_ℤ}
use rubsd.Prelude.Cells.{at}

-- The items with those at `p` and `p + 1` exchanged.
abbrev pub swapped : ℕ → List ℕ → List ℕ
swapped p [] = []
swapped zero (x ∷ []) = x ∷ []
swapped zero (x ∷ (y ∷ a)) = y ∷ (x ∷ a)
swapped (suc p) (x ∷ a) = x ∷ swapped p a

pub swapped-set :
    (p : ℕ) (a : List ℕ)
    → suc p < length a
    → set (set a p (at a (suc p))) (suc p) (at a p) ≡ swapped p a
unfolding at
swapped-set p [] h = absurd (omega arith)
swapped-set zero (x ∷ []) h = absurd (omega arith)
swapped-set zero (x ∷ (y ∷ a)) h = refl
swapped-set (suc p) (x ∷ a) h = ap (◌∷◌ x) (swapped-set p a (omega arith))

pub swapped-perm : (p : ℕ) (a : List ℕ) → Perm (swapped p a) a
swapped-perm p [] = Perm.refl []
swapped-perm zero (x ∷ []) = Perm.refl (x ∷ [])
swapped-perm zero (x ∷ (y ∷ a)) = Perm.swap x y a
swapped-perm (suc p) (x ∷ a) = Perm.cons x (swapped-perm p a)

module _ (func : ℕ → ℕ → ℤ) where
  -- 1 if `func` wants the two exchanged.
  abbrev pub wrong : ℕ → ℕ → ℕ
  wrong x y = if eq_ℤ (func x y) (pos 0) then 0 else 1

  -- How many pairs of items `func` wants exchanged.
  abbrev wrong_with : ℕ → List ℕ → ℕ
  wrong_with x [] = 0
  wrong_with x (y ∷ a) = wrong x y + wrong_with x a

  abbrev pub disorder : List ℕ → ℕ
  disorder [] = 0
  disorder (x ∷ a) = wrong_with x a + disorder a

  wrong_with-swapped : (x p : ℕ) (a : List ℕ) → wrong_with x (swapped p a) ≡ wrong_with x a
  wrong_with-swapped x p [] = refl
  wrong_with-swapped x zero (y ∷ []) = refl
  wrong_with-swapped x zero (y ∷ (z ∷ a)) = omega arith
  wrong_with-swapped x (suc p) (y ∷ a) = ap (λ n. wrong x y + n) (wrong_with-swapped x p a)

  -- An exchange of two neighbours that are wrong, and right the other way, leaves one such pair less.
  pub disorder-swapped :
      (p : ℕ) (a : List ℕ)
      → suc p < length a
      → wrong (at a p) (at a (suc p)) ≡ 1
      → wrong (at a (suc p)) (at a p) ≡ 0
      → disorder (swapped p a) + 1 ≡ disorder a
  unfolding at
  disorder-swapped p [] h one none_back = absurd (omega arith)
  disorder-swapped zero (x ∷ []) h one none_back = absurd (omega arith)
  disorder-swapped zero (x ∷ (y ∷ a)) h one none_back = omega arith
  disorder-swapped (suc p) (x ∷ a) h one none_back =
      omega (arith, wrong_with-swapped x p a, disorder-swapped p a (omega arith) one none_back)

  wrong_with-le : (x : ℕ) (a : List ℕ) → wrong_with x a ≤ length a
  wrong_with-le x [] = omega arith
  wrong_with-le x (y ∷ a) =
      let one : wrong x y ≤ 1 = ground arith in omega (arith, wrong_with-le x a)

  pub disorder-le : (a : List ℕ) → disorder a ≤ length a * length a
  disorder-le [] = omega arith
  disorder-le (x ∷ a) =
      let square : suc (length a) * suc (length a) ≡ length a * length a + length a + length a + 1 =
        grind arith in
      omega (arith, wrong_with-le x a, disorder-le a)
