-- ===== src/Prelude/Cells.antt =====
-- A block of memory as a list of cells. An access outside the block is a fault.
use mathlib.Core.Logic.{∥∥₁_elim, ◌≢◌}
use native.Mathlib.Nat.{ℕ_set}
use mathlib.Core.List.{Permᴰ, Perm, perm-append_right_iff}
use mathlib.Core.List.Perm
use Prim.Native.Nat.{ℕ, zero, suc, ◌+◌, ◌<◌, ◌≤◌, ◌-◌}
use mathlib.Core.Path.{◌≡◌, refl, sym, ap, ◌∙◌}
use mathlib.Core.List.{List, [], ◌∷◌, ◌++◌}
use native.Mathlib.Omega.{arith}
use rubsd.Prelude.Tests.{ltb, ◌==◌, if◌then◌else◌, lt→ltb}
use rubsd.Prelude.Lists.{length, get_or, set, take, drop, length-drop, take-append-drop}
use rubsd.Prelude.Run.{Run, ok, fault}

-- The cell `i`; 0 stands for what lies outside.
unfoldable pub at : List ℕ → ℕ → ℕ
at a i = get_or a i 0

unfoldable pub read : List ℕ → ℕ → Run ℕ
unfolding at
read a i = if ltb i (length a) then ok (at a i) else fault

unfoldable pub write : List ℕ → ℕ → ℕ → Run (List ℕ)
write a i v = if ltb i (length a) then ok (set a i v) else fault

pub read-ok : (a : List ℕ) (i : ℕ) → i < length a → read a i ≡ ok (at a i)
unfolding read
read-ok a i h = rw (lt→ltb i (length a) h)

pub write-ok : (a : List ℕ) (i v : ℕ) → i < length a → write a i v ≡ ok (set a i v)
unfolding write
write-ok a i v h = rw (lt→ltb i (length a) h)

pub read-fault : (a : List ℕ) (i : ℕ) → length a ≤ i → read a i ≡ fault
unfolding read
read-fault a i h = ground arith

pub write-fault : (a : List ℕ) (i v : ℕ) → length a ≤ i → write a i v ≡ fault
unfolding write
write-fault a i v h = ground arith

pub at-set :
    (a : List ℕ) (i j v : ℕ) → i < length a → at (set a i v) j ≡ (if i == j then v else at a j)
unfolding at
at-set [] i j v h = absurd (omega arith)
at-set (x ∷ a) zero zero v h = refl
at-set (x ∷ a) zero (suc j) v h = ground arith
at-set (x ∷ a) (suc i) zero v h = ground arith
at-set (x ∷ a) (suc i) (suc j) v h = ground (arith, at-set a i j v)

pub at-set_self : (a : List ℕ) (i v : ℕ) → i < length a → at (set a i v) i ≡ v
at-set_self a i v h = ground (arith, at-set a i i v h)

pub at-append_left : (a b : List ℕ) (i : ℕ) → i < length a → at (a ++ b) i ≡ at a i
unfolding at
at-append_left [] b i h = absurd (omega arith)
at-append_left (x ∷ a) b zero h = refl
at-append_left (x ∷ a) b (suc i) h = at-append_left a b i (omega arith)

pub at-append_right : (a b : List ℕ) (i : ℕ) → at (a ++ b) (length a + i) ≡ at b i
unfolding at
at-append_right [] b i = ap (λ k. get_or b k 0) (omega arith)
at-append_right (x ∷ a) b i =
    let e : suc (length a) + i ≡ suc (length a + i) = omega arith in rw e (at-append_right a b i)

pub at-take : (n : ℕ) (a : List ℕ) (i : ℕ) → i < n → at (take n a) i ≡ at a i
unfolding at
at-take zero a i h = absurd (omega arith)
at-take (suc n) [] i h = refl
at-take (suc n) (x ∷ a) zero h = refl
at-take (suc n) (x ∷ a) (suc i) h = at-take n a i (omega arith)

pub at-drop : (n : ℕ) (a : List ℕ) (i : ℕ) → at (drop n a) i ≡ at a (n + i)
unfolding at
at-drop zero a i = ap (λ k. get_or a k 0) (omega arith)
at-drop (suc n) [] i = refl
at-drop (suc n) (x ∷ a) i = let e : suc n + i ≡ suc (n + i) = omega arith in rw e (at-drop n a i)

-- Two blocks of one size with the same cells are one.
pub cells-ext :
    (a b : List ℕ) → length a ≡ length b → ((i : ℕ) → i < length a → at a i ≡ at b i) → a ≡ b
unfolding at
cells-ext [] [] e h = refl
cells-ext [] (y ∷ b) e h = absurd (omega arith)
cells-ext (x ∷ a) [] e h = absurd (omega arith)
cells-ext (x ∷ a) (y ∷ b) e h =
    ground (arith, h 0 (omega arith), cells-ext a b (omega arith) (λ i p. h (suc i) (omega arith)))

-- Lists with the same elements have the same length.
as_long : {a b : List ℕ} → Permᴰ a b → length b ≡ length a
as_long (Permᴰ.trans p q) = as_long q ∙ as_long p
as_long (Permᴰ.swap x y) = refl
as_long (Permᴰ.cons x p) = ap suc (as_long p)
as_long Permᴰ.nil = refl

pub length-perm : {a b : List ℕ} → Perm a b → length a ≡ length b
length-perm p = sym (∥∥₁_elim p (ℕ_set _ _) as_long)

-- A write trades the old cell for the new one.
pub set-perm : (a : List ℕ) (i v : ℕ) → i < length a → Perm (at a i ∷ set a i v) (v ∷ a)
unfolding at
set-perm [] i v h = absurd (omega arith)
set-perm (x ∷ a) zero v h = Perm.swap v x a
set-perm (x ∷ a) (suc i) v h =
    Perm.trans (Perm.swap x _ _)
      (Perm.trans (Perm.cons x (set-perm a i v (omega arith))) (Perm.swap v x a))

pub set-at_self : (a : List ℕ) (i : ℕ) → set a i (at a i) ≡ a
unfolding at
set-at_self [] i = refl
set-at_self (x ∷ a) zero = refl
set-at_self (x ∷ a) (suc i) = ap (◌∷◌ x) (set-at_self a i)

-- If two blocks hold the same cells, and agree past the first `n`, then so do their first `n`.
pub take-perm :
    (n : ℕ) (a b : List ℕ)
    → Perm a b
    → ((i : ℕ) → n ≤ i → at a i ≡ at b i)
    → Perm (take n a) (take n b)
take-perm n a b p same =
    let rest : drop n a ≡ drop n b =
      cells-ext (drop n a) (drop n b) (rw (length-drop n a, length-drop n b, length-perm p))
        (λ i h. rw (at-drop n a i, at-drop n b i) (same (n + i) (omega arith))) in
    let split : Perm (take n a ++ drop n a) (take n b ++ drop n b) =
      rw (take-append-drop n a, take-append-drop n b) p in
    (perm-append_right_iff (drop n b)).0 (rw rest at split)

pub at-append :
    (a b : List ℕ) (i : ℕ)
    → at (a ++ b) i ≡ (if ltb i (length a) then at a i else at b (i - length a))
unfolding at
at-append [] b i = ground arith
at-append (x ∷ a) b zero = ground arith
at-append (x ∷ a) b (suc i) = ground (arith, at-append a b i)

pub at-cons : (x : ℕ) (a : List ℕ) (i : ℕ) → at (x ∷ a) i ≡ (if i == 0 then x else at a (i - 1))
unfolding at
at-cons x a zero = ground arith
at-cons x a (suc i) = ground arith

pub at-set_ne : (a : List ℕ) (i j v : ℕ) → i ≢ j → at (set a i v) j ≡ at a j
unfolding at
at-set_ne [] i j v h = refl
at-set_ne (x ∷ a) zero zero v h = absurd (h refl)
at-set_ne (x ∷ a) zero (suc j) v h = refl
at-set_ne (x ∷ a) (suc i) zero v h = refl
at-set_ne (x ∷ a) (suc i) (suc j) v h = at-set_ne a i j v (λ e. h (ap suc e))

-- The next `n + 1` cells from `i` on are the cell `i` and the next `n` behind it.
pub slice_step :
    (n i : ℕ) (a : List ℕ)
    → i < length a
    → take (suc n) (drop i a) ≡ at a i ∷ take n (drop (i + 1) a)
unfolding at
slice_step n zero [] h = absurd (omega arith)
slice_step n zero (x ∷ a) h = refl
slice_step n (suc i) [] h = absurd (omega arith)
slice_step n (suc i) (x ∷ a) h =
    let e : suc i + 1 ≡ suc (i + 1) = omega arith in rw e (slice_step n i a (omega arith))

pub take-set : (n : ℕ) (a : List ℕ) (i v : ℕ) → take n (set a i v) ≡ set (take n a) i v
take-set zero a i v = refl
take-set (suc n) [] i v = refl
take-set (suc n) (x ∷ a) zero v = refl
take-set (suc n) (x ∷ a) (suc i) v = ap (◌∷◌ x) (take-set n a i v)
