-- ===== src/Da/Ending.antt =====
-- da_bsort comes to an end, with the items in order.
use mathlib.Core.List.{Perm}
use mathlib.Core.List.Perm
use mathlib.Core.Path.{subst}
use rubsd.Prelude.{
  ℕ, zero, suc, ◌+◌, ◌-◌, ◌*◌, ◌≤◌, ◌<◌, ◌≡◌, refl, inl, inr, Bool, true, false, not, ◌||◌, arith,
  List, length, leb, ◌==◌, if◌then◌else◌, Bool-cases,
}
use rubsd.Prelude.Int.{ℤ, pos, negsuc, ◌+ℤ◌}
use rubsd.Prelude.Run.{ok, Yields, value, Yields-bind, Yields-weaken}
use rubsd.Prelude.Cells.{at, length-perm}
use rubsd.Pl.State.{int_max}
use rubsd.Da.{Da}
use rubsd.Da.Order.{Pass, passed, stopped, pass, bsort_loop, bsort}
use rubsd.Da.Sorting.{disorder, disorder-le}
use rubsd.Da.Passing.{IsOrder, Walk, down_at, pass_up, pass_down, next_down}

module _ (func : ℕ → ℕ → ℤ) (order : IsOrder func) (bytes : ℕ) where
  -- What da_bsort leaves: the same items, each with its follower in order, and the code 0.
  abbrev pub Sorted : ℕ → List ℕ → List ℕ × ℤ → Type 0
  Sorted w a (b, rc) =
      (rc ≡ pos 0) × Perm b a × ((p : ℕ) → p < w → func (at b p) (at b (suc p)) ≡ pos 0)

  abbrev start : Bool → ℕ → ℤ
  start true w = pos 0
  start false w = down_at func order bytes w

  abbrev ending : Bool → ℕ → ℤ
  ending true w = pos w
  ending false w = negsuc 0

  full_pass :
      (w : ℕ) (up : Bool) (a : List ℕ)
      → w * bytes ≤ int_max
      → w < length a
      → Yields
          (Walk func order bytes (ending up w) 0 w 0 a)
          (pass func bytes w (w + 1) (if up then pos 1 else negsuc 0) (start up w) 0 a)
  full_pass w true a fits size =
      pass_up func order bytes (w + 1) w 0 0 a (omega arith) (omega arith) fits size
  full_pass w false a fits size =
      pass_down func order bytes (w + 1) w w 0 a (omega arith) (omega arith) fits size

  turned : (up : Bool) (w : ℕ) → ending up w +ℤ (if up then negsuc 0 else pos 1) ≡ start (not up) w
  unfolding ◌+ℤ◌
  turned true w = next_down func order bytes w
  turned false w = refl

  next_pass :
      (fuel w : ℕ) (up : Bool) (a : List ℕ)
      → disorder func a < suc fuel
      → w < length a
      → ((b : List ℕ)
          → disorder func b < fuel
          → w < length b
          → Yields (Sorted w b) (bsort_loop func bytes w fuel (not up) (start (not up) w) b))
      → (r : Pass) → Walk func order bytes (ending up w) 0 w 0 a r
      → Yields (Sorted w a) (elim r [
        | stopped b ↦ ok (b, negsuc 0)
        | passed j n b ↦ elim n [
          | zero ↦ ok (b, pos 0)
          | suc m ↦ bsort_loop func bytes w fuel (not up) (j +ℤ (if up then negsuc 0 else pos 1)) b
        ]
      ])
  next_pass fuel w up a f size more (stopped b) walk = absurd cc
  next_pass fuel w up a f size more (passed j zero b) (e, (p, q, r, s), ordered_pairs) =
      rw (s refl) (value (refl, Perm.refl a, λ k below. ordered_pairs refl k (omega arith) below))
  next_pass fuel w up a f size more (passed j (suc m) b) (e, (p, q, r, s), ordered_pairs) =
      let size_b = length-perm p in
      rw (e, turned up w)
        (Yields-weaken (more b (omega arith) (omega arith))
          λ c (z, perm, ordered). (z, Perm.trans perm p, ordered))

  bsort_loop_lem :
      (fuel w : ℕ) (up : Bool) (a : List ℕ)
      → disorder func a < fuel
      → w * bytes ≤ int_max
      → w < length a
      → Yields (Sorted w a) (bsort_loop func bytes w fuel up (start up w) a)
  unfolding bsort_loop
  bsort_loop_lem zero w up a f fits size = absurd (omega arith)
  bsort_loop_lem (suc fuel) w up a f fits size =
      Yields-bind (full_pass w up a fits size)
        (next_pass fuel w up a f size (λ b g h. bsort_loop_lem fuel w (not up) b g fits h))

  less_bytes : (m n : ℕ) → m ≤ n → m * bytes ≤ n * bytes
  less_bytes m n h = grind arith

  -- da_bsort, with as many items as the count says, of which all bytes together, at least one for an
  -- item, are up to INT_MAX, comes back within count * count + 1 passes, for a
  -- comparison that gives no error and does not want two items exchanged both ways: it returns 0, the
  -- count is the same, the items are those from before, and none is to be exchanged with the next.
  pub bsort_sorts :
      (l : Da)
      → length l.cells ≡ l.count
      → 0 < bytes
      → l.count * bytes ≤ int_max
      → Yields
          (λ (k, rc).
            (rc ≡ pos 0)
            × (k.count ≡ l.count)
            × Perm k.cells l.cells
            × ((p : ℕ) → suc p < l.count → func (at k.cells p) (at k.cells (suc p)) ≡ pos 0))
          (bsort true func bytes l)
  unfolding bsort
  bsort_sorts l whole sized fits =
      let some_bytes : (bytes == 0) ≡ false = ground arith in
      rw some_bytes (elim (Bool-cases (leb l.count 1 || (length l.cells == 0))) [
        | inl e ↦
            rw e (value (refl, refl, Perm.refl l.cells, λ p below. absurd (ground (arith, whole))))
        | inr e ↦
            let many : 1 < l.count = ground arith in
            let pairs : disorder func l.cells ≤ l.count * l.count =
              subst (λ n. disorder func l.cells ≤ n * n) whole (disorder-le func l.cells) in
            let low : l.count - 1 ≤ l.count = omega arith in
            let fewer : (l.count - 1) * bytes ≤ l.count * bytes =
              less_bytes (l.count - 1) l.count low in
            rw e (
              Yields-bind
                (bsort_loop_lem (l.count * l.count + 1) (l.count - 1) true l.cells (omega arith)
                  (omega arith) (omega arith))
                λ (cells, rc) (z, perm, ordered).
                  value (z, refl, perm, λ p below. ordered p (omega arith)))
      ])
