-- ===== src/Da/Tests.antt =====
-- The theorems on da.c, at a concrete array.
use mathlib.Core.List.{Perm}
use rubsd.Prelude.{
  ℕ, suc, true, ◌+◌, ◌-◌, ◌<◌, ◌≡◌, refl, length, ltb, if◌then◌else◌, [], ◌∷◌, ◌++◌, some, arith,
  take, replicate, length-take, length-append, length-replicate,
}
use rubsd.Prelude.Int.{ℤ, pos}
use rubsd.Prelude.Run.{Yields}
use rubsd.Prelude.Cells.{at, at-take, at-append}
use rubsd.Pl.State.{Realloc, IsRealloc}
use rubsd.Da.{Da, ins}
use rubsd.Da.Order.{reverse, bsort}
use rubsd.Da.Passing.{IsOrder}
use rubsd.Da.Ending.{bsort_sorts}
use rubsd.Da.Reversing.{reverse_lem}
use rubsd.Da.Inserting.{Inserted, ins_lem}

abbrev roomy : Realloc
roomy a n = some (take n (a ++ replicate n 0))

roomy-IsRealloc : IsRealloc roomy
roomy-IsRealloc = record {
  length_of = λ a n b e. ground (
    arith,
    length-take n (a ++ replicate n 0),
    length-append a (replicate n 0),
    length-replicate n (◌+◌ 0 0),
  );
  kept = λ a n b e i p q.
      ground (arith, at-take n (a ++ replicate n 0) i p, at-append a (replicate n 0) i);
}

abbrev three : Da
three = record { count = 3; cells = 4 ∷ 8 ∷ 6 ∷ [] }

ins_lem_run : Yields (Inserted roomy three 1 5) (ins roomy true three (pos 1) (some 5))
ins_lem_run = ins_lem roomy roomy-IsRealloc three 1 5 refl (omega arith)

-- Wants the larger item behind the smaller one.
abbrev later_if_larger : ℕ → ℕ → ℤ
later_if_larger x y = if ltb y x then pos 1 else pos 0

later_if_larger-IsOrder : IsOrder later_if_larger
later_if_larger-IsOrder = record {
  no_error = λ x y. ground arith;
  one_way = λ x y ne. ground arith;
}

bsort_sorts_example :
    Yields
      (λ (k, rc).
        (rc ≡ pos 0)
        × (k.count ≡ 3)
        × Perm k.cells (4 ∷ 8 ∷ 6 ∷ [])
        × ((p : ℕ) → suc p < 3 → later_if_larger (at k.cells p) (at k.cells (suc p)) ≡ pos 0))
      (bsort true later_if_larger 8 three)
bsort_sorts_example =
    bsort_sorts later_if_larger later_if_larger-IsOrder 8 three refl (omega arith) (omega arith)

reverse_lem_run :
    Yields
      (λ (k, rc).
        (rc ≡ pos 0)
        × (k.count ≡ 3)
        × (length k.cells ≡ 3)
        × ((j : ℕ) → j < 3 → at k.cells j ≡ at (4 ∷ 8 ∷ 6 ∷ []) (3 - 1 - j)))
      (reverse true true three)
reverse_lem_run = reverse_lem three refl
