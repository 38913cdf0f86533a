-- ===== src/Da/Reversing.antt =====
-- da_reverse.
use rubsd.Prelude.{
  ℕ, zero, suc, ◌+◌, ◌-◌, ◌≤◌, ◌<◌, ◌≡◌, refl, ◌∙◌, ap, inl, inr, true, arith, some, length, set,
  length-set, ltb, ◌==◌, Bool-cases,
}
use rubsd.Prelude.Int.{ℤ, pos}
use rubsd.Prelude.Run.{ok, Yields, value, Yields-weaken}
use rubsd.Prelude.Cells.{at, at-set}
use rubsd.Da.{Da, ptr_to}
use rubsd.Da.Order.{swap, reverse_loop, reverse}
use rubsd.Da.Swapping.{memswap_lem}

-- The items from `b` to `e` in the other order.
abbrev Mirrored : Da → ℕ → ℕ → Da × ℤ → Type 0
Mirrored l b e (k, rc) =
    (rc ≡ pos 0)
    × (k.count ≡ l.count)
    × (length k.cells ≡ length l.cells)
    × ((j : ℕ) → b ≤ j → j ≤ e → at k.cells j ≡ at l.cells (b + e - j))
    × ((j : ℕ) → j < b → at k.cells j ≡ at l.cells j)
    × ((j : ℕ) → e < j → j < l.count → at k.cells j ≡ at l.cells j)

ptr_inside : (l : Da) (i : ℕ) → i < l.count → ptr_to true l (pos i) ≡ some i
unfolding ptr_to
ptr_inside l i h = ground arith

-- da_swap of two different items.
pub swap_lem :
    (l : Da) (i j : ℕ)
    → length l.cells ≡ l.count
    → i < j
    → j < l.count
    → swap true l (pos i) (pos j)
      ≡ ok (record l { cells = set (set l.cells i (at l.cells j)) j (at l.cells i) }, pos 0)
unfolding swap
swap_lem l i j whole below inside =
    rw
      (
        swap,
        ptr_inside l i (omega arith),
        ptr_inside l j inside,
        memswap_lem i j l.cells (λ e. omega arith) (omega arith) (omega arith),
      )
      refl

reverse_loop_lem :
    (fuel : ℕ) (l : Da) (b e : ℕ)
    → length l.cells ≡ l.count
    → e < l.count
    → e - b < fuel
    → Yields (Mirrored l b e) (reverse_loop fuel true l b e)
unfolding reverse_loop
reverse_loop_lem zero l b e whole inside f = absurd (omega arith)
reverse_loop_lem (suc fuel) l b e whole inside f = elim (Bool-cases (ltb b e)) [
  | inr met ↦ rw met (
      value (
        refl,
        refl,
        refl,
        (λ j low high. ap (at l.cells) (ground arith)),
        (λ j below. refl),
        λ j above below. refl,
      ))
  | inl apart ↦
      let below : b < e = ground arith in
      let k = record l { cells = set (set l.cells b (at l.cells e)) e (at l.cells b) } in
      let first = set l.cells b (at l.cells e) in
      let size_first = length-set l.cells b (at l.cells e) in
      let size : length k.cells ≡ length l.cells = length-set first e (at l.cells b) ∙ size_first in
      let cell = λ (j : ℕ). at-set first e j (at l.cells b) (omega arith) in
      let inner = λ (j : ℕ). at-set l.cells b j (at l.cells e) (omega arith) in
      rw (apart, swap_lem l b e whole below inside)
        (Yields-weaken
          (reverse_loop_lem fuel k (b + 1) (e - 1) (size ∙ whole) (omega arith) (omega arith))
          λ r (z, count, same, mid, low, high). (
            z,
            count,
            same ∙ size,
            (λ j p q. elim (Bool-cases (j == b)) [
              | inl at_b ↦
                  let left : j ≡ b = ground arith in
                  let right : b + e - j ≡ e = omega arith in
                  rw right (rw left (ground (arith, low b (omega arith), cell b, inner b)))
              | inr off_b ↦ elim (Bool-cases (j == e)) [
                | inl at_e ↦
                    let left : j ≡ e = ground arith in
                    let right : b + e - j ≡ b = omega arith in
                    rw right (rw left (ground (arith, high e (omega arith) (omega arith), cell e)))
                | inr off_e ↦
                    let high_j : b + 1 ≤ j = ground arith in
                    let low_j : j ≤ e - 1 = ground arith in
                    let place : b + 1 + (e - 1) - j ≡ b + e - j = omega arith in
                    mid j high_j low_j
                    ∙ ap (at k.cells) place
                    ∙ ground (arith, cell (b + e - j), inner (b + e - j))
              ]
            ]),
            (λ j p. ground (arith, low j (omega arith), cell j, inner j)),
            λ j p q. ground (arith, high j (omega arith) (omega arith), cell j, inner j),
          ))
]

-- da_reverse, with as many items as the count says, comes back within count + 1 rounds with 0: the
-- count is the same, and the items are in the other order.
pub reverse_lem :
    (l : Da)
    → length l.cells ≡ l.count
    → Yields
        (λ (k, rc).
          (rc ≡ pos 0)
          × (k.count ≡ l.count)
          × (length k.cells ≡ l.count)
          × ((j : ℕ) → j < l.count → at k.cells j ≡ at l.cells (l.count - 1 - j)))
        (reverse true true l)
unfolding reverse reverse_loop
reverse_lem l whole = elim (Bool-cases (l.count == 0)) [
  | inl none_there ↦
      let e : l.count - 1 ≡ 0 = ground arith in
      let f : l.count + 1 ≡ 1 = ground arith in
      rw (e, f) (value (refl, refl, whole, λ j below. absurd (ground arith)))
  | inr some_there ↦
      let many : 0 < l.count = ground arith in
      Yields-weaken
        (reverse_loop_lem (l.count + 1) l 0 (l.count - 1) whole (omega arith) (omega arith))
        λ (k, rc) (z, count, same, mid, low, high). (
          z,
          count,
          same ∙ whole,
          λ j below.
              let e : 0 + (l.count - 1) - j ≡ l.count - 1 - j = omega arith in
              mid j (omega arith) (omega arith) ∙ ap (at l.cells) e,
        )
]
