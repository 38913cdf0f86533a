-- ===== src/Da/Inserting.antt =====
-- da_ins.
use rubsd.Prelude.{
  ℕ, ◌+◌, ◌-◌, ◌<◌, ◌≤◌, ◌≡◌, refl, ◌⊎◌, inl, inr, true, false, ◌&&◌, List, ◌∷◌, ◌++◌, none, some,
  arith, length, length-take, length-drop, length-append, length-set, set, take, drop, ltb, leb,
  ◌==◌, if◌then◌else◌, Bool-cases, Option-cases,
}
use rubsd.Prelude.Int.{ℤ, pos, negsuc}
use rubsd.Prelude.Run.{ok, Yields, value, Yields-bind}
use rubsd.Prelude.Cells.{at, write-ok, at-set, at-append, at-take, at-drop, at-cons, cells-ext}
use rubsd.Pl.State.{Realloc, IsRealloc}
use rubsd.Da.{Da, memmove, place, open_gap, new, number_of, ins}

-- The block of a larger array, with a gap at `i`.
record HasGap (l : Da) (i : ℕ) (b : List ℕ) : Type 0 where
  size : length b ≡ l.count + 1
  low : (j : ℕ) → j < i → at b j ≡ at l.cells j
  high : (j : ℕ) → i < j → j ≤ l.count → at b j ≡ at l.cells (j - 1)

moved_lem :
    (l : Da) (block : List ℕ) (i : ℕ)
    → length l.cells ≡ l.count
    → length block ≡ l.count + 1
    → ((j : ℕ) → j < l.count → at block j ≡ at l.cells j)
    → i ≤ l.count
    → Yields (HasGap l i) (if i == l.count then ok block else memmove (i + 1) i (l.count - i) block)
unfolding memmove
moved_lem l block i v size kept h = elim (Bool-cases (i == l.count)) [
  | inl e ↦ rw e (
      value (record {
        size = size;
        low = λ j p. kept j (ground arith);
        high = λ j p q. absurd (ground arith);
      }))
  | inr e ↦
      let front = take (i + 1) block in
      let tail = take (l.count - i) (drop i block) in
      let rest = drop (i + 1 + (l.count - i)) block in
      let inside : (leb (i + 1 + (l.count - i)) (length block)
            && leb (i + (l.count - i)) (length block))
          ≡ true =
        ground arith in
      let front_size = length-take (i + 1) block in
      let tail_size = length-take (l.count - i) (drop i block) in
      let drop_size = length-drop i block in
      let rest_size = length-drop (i + 1 + (l.count - i)) block in
      rw (e, inside)
        (value (record {
          size = omega (
            arith,
            length-append (front ++ tail) rest,
            length-append front tail,
            front_size,
            tail_size,
            drop_size,
            rest_size,
          );
          low = λ j p. ground (
            arith,
            at-append (front ++ tail) rest j,
            at-append front tail j,
            length-append front tail,
            at-take (i + 1) block j,
            front_size,
            kept j,
          );
          high = λ j p q. ground (
            arith,
            at-append (front ++ tail) rest j,
            at-append front tail j,
            length-append front tail,
            at-take (l.count - i) (drop i block) (j - length front),
            at-drop i block (j - length front),
            front_size,
            tail_size,
            drop_size,
            kept (j - 1),
          );
        }))
]

-- What da_ins does: the item stands at `i`, or memory is out and nothing has changed.
abbrev pub Inserted : Realloc → Da → ℕ → ℕ → Da × ℤ → Type 0
Inserted realloc l i item r =
    ((r.1 ≡ pos i)
      × (r.0.count ≡ l.count + 1)
      × (r.0.cells ≡ take i l.cells ++ item ∷ drop i l.cells))
    ⊎ ((r.1 ≡ negsuc 0) × (r.0 ≡ l) × (realloc l.cells (l.count + 1) ≡ none))

filled_lem :
    (l : Da) (i item : ℕ) (b : List ℕ)
    → length l.cells ≡ l.count
    → i ≤ l.count
    → HasGap l i b
    → set (set b i 0) i item ≡ take i l.cells ++ item ∷ drop i l.cells
filled_lem l i item b v h g =
    let front = take i l.cells in
    let back = drop i l.cells in
    let front_size : length front ≡ i = omega (arith, length-take i l.cells) in
    let back_size = length-drop i l.cells in
    let size = length-set b i 0 in
    let size' = length-set (set b i 0) i item in
    cells-ext (set (set b i 0) i item) (front ++ item ∷ back)
      (omega (arith, length-append front (item ∷ back), g.size))
      λ j p. ground (
        arith,
        at-set (set b i 0) i j item (omega (arith, g.size)),
        at-set b i j 0 (omega (arith, g.size)),
        g.low j,
        g.high j,
        g.size,
        at-append front (item ∷ back) j,
        at-take i l.cells j,
        at-cons item back (j - i),
        at-drop i l.cells (j - i - 1),
      )

module _ (realloc : Realloc) (law : IsRealloc realloc) where
  -- da_ins at an index up to the count, in an array whose block has as many items as it counts: it
  -- returns. Either the number is the index, the item stands there, between the items that were
  -- before it and the others, and the count is one more, or `realloc` refuses, the result is -1,
  -- and the array is as it was.
  pub ins_lem :
      (l : Da) (i item : ℕ)
      → length l.cells ≡ l.count
      → i ≤ l.count
      → Yields (Inserted realloc l i item) (ins realloc true l (pos i) (some item))
  unfolding ins new place open_gap number_of
  ins_lem l i item v h =
      let inside : ltb l.count i ≡ false = ground arith in
      elim (Option-cases (realloc l.cells (l.count + 1))) [
        | inl out ↦ rw (inside, out) (value (inr (refl, refl, out)))
        | inr (block, e) ↦
            let size = law.length_of l.cells (l.count + 1) block e in
            let gap =
              moved_lem l block i v size
                (λ j p. law.kept l.cells (l.count + 1) block e j (omega arith) (omega arith)) h in
            rw (inside, e)
              (Yields-bind
                (Yields-bind gap λ b g. rw (write-ok b i 0 (omega (arith, g.size))) (
                  value (
                    rw (write-ok (set b i 0) i item (omega (arith, length-set b i 0, g.size)))
                      (value (inl (refl, refl, filled_lem l i item b v h g))))))
                λ r filled. filled)
      ]
