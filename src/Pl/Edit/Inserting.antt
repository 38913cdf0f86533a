-- ===== src/Pl/Edit/Inserting.antt =====
-- pl_insert.
use native.Mathlib.Decide.{ℕ_discrete}
use rubsd.Prelude.{
  ℕ, zero, suc, ◌+◌, ◌-◌, ◌≤◌, ◌<◌, ◌≡◌, refl, ◌≢◌, ◌∙◌, ◌⊎◌, inl, inr, false, List, ◌∷◌, ◌++◌,
  arith, length, length-set, length-take, length-append, length-drop, take, drop, ltb, set,
}
use rubsd.Prelude.Int.{ℤ, pos}
use rubsd.Prelude.Run.{
  ok, fault, Yields, value, Yields-bind, Yields-weaken, Yields-test, Yields-value,
}
use rubsd.Prelude.Cells.{
  at, at-set_ne, at-set_self, write-ok, read-ok, at-set, at-take, at-drop, at-append, at-cons,
}
use rubsd.Pl.State.{Pl, items, IsValid, Realloc, IsRealloc, int_max, add_int-ok, lst_einvarg}
use rubsd.Pl.Edit.{minus_one, read_before, shift_up, insert_item, insert}
use rubsd.Pl.Edit.Growing.{length-items, HoldsNow, HasRoom, OutOfMemory, AddsOrRefuses, grow_lem}
use rubsd.Pl.Edit.Adding.{HoldsNow-intro}

-- `n` rounds from cell `i` down move the cells before up by one, and change nothing else.
record IsShifted (n i : ℕ) (a b : List ℕ) : Type 0 where
  same_length : length b ≡ length a
  moved : (j : ℕ) → i < j + n → j ≤ i → at b j ≡ at a (j - 1)
  low : (j : ℕ) → j + n ≤ i → at b j ≡ at a j
  high : (j : ℕ) → i < j → at b j ≡ at a j

read_before-ok : (a : List ℕ) (i : ℕ) → 0 < i → i < length a → read_before a i ≡ ok (at a (i - 1))
unfolding read_before
read_before-ok a zero p h = absurd (omega arith)
read_before-ok a (suc i) p h =
    let e : suc i - 1 ≡ i = omega arith in rw e (read-ok a i (omega arith))

IsShifted-step :
    (n i : ℕ) (a b : List ℕ)
    → suc n ≤ i
    → i < length a
    → IsShifted n (i - 1) (set a i (at a (i - 1))) b
    → IsShifted (suc n) i a b
IsShifted-step n i a b p h s =
    let v = at a (i - 1) in
    let ne = λ (j : ℕ) (d : i ≢ j). at-set_ne a i j v d in
    record {
      same_length = s.same_length ∙ length-set a i v;
      moved = λ j q r. elim (ℕ_discrete j i) [
        | yes e ↦ rw e (s.high i (omega arith) ∙ at-set_self a i v h)
        | no d ↦ s.moved j (omega arith) (omega arith) ∙ ne (j - 1) (λ e. omega arith)
      ];
      low = λ j q. s.low j (omega arith) ∙ ne j (λ e. omega arith);
      high = λ j q. s.high j (omega arith) ∙ ne j (λ e. omega arith);
    }

shift_up_lem :
    (n i : ℕ) (a : List ℕ) → n ≤ i → i < length a → Yields (IsShifted n i a) (shift_up n i a)
unfolding shift_up
shift_up_lem zero i a p h = value (record {
  same_length = refl;
  moved = λ j q r. absurd (omega arith);
  low = λ j q. refl;
  high = λ j q. refl;
})
shift_up_lem (suc n) i a p h =
    rw (read_before-ok a i (omega arith) h, write-ok a i (at a (i - 1)) h)
      (Yields-weaken
        (shift_up_lem n (i - 1) (set a i (at a (i - 1))) (omega arith)
          (omega (arith, length-set a i (at a (i - 1)))))
        λ b s. IsShifted-step n i a b p h s)

-- With a round for cell 0 the loop reads before the block.
shift_up-fault : (i : ℕ) (a : List ℕ) → i < length a → shift_up (suc i) i a ≡ fault
unfolding shift_up read_before
shift_up-fault zero a h = refl
shift_up-fault (suc i) a h =
    let e : suc i - 1 ≡ i = omega arith in
    rw (read-ok a i (omega arith), write-ok a (suc i) (at a i) h, e)
      (shift_up-fault i (set a (suc i) (at a i)) (omega (arith, length-set a (suc i) (at a i))))

module _ (realloc : Realloc) where
  insert_item_lem :
      (l g : Pl) (item index : ℕ)
      → HasRoom l g
      → 0 < index
      → index ≤ g.count
      → Yields
          (λ (r : Pl × ℤ).
            (r.1 ≡ pos index)
            × HoldsNow l (take index (items l) ++ item ∷ drop index (items l)) r.0)
          (insert_item realloc g item index)
  unfolding insert_item
  insert_item_lem l g item index r low high =
      let size = length-items g r.valid in
      let inside : g.count < length g.cells = omega (arith, r.valid.block, r.room) in
      let front = take index (items g) in
      let back = drop index (items g) in
      let front_size : length front ≡ index = omega (arith, length-take index (items g), size) in
      let back_size = length-drop index (items g) in
      Yields-bind (shift_up_lem (g.count + 1 - index) g.count g.cells (omega arith) inside) λ b s.
        let here : index < length b = omega (arith, s.same_length) in
        rw
          (
            write-ok b index item here,
            add_int-ok g.count 1 (omega (arith, r.room, r.valid.bounded)),
          )
          (value (
            refl,
            rw (← r.contents) (
                HoldsNow-intro l g (set b index item) (front ++ item ∷ back) r
                  (length-set b index item ∙ s.same_length)
                  (omega (arith, length-append front (item ∷ back)))
                  λ i p. ground (
                    arith,
                    at-set b index i item here,
                    s.moved i,
                    s.low i,
                    at-append front (item ∷ back) i,
                    at-take index (items g) i,
                    at-cons item back (i - index),
                    at-drop index (items g) (i - index - 1),
                    at-take g.count g.cells i,
                    at-take g.count g.cells (index + (i - index - 1)),
                  )),
          ))

  -- pl_insert refuses an index outside the list, and sets only `rc`.
  pub insert_refuses :
      (l : Pl) (item i : ℕ)
      → l.count < i
      → insert realloc l item (pos i) ≡ ok (record l { rc = lst_einvarg }, minus_one)
  unfolding insert
  insert_refuses l item i h = ground arith

  module _ (law : IsRealloc realloc) where
    -- pl_insert on a valid list with `l.size + l.delta` up to INT_MAX, at an index past 0 and up to
    -- the count: it returns. Either the item stands at the index, between the items that were
    -- before it and the others, or the list is full, `realloc` refuses, and the list keeps all but
    -- `rc`.
    pub insert_lem :
        (l : Pl) (item i : ℕ)
        → IsValid l
        → l.size + l.delta ≤ int_max
        → 0 < i
        → i ≤ l.count
        → Yields
            (AddsOrRefuses realloc l (take i (items l) ++ item ∷ drop i (items l)) i)
            (insert realloc l item (pos i))
    unfolding insert
    insert_lem l item i v fits low high =
        Yields-test (ltb l.count i) (λ e. absurd (ground arith))
          λ e. Yields-bind (grow_lem realloc law l v fits) λ r grown. elim grown [
            | inl (e, room) ↦ rw e (
                Yields-weaken
                  (insert_item_lem l r.0 item i room low (omega (arith, room.same_count)))
                  λ s t. inl t)
            | inr (e, out) ↦ rw e (value (inr (refl, out)))
          ]

    -- pl_insert at index 0 of a valid list never succeeds: it reads the cell before the block,
    -- which is undefined, or memory is out and it returns -1.
    pub insert-head :
        (l : Pl) (item : ℕ)
        → IsValid l
        → l.size + l.delta ≤ int_max
        → (insert realloc l item (pos 0) ≡ fault)
          ⊎ ((k : Pl) × (insert realloc l item (pos 0) ≡ ok (k, minus_one))
              × OutOfMemory realloc l k)
    unfolding insert insert_item
    insert-head l item v fits =
        let low : ltb l.count 0 ≡ false = ground arith in
        let (r, e, grown) = Yields-value (grow_lem realloc law l v fits) in
        elim grown [
          | inl (t, room) ↦
              let whole : r.0.count + 1 - 0 ≡ suc r.0.count = omega arith in
              let inside : r.0.count < length r.0.cells =
                omega (arith, room.valid.block, room.room) in
              inl (rw (low, e, t, whole, shift_up-fault r.0.count r.0.cells inside))
          | inr (t, out) ↦ inr (r.0, rw (low, e, t), out)
        ]
