-- ===== src/Pl/Edit/Adding.antt =====
-- pl_add and pl_insert.
use rubsd.Prelude.{
  ℕ, ◌+◌, ◌-◌, ◌≤◌, ◌<◌, ◌≡◌, refl, inl, inr, List, [], ◌∷◌, ◌++◌, arith, length, length-set,
  length-take, length-append, take, set, ap,
}
use rubsd.Prelude.Int.{ℤ, pos}
use rubsd.Prelude.Run.{Yields, value, Yields-bind, Yields-weaken}
use rubsd.Prelude.Cells.{at, write-ok, at-set, at-take, at-append, at-cons, cells-ext}
use rubsd.Pl.State.{Pl, items, IsValid, Realloc, IsRealloc, int_max, add_int-ok, lst_esuccess}
use rubsd.Pl.Edit.{append_item, add}
use rubsd.Pl.Edit.Growing.{length-items, HoldsNow, HasRoom, AddsOrRefuses, grow_lem}

-- A list with room, changed in its cells and one item longer, holds the items that it should.
pub HoldsNow-intro :
    (l g : Pl) (b : List ℕ) (xs : List ℕ)
    → HasRoom l g
    → length b ≡ length g.cells
    → length xs ≡ g.count + 1
    → ((i : ℕ) → i < g.count + 1 → at b i ≡ at xs i)
    → HoldsNow l xs (record g { cells = b; count = g.count + 1; rc = lst_esuccess })
HoldsNow-intro l g b xs r size longer same = record {
  valid = record {
    block = omega (arith, r.valid.block);
    fits = omega (arith, r.room);
    grows = r.valid.grows;
    bounded = r.valid.bounded;
  };
  contents =
      cells-ext (take (g.count + 1) b) xs
        (omega (arith, length-take (g.count + 1) b, r.valid.block, r.room))
        λ i h.
          let p : i < g.count + 1 = omega (arith, length-take (g.count + 1) b) in
          rw (at-take (g.count + 1) b i p) (same i p);
  code = refl;
  same_delta = r.same_delta;
  same_dealloc = r.same_dealloc;
  same_freed = r.same_freed;
}

module _ (realloc : Realloc) where
  append_item_lem :
      (l g : Pl) (item : ℕ)
      → HasRoom l g
      → Yields
          (λ (r : Pl × ℤ). (r.1 ≡ pos l.count) × HoldsNow l (items l ++ item ∷ []) r.0)
          (append_item realloc g item)
  unfolding append_item
  append_item_lem l g item r =
      let size = length-items g r.valid in
      let one : length (items g ++ item ∷ []) ≡ g.count + 1 =
        omega (arith, length-append (items g) (item ∷ []), size) in
      let inside : g.count < length g.cells = omega (arith, r.valid.block, r.room) in
      rw
        (
          write-ok g.cells g.count item inside,
          add_int-ok g.count 1 (omega (arith, r.room, r.valid.bounded)),
        )
        (value (
          ap pos (omega (arith, r.same_count)),
          rw (← r.contents) (
              HoldsNow-intro l g (set g.cells g.count item) (items g ++ item ∷ []) r
                (length-set g.cells g.count item) one
                λ i p. ground (
                  arith,
                  size,
                  at-set g.cells g.count i item inside,
                  at-append (items g) (item ∷ []) i,
                  at-take g.count g.cells i,
                  at-cons item [] (i - g.count),
                )),
        ))

  module _ (law : IsRealloc realloc) where
    -- pl_add on a valid list, if the larger size is an `int`: it returns. Either the item is the
    -- list's last, the items before it are those of before and the result is their number, or the
    -- list is full, `realloc` refuses, and the list keeps all but `rc`.
    pub add_lem :
        (l : Pl) (item : ℕ)
        → IsValid l
        → l.size + l.delta ≤ int_max
        → Yields (AddsOrRefuses realloc l (items l ++ item ∷ []) l.count) (add realloc l item)
    unfolding add
    add_lem l item v fits = Yields-bind (grow_lem realloc law l v fits) λ r grown. elim grown [
      | inl (e, room) ↦ rw e (Yields-weaken (append_item_lem l r.0 item room) λ s t. inl t)
      | inr (e, out) ↦ rw e (value (inr (refl, out)))
    ]
