-- ===== src/Pl/Drop/Deleting.antt =====
-- pl_delete, pl_exchange and pl_replace.
use rubsd.Prelude.{
  ℕ, suc, ◌+◌, ◌-◌, ◌≤◌, ◌<◌, ◌≡◌, refl, sym, inl, inr, ◌≢◌, ◌∙◌, ap, true, false, not, ◌&&◌, List,
  [], ◌∷◌, ◌++◌, arith, length, length-set, length-take, length-append, length-drop, take, drop,
  ltb, leb, ◌==◌, if◌then◌else◌, set, Bool-cases,
}
use rubsd.Prelude.Int.{pos}
use rubsd.Prelude.Run.{Yields, value, Yields-bind, Yields-test}
use rubsd.Prelude.Cells.{
  at, read-ok, write-ok, at-set, at-take, at-drop, at-append, cells-ext, take-set,
}
use rubsd.Pl.State.{Pl, items, IsValid, lst_esuccess}
use rubsd.Pl.Edit.{move_down}
use rubsd.Pl.Edit.Growing.{length-items}
use rubsd.Pl.Drop.{delete, exchange, replace}

-- `b` is `a` with the `n` cells after cell `i` one cell lower.
record IsMovedDown (i n : ℕ) (a b : List ℕ) : Type 0 where
  same_length : length b ≡ length a
  before : (j : ℕ) → j < i → at b j ≡ at a j
  after : (j : ℕ) → i ≤ j → j < i + n → at b j ≡ at a (suc j)

move_down_lem :
    (a : List ℕ) (i n : ℕ) → i + 1 + n ≤ length a → Yields (IsMovedDown i n a) (move_down a i n)
unfolding move_down
move_down_lem a i n h =
    let front = take i a in
    let mid = take n (drop (i + 1) a) in
    let rest = drop (i + n) a in
    let front_size : length front ≡ i = omega (arith, length-take i a) in
    let mid_size : length mid ≡ n =
      omega (arith, length-take n (drop (i + 1) a), length-drop (i + 1) a) in
    Yields-test (leb (i + 1 + n) (length a))
      (λ e. value (record {
        same_length = omega (
          arith,
          length-append front (mid ++ rest),
          length-append mid rest,
          length-drop (i + n) a,
        );
        before = λ j p. ground (arith, at-append front (mid ++ rest) j, at-take i a j p);
        after = λ j p q.
            let shift : i + 1 + (j - i) ≡ suc j = omega arith in
            ground (
              arith,
              at-append front (mid ++ rest) j,
              at-append mid rest (j - i),
              at-take n (drop (i + 1) a) (j - i),
              at-drop (i + 1) a (j - i),
              shift,
              ap (at a) shift,
            );
      }))
      (λ e. absurd (ground arith))

-- The list `k` that is left when the item `i` of `l` is taken out.
pub record IsWithout (l : Pl) (i : ℕ) (k : Pl) : Type 0 where
  pub valid : IsValid k
  pub contents : items k ≡ take i (items l) ++ drop (i + 1) (items l)
  pub code : k.rc ≡ lst_esuccess
  pub destroyed :
      k.freed
      ≡ (if not (at (items l) i == 0) && l.dealloc then l.freed ++ at (items l) i ∷ [] else l.freed)

-- Which cells remain, however the block was changed.
IsWithout-contents :
    (l : Pl) (i : ℕ) (b : List ℕ)
    → IsValid l
    → i < l.count
    → IsMovedDown i (l.count - 1 - i) l.cells b
    → take (l.count - 1) b ≡ take i (items l) ++ drop (i + 1) (items l)
IsWithout-contents l i b v h m =
    let size = length-items l v in
    let front = take i (items l) in
    let back = drop (i + 1) (items l) in
    let n = l.count - 1 in
    let front_size : length front ≡ i = omega (arith, length-take i (items l), size) in
    let back_size = length-drop (i + 1) (items l) in
    let left : length (take n b) ≡ n =
      omega (arith, length-take n b, m.same_length, v.block, v.fits) in
    cells-ext (take n b) (front ++ back) (omega (arith, left, length-append front back)) λ j p.
      ground (
        arith,
        at-take n b j,
        at-append front back j,
        at-take i (items l) j,
        at-take l.count l.cells j,
        at-drop (i + 1) (items l) (j - i),
        at-take l.count l.cells (i + 1 + (j - i)),
        m.before j,
        m.after j,
      )

IsWithout-intro :
    (l : Pl) (i : ℕ) (b : List ℕ)
    → IsValid l
    → i < l.count
    → IsMovedDown i (l.count - 1 - i) l.cells b
    → IsWithout l i (
        if not (at l.cells i == 0) && l.dealloc
        then record l {
          cells = b;
          count = l.count - 1;
          rc = lst_esuccess;
          freed = l.freed ++ at l.cells i ∷ [];
        }
        else record l { cells = b; count = l.count - 1; rc = lst_esuccess })
IsWithout-intro l i b v h m =
    let contents = IsWithout-contents l i b v h m in
    let same = at-take l.count l.cells i h in
    elim (Bool-cases (not (at l.cells i == 0) && l.dealloc)) [
      | inl freed ↦ rw freed (record {
        valid = record {
          block = m.same_length ∙ v.block;
          fits = omega (arith, v.fits);
          grows = v.grows;
          bounded = v.bounded;
        };
        contents = contents;
        code = refl;
        destroyed = rw (same, freed);
      })
      | inr kept ↦ rw kept (record {
        valid = record {
          block = m.same_length ∙ v.block;
          fits = omega (arith, v.fits);
          grows = v.grows;
          bounded = v.bounded;
        };
        contents = contents;
        code = refl;
        destroyed = rw (same, kept);
      })
    ]

-- The last item needs no move.
IsMovedDown-last :
    (l : Pl) (i : ℕ) → l.count - 1 ≤ i → IsMovedDown i (l.count - 1 - i) l.cells l.cells
IsMovedDown-last l i h = record {
  same_length = refl;
  before = λ j p. refl;
  after = λ j p q. absurd (omega arith);
}

-- pl_delete at an index of a valid list returns LST_ESUCCESS. The items are then those before the
-- index and those after it, in order, and the destructor, where one is set and the item is not
-- NULL, got that item and no other.
pub delete_lem :
    (l : Pl) (i : ℕ)
    → IsValid l
    → i < l.count
    → Yields (λ (r : Pl × ℕ). (r.1 ≡ lst_esuccess) × IsWithout l i r.0) (delete l (pos i))
unfolding delete
delete_lem l i v h = rw (read-ok l.cells i (omega (arith, v.block, v.fits))) (
    Yields-test (ltb i l.count)
      (λ e.
        Yields-bind
          (Yields-test {P = IsMovedDown i (l.count - 1 - i) l.cells} (ltb i (l.count - 1))
            (λ t. move_down_lem l.cells i (l.count - 1 - i) (ground (arith, v.block, v.fits)))
            (λ t. value (IsMovedDown-last l i (ground arith))))
          λ b m. value (refl, IsWithout-intro l i b v h m))
      (λ e. absurd (ground arith)))

-- The items 0 and 1 have changed places.
abbrev pub FrontExchanged : Pl → Pl × ℕ → Type 0
FrontExchanged l r =
    (r.1 ≡ lst_esuccess)
    × (r.0 ≡ record l { cells = r.0.cells; rc = lst_esuccess })
    × ((c : ℕ)
        → at r.0.cells c
          ≡ (if c == 0 then at l.cells 1 else if c == 1 then at l.cells 0 else at l.cells c))

-- pl_exchange with two different indices of a valid list returns LST_ESUCCESS and exchanges the
-- items 0 and 1, whatever the indices are; it keeps the other items.
pub exchange_front :
    (l : Pl) (i j : ℕ)
    → IsValid l
    → i < l.count
    → j < l.count
    → i ≢ j
    → Yields (FrontExchanged l) (exchange l (pos i) (pos j))
unfolding exchange
exchange_front l i j v hi hj ne =
    let two : 1 < length l.cells = omega (arith, v.block, v.fits) in
    let one : 0 < length l.cells = omega arith in
    let a = set l.cells 0 (at l.cells 1) in
    let two' : 1 < length a = omega (arith, length-set l.cells 0 (at l.cells 1)) in
    let valid : (ltb i l.count && ltb j l.count) ≡ true = ground arith in
    let differ : (i == j) ≡ false = ground arith in
    rw
      (
        valid,
        differ,
        read-ok l.cells 0 one,
        read-ok l.cells 1 two,
        write-ok l.cells 0 (at l.cells 1) one,
        write-ok a 1 (at l.cells 0) two',
      )
      (value (
        refl,
        refl,
        λ c.
            ground (arith, at-set a 1 c (at l.cells 0) two', at-set l.cells 0 c (at l.cells 1) one),
      ))

-- The item `i` is `ptr`, and the old one is returned.
abbrev pub Replaced : Pl → ℕ → ℕ → Pl × ℕ → Type 0
Replaced l ptr i r =
    (r.1 ≡ at (items l) i) × IsValid r.0 × (items r.0 ≡ set (items l) i ptr) × (r.0.freed ≡ l.freed)

-- pl_replace at an index of a valid list returns the item that was there, puts the new one in its
-- place, and keeps the others.
pub replace_lem :
    (l : Pl) (ptr i : ℕ)
    → IsValid l
    → i < l.count
    → Yields (Replaced l ptr i) (replace l ptr (pos i))
unfolding replace
replace_lem l ptr i v h =
    let inside : i < length l.cells = omega (arith, v.block, v.fits) in
    let valid : ltb i l.count ≡ true = ground arith in
    rw (valid, read-ok l.cells i inside, write-ok l.cells i ptr inside)
      (value (
        sym (at-take l.count l.cells i h),
        record {
          block = length-set l.cells i ptr ∙ v.block;
          fits = v.fits;
          grows = v.grows;
          bounded = v.bounded;
        },
        take-set l.count l.cells i ptr,
        refl,
      ))
