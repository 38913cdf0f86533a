-- ===== src/Da.antt =====
-- src/bee/lib/bee/da.c: arrays that grow and shrink by an item. An item, `size` bytes, is a cell of the
-- block at `*array`, with 0 for one of zero bytes; `given` says that the array and the count are not
-- NULL and the size is not 0. A pointer to an item is its index.
pub mod Inserting
pub mod Order
pub mod Swapping
pub mod Sorting
pub mod Passing
pub mod Ending
pub mod Reversing
mod Tests
use rubsd.Prelude.{
  ℕ, zero, suc, ◌+◌, ◌-◌, Bool, true, false, not, ◌&&◌, List, [], ◌++◌, Option, none, some, ltb,
  leb, ◌==◌, if◌then◌else◌, length, take, drop,
}
use rubsd.Prelude.Int.{ℤ, pos, negsuc}
use rubsd.Prelude.Run.{Run, ok, fault, ◌>>=◌}
use rubsd.Prelude.Cells.{at, read, write}
use rubsd.Pl.State.{Realloc}

pub record Da : Type 0 where
  pub count : ℕ
  pub cells : List ℕ

-- `n` cells from `src` on are copied to those from `dst` on.
unfoldable pub memmove : ℕ → ℕ → ℕ → List ℕ → Run (List ℕ)
memmove dst src n a =
    if leb (dst + n) (length a) && leb (src + n) (length a)
    then ok (take dst a ++ take n (drop src a) ++ drop (dst + n) a)
    else fault

-- da_empty, with `given` for the array and the count.
unfoldable pub empty : Bool → Da → Da × ℤ
empty given l = if given then (record { count = 0; cells = [] }, pos 0) else (l, negsuc 0)

-- The index that da_new takes: -1 stands for the count.
unfoldable pub place : Da → ℤ → Option ℕ
place l (pos i) = if ltb l.count i then none else some i
place l (negsuc zero) = some l.count
place l (negsuc (suc i)) = none

-- The rest of da_new, with the larger block.
unfoldable pub open_gap : Da → List ℕ → ℕ → Run (Da × Option ℕ)
open_gap l block i = do
  moved ← (if i == l.count then ok block else memmove (i + 1) i (l.count - i) block)
  cleared ← write moved i 0
  ok (record { count = l.count + 1; cells = cleared }, some i)

module _ (realloc : Realloc) where
  -- da_new
  unfoldable pub new : Bool → Da → ℤ → Run (Da × Option ℕ)
  new given l ind = if not given then ok (l, none) else elim (place l ind) [
    | none ↦ ok (l, none)
    | some i ↦ elim (realloc l.cells (l.count + 1)) [
      | none ↦ ok (l, none)
      | some block ↦ open_gap l block i
    ]
  ]

  -- What da_ins returns: the number of the item.
  unfoldable pub number_of : Da → ℤ → ℤ
  number_of l (pos i) = pos i
  number_of l (negsuc zero) = pos (l.count - 1)
  number_of l (negsuc (suc i)) = negsuc (suc i)

  -- da_ins
  unfoldable pub ins : Bool → Da → ℤ → Option ℕ → Run (Da × ℤ)
  ins given l ind none = ok (l, negsuc 0)
  ins given l ind (some item) = do
    (k, ptr) ← new given l ind
    elim ptr [
      | none ↦ ok (k, negsuc 0)
      | some i ↦ (do b ← write k.cells i item; ok (record k { cells = b }, number_of k ind))
    ]

-- da_ptr, da_put and da_get
unfoldable pub ptr_to : Bool → Da → ℤ → Option ℕ
ptr_to given l (pos i) = if not given then none else if leb l.count i then none else some i
ptr_to given l (negsuc i) = none

unfoldable pub put_item : Bool → Da → ℤ → Option ℕ → Run (Da × ℤ)
put_item given l ind none = ok (l, negsuc 0)
put_item given l ind (some item) = elim (ptr_to given l ind) [
  | none ↦ ok (l, negsuc 0)
  | some i ↦ (do b ← write l.cells i item; ok (record l { cells = b }, pos 0))
]

unfoldable pub get_item : Bool → Da → ℤ → Option ℕ → Run (Option ℕ × ℤ)
get_item given l ind none = ok (none, negsuc 0)
get_item given l ind (some dst) = elim (ptr_to given l ind) [
  | none ↦ ok (some dst, negsuc 0)
  | some i ↦ (do item ← read l.cells i; ok (some item, pos 0))
]

-- da_rm, with what `dst` holds after it, if it is not NULL. When `realloc` refuses, the items have
-- moved and the count has not.
module _ (realloc : Realloc) where
  unfoldable pub rm : Bool → Da → ℤ → Option ℕ → Run (Da × Option ℕ × ℤ)
  rm given l ind dst = elim (ptr_to given l ind) [
    | none ↦ ok (l, dst, negsuc 0)
    | some i ↦ (do
      item ← read l.cells i
      let copied : Option ℕ = elim dst [ none ↦ none | some old ↦ some item ]
      moved ← (if i == l.count - 1 then ok l.cells else memmove i (i + 1) (l.count - i - 1) l.cells)
      if ltb 1 l.count
          then elim (realloc moved (l.count - 1)) [
            | none ↦ ok (record l { cells = moved }, copied, negsuc 0)
            | some block ↦ ok (record { count = l.count - 1; cells = block }, copied, pos 0)
          ]
          else ok (record { count = l.count - 1; cells = [] }, copied, pos 0))
  ]
