-- ===== src/Pl/State.antt =====
-- The list of lists.h, its error codes, and what it asks of `realloc`.
use rubsd.Prelude.{
  ℕ, ◌+◌, ◌≤◌, ◌<◌, ◌≡◌, List, Bool, Option, some, arith, length, take, leb, if◌then◌else◌, ◌^◌,
  ◌-◌,
}
use rubsd.Prelude.Run.{Run, ok, fault}
use rubsd.Prelude.Cells.{at}

-- LST_DEF_DELTA, LST_MAX_DELTA and the error codes.
abbrev pub lst_def_delta : ℕ
lst_def_delta = 1

abbrev pub lst_max_delta : ℕ
lst_max_delta = 2 ^ 18

abbrev pub lst_esuccess : ℕ
lst_esuccess = 0

abbrev pub lst_ememory : ℕ
lst_ememory = 1

abbrev pub lst_einvarg : ℕ
lst_einvarg = 2

abbrev pub lst_enotfound : ℕ
lst_enotfound = 3

abbrev pub int_max : ℕ
int_max = 2 ^ 31 - 1

-- A sum of two `int`s that are not negative; an overflow is undefined.
unfoldable pub add_int : ℕ → ℕ → Run ℕ
add_int a b = if leb (a + b) int_max then ok (a + b) else fault

pub add_int-ok : (a b : ℕ) → a + b ≤ int_max → add_int a b ≡ ok (a + b)
unfolding add_int
add_int-ok a b h = ground arith

-- `struct pl`. A pointer is a number, 0 the null pointer. `cells` is the block behind `ptr`, of
-- `size` cells; `dealloc` says whether a destructor is set, and `freed` lists the pointers that it
-- was called with, oldest first.
pub record Pl : Type 0 where
  pub count : ℕ
  pub size : ℕ
  pub delta : ℕ
  pub rc : ℕ
  pub cells : List ℕ
  pub dealloc : Bool
  pub freed : List ℕ

-- The items of the list: the cells in use.
abbrev pub items : Pl → List ℕ
items l = take l.count l.cells

pub record IsValid (l : Pl) : Type 0 where
  pub block : length l.cells ≡ l.size
  pub fits : l.count ≤ l.size
  pub grows : 0 < l.delta
  pub bounded : l.size ≤ int_max

-- `realloc` of the C library, on a block of pointers: the new block, or `none` when memory is out.
abbrev pub Realloc : Type 0
Realloc = List ℕ → ℕ → Option (List ℕ)

-- What its manual promises: the block has the size asked for, and the cells that both blocks have
-- are kept.
pub record IsRealloc (realloc : Realloc) : Type 0 where
  pub length_of : (a : List ℕ) (n : ℕ) (b : List ℕ) → realloc a n ≡ some b → length b ≡ n
  pub kept :
      (a : List ℕ) (n : ℕ) (b : List ℕ)
      → realloc a n ≡ some b
      → (i : ℕ) → i < n
      → i < length a
      → at b i ≡ at a i
