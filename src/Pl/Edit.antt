-- ===== src/Pl/Edit.antt =====
-- The functions of lists.c that change a list.
pub mod Growing
pub mod Adding
pub mod Inserting
pub mod Packing
pub mod Sorted
use rubsd.Prelude.{
  ℕ, zero, suc, ◌+◌, ◌-◌, List, [], ◌∷◌, ◌++◌, Bool, true, false, not, ◌&&◌, ◌||◌, Option, none,
  some, length, take, drop, ltb, leb, ◌==◌, if◌then◌else◌, ◌/◌,
}
use rubsd.Prelude.Int.{ℤ, pos, negsuc}
use rubsd.Prelude.Run.{Run, ok, fault, out_of_fuel, ◌>>=◌, ◌>>◌}
use rubsd.Prelude.Cells.{read, write}
use rubsd.Pl.State.{
  Pl, Realloc, add_int, lst_def_delta, lst_max_delta, lst_esuccess, lst_ememory, lst_einvarg,
}

abbrev pub minus_one : ℤ
minus_one = negsuc 0

-- pl_def_compare, the default order of pointers.
unfoldable pub def_compare : ℕ → ℕ → ℤ
def_compare ptr key = if ltb ptr key then minus_one else if ltb key ptr then pos 1 else pos 0

valid_delta : ℤ → ℕ
valid_delta (pos n) = if n == 0 || ltb lst_max_delta n then lst_def_delta else n
valid_delta (negsuc n) = lst_def_delta

-- pl_init. The first argument says whether there is a structure to fill: the caller's, or the one
-- that `malloc` granted.
unfoldable pub init : Bool → ℤ → Bool → Option Pl
unfolding valid_delta
init granted delta dealloc =
    if granted
    then some (record {
      count = 0;
      size = 0;
      delta = valid_delta delta;
      rc = 0;
      cells = [];
      dealloc = dealloc;
      freed = [];
    })
    else none

-- The cell before cell `i`. There is none before the first.
unfoldable pub read_before : List ℕ → ℕ → Run ℕ
read_before a zero = fault
read_before a (suc i) = read a i

-- `for (i = count; i >= index; --i) ptr[i] = ptr[i - 1]`, by the rounds that are left.
unfoldable pub shift_up : ℕ → ℕ → List ℕ → Run (List ℕ)
shift_up zero i a = ok a
shift_up (suc n) i a = do v ← read_before a i; b ← write a i v; shift_up n (i - 1) b

-- `memmove(&ptr[index], &ptr[index + 1], n * sizeof(void *))`
unfoldable pub move_down : List ℕ → ℕ → ℕ → Run (List ℕ)
move_down a index n =
    if leb (index + 1 + n) (length a)
    then ok (take index a ++ (take n (drop (index + 1) a) ++ drop (index + n) a))
    else fault

-- `lst->rc = code; return (-1)`
abbrev pub refuse : Pl → ℕ → Run (Pl × ℤ)
refuse l code = ok (record l { rc = code }, minus_one)

module _ (realloc : Realloc) where
  -- The block that pl_add and pl_insert share: a full list gets `delta` cells more. The flag is
  -- false when memory is out.
  unfoldable pub grow : Pl → Run (Pl × Bool)
  grow l =
      if l.count == l.size
      then (do
        n ← add_int l.size l.delta
        elim (realloc l.cells n) [
          | none ↦ ok (record l { rc = lst_ememory }, false)
          | some b ↦ ok (record l { cells = b; size = n }, true)
        ])
      else ok (l, true)

  -- What pl_add does with a list that has room.
  unfoldable pub append_item : Pl → ℕ → Run (Pl × ℤ)
  append_item l item = do
    b ← write l.cells l.count item
    n ← add_int l.count 1
    ok (record l { cells = b; count = n; rc = lst_esuccess }, pos (n - 1))

  unfoldable pub add : Pl → ℕ → Run (Pl × ℤ)
  add l item = do (g, grown) ← grow l; if grown then append_item g item else ok (g, minus_one)

  -- What pl_insert does with a list that has room.
  unfoldable pub insert_item : Pl → ℕ → ℕ → Run (Pl × ℤ)
  insert_item l item index = do
    b ← shift_up (l.count + 1 - index) l.count l.cells
    c ← write b index item
    n ← add_int l.count 1
    ok (record l { cells = c; count = n; rc = lst_esuccess }, pos index)

  unfoldable pub insert : Pl → ℕ → ℤ → Run (Pl × ℤ)
  insert l item (negsuc i) = refuse l lst_einvarg
  insert l item (pos i) =
      if ltb l.count i
      then refuse l lst_einvarg
      else (do (g, grown) ← grow l; if grown then insert_item g item i else ok (g, minus_one))

  -- The loop of pl_sinsert, `hi` for `u + 1`. The comparison gets the list, the item and an index.
  unfoldable pub sinsert_loop : ℕ → Pl → ℕ → (Pl → ℕ → ℕ → ℤ) → ℕ → ℕ → Run (Pl × ℤ)
  sinsert_loop zero l item compare lo hi = out_of_fuel
  sinsert_loop (suc fuel) l item compare lo hi = do
    s ← add_int lo (hi - 1)
    let m : ℕ = s / 2
    let give_up : Run (Pl × ℤ) = add (record l { rc = lst_esuccess }) item
    elim (compare l item m) [
      | negsuc zero ↦ elim (leb m lo) [
        | true ↦ give_up
        | false ↦ sinsert_loop fuel l item compare lo m
      ]
      | pos (suc zero) ↦ elim (leb hi (m + 1)) [
        | true ↦ give_up
        | false ↦ sinsert_loop fuel l item compare (m + 1) hi
      ]
      | _ ↦ insert (record l { rc = lst_esuccess }) item (pos m)
    ]

  unfoldable pub sinsert : Pl → ℕ → (Pl → ℕ → ℕ → ℤ) → Run (Pl × ℤ)
  sinsert l item compare =
      if l.count == 0 then add l item else sinsert_loop (l.count + 1) l item compare 0 l.count

  -- pl_pack: gives the cells that are not in use back.
  unfoldable pub pack : Pl → Pl
  pack l =
      if ltb 0 l.count && ltb l.count l.size
      then elim (realloc l.cells l.count) [
        | none ↦ record l { rc = lst_esuccess }
        | some b ↦ record l { cells = b; size = l.count; rc = lst_esuccess }
      ]
      else record l { rc = lst_esuccess }
