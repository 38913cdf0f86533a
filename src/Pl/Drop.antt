-- ===== src/Pl/Drop.antt =====
-- The functions of lists.c that take items out of a list, exchange and replace them.
pub mod Deleting
pub mod Clearing
use rubsd.Prelude.{
  ℕ, zero, suc, ◌+◌, ◌-◌, List, [], ◌∷◌, ◌++◌, Bool, true, false, not, ◌&&◌, length, ltb, ◌==◌,
  if◌then◌else◌,
}
use rubsd.Prelude.Int.{ℤ, pos, negsuc}
use rubsd.Prelude.Run.{Run, ok, fault, ◌>>=◌}
use rubsd.Prelude.Cells.{read, write}
use rubsd.Pl.State.{Pl, lst_esuccess, lst_einvarg}
use rubsd.Pl.Edit.{move_down}

-- `lst->dealloc(ptr)`, where a destructor is set.
abbrev pub destroy : Pl → ℕ → Pl
destroy l ptr = record l { freed = l.freed ++ ptr ∷ [] }

-- pl_delete, with the list and the code that it returns.
unfoldable pub delete : Pl → ℤ → Run (Pl × ℕ)
delete l (negsuc i) = ok (record l { rc = lst_einvarg }, lst_einvarg)
delete l (pos i) =
    if ltb i l.count
    then (do
      ptr ← read l.cells i
      let n : ℕ = l.count - 1
      b ← (if ltb i n then move_down l.cells i (n - i) else ok l.cells)
      let k : Pl = record l { cells = b; count = n; rc = lst_esuccess }
      ok (if not (ptr == 0) && l.dealloc then destroy k ptr else k, lst_esuccess))
    else ok (record l { rc = lst_einvarg }, lst_einvarg)

-- pl_exchange. The cells that it swaps are 0 and 1, whatever the arguments.
unfoldable pub exchange : Pl → ℤ → ℤ → Run (Pl × ℕ)
exchange l (pos i0) (pos i1) =
    if ltb i0 l.count && ltb i1 l.count
    then (do
      b ←
          (if i0 == i1 then ok l.cells else (do
            tmp ← read l.cells 0
            v ← read l.cells 1
            a ← write l.cells 0 v
            write a 1 tmp))
      ok (record l { cells = b; rc = lst_esuccess }, lst_esuccess))
    else ok (record l { rc = lst_einvarg }, lst_einvarg)
exchange l _ _ = ok (record l { rc = lst_einvarg }, lst_einvarg)

-- pl_replace, with the old item, 0 for NULL.
unfoldable pub replace : Pl → ℕ → ℤ → Run (Pl × ℕ)
replace l ptr (negsuc i) = ok (record l { rc = lst_einvarg }, 0)
replace l ptr (pos i) =
    if ltb i l.count
    then (do
      p ← read l.cells i
      b ← write l.cells i ptr
      ok (record l { cells = b; rc = lst_esuccess }, p))
    else ok (record l { rc = lst_einvarg }, 0)

-- `for (i = 0; i < count; ++i) lst->dealloc(lst->ptr[i])`, by the rounds that are left.
unfoldable pub destroy_from : ℕ → ℕ → Pl → Run Pl
destroy_from zero i l = ok l
destroy_from (suc n) i l = do ptr ← read l.cells i; destroy_from n (i + 1) (destroy l ptr)

-- pl_clear
unfoldable pub clear : Pl → Run Pl
clear l = do
  k ← (if l.dealloc then destroy_from l.count 0 l else ok l)
  ok (record k { count = 0; rc = lst_esuccess })

-- The block behind a `struct pl *`: `free` ends its life, and a write to it is then undefined.
pub data Block : Type 0 where
  live : Pl → Block
  released : Block

unfoldable pub set_rc : Block → ℕ → Run Block
set_rc (live l) code = ok (live (record l { rc = code }))
set_rc released code = fault

-- pl_free: clears the list, frees its cells and the structure, and then writes to the structure.
unfoldable pub free : Pl → Run Block
free l = do k ← clear l; let gone : Block = released; set_rc gone lst_esuccess
