-- ===== src/Pl/Drop/Clearing.antt =====
-- pl_clear and pl_free.
use mathlib.Core.List.{append_assoc, append-nil}
use rubsd.Prelude.{
  ℕ, zero, suc, ◌+◌, ◌≤◌, ◌≡◌, [], ◌∷◌, ◌++◌, arith, length, take, drop, if◌then◌else◌,
}
use rubsd.Prelude.Run.{ok, fault}
use rubsd.Prelude.Cells.{at, read-ok, slice_step}
use rubsd.Pl.State.{Pl, items, IsValid, lst_esuccess}
use rubsd.Pl.Drop.{destroy, destroy_from, clear, set_rc, free}

destroy_from_lem :
    (n i : ℕ) (l : Pl)
    → i + n ≤ length l.cells
    → destroy_from n i l ≡ ok (record l { freed = l.freed ++ take n (drop i l.cells) })
unfolding destroy_from
destroy_from_lem zero i l h = rw (append-nil l.freed)
destroy_from_lem (suc n) i l h = rw (
  read-ok l.cells i (omega arith),
  destroy_from_lem n (i + 1) (destroy l (at l.cells i)) (omega arith),
  slice_step n i l.cells (omega arith),
  append_assoc l.freed (at l.cells i ∷ []) (take n (drop (i + 1) l.cells)),
)

-- pl_clear on a valid list empties it. A destructor that is set gets every item, in order.
pub clear_lem :
    (l : Pl)
    → IsValid l
    → clear l
      ≡ ok (record l {
        count = 0;
        rc = lst_esuccess;
        freed = if l.dealloc then l.freed ++ items l else l.freed;
      })
unfolding clear
clear_lem l v = ground (arith, destroy_from_lem l.count 0 l (omega (arith, v.block, v.fits)))

-- pl_free on a valid list ends in undefined behaviour: it writes `rc` into the structure that it
-- has just given back.
pub free-fault : (l : Pl) → IsValid l → free l ≡ fault
unfolding free set_rc
free-fault l v = rw (clear_lem l v)
