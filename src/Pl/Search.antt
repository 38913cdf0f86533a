-- ===== src/Pl/Search.antt =====
-- The functions of lists.c that look an item up. Each returns the list, whose `rc` it sets, the
-- item or 0 for NULL, and the index that it stores, negsuc 0 for -1.
pub mod Linear
pub mod Binary
pub mod Entries
use rubsd.Prelude.{
  ℕ, zero, suc, ◌+◌, ◌-◌, ◌/◌, Bool, true, false, ltb, leb, ◌==◌, if◌then◌else◌, List,
}
use rubsd.Prelude.Int.{ℤ, pos, negsuc}
use rubsd.Prelude.Run.{Run, ok, fault, fault, out_of_fuel, ◌>>=◌}
use rubsd.Prelude.Cells.{read}
use rubsd.Pl.State.{Pl, add_int, lst_esuccess, lst_enotfound}

abbrev pub Found : Type 0
Found = Pl × ℕ × ℤ

abbrev pub found : Pl → ℕ → ℕ → Found
found l item i = (record l { rc = lst_esuccess }, item, pos i)

abbrev pub missing : Pl → Found
missing l = (record l { rc = lst_enotfound }, 0, negsuc 0)

-- The loop of pl_lsearch, by the rounds that are left.
unfoldable pub lsearch_from : ℕ → ℕ → Pl → ℕ → (ℕ → ℕ → Bool) → Run Found
lsearch_from zero i l key compare = ok (missing l)
lsearch_from (suc n) i l key compare = do
  item ← read l.cells i
  elim (compare item key) [
    | true ↦ ok (found l item i)
    | false ↦ lsearch_from n (i + 1) l key compare
  ]

-- pl_lsearch
unfoldable pub lsearch : Pl → ℕ → (ℕ → ℕ → Bool) → Run Found
unfolding lsearch_from
lsearch l key compare = lsearch_from l.count 0 l key compare

-- The loop of pl_bsearch, `hi` for `u + 1`: what is left are the cells from `lo` up to `hi`.
unfoldable pub bsearch_loop : ℕ → Pl → ℕ → (ℕ → ℕ → ℤ) → ℕ → ℕ → Run Found
bsearch_loop zero l key compare lo hi = out_of_fuel
bsearch_loop (suc fuel) l key compare lo hi = do
  s ← add_int lo (hi - 1)
  let m : ℕ = s / 2
  item ← read l.cells m
  elim (compare item key) [
    | negsuc _ ↦ elim (leb m lo) [
      | true ↦ ok (missing l)
      | false ↦ bsearch_loop fuel l key compare lo m
    ]
    | pos (suc _) ↦ elim (leb hi (m + 1)) [
      | true ↦ ok (missing l)
      | false ↦ bsearch_loop fuel l key compare (m + 1) hi
    ]
    | pos zero ↦ ok (found l item m)
  ]

-- pl_bsearch
unfoldable pub bsearch : Pl → ℕ → (ℕ → ℕ → ℤ) → Run Found
bsearch l key compare =
    if l.count == 0 then ok (missing l) else bsearch_loop (l.count + 1) l key compare 0 l.count

-- The loop of pl_fentry, down from cell `i`: the item after the first that does not match.
unfoldable pub first_from : ℕ → Pl → ℕ → (ℕ → ℕ → Bool) → Run Found
first_from zero l key compare = do
  item ← read l.cells 0
  elim (compare item key) [
    | true ↦ ok (found l item 0)
    | false ↦ (do next ← read l.cells 1; ok (found l next 1))
  ]
first_from (suc i) l key compare = do
  item ← read l.cells (suc i)
  elim (compare item key) [
    | true ↦ first_from i l key compare
    | false ↦ (do next ← read l.cells (suc i + 1); ok (found l next (suc i + 1)))
  ]

-- pl_fentry: the first entry of a key.
unfoldable pub fentry : Pl → ℕ → (ℕ → ℕ → ℤ) → (ℕ → ℕ → Bool) → Run Found
fentry l key bcomp lcomp = do
  (k, item, i) ← bsearch l key bcomp
  elim i [ negsuc _ ↦ ok (missing l) | pos n ↦ first_from n l key lcomp ]

-- `return (lst->ptr[--*idx])`
unfoldable pub step_back : Pl → ℕ → Run Found
step_back l zero = fault
step_back l (suc i) = do item ← read l.cells i; ok (found l item i)

-- The loop of pl_lentry, up from cell `i`, by the rounds that are left: the item before the first
-- that does not match, or the last one of the list.
unfoldable pub last_from : ℕ → ℕ → Pl → ℕ → (ℕ → ℕ → Bool) → Run Found
last_from zero i l key compare = step_back l i
last_from (suc n) i l key compare = do
  item ← read l.cells i
  elim (compare item key) [ true ↦ last_from n (i + 1) l key compare | false ↦ step_back l i ]

-- pl_lentry: the last entry of a key.
unfoldable pub lentry : Pl → ℕ → (ℕ → ℕ → ℤ) → (ℕ → ℕ → Bool) → Run Found
lentry l key bcomp lcomp = do
  (k, item, i) ← bsearch l key bcomp
  elim i [ negsuc _ ↦ ok (missing l) | pos n ↦ last_from (l.count - n) n l key lcomp ]

-- The loop of pl_isearch, `hi` for `u + 1`. As `calc` is the caller's, the rounds have no bound.
unfoldable pub isearch_loop : ℕ → Pl → ℕ → (Pl → ℕ → ℕ → ℕ → ℤ) → (ℕ → ℕ → ℤ) → ℕ → ℕ → Run Found
isearch_loop zero l key calc compare lo hi = out_of_fuel
isearch_loop (suc fuel) l key calc compare lo hi = elim (calc l key lo (hi - 1)) [
  | negsuc _ ↦ fault
  | pos m ↦ (do
    item ← read l.cells m
    elim (compare item key) [
      | negsuc zero ↦ elim (leb m lo) [
        | true ↦ ok (missing l)
        | false ↦ isearch_loop fuel l key calc compare lo m
      ]
      | pos (suc zero) ↦ elim (leb hi (m + 1)) [
        | true ↦ ok (missing l)
        | false ↦ isearch_loop fuel l key calc compare (m + 1) hi
      ]
      | _ ↦ ok (found l item m)
    ])
]

-- pl_isearch, for as many rounds as there is fuel.
unfoldable pub isearch : ℕ → Pl → ℕ → (Pl → ℕ → ℕ → ℕ → ℤ) → (ℕ → ℕ → ℤ) → Run Found
isearch fuel l key calc compare =
    if l.count == 0 then ok (missing l) else isearch_loop fuel l key calc compare 0 l.count
